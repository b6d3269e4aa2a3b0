-- ===== src/Iterator/Ends.antt =====
-- The iterators of `Begin()` and `End()` on a sound tree.
use bicycletub.Common.{
  ℕ, zero, suc, ◌+◌, ◌-◌, ◌%◌, ◌<◌, ◌≤◌, ◌≡◌, refl, sym, ap, ◌∙◌, subst, arith, true, Bool-cases,
  ltb, if◌then◌else◌, Option, none, some, inl, inr, half32, word32, minus_one, Result, ok, ◌>>=◌,
}
use bicycletub.Tree.{LeafPage, InternalPage, IntegerKey, Rid, get_value}
use bicycletub.Tree.Search.{order}
use bicycletub.Tree.Leaf.{get_value-Stores}
use bicycletub.Tree.Internal.{Routes, value_at-ok}
use bicycletub.Tree.Lookup.{low, high}
use bicycletub.Parent.Route.{route, route-Routes, Routes-unique}
use bicycletub.Insertion.{BPlusTree, Casts, open_page}
use bicycletub.Insertion.Sound.{Places, LeafAt, BranchAt, Sound, find, child_bounds}
use bicycletub.Insertion.Change.{open_page_lem}
use bicycletub.Insertion.Contents.{Rooted, contents, has_root}
use bicycletub.Iterator.{IndexIterator, is_end, dereference, first_leaf_id, begin, last_leaf, end}
use bicycletub.Iterator.Traversal.{at, dereference-here}

-- The leaf of a subtree with the keys in its range.
pub record EdgeLeaf (t : BPlusTree) (places : Places) (height id lo hi : ℕ) : Type 0 where
  pub leaf_id : ℕ
  pub leaf : LeafPage
  pub there : LeafAt t places lo hi leaf_id leaf
  pub same : (q : IntegerKey) → lo ≤ order q → order q < hi → find t height id q ≡ get_value leaf q

module _ (t : BPlusTree) (places : Places) (small : t.next_page_id_ < half32)
    (cap_small : places.cap < half32) where
  -- A key in the range of a child is sent to the child.
  pub kid_route :
      (height lo hi id : ℕ) (p : InternalPage) (v : BranchAt t places (suc height) lo hi id p)
      (i : ℕ)
      → i < p.size_
      → (q : IntegerKey) → low p lo i ≤ order q
      → order q < high p hi i
      → find t (suc height) id q ≡ find t height (p.page_id_array_ i) q
  kid_route height lo hi id p v i a q b c =
      let r : Routes p q i =
        (a, λ j d e. ground (arith, v.rising j i), λ j d e. ground (arith, v.rising (i + 1) j)) in
      rw (v.page, Routes-unique p q (route p q) i (route-Routes p v.rising v.used q) r) refl

  abbrev FirstEdge : ℕ → ℕ → ℕ → ℕ → ℕ → Type 0
  FirstEdge height fuel lo hi id =
      (hi' : ℕ) × (hi' ≤ hi)
      × (e : EdgeLeaf t places height id lo hi') × (first_leaf_id (open_page t) fuel id
          ≡ ok e.leaf_id)

  first_leaf_id-EdgeLeaf :
      (height fuel lo hi id : ℕ)
      → Sound t places height lo hi id
      → lo < hi
      → height < fuel
      → FirstEdge height fuel lo hi id
  unfolding first_leaf_id
  first_leaf_id-EdgeLeaf height zero lo hi id tree a h = absurd (omega arith)
  first_leaf_id-EdgeLeaf zero (suc fuel) lo hi id (p, v) a h = (
    hi,
    omega arith,
    record { leaf_id = id; leaf = p; there = v; same = λ q b c. rw v.page refl },
    rw (open_page_lem t id v.given small, v.page) refl,
  )
  first_leaf_id-EdgeLeaf (suc height) (suc fuel) lo hi id (p, v, kids) a h =
      let b = child_bounds t places (suc height) lo hi id p v a 0 v.used in
      let few : p.size_ < half32 = omega (arith, v.fits, cap_small) in
      let (hi', c, e, f) =
        first_leaf_id-EdgeLeaf height fuel _ _ (p.page_id_array_ 0) (kids 0 v.used) b.2
          (omega (arith, h)) in
      (
        hi',
        omega (arith, c, b.1),
        record {
          leaf_id = e.leaf_id;
          leaf = e.leaf;
          there = e.there;
          same = λ q x y.
              kid_route height lo hi id p v 0 v.used q x (omega (arith, y, c)) ∙ e.same q x y;
        },
        rw (open_page_lem t id v.given small, v.page, value_at-ok p 0 v.used few) f,
      )

  abbrev LastEdge : ℕ → ℕ → ℕ → ℕ → ℕ → Type 0
  LastEdge height fuel lo hi id =
      (lo' : ℕ) × (lo ≤ lo')
      × (e : EdgeLeaf t places height id lo' hi) × (last_leaf (open_page t) fuel id
          ≡ ok (e.leaf_id, e.leaf))

  last_leaf-EdgeLeaf :
      (height fuel lo hi id : ℕ)
      → Sound t places height lo hi id
      → lo < hi
      → height < fuel
      → LastEdge height fuel lo hi id
  unfolding last_leaf
  last_leaf-EdgeLeaf height zero lo hi id tree a h = absurd (omega arith)
  last_leaf-EdgeLeaf zero (suc fuel) lo hi id (p, v) a h = (
    lo,
    omega arith,
    record { leaf_id = id; leaf = p; there = v; same = λ q b c. rw v.page refl },
    rw (open_page_lem t id v.given small, v.page) refl,
  )
  last_leaf-EdgeLeaf (suc height) (suc fuel) lo hi id (p, v, kids) a h =
      let few : p.size_ < half32 = omega (arith, v.fits, cap_small) in
      let n = p.size_ - 1 in
      let inside : n < p.size_ = omega (arith, v.used) in
      let b = child_bounds t places (suc height) lo hi id p v a n inside in
      let top : high p hi n ≡ hi = ground (arith, v.used) in
      let index : (p.size_ + minus_one) % word32 ≡ n = omega (arith, few, v.used) in
      let (lo', c, e, f) =
        subst (λ x. LastEdge height fuel (low p lo n) x (p.page_id_array_ n)) top
          (last_leaf-EdgeLeaf height fuel _ _ (p.page_id_array_ n) (kids n inside) b.2
            (omega (arith, h))) in
      (
        lo',
        omega (arith, c, b.0),
        record {
          leaf_id = e.leaf_id;
          leaf = e.leaf;
          there = e.there;
          same = λ q x y.
              kid_route height lo hi id p v n inside q (omega (arith, x, c)) (omega (arith, y, top))
              ∙ e.same q x y;
        },
        rw (open_page_lem t id v.given small, v.page, index, value_at-ok p n inside few) f,
      )

-- What the iterators read of a page id: the page as a leaf.
abbrev pub leaf_at : Casts → BPlusTree → ℕ → Result LeafPage
leaf_at c t id = open_page t id >>= λ page. ok (c.as_leaf page)

module _ (c : Casts) (t : BPlusTree) (height cap fuel : ℕ) (r : Rooted t height cap)
    (small : t.next_page_id_ < half32) (cap_small : cap < half32)
    (leaf_small : t.leaf_max_size_ < half32) (enough : height < fuel) where
  leaf_at-LeafAt :
      (lo hi id : ℕ) (p : LeafPage) → LeafAt t r.places lo hi id p → leaf_at c t id ≡ ok p
  leaf_at-LeafAt lo hi id p v =
      rw (open_page_lem t id v.given small, v.page, c.as_leaf-leaf_page p) refl

  found_there :
      (q : IntegerKey) (o : Option Rid)
      → contents t height q ≡ o
      → find t height t.root_page_id_ q ≡ o
  found_there q o e =
      sym (
        ap (λ b. if b then none else find t height t.root_page_id_ q)
          (has_root t height cap small r))
      ∙ e

  has_entry :
      (lo hi : ℕ) (e : EdgeLeaf t r.places height t.root_page_id_ lo hi) (i : ℕ)
      → i < e.leaf.size_
      → contents t height (e.leaf.key_array_ i) ≡ some (e.leaf.rid_array_ i)
  has_entry lo hi e i a = rw (has_root t height cap small r) (
      e.same (e.leaf.key_array_ i) (e.there.above i a) (e.there.below i a)
      ∙ (get_value-Stores e.leaf e.there.rising (e.leaf.key_array_ i) (e.leaf.rid_array_ i)).1
          (i, a, refl, refl))

  -- A key of the map in the range of an edge leaf is on the leaf.
  on_leaf :
      (lo hi : ℕ) (e : EdgeLeaf t r.places height t.root_page_id_ lo hi) (q : IntegerKey) (w : Rid)
      → contents t height q ≡ some w
      → lo ≤ order q
      → order q < hi
      → (i : ℕ) × (i < e.leaf.size_) × (order (e.leaf.key_array_ i) ≡ order q)
  on_leaf lo hi e q w f a b =
      let (i, x, y, z) =
        (get_value-Stores e.leaf e.there.rising q w).0
          (sym (e.same q a b) ∙ found_there q (some w) f) in
      (i, x, y)

  -- Begin() on a sound tree with a root, page ids and maxima below 2 ^ 31 and more fuel
  -- than the height: it returns a position on a leaf. If that leaf has a key, `*it` gives an entry
  -- that the map of the tree has, and no key of the map is below its key.
  pub begin-least :
      (x : IndexIterator) × (begin (open_page t) fuel t.root_page_id_ ≡ ok x)
      × (p : LeafPage) × (leaf_at c t x.page_id_ ≡ ok p)
      × (0 < p.size_
          → (dereference (leaf_at c t) x ≡ ok (p.key_array_ 0, p.rid_array_ 0))
            × (contents t height (p.key_array_ 0) ≡ some (p.rid_array_ 0))
            × ((q : IntegerKey) (w : Rid)
                → contents t height q ≡ some w
                → order (p.key_array_ 0) ≤ order q))
  unfolding begin
  begin-least =
      let (hi', b, e, f) =
        first_leaf_id-EdgeLeaf t r.places small (omega (arith, r.within_cap)) height fuel 0 word32
          t.root_page_id_ r.sound (omega arith) enough in
      let p = e.leaf in
      let here = leaf_at-LeafAt 0 hi' e.leaf_id p e.there in
      (
        at (leaf_at c t) e.leaf_id 0,
        rw (has_root t height cap small r, f) refl,
        p,
        here,
        λ used. (
          dereference-here (leaf_at c t) e.leaf_id 0 p here
              (omega (arith, e.there.fits, e.there.max)) used,
          has_entry 0 hi' e 0 used,
          λ q w found. elim (Bool-cases (ltb (order q) hi')) [
            | inl g ↦
                let (i, x, y) = on_leaf 0 hi' e q w found (omega arith) (ground arith) in
                ground (arith, e.there.rising 0 i)
            | inr g ↦ ground (arith, e.there.below 0 used)
          ],
        ),
      )

  -- End() on such a tree: it returns the position behind the last entry of a leaf. It is at the end if no leaf
  -- follows that leaf, and no key of the map is above the leaf's last key, if it has one, whose
  -- entry the map has.
  pub end-greatest :
      (x : IndexIterator) × (end (open_page t) fuel t.root_page_id_ ≡ ok x)
      × (p : LeafPage) × (leaf_at c t x.page_id_ ≡ ok p)
      × (x.index_ ≡ p.size_)
      × (p.next_page_id_ ≡ minus_one → is_end (leaf_at c t) x ≡ ok true)
      × ((i : ℕ)
          → i + 1 ≡ p.size_
          → (contents t height (p.key_array_ i) ≡ some (p.rid_array_ i))
            × ((q : IntegerKey) (w : Rid)
                → contents t height q ≡ some w
                → order q ≤ order (p.key_array_ i)))
  unfolding end is_end
  end-greatest =
      let (lo', b, e, f) =
        last_leaf-EdgeLeaf t r.places small (omega (arith, r.within_cap)) height fuel 0 word32
          t.root_page_id_ r.sound (omega arith) enough in
      let p = e.leaf in
      let here = leaf_at-LeafAt lo' word32 e.leaf_id p e.there in
      (
        at (leaf_at c t) e.leaf_id p.size_,
        rw (has_root t height cap small r, f) refl,
        p,
        here,
        refl,
        λ last. simp (here, last) (ground arith),
        λ i top. (
          has_entry lo' word32 e i (omega arith),
          λ q w found. elim (Bool-cases (ltb (order q) lo')) [
            | inl g ↦ ground (arith, e.there.above i)
            | inr g ↦
                let (j, x, y) = on_leaf lo' word32 e q w found (ground arith) (omega arith) in
                ground (arith, e.there.rising j i)
          ],
        ),
      )
