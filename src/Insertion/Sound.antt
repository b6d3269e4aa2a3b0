-- ===== src/Insertion/Sound.antt =====
-- The invariant of the tree in the store, and what a search in it finds.
use bicycletub.Common.{
  ℕ, zero, suc, ◌+◌, ◌<◌, ◌≤◌, ◌≡◌, sym, ap, ◌∙◌, arith, Bool, true, ◌&&◌, ltb, leb, Option, none,
}
use bicycletub.Tree.{
  Page, leaf_page, internal_page, LeafPage, InternalPage, IntegerKey, Rid, get_value,
}
use bicycletub.Tree.Search.{order, IsSorted}
use bicycletub.Tree.Leaf.{IsLeaf}
use bicycletub.Tree.Lookup.{low, high}
use bicycletub.Parent.Route.{route, route-Routes}
use bicycletub.Insertion.{BPlusTree}

-- A page's place in the tree: the height of the tree below it, and the bounds of its keys. No two
-- pages of a tree have the same place, so that a page is in the tree once.
pub record Place : Type 0 where
  pub height : ℕ
  pub lo : ℕ
  pub hi : ℕ

-- Every page's place, and a bound on the children of a page.
pub record Places : Type 0 where
  pub spot : ℕ → Place
  pub cap : ℕ

abbrev pub place : ℕ → ℕ → ℕ → Place
place height lo hi = record { height = height; lo = lo; hi = hi }

-- The place belongs to the tree of that height and those bounds.
abbrev pub within : Place → ℕ → ℕ → ℕ → Bool
within x height lo hi = leb x.height height && (leb lo x.lo && (leb x.hi hi && ltb x.lo x.hi))

-- The page `id` is a leaf with its keys in their bounds, not over its maximum.
pub record LeafAt (t : BPlusTree) (places : Places) (lo hi id : ℕ) (p : LeafPage) : Type 0 where
  pub page : t.pages_ id ≡ leaf_page p
  pub given : id < t.next_page_id_
  pub here : places.spot id ≡ place 0 lo hi
  pub rising : IsLeaf p
  pub above : (i : ℕ) → i < p.size_ → lo ≤ order (p.key_array_ i)
  pub below : (i : ℕ) → i < p.size_ → order (p.key_array_ i) < hi
  pub fits : p.size_ ≤ p.max_size_
  pub max : p.max_size_ ≡ t.leaf_max_size_

-- The page `id` is an internal page of that height, likewise.
pub record BranchAt (t : BPlusTree) (places : Places) (height lo hi id : ℕ) (p : InternalPage)
    : Type 0 where
  pub page : t.pages_ id ≡ internal_page p
  pub given : id < t.next_page_id_
  pub here : places.spot id ≡ place height lo hi
  pub used : 0 < p.size_
  pub rising : IsSorted p.key_array_ 1 p.size_
  pub above : (i : ℕ) → 0 < i → i < p.size_ → lo < order (p.key_array_ i)
  pub below : (i : ℕ) → 0 < i → i < p.size_ → order (p.key_array_ i) < hi
  pub fits : p.size_ ≤ places.cap
  pub max : p.max_size_ ≡ t.internal_max_size_

-- The page is the root of a tree of that height.
abbrev pub Sound : BPlusTree → Places → ℕ → ℕ → ℕ → ℕ → Type 0
Sound t places zero lo hi id = (p : LeafPage) × LeafAt t places lo hi id p
Sound t places (suc height) lo hi id =
    (p : InternalPage) × BranchAt t places (suc height) lo hi id p
    × ((i : ℕ)
        → i < p.size_
        → Sound t places height (low p lo i) (high p hi i) (p.page_id_array_ i))

-- What a search from the page finds under a key.
abbrev pub find_in_leaf : Page → IntegerKey → Option Rid
find_in_leaf (leaf_page p) key = get_value p key
find_in_leaf (internal_page p) key = none

abbrev pub next_child : Page → IntegerKey → ℕ
next_child (internal_page p) key = p.page_id_array_ (route p key)
next_child (leaf_page p) key = 0

abbrev pub find : BPlusTree → ℕ → ℕ → IntegerKey → Option Rid
find t zero id key = find_in_leaf (t.pages_ id) key
find t (suc height) id key = find t height (next_child (t.pages_ id) key) key

-- Two stores agree on the pages of a tree.
pub record Agree (t t' : BPlusTree) (places places' : Places) (height lo hi : ℕ) : Type 0 where
  pub pages :
      (q : ℕ)
      → q < t.next_page_id_
      → within (places.spot q) height lo hi ≡ true
      → t'.pages_ q ≡ t.pages_ q
  pub same :
      (q : ℕ)
      → q < t.next_page_id_
      → within (places.spot q) height lo hi ≡ true
      → places'.spot q ≡ places.spot q
  pub more : t.next_page_id_ ≤ t'.next_page_id_
  pub cap : places.cap ≤ places'.cap
  pub leaf_max : t'.leaf_max_size_ ≡ t.leaf_max_size_
  pub internal_max : t'.internal_max_size_ ≡ t.internal_max_size_

module _ (t t' : BPlusTree) (places places' : Places) where
  pub Agree-smaller :
      (height lo hi height' lo' hi' : ℕ)
      → height' ≤ height
      → lo ≤ lo'
      → hi' ≤ hi
      → Agree t t' places places' height lo hi
      → Agree t t' places places' height' lo' hi'
  Agree-smaller height lo hi height' lo' hi' b c d a = record {
    pages = λ q g w. a.pages q g (ground arith);
    same = λ q g w. a.same q g (ground arith);
    more = a.more;
    cap = a.cap;
    leaf_max = a.leaf_max;
    internal_max = a.internal_max;
  }

  LeafAt-Agree :
      (lo hi id : ℕ) (p : LeafPage)
      → lo < hi
      → Agree t t' places places' 0 lo hi
      → LeafAt t places lo hi id p
      → LeafAt t' places' lo hi id p
  LeafAt-Agree lo hi id p h a v =
      let own : within (places.spot id) 0 lo hi ≡ true = ground (arith, v.here) in
      record {
        page = a.pages id v.given own ∙ v.page;
        given = omega (arith, v.given, a.more);
        here = a.same id v.given own ∙ v.here;
        rising = v.rising;
        above = v.above;
        below = v.below;
        fits = v.fits;
        max = v.max ∙ sym a.leaf_max;
      }

  BranchAt-Agree :
      (height lo hi id : ℕ) (p : InternalPage)
      → lo < hi
      → Agree t t' places places' height lo hi
      → BranchAt t places height lo hi id p
      → BranchAt t' places' height lo hi id p
  BranchAt-Agree height lo hi id p h a v =
      let own : within (places.spot id) height lo hi ≡ true = ground (arith, v.here) in
      record {
        page = a.pages id v.given own ∙ v.page;
        given = omega (arith, v.given, a.more);
        here = a.same id v.given own ∙ v.here;
        used = v.used;
        rising = v.rising;
        above = v.above;
        below = v.below;
        fits = omega (arith, v.fits, a.cap);
        max = v.max ∙ sym a.internal_max;
      }

-- The bounds of a child lie in those of the page, and those of two children apart.
module _ (t : BPlusTree) (places : Places) (height lo hi id : ℕ) (p : InternalPage)
    (v : BranchAt t places height lo hi id p) (h : lo < hi) where
  pub child_bounds :
      (i : ℕ) → i < p.size_ → (lo ≤ low p lo i) × (high p hi i ≤ hi) × (low p lo i < high p hi i)
  child_bounds i a = (
    ground (arith, v.above i),
    ground (arith, v.below (i + 1)),
    ground (arith, v.above i, v.above (i + 1), v.below i, v.rising i (i + 1)),
  )

  pub child_order : (i j : ℕ) → i < j → j < p.size_ → high p hi i ≤ low p lo j
  child_order i j a b = ground (arith, v.rising (i + 1) j)

  -- A key in the page's bounds is in those of the child that it is sent to.
  pub route_bounds :
      (key : IntegerKey)
      → lo ≤ order key
      → order key < hi
      → (low p lo (route p key) ≤ order key)
        × (order key < high p hi (route p key))
        × (route p key < p.size_)
  route_bounds key a b =
      let i = route p key in
      let r = route-Routes p v.rising v.used key in
      (ground (arith, r.1 i), ground (arith, r.2 (i + 1)), r.0)

module _ (t t' : BPlusTree) (places places' : Places) where
  -- A tree on whose pages the stores agree is sound in both, and finds the same.
  pub Sound-Agree :
      (height lo hi id : ℕ)
      → lo < hi
      → Agree t t' places places' height lo hi
      → Sound t places height lo hi id
      → Sound t' places' height lo hi id
  Sound-Agree zero lo hi id h a (p, v) = (p, LeafAt-Agree t t' places places' lo hi id p h a v)
  Sound-Agree (suc height) lo hi id h a (p, v, kids) = (
    p,
    BranchAt-Agree t t' places places' (suc height) lo hi id p h a v,
    λ i c.
        let b = child_bounds t places (suc height) lo hi id p v h i c in
        Sound-Agree height _ _ (p.page_id_array_ i) b.2
          (Agree-smaller t t' places places' (suc height) lo hi height _ _ (omega arith) b.0 b.1 a)
          (kids i c),
  )

  pub find-Agree :
      (height lo hi id : ℕ)
      → lo < hi
      → Agree t t' places places' height lo hi
      → Sound t places height lo hi id
      → (key : IntegerKey) → lo ≤ order key
      → order key < hi
      → find t' height id key ≡ find t height id key
  find-Agree zero lo hi id h a (p, v) key c d =
      ap (λ x. find_in_leaf x key) (a.pages id v.given (ground (arith, v.here)))
  find-Agree (suc height) lo hi id h a (p, v, kids) key c d =
      let i = route p key in
      let (e, f, g) = route_bounds t places (suc height) lo hi id p v h key c d in
      let b = child_bounds t places (suc height) lo hi id p v h i g in
      let below =
        find-Agree height _ _ (p.page_id_array_ i) b.2
          (Agree-smaller t t' places places' (suc height) lo hi height _ _ (omega arith) b.0 b.1 a)
          (kids i g) key e f in
      let same = a.pages id v.given (ground (arith, v.here)) in rw (same, v.page) below
