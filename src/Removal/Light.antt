-- ===== src/Removal/Light.antt =====
-- Remove of a key that is not there, and of one whose leaf has more keys than its minimum.
use bicycletub.Common.{
  ℕ, ◌+◌, ◌<◌, ◌≡◌, refl, sym, ap, ◌∙◌, subst, arith, true, false, ◌&&◌, ltb, leb, ◌==◌,
  if◌then◌else◌, Option, none, some, Bool-cases, inl, inr, half32, word32, minus_one, Result, ok,
  [],
}
use bicycletub.Tree.{
  leaf_page, LeafPage, IntegerKey, Rid, get_value, is_at, leaf_key_index, min_size, find_leaf_page,
}
use bicycletub.Tree.Search.{order}
use bicycletub.Tree.Leaf.{IsLeaf, leaf_key_index-Place, get_value-Place, is_at-order}
use bicycletub.Insertion.{BPlusTree, Casts, open_page, store}
use bicycletub.Insertion.Sound.{Places, LeafAt}
use bicycletub.Insertion.Contents.{Rooted, Valid, contents, has_root}
use bicycletub.Removal.{erase_at}
use bicycletub.Removal.Leaves.{Erased, erase_at-Erased, erase_at-IsLeaf, erase_at-get_value, stands}
use bicycletub.Removal.Climb.{remove_locked, remove}
use bicycletub.Removal.Edit.{Fits, LeafFor, find_and_lock-LeafFor}

is_at-get_value :
    (p : LeafPage)
    → IsLeaf p
    → (key : IntegerKey) (o : Option Rid) → get_value p key ≡ o
    → is_at p (leaf_key_index p key) key ≡ (elim o [ none ↦ false | some w ↦ true ])
is_at-get_value p sorted key none e = ground (
  arith,
  e,
  get_value-Place p sorted key (leaf_key_index p key) (leaf_key_index-Place p sorted key),
  is_at-order p (leaf_key_index p key) key,
)
is_at-get_value p sorted key (some w) e = ground (
  arith,
  e,
  get_value-Place p sorted key (leaf_key_index p key) (leaf_key_index-Place p sorted key),
  is_at-order p (leaf_key_index p key) key,
)

module _ (t : BPlusTree) (places : Places) (lo hi id : ℕ) (p : LeafPage)
    (v : LeafAt t places lo hi id p) (key : IntegerKey)
    (there : is_at p (leaf_key_index p key) key ≡ true) where
  erase_at-Fits : Fits p lo hi (erase_at p (leaf_key_index p key))
  erase_at-Fits =
      let e = erase_at-Erased p (leaf_key_index p key) (stands p v.rising key there).0 in
      record {
        rising = erase_at-IsLeaf p v.rising key there;
        above = λ i a. ground (arith, e.size, e.keys i a, v.above i, v.above (i + 1));
        below = λ i a. ground (arith, e.size, e.keys i a, v.below i, v.below (i + 1));
        fits = omega (arith, e.size, e.max, v.fits);
        max = e.max;
      }

abbrev leaf_of : LeafPage → Result LeafPage → LeafPage
leaf_of p (ok q) = q
leaf_of p _ = p

module _ (c : Casts) (t : BPlusTree) (height cap fuel : ℕ) (key : IntegerKey)
    (small : t.next_page_id_ < half32) (cap_small : cap < half32) (enough : height < fuel) where
  module _ (r : Rooted t height cap) where
    e : LeafFor t r.places height 0 word32 t.root_page_id_ key
    e =
        find_and_lock-LeafFor t r.places key small (omega (arith, r.within_cap)) height 0 word32
          t.root_page_id_ r.sound (omega arith) (omega arith)

    root : (t.root_page_id_ == minus_one) ≡ false
    root = has_root t height cap small r

    on_leaf : contents t height key ≡ get_value e.leaf key
    on_leaf = rw root (e.same key e.inner.2 e.inner.3)

    leaf_there :
        (o : Option Rid)
        → contents t height key ≡ o
        → is_at e.leaf (leaf_key_index e.leaf key) key ≡ (elim o [ none ↦ false | some w ↦ true ])
    leaf_there o f = is_at-get_value e.leaf e.there.rising key o (sym on_leaf ∙ f)

    reads : c.as_leaf (t.pages_ e.leaf_id) ≡ e.leaf
    reads = rw e.there.page (c.as_leaf-leaf_page e.leaf)

    remove_rooted_absent : contents t height key ≡ none → remove c fuel t key ≡ ok t
    unfolding remove remove_locked
    remove_rooted_absent none_there =
        let (held, l) = e.locked fuel [] enough in
        let absent : is_at e.leaf (leaf_key_index e.leaf key) key ≡ false =
          leaf_there none none_there in
        rw (root, l, reads, absent) refl

    module _ (w : Rid) (some_there : contents t height key ≡ some w)
        (heavy : min_size e.leaf.max_size_ < e.leaf.size_) where
      there : is_at e.leaf (leaf_key_index e.leaf key) key ≡ true
      there = leaf_there (some w) some_there

      lighter : LeafPage
      lighter = erase_at e.leaf (leaf_key_index e.leaf key)

      lighter-Fits : Fits e.leaf e.leaf_lo e.leaf_hi lighter
      unfolding lighter
      lighter-Fits = erase_at-Fits t r.places e.leaf_lo e.leaf_hi e.leaf_id e.leaf e.there key there

      lighter-Erased : Erased e.leaf (leaf_key_index e.leaf key) lighter
      unfolding lighter
      lighter-Erased =
          erase_at-Erased e.leaf (leaf_key_index e.leaf key)
            (stands e.leaf e.there.rising key there).0

      abbrev t' : BPlusTree
      t' = store t e.leaf_id (leaf_page lighter)

      remove_lighter : remove c fuel t key ≡ ok t'
      unfolding remove remove_locked lighter
      remove_lighter =
          let (held, l) = e.locked fuel [] enough in
          let enough_left : leb (min_size lighter.max_size_) lighter.size_ ≡ true =
            ground (arith, lighter-Erased.size, lighter-Erased.max, heavy) in
          rw (root, l, reads, there, enough_left) refl

      lighter_contents :
          (q : IntegerKey)
          → contents t' height q ≡ (if order key == order q then none else contents t height q)
      unfolding lighter
      lighter_contents q = rw root (
          e.finds lighter lighter-Fits q (omega arith) (omega arith)
          ∙ (elim (Bool-cases (leb e.leaf_lo (order q) && ltb (order q) e.leaf_hi)) [
            | inr x ↦ rw x (ground (arith, x, e.inner))
            | inl x ↦ rw x (
                erase_at-get_value e.leaf e.there.rising key there q
                ∙ ap (λ o. if order key == order q then none else o)
                    (sym (e.same q (ground (arith, x)) (ground (arith, x)))))
          ]))

  -- Remove on a valid tree, empty or not, with page ids and the bound on the children of its internal pages below
  -- 2 ^ 31 and more fuel than the height: for a key that the map of the tree does not have, it returns with the tree as it was.
  pub remove_absent : Valid t height cap → contents t height key ≡ none → remove c fuel t key ≡ ok t
  unfolding remove
  remove_absent (inl no_root) none_there = rw (ground_root no_root) refl
    where
      ground_root : t.root_page_id_ ≡ minus_one → (t.root_page_id_ == minus_one) ≡ true
      ground_root f = ground (arith, f)
  remove_absent (inr r) none_there = remove_rooted_absent r none_there

  -- Remove on a sound tree with a root, page ids and the bound on the children of its internal pages below 2 ^ 31 and more
  -- fuel than the height,
  -- of a key that the map of the tree has, when the leaf that FindLeafPage reaches for it has more keys than
  -- its minimum: it returns with a sound tree of that height and bound, whose map has nothing under the keys
  -- of the key's order and is the same elsewhere.
  pub remove_light :
      (r : Rooted t height cap) (w : Rid) (p : LeafPage)
      → contents t height key ≡ some w
      → find_leaf_page (open_page t) key fuel t.root_page_id_ ≡ ok p
      → min_size p.max_size_ < p.size_
      → (t' : BPlusTree) × (remove c fuel t key ≡ ok t')
        × Rooted t' height cap
        × ((q : IntegerKey)
            → contents t' height q ≡ (if order key == order q then none else contents t height q))
  remove_light r w p some_there found heavy =
      let same : p ≡ (e r).leaf = ap (leaf_of p) (sym found ∙ (e r).reached fuel enough) in
      let heavy' : min_size (e r).leaf.max_size_ < (e r).leaf.size_ =
        subst (λ x. min_size x.max_size_ < x.size_) same heavy in
      (
        t' r w some_there heavy',
        remove_lighter r w some_there heavy',
        record {
          places = r.places;
          within_cap = r.within_cap;
          sound = (e r).sound (lighter r w some_there heavy') (lighter-Fits r w some_there heavy');
        },
        lighter_contents r w some_there heavy',
      )
