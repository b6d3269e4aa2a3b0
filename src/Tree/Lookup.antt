-- ===== src/Tree/Lookup.antt =====
-- FindLeafPage and GetValue on a whole tree.
use bicycletub.Common.{
  ℕ, zero, suc, ◌+◌, ◌<◌, ◌≤◌, ◌≡◌, ◌≢◌, refl, arith, ◌==◌, ltb, if◌then◌else◌, Result, ok, half32,
  word32, minus_one, Option, some, ◌↔◌, Bool-cases, inl, inr, ==_iff, subst, ap, sym, ◌∙◌,
}
use bicycletub.Tree.{
  Page, leaf_page, internal_page, LeafPage, InternalPage, IntegerKey, Rid, get_value,
  find_leaf_page, tree_get_value,
}
use bicycletub.Tree.Search.{order, IsSorted}
use bicycletub.Tree.Leaf.{IsLeaf, Stores, get_value-Stores}
use bicycletub.Tree.Internal.{child_index-Routes, value_at-ok}

-- The bounds of the keys below the child at `i`.
abbrev pub low : InternalPage → ℕ → ℕ → ℕ
low p lo i = if i == 0 then lo else order (p.key_array_ i)

abbrev pub high : InternalPage → ℕ → ℕ → ℕ
high p hi i = if ltb (i + 1) p.size_ then order (p.key_array_ (i + 1)) else hi

abbrev leaf_of : LeafPage → Result Page → LeafPage
leaf_of p (ok (leaf_page q)) = q
leaf_of p _ = p

abbrev internal_of : InternalPage → Result Page → InternalPage
internal_of p (ok (internal_page q)) = q
internal_of p _ = p

module _ (read : ℕ → Result Page) where
  -- The page is the root of a search tree of that height, with all its keys from `lo` to below `hi`.
  abbrev pub IsTree : ℕ → ℕ → ℕ → ℕ → Type 0
  IsTree zero lo hi id =
      (p : LeafPage) × (read id ≡ ok (leaf_page p))
      × IsLeaf p
      × ((i : ℕ) → i < p.size_ → lo ≤ order (p.key_array_ i))
      × ((i : ℕ) → i < p.size_ → order (p.key_array_ i) < hi)
  IsTree (suc height) lo hi id =
      (p : InternalPage) × (read id ≡ ok (internal_page p))
      × (0 < p.size_)
      × (p.size_ < half32)
      × IsSorted p.key_array_ 1 p.size_
      × ((i : ℕ)
          → 0 < i
          → i < p.size_
          → (lo ≤ order (p.key_array_ i)) × (order (p.key_array_ i) < hi))
      × ((i : ℕ) → i < p.size_ → IsTree height (low p lo i) (high p hi i) (p.page_id_array_ i))

  -- A leaf of the tree stores the value under the key.
  abbrev pub TreeStores : ℕ → ℕ → IntegerKey → Rid → Type 0
  TreeStores zero id key value = (p : LeafPage) × (read id ≡ ok (leaf_page p)) × Stores p key value
  TreeStores (suc height) id key value =
      (p : InternalPage) × (read id ≡ ok (internal_page p))
      × (i : ℕ) × (i < p.size_)
      × TreeStores height (p.page_id_array_ i) key value

  -- A key that a tree stores is between its bounds.
  TreeStores-range :
      (height lo hi id : ℕ) (key : IntegerKey) (value : Rid)
      → IsTree height lo hi id
      → TreeStores height id key value
      → (lo ≤ order key) × (order key < hi)
  TreeStores-range zero lo hi id key value (p, e, l, lower, upper) (q, e', s) =
      let (i, c, d, f) = subst (λ x. Stores x key value) (ap (leaf_of p) (sym e' ∙ e)) s in
      (ground (arith, lower i), ground (arith, upper i))
  TreeStores-range (suc height) lo hi id key value (p, e, u, m, l, bounds, t) (q, e', i, c0, s) =
      let (c, d) =
        subst (λ x. (i < x.size_) × TreeStores height (x.page_id_array_ i) key value)
          (ap (internal_of p) (sym e' ∙ e)) (c0, s) in
      let (a, b) = TreeStores-range height _ _ _ key value (t i c) d in
      (ground (arith, bounds i), ground (arith, bounds (i + 1)))

  -- The leaf that FindLeafPage reaches stores what the tree stores under the key.
  abbrev pub Reaches : ℕ → ℕ → IntegerKey → Result LeafPage → Type 0
  Reaches height id key x =
      (p : LeafPage) × (x ≡ ok p)
      × IsLeaf p
      × ((value : Rid) → Stores p key value ↔ TreeStores height id key value)

  find_leaf_page-Reaches :
      (height fuel lo hi id : ℕ) (key : IntegerKey)
      → IsTree height lo hi id
      → lo ≤ order key
      → order key < hi
      → height < fuel
      → Reaches height id key (find_leaf_page read key fuel id)
  unfolding find_leaf_page
  find_leaf_page-Reaches height zero lo hi id key t a b h = absurd (omega arith)
  find_leaf_page-Reaches zero (suc fuel) lo hi id key (p, e, l, lower, upper) a b h = (
    p,
    rw e refl,
    l,
    λ value. (
      λ s. (p, e, s),
      λ (q, e', s). subst (λ x. Stores x key value) (ap (leaf_of p) (sym e' ∙ e)) s,
    ),
  )
  find_leaf_page-Reaches (suc height) (suc fuel) lo hi id key (p, e, u, m, l, bounds, t) a b h =
      let (i, eq, r) = child_index-Routes p key l u m in
      let (q, eq', lq, k) =
        find_leaf_page-Reaches height fuel _ _ (p.page_id_array_ i) key (t i r.0)
          (ground (arith, r.1 i)) (ground (arith, r.2 (i + 1))) (omega (arith, h)) in
      (
        q,
        simp (e, eq, value_at-ok p i r.0 m) eq',
        lq,
        λ value. (
          λ s. (p, e, i, r.0, (k value).0 s),
          λ (p', e', j, c0, s).
              let (c, d) =
                subst (λ x. (j < x.size_) × TreeStores height (x.page_id_array_ j) key value)
                  (ap (internal_of p) (sym e' ∙ e)) (c0, s) in
              let (a', b') = TreeStores-range height _ _ _ key value (t j c) d in
              let same : j ≡ i = ground (arith, r.1 j, r.2 j, r.0, r.1 (j + 1), r.2 i) in
              (k value).1 (subst (λ x. TreeStores height (p.page_id_array_ x) key value) same d),
        ),
      )

-- GetValue on a search tree whose root's id is not -1, with a round of fuel for each level and the
-- leaf's: it returns, and what it finds
-- under a key is what the tree stores under the key.
pub tree_get_value-TreeStores :
    (read : ℕ → Result Page) (height fuel root_page_id : ℕ) (key : IntegerKey)
    → IsTree read height 0 word32 root_page_id
    → root_page_id ≢ minus_one
    → height < fuel
    → (found : Option Rid) × (tree_get_value read fuel root_page_id key ≡ ok found)
      × ((value : Rid) → (found ≡ some value) ↔ TreeStores read height root_page_id key value)
unfolding tree_get_value
tree_get_value-TreeStores read height fuel id key t some_root h =
    let (p, e, l, k) =
      find_leaf_page-Reaches read height fuel 0 word32 id key t (omega arith) (omega arith) h in
    (
      get_value p key,
      elim (Bool-cases (id == minus_one)) [
        | inl c ↦ absurd (some_root ((==_iff id minus_one).0 c))
        | inr c ↦ rw (c, e) refl
      ],
      λ value. (
        λ s. (k value).0 ((get_value-Stores p l key value).0 s),
        λ s. (get_value-Stores p l key value).1 ((k value).1 s),
      ),
    )
