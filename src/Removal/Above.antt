-- ===== src/Removal/Above.antt =====
-- The page above two neighbouring children that Remove has changed: a new key between them, or one
-- child in the place of both.
use bicycletub.Common.{
  ℕ, suc, ◌+◌, ◌<◌, ◌≤◌, ◌≡◌, ◌≢◌, refl, ◌∙◌, arith, false, ltb, Bool-cases, inl, inr,
}
use bicycletub.Tree.{internal_page, InternalPage, IntegerKey}
use bicycletub.Tree.Search.{order}
use bicycletub.Tree.Lookup.{low, high}
use bicycletub.Insertion.{BPlusTree, store}
use bicycletub.Insertion.Sound.{
  place, Places, within, BranchAt, Sound, find, Agree, Sound-Agree, find-Agree, child_bounds,
  child_order,
}
use bicycletub.Insertion.Change.{After}
use bicycletub.Insertion.Pieces.{After-Agree}
use bicycletub.Insertion.Branch.{After-larger}

-- The subtree finds the same, whatever has become of its pages.
pub record Mended (t : BPlusTree) (places : Places) (height lo hi id : ℕ) (t' : BPlusTree)
    (places' : Places) : Type 0 where
  pub after : After t t' places places' height lo hi
  pub sound : Sound t' places' height lo hi id
  pub finds :
      (q : IntegerKey) → lo ≤ order q → order q < hi → find t' height id q ≡ find t height id q

module _ (t : BPlusTree) (places : Places) (height lo hi id : ℕ) (p : InternalPage)
    (v : BranchAt t places (suc height) lo hi id p)
    (kids : (i : ℕ)
      → i < p.size_
      → Sound t places height (low p lo i) (high p hi i) (p.page_id_array_ i))
    (inside : lo < hi) (a : ℕ) (two : a + 1 < p.size_) (t1 : BPlusTree) (places1 : Places)
    (after : After t t1 places places1 height (low p lo a) (high p hi (a + 1))) where
  abbrev bounds :
      (i : ℕ) → i < p.size_ → (lo ≤ low p lo i) × (high p hi i ≤ hi) × (low p lo i < high p hi i)
  bounds = child_bounds t places (suc height) lo hi id p v inside

  abbrev ordered : (i j : ℕ) → i < j → j < p.size_ → high p hi i ≤ low p lo j
  ordered = child_order t places (suc height) lo hi id p v inside

  pub page_there : (t1.pages_ id ≡ internal_page p) × (places1.spot id ≡ place (suc height) lo hi)
  page_there =
      let w : within (places.spot id) height (low p lo a) (high p hi (a + 1)) ≡ false =
        ground (arith, v.here) in
      (after.pages id v.given w ∙ v.page, after.same id v.given w ∙ v.here)

  beside-Agree :
      (i : ℕ)
      → i < p.size_
      → i ≢ a
      → i ≢ a + 1
      → Agree t t1 places places1 height (low p lo i) (high p hi i)
  beside-Agree i b c d =
      let (above, below) =
        After-Agree t t1 places places1 height (low p lo a) (high p hi (a + 1)) (low p lo i)
          (high p hi i) after in
      elim (Bool-cases (ltb i a)) [
        | inl e ↦ below (ordered i a (ground (arith, e)) (omega (arith, two)))
        | inr e ↦ above (ordered (a + 1) i (ground (arith, c, d, e)) b)
      ]

  module _ (p' : InternalPage) where
    abbrev pub stored : BPlusTree
    stored = store t1 id (internal_page p')

    stored-Agree : (lo' hi' : ℕ) → Agree t1 stored places1 places1 height lo' hi'
    stored-Agree lo' hi' = record {
      pages = λ q b c. ground (arith, page_there.1);
      same = λ q b c. refl;
      more = omega arith;
      cap = omega arith;
      leaf_max = refl;
      internal_max = refl;
    }

    pub stored-After : After t stored places places1 (suc height) lo hi
    stored-After =
        let wide =
          After-larger t t1 places places1 height lo hi (low p lo a) (high p hi (a + 1))
            (bounds a (omega (arith, two))).0 (bounds (a + 1) two).1 after in
        record {
          pages = λ q b c. ground (arith, v.here, wide.pages q b c);
          same = wide.same;
          more = wide.more;
          cap = wide.cap;
          few = wide.few;
          leaf_max = wide.leaf_max;
          internal_max = wide.internal_max;
          root = wide.root;
        }

    pub beside :
        (i : ℕ)
        → i < p.size_
        → i ≢ a
        → i ≢ a + 1
        → Sound stored places1 height (low p lo i) (high p hi i) (p.page_id_array_ i)
    beside i b c d =
        Sound-Agree t1 stored places1 places1 height _ _ _ (bounds i b).2 (stored-Agree _ _) (
          Sound-Agree t t1 places places1 height _ _ _ (bounds i b).2 (beside-Agree i b c d)
            (kids i b))

    pub beside_find :
        (i : ℕ)
        → i < p.size_
        → i ≢ a
        → i ≢ a + 1
        → (q : IntegerKey) → low p lo i ≤ order q
        → order q < high p hi i
        → find stored height (p.page_id_array_ i) q ≡ find t height (p.page_id_array_ i) q
    beside_find i b c d q e f =
        let mid =
          Sound-Agree t t1 places places1 height _ _ _ (bounds i b).2 (beside-Agree i b c d)
            (kids i b) in
        find-Agree t1 stored places1 places1 height _ _ _ (bounds i b).2 (stored-Agree _ _) mid q e
          f
        ∙ find-Agree t t1 places places1 height _ _ _ (bounds i b).2 (beside-Agree i b c d)
            (kids i b) q e f

    -- A changed child, in the store with the page.
    pub kept_child :
        (lo' hi' child : ℕ)
        → lo' < hi'
        → Sound t1 places1 height lo' hi' child
        → Sound stored places1 height lo' hi' child
          × ((q : IntegerKey)
              → lo' ≤ order q
              → order q < hi'
              → find stored height child q ≡ find t1 height child q)
    kept_child lo' hi' child b s = (
      Sound-Agree t1 stored places1 places1 height lo' hi' child b (stored-Agree lo' hi') s,
      find-Agree t1 stored places1 places1 height lo' hi' child b (stored-Agree lo' hi') s,
    )
