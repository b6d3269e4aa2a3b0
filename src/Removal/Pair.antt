-- ===== src/Removal/Pair.antt =====
-- A page above two neighbouring children, and what their loan or merge makes of it.
use bicycletub.Common.{ℕ, suc, ◌+◌, ◌<◌, ◌≡◌, refl, arith, half32, ok}
use bicycletub.Tree.{internal_page, InternalPage, IntegerKey}
use bicycletub.Tree.Search.{order}
use bicycletub.Tree.Internal.{value_at-ok}
use bicycletub.Tree.Lookup.{low, high}
use bicycletub.Insertion.{BPlusTree, store}
use bicycletub.Insertion.Sound.{Places, BranchAt, Sound, child_bounds}
use bicycletub.Insertion.Change.{open_page_lem}
use bicycletub.Insertion.Contents.{given_out}
use bicycletub.Insertion.Branch.{Sound-at}
use bicycletub.Removal.{put_key, delete_entry}
use bicycletub.Removal.Joined.{delete_entry-Shorter}
use bicycletub.Removal.Above.{Mended}
use bicycletub.Removal.LeafPair.{Split, United}
use bicycletub.Removal.Rekeyed.{rekeyed-Mended}
use bicycletub.Removal.Fewer.{fewer-Mended}
use bicycletub.Removal.Rebalance.{KeyUpdate, sibling}

-- The page after the mending of a child, the bound on its children, and the old key for the page
-- above.
pub record Repaired (t : BPlusTree) (places : Places) (cap' height lo hi id : ℕ) (t' : BPlusTree)
    (u : KeyUpdate) : Type 0 where
  pub places' : Places
  pub same_cap : places'.cap ≡ cap'
  pub mended : Mended t places height lo hi id t' places'
  pub old_lo : lo < order u.old_key
  pub old_hi : order u.old_key < hi

module _ (t : BPlusTree) (places : Places) (height lo hi id : ℕ) (p : InternalPage)
    (v : BranchAt t places (suc height) lo hi id p)
    (kids : (i : ℕ)
      → i < p.size_
      → Sound t places height (low p lo i) (high p hi i) (p.page_id_array_ i))
    (inside : lo < hi) (small : t.next_page_id_ < half32) (cap_small : places.cap < half32) where
  pub sibling-ok :
      (i : ℕ) → i < p.size_ → sibling t p i ≡ ok (p.page_id_array_ i, t.pages_ (p.page_id_array_ i))
  sibling-ok i a =
      let few : p.size_ < half32 = omega (arith, v.fits, cap_small) in
      let given = given_out t places height _ _ (p.page_id_array_ i) (kids i a) in
      rw (value_at-ok p i a few, open_page_lem t (p.page_id_array_ i) given small) refl

  module _ (a : ℕ) (two : a + 1 < p.size_) where
    abbrev pub mid_key : IntegerKey
    mid_key = p.key_array_ (a + 1)

    abbrev pub pair_lo : ℕ
    pair_lo = low p lo a

    abbrev pub pair_hi : ℕ
    pair_hi = high p hi (a + 1)

    pub left_kid : Sound t places height pair_lo (order mid_key) (p.page_id_array_ a)
    left_kid =
        Sound-at t places height refl (ground (arith, two)) refl (kids a (omega (arith, two)))

    pub right_kid : Sound t places height (order mid_key) pair_hi (p.page_id_array_ (a + 1))
    right_kid = Sound-at t places height (ground arith) refl refl (kids (a + 1) two)

    pub mid_in : (pair_lo < order mid_key) × (order mid_key < pair_hi)
    mid_in =
        let l = child_bounds t places (suc height) lo hi id p v inside a (omega (arith, two)) in
        let r = child_bounds t places (suc height) lo hi id p v inside (a + 1) two in
        (ground (arith, l.2, two), ground (arith, r.2))

    pub old_in : (lo < order mid_key) × (order mid_key < hi)
    old_in = (v.above (a + 1) (omega arith) two, v.below (a + 1) (omega arith) two)

    pub Split-Mended :
        (t1 : BPlusTree) (places1 : Places) (key : IntegerKey)
        → Split t places height pair_lo
            (order mid_key)
            pair_hi
            (p.page_id_array_ a)
            (p.page_id_array_ (a + 1))
            t1
            places1
            key
        → Mended t places
            (suc height)
            lo
            hi
            id
            (store t1 id (internal_page (put_key p (a + 1) key)))
            places1
    Split-Mended t1 places1 key s =
        rekeyed-Mended t places height lo hi id p v kids inside a two t1 places1 s.after key
          s.key_lo s.key_hi s.left s.right s.found

    pub United-Mended :
        (t1 : BPlusTree) (places1 : Places)
        → United t places height pair_lo
            (order mid_key)
            pair_hi
            (p.page_id_array_ a)
            (p.page_id_array_ (a + 1))
            t1
            places1
        → Mended t places
            (suc height)
            lo
            hi
            id
            (store t1 id (internal_page (delete_entry p (a + 1))))
            places1
    United-Mended t1 places1 s =
        fewer-Mended t places height lo hi id p v kids inside a two t1 places1 s.after
          (omega (arith, mid_in)) s.whole s.found (delete_entry p (a + 1))
          (delete_entry-Shorter p (a + 1) two)
