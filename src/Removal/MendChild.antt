-- ===== src/Removal/MendChild.antt =====
-- Two neighbouring internal pages under their parent, after a loan or a merge.
use bicycletub.Common.{ℕ, suc, ◌+◌, ◌<◌, ◌≤◌, ◌≡◌, ◌≢◌, refl, arith, Bool, half32}
use bicycletub.Tree.{Page, internal_page, InternalPage, IntegerKey}
use bicycletub.Tree.Search.{order}
use bicycletub.Tree.Lookup.{low, high}
use bicycletub.Insertion.{BPlusTree, store}
use bicycletub.Insertion.Sound.{Places, BranchAt, Sound}
use bicycletub.Removal.{merge_internal, put_key, delete_entry}
use bicycletub.Removal.Joined.{joined_page, RowRespread, merge_internal-Part}
use bicycletub.Removal.Repaged.{apart}
use bicycletub.Removal.ChildPair.{lent-Split, merged-United}
use bicycletub.Removal.Pair.{
  Repaired, left_kid, right_kid, mid_in, old_in, Split-Mended, United-Mended,
}
use bicycletub.Removal.Rebalance.{update_of}
use bicycletub.Removal.Climb.{internal_page_slot_cnt}

module _ (t : BPlusTree) (places : Places) (height lo hi id : ℕ) (p : InternalPage)
    (v : BranchAt t places (suc (suc height)) lo hi id p)
    (kids : (i : ℕ)
      → i < p.size_
      → Sound t places (suc height) (low p lo i) (high p hi i) (p.page_id_array_ i))
    (inside : lo < hi) (small : t.next_page_id_ < half32)
    (cap_slots : places.cap ≤ internal_page_slot_cnt) where
  abbrev cap_small : places.cap < half32
  cap_small = omega (arith, cap_slots)

  module _ (a : ℕ) (two : a + 1 < p.size_) where
    abbrev pub down : IntegerKey
    down = p.key_array_ (a + 1)

    abbrev pub l_kid : Sound t places (suc height) (low p lo a) (order down) (p.page_id_array_ a)
    l_kid = left_kid t places (suc height) lo hi id p v kids inside small cap_small a two

    abbrev pub r_kid :
        Sound t places (suc height) (order down) (high p hi (a + 1)) (p.page_id_array_ (a + 1))
    r_kid = right_kid t places (suc height) lo hi id p v kids inside small cap_small a two

    abbrev pub l : InternalPage
    l = l_kid.0

    abbrev pub r : InternalPage
    r = r_kid.0

    abbrev l_id : ℕ
    l_id = p.page_id_array_ a

    abbrev r_id : ℕ
    r_id = p.page_id_array_ (a + 1)

    mid : (low p lo a < order down) × (order down < high p hi (a + 1))
    mid = mid_in t places (suc height) lo hi id p v kids inside small cap_small a two

    old : (lo < order down) × (order down < hi)
    old = old_in t places (suc height) lo hi id p v kids inside small cap_small a two

    pub differ : l_id ≢ r_id
    differ =
        apart t places (suc height) _ _ _ l_id r_id l_kid.1.here r_kid.1.here mid.0 mid.1 t.pages_
          (λ q b c. refl) internal_page_slot_cnt cap_slots

    -- New pages on which the entries of the two are spread anew.
    pub lent-Repaired :
        (pages' : ℕ → Page) (l' r' : InternalPage) (m : ℕ) (key : IntegerKey) (first : Bool)
        → RowRespread l r down l' r' m
        → key ≡ (joined_page l r down).key_array_ m
        → ((q : ℕ) → q ≢ l_id → q ≢ r_id → pages' q ≡ t.pages_ q)
        → pages' l_id ≡ internal_page l'
        → pages' r_id ≡ internal_page r'
        → l'.size_ ≤ internal_page_slot_cnt
        → r'.size_ ≤ internal_page_slot_cnt
        → Repaired t places internal_page_slot_cnt
            (suc (suc height))
            lo
            hi
            id
            (store (record t { pages_ = pages' }) id (internal_page (put_key p (a + 1) key)))
            (update_of p (a + 1) first key)
    lent-Repaired pages' l' r' m key first s key_is others l_page r_page l_fits r_fits = record {
      places' = _;
      same_cap = refl;
      mended =
          Split-Mended t places (suc height) lo hi id p v kids inside small cap_small a two _ _ _ (
            lent-Split t places height _ _ l_id r_id l r down l_kid.1 l_kid.2 r_kid.1 r_kid.2 mid.0
              mid.1 pages' others internal_page_slot_cnt (omega (arith, cap_slots)) l' r' m s key
              key_is l_page r_page l_fits r_fits);
      old_lo = old.0;
      old_hi = old.1;
    }

    pub united-Repaired :
        (pages' : ℕ → Page) (first : Bool) (k : IntegerKey)
        → ((q : ℕ) → q ≢ l_id → q ≢ r_id → pages' q ≡ t.pages_ q)
        → pages' l_id ≡ internal_page (merge_internal l r down).0
        → l.size_ + r.size_ ≤ internal_page_slot_cnt
        → Repaired t places internal_page_slot_cnt
            (suc (suc height))
            lo
            hi
            id
            (store (record t { pages_ = pages' }) id (internal_page (delete_entry p (a + 1))))
            (update_of p (a + 1) first k)
    united-Repaired pages' first k others l_page fits =
        let (part, size, max) = merge_internal-Part l r down l_kid.1.used r_kid.1.used in
        record {
          places' = _;
          same_cap = refl;
          mended =
              United-Mended t places (suc height) lo hi id p v kids inside small cap_small a two _ _
                (merged-United t places height _ _ l_id r_id l r down l_kid.1 l_kid.2 r_kid.1
                  r_kid.2 mid.0 mid.1 pages' others internal_page_slot_cnt cap_slots _ part size max
                  l_page (omega (arith, size, fits)));
          old_lo = old.0;
          old_hi = old.1;
        }
