-- ===== src/Removal/MendLeaf.antt =====
-- The three ways to mend a leaf that has too few keys: a key of the left sibling, one of the right
-- sibling, or a merge.
use bicycletub.Common.{ℕ, ◌+◌, ◌<◌, ◌≤◌, ◌≡◌, ◌≢◌, refl, arith, Bool, half32}
use bicycletub.Tree.{Page, leaf_page, internal_page, LeafPage, InternalPage, IntegerKey}
use bicycletub.Tree.Search.{order}
use bicycletub.Tree.Lookup.{low, high}
use bicycletub.Insertion.{BPlusTree, store}
use bicycletub.Insertion.Sound.{Places, BranchAt, Sound}
use bicycletub.Removal.{merge_leaves, put_key, delete_entry}
use bicycletub.Removal.Leaves.{merge_leaves-Merged}
use bicycletub.Removal.Cat.{LeafPart, cat, Respread}
use bicycletub.Removal.Repaged.{apart}
use bicycletub.Removal.LeafPair.{lent-Split, merged-United}
use bicycletub.Removal.Pair.{
  Repaired, left_kid, right_kid, mid_in, old_in, Split-Mended, United-Mended,
}
use bicycletub.Removal.Rebalance.{update_of}

pub merge_leaves-LeafPart :
    (l r : LeafPage)
    → LeafPart (cat l r) (merge_leaves l r).0 0
      × ((merge_leaves l r).0.size_ ≡ l.size_ + r.size_)
      × ((merge_leaves l r).0.max_size_ ≡ l.max_size_)
merge_leaves-LeafPart l r =
    let m = merge_leaves-Merged l r in
    (
      record {
        keys = λ j a. ground (arith, m.size, m.keys j);
        rids = λ j a. ground (arith, m.size, m.rids j);
        size = omega (arith, m.size);
      },
      m.size,
      m.max,
    )

module _ (t : BPlusTree) (places : Places) (lo hi id : ℕ) (p : InternalPage)
    (v : BranchAt t places 1 lo hi id p)
    (kids : (i : ℕ)
      → i < p.size_
      → Sound t places 0 (low p lo i) (high p hi i) (p.page_id_array_ i))
    (inside : lo < hi) (small : t.next_page_id_ < half32) (cap_small : places.cap < half32)
    (leaf_two : 2 ≤ t.leaf_max_size_) where
  abbrev pub cap' : ℕ
  cap' = places.cap + t.internal_max_size_

  module _ (a : ℕ) (two : a + 1 < p.size_) where
    abbrev pub l_kid :
        Sound t places 0 (low p lo a) (order (p.key_array_ (a + 1))) (p.page_id_array_ a)
    l_kid = left_kid t places 0 lo hi id p v kids inside small cap_small a two

    abbrev pub r_kid :
        Sound t places 0
          (order (p.key_array_ (a + 1)))
          (high p hi (a + 1))
          (p.page_id_array_ (a + 1))
    r_kid = right_kid t places 0 lo hi id p v kids inside small cap_small a two

    abbrev pub l : LeafPage
    l = l_kid.0

    abbrev pub r : LeafPage
    r = r_kid.0

    abbrev l_id : ℕ
    l_id = p.page_id_array_ a

    abbrev r_id : ℕ
    r_id = p.page_id_array_ (a + 1)

    abbrev mid :
        (low p lo a < order (p.key_array_ (a + 1)))
        × (order (p.key_array_ (a + 1)) < high p hi (a + 1))
    mid = mid_in t places 0 lo hi id p v kids inside small cap_small a two

    pub differ : l_id ≢ r_id
    differ =
        apart t places 0 _ _ _ l_id r_id l_kid.1.here r_kid.1.here mid.0 mid.1 t.pages_
          (λ q b c. refl) cap' (omega arith)

    -- New pages on which the two leaves' entries are spread anew.
    module _ (pages' : ℕ → Page) (l' r' : LeafPage) (m : ℕ) (s : Respread l r l' r' m)
        (others : (q : ℕ) → q ≢ l_id → q ≢ r_id → pages' q ≡ t.pages_ q)
        (l_page : pages' l_id ≡ leaf_page l') (r_page : pages' r_id ≡ leaf_page r')
        (some_left : 0 < m) (some_right : 0 < r'.size_) (l_fits : l'.size_ ≤ l'.max_size_)
        (r_fits : r'.size_ ≤ r'.max_size_) (first : Bool) where
      abbrev lent : BPlusTree
      lent =
          store (record t { pages_ = pages' }) id
            (internal_page (put_key p (a + 1) (r'.key_array_ 0)))

      pub lent-Repaired :
          Repaired t places
            (places.cap + t.internal_max_size_)
            1
            lo
            hi
            id
            lent
            (update_of p (a + 1) first (r'.key_array_ 0))
      lent-Repaired =
          let old = old_in t places 0 lo hi id p v kids inside small cap_small a two in
          record {
            places' = _;
            same_cap = refl;
            mended = Split-Mended t places 0 lo hi id p v kids inside small cap_small a two _ _ _ (
                lent-Split t places _ _ _ l_id r_id l r l_kid.1 r_kid.1 mid.0 mid.1 pages' others
                  cap' (omega arith) l' r' m s l_page r_page some_left some_right l_fits r_fits);
            old_lo = old.0;
            old_hi = old.1;
          }

    pub united-Repaired :
        (pages' : ℕ → Page) (first : Bool) (k : IntegerKey)
        → ((q : ℕ) → q ≢ l_id → q ≢ r_id → pages' q ≡ t.pages_ q)
        → pages' l_id ≡ leaf_page (merge_leaves l r).0
        → l.size_ + r.size_ ≤ l.max_size_
        → Repaired t places
            (places.cap + t.internal_max_size_)
            1
            lo
            hi
            id
            (store (record t { pages_ = pages' }) id (internal_page (delete_entry p (a + 1))))
            (update_of p (a + 1) first k)
    united-Repaired pages' first k others l_page fits =
        let old = old_in t places 0 lo hi id p v kids inside small cap_small a two in
        let (part, size, max) = merge_leaves-LeafPart l r in
        record {
          places' = _;
          same_cap = refl;
          mended = United-Mended t places 0 lo hi id p v kids inside small cap_small a two _ _ (
              merged-United t places _ _ _ l_id r_id l r l_kid.1 r_kid.1 mid.0 mid.1 pages' others
                cap' (omega arith) _ part size max l_page (omega (arith, size, max, fits)));
          old_lo = old.0;
          old_hi = old.1;
        }
