-- ===== src/Removal/ChildPair.antt =====
-- Two neighbouring internal pages after a loan or a merge.
use bicycletub.Common.{
  ℕ, suc, ◌+◌, ◌-◌, ◌<◌, ◌≤◌, ◌≡◌, ◌≢◌, refl, ◌∙◌, arith, ltb, if◌then◌else◌, Bool-cases, inl, inr,
}
use bicycletub.Tree.{Page, internal_page, InternalPage, IntegerKey}
use bicycletub.Tree.Search.{order, IsSorted}
use bicycletub.Tree.Lookup.{low, high}
use bicycletub.Parent.Route.{route, route-Routes}
use bicycletub.Parent.Part.{Part}
use bicycletub.Insertion.{BPlusTree}
use bicycletub.Insertion.Sound.{Places, BranchAt, Sound, find, Agree}
use bicycletub.Insertion.Branch.{Sound-at}
use bicycletub.Insertion.Pieces.{Row, piece-Sound, piece-find}
use bicycletub.Removal.Joined.{joined_page, RowRespread}
use bicycletub.Removal.Repaged.{
  repaged, apart, two_places, one_place, two_places-After, one_place-After, two_places-Agree,
  one_place-Agree,
}
use bicycletub.Removal.LeafPair.{Split, United}

module _ (t : BPlusTree) (places : Places) (height lo hi l_id r_id : ℕ) (l r : InternalPage)
    (down : IntegerKey) (vl : BranchAt t places (suc height) lo (order down) l_id l)
    (l_kids : (i : ℕ)
      → i < l.size_
      → Sound t places height (low l lo i) (high l (order down) i) (l.page_id_array_ i))
    (vr : BranchAt t places (suc height) (order down) hi r_id r)
    (r_kids : (i : ℕ)
      → i < r.size_
      → Sound t places height (low r (order down) i) (high r hi i) (r.page_id_array_ i))
    (l_span : lo < order down) (r_span : order down < hi) where
  abbrev whole : InternalPage
  whole = joined_page l r down

  whole-IsSorted : IsSorted whole.key_array_ 1 whole.size_
  whole-IsSorted i j a b c = ground (
    arith,
    vl.used,
    vl.rising i j,
    vr.rising (i - l.size_) (j - l.size_),
    vl.below i,
    vr.above (j - l.size_),
  )

  whole-Row : Row t places height lo hi whole
  whole-Row = record {
    rising = whole-IsSorted;
    above = λ i a b. ground (arith, vl.above i, vr.above (i - l.size_));
    below = λ i a b. ground (arith, vl.below i, vr.below (i - l.size_));
    kids = λ i a. elim (Bool-cases (ltb i l.size_)) [
      | inl e ↦
          Sound-at t places height (ground (arith, e)) (ground (arith, e, vr.used))
            (ground (arith, e)) (l_kids i (ground (arith, e)))
      | inr e ↦
          Sound-at t places height (ground (arith, e, vl.used)) (ground (arith, e))
            (ground (arith, e)) (r_kids (i - l.size_) (ground (arith, e, a)))
    ];
  }

  l-Part : Part whole l 0
  l-Part = record {
    keys = λ j a b. ground arith;
    children = λ j a. ground arith;
    size = omega arith;
    used = vl.used;
  }

  r-Part : Part whole r l.size_
  r-Part = record {
    keys = λ j a b. ground arith;
    children = λ j a. ground arith;
    size = omega arith;
    used = vr.used;
  }

  same-Agree : Agree t t places places height lo hi
  same-Agree = record {
    pages = λ q a b. refl;
    same = λ q a b. refl;
    more = omega arith;
    cap = omega arith;
    leaf_max = refl;
    internal_max = refl;
  }

  span : lo < hi
  span = omega arith

  -- What the two pages found is what the row of children has.
  whole_find :
      (q : IntegerKey)
      → lo ≤ order q
      → order q < hi
      → (if ltb (order q) (order down)
          then find t (suc height) l_id q
          else find t (suc height) r_id q)
        ≡ find t height (whole.page_id_array_ (route whole q)) q
  whole_find q a b =
      let s = route-Routes whole whole-IsSorted (omega (arith, vl.used)) q in
      elim (Bool-cases (ltb (order q) (order down))) [
        | inl e ↦ rw e (
            piece-find t t places places height lo hi whole whole-Row span same-Agree l_id l 0 lo
              (order down) l-Part (ground arith) (ground (arith, vl.used, vr.used)) vl.page q
              (route whole q) s (omega arith) (ground (arith, e, s.1 l.size_, vr.used)) a b)
        | inr e ↦ rw e (
            piece-find t t places places height lo hi whole whole-Row span same-Agree r_id r l.size_
              (order down) hi r-Part (ground (arith, vl.used)) (ground (arith, vr.used)) vr.page q
              (route whole q) s (ground (arith, e, s.2 l.size_, vr.used)) (omega (arith, s.0)) a b)
      ]

  module _ (pages' : ℕ → Page) (others : (q : ℕ) → q ≢ l_id → q ≢ r_id → pages' q ≡ t.pages_ q)
      (cap' : ℕ) (grown : places.cap ≤ cap') where
    abbrev t1 : BPlusTree
    t1 =
        repaged t places (suc height) lo (order down) hi l_id r_id vl.here vr.here l_span r_span
          pages' others cap' grown

    ids_differ : l_id ≢ r_id
    ids_differ =
        apart t places (suc height) lo (order down) hi l_id r_id vl.here vr.here l_span r_span
          pages' others cap' grown

    -- A loan.
    module _ (l' r' : InternalPage) (m : ℕ) (s : RowRespread l r down l' r' m) (key : IntegerKey)
        (key_is : key ≡ whole.key_array_ m) (l_page : pages' l_id ≡ internal_page l')
        (r_page : pages' r_id ≡ internal_page r') (l_fits : l'.size_ ≤ cap')
        (r_fits : r'.size_ ≤ cap') where
      abbrev places1 : Places
      places1 =
          two_places t places (suc height) lo (order down) hi l_id r_id vl.here vr.here l_span
            r_span pages' others cap' grown (order key)

      two-Agree : Agree t t1 places places1 height lo hi
      two-Agree =
          two_places-Agree t places (suc height) lo (order down) hi l_id r_id vl.here vr.here l_span
            r_span pages' others cap' grown height (omega arith) (order key)

      left_end : order key ≡ high whole hi (0 + l'.size_ - 1)
      left_end = ground (arith, key_is, s.left_size, s.sizes, s.left.used, s.right.used)

      right_start : order key ≡ low whole lo m
      right_start = ground (arith, key_is, s.left_size, s.left.used)

      right_end : hi ≡ high whole hi (m + r'.size_ - 1)
      right_end = ground (arith, s.sizes, s.right.used)

      key_in : (lo < order key) × (order key < hi)
      key_in = (
        ground (arith, key_is, s.left_size, s.left.used, s.right.used, s.sizes, whole-Row.above m),
        ground (arith, key_is, s.left_size, s.left.used, s.right.used, s.sizes, whole-Row.below m),
      )

      pub lent-Split : Split t places (suc height) lo (order down) hi l_id r_id t1 places1 key
      lent-Split = record {
        after =
            two_places-After t places (suc height) lo (order down) hi l_id r_id vl.here vr.here
              l_span r_span pages' others cap' grown (order key);
        key_lo = key_in.0;
        key_hi = key_in.1;
        left =
            piece-Sound t t1 places places1 height lo hi whole whole-Row span two-Agree l_id l' 0 lo
              (order key) s.left (ground arith) left_end l_page vl.given (ground arith) l_fits
              (s.left_max ∙ vl.max);
        right =
            piece-Sound t t1 places places1 height lo hi whole whole-Row span two-Agree r_id r' m
              (order key) hi s.right right_start right_end r_page vr.given
              (ground (arith, ids_differ)) r_fits (s.right_max ∙ vr.max);
        found = λ q a b.
            let e = route-Routes whole whole-IsSorted (omega (arith, vl.used)) q in
            rw (whole_find q a b) (elim (Bool-cases (ltb (order q) (order key))) [
              | inl x ↦ rw x (
                  piece-find t t1 places places1 height lo hi whole whole-Row span two-Agree l_id l'
                    0 lo (order key) s.left (ground arith) left_end l_page q (route whole q) e
                    (omega arith)
                    (ground
                      (arith, x, key_is, s.left_size, s.sizes, s.left.used, s.right.used, e.1 m))
                    a b)
              | inr x ↦ rw x (
                  piece-find t t1 places places1 height lo hi whole whole-Row span two-Agree r_id r'
                    m (order key) hi s.right right_start right_end r_page q (route whole q) e
                    (ground (arith, x, key_is, s.left_size, s.sizes, s.right.used, e.2 m))
                    (omega (arith, e.0, s.sizes)) a b)
            ]);
      }

    -- A merge.
    module _ (l' : InternalPage) (part : Part whole l' 0) (all : l'.size_ ≡ l.size_ + r.size_)
        (max : l'.max_size_ ≡ l.max_size_) (l_page : pages' l_id ≡ internal_page l')
        (l_fits : l'.size_ ≤ cap') where
      abbrev united_places : Places
      united_places =
          one_place t places (suc height) lo (order down) hi l_id r_id vl.here vr.here l_span r_span
            pages' others cap' grown

      one-Agree : Agree t t1 places united_places height lo hi
      one-Agree =
          one_place-Agree t places (suc height) lo (order down) hi l_id r_id vl.here vr.here l_span
            r_span pages' others cap' grown height (omega arith)

      end : hi ≡ high whole hi (0 + l'.size_ - 1)
      end = ground (arith, all, part.used)

      pub merged-United : United t places (suc height) lo (order down) hi l_id r_id t1 united_places
      merged-United = record {
        after =
            one_place-After t places (suc height) lo (order down) hi l_id r_id vl.here vr.here
              l_span r_span pages' others cap' grown;
        whole =
            piece-Sound t t1 places united_places height lo hi whole whole-Row span one-Agree l_id
              l' 0 lo hi part (ground arith) end l_page vl.given (ground arith) l_fits
              (max ∙ vl.max);
        found = λ q a b.
            let e = route-Routes whole whole-IsSorted (omega (arith, vl.used)) q in
            rw (whole_find q a b) (
              piece-find t t1 places united_places height lo hi whole whole-Row span one-Agree l_id
                l' 0 lo hi part (ground arith) end l_page q (route whole q) e (omega arith)
                (omega (arith, e.0, all)) a b);
      }
