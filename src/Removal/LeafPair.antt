-- ===== src/Removal/LeafPair.antt =====
-- Two neighbouring leaves after a loan or a merge.
use bicycletub.Common.{
  ℕ, ◌+◌, ◌-◌, ◌<◌, ◌≤◌, ◌≡◌, ◌≢◌, ap, ◌∙◌, arith, ltb, if◌then◌else◌, Bool-cases, inl, inr,
}
use bicycletub.Tree.{Page, leaf_page, LeafPage, IntegerKey, get_value}
use bicycletub.Tree.Search.{order}
use bicycletub.Tree.Leaf.{IsLeaf}
use bicycletub.Insertion.{BPlusTree}
use bicycletub.Insertion.Sound.{Places, LeafAt, Sound, find}
use bicycletub.Insertion.Change.{After}
use bicycletub.Removal.Cat.{
  LeafPart, LeafPart-IsLeaf, LeafPart-get_value, cat, cat-left, cat-right, Respread,
}
use bicycletub.Removal.Repaged.{
  repaged, apart, two_places, one_place, two_places-After, one_place-After,
}

-- The two children with a key between them, as the page above needs them.
pub record Split (t : BPlusTree) (places : Places) (height lo mid hi l_id r_id : ℕ) (t1 : BPlusTree)
    (places1 : Places) (key : IntegerKey) : Type 0 where
  pub after : After t t1 places places1 height lo hi
  pub key_lo : lo < order key
  pub key_hi : order key < hi
  pub left : Sound t1 places1 height lo (order key) l_id
  pub right : Sound t1 places1 height (order key) hi r_id
  pub found :
      (q : IntegerKey)
      → lo ≤ order q
      → order q < hi
      → (if ltb (order q) (order key) then find t1 height l_id q else find t1 height r_id q)
        ≡ (if ltb (order q) mid then find t height l_id q else find t height r_id q)

-- One child in the place of both.
pub record United (t : BPlusTree) (places : Places) (height lo mid hi l_id r_id : ℕ)
    (t1 : BPlusTree) (places1 : Places) : Type 0 where
  pub after : After t t1 places places1 height lo hi
  pub whole : Sound t1 places1 height lo hi l_id
  pub found :
      (q : IntegerKey)
      → lo ≤ order q
      → order q < hi
      → find t1 height l_id q
        ≡ (if ltb (order q) mid then find t height l_id q else find t height r_id q)

module _ (t : BPlusTree) (places : Places) (lo mid hi l_id r_id : ℕ) (l r : LeafPage)
    (vl : LeafAt t places lo mid l_id l) (vr : LeafAt t places mid hi r_id r) (l_span : lo < mid)
    (r_span : mid < hi) where
  cat-IsLeaf : IsLeaf (cat l r)
  cat-IsLeaf i j a b c = ground (
    arith,
    vl.rising i j,
    vr.rising (i - l.size_) (j - l.size_),
    vl.below i,
    vr.above (j - l.size_),
  )

  cat_above : (i : ℕ) → i < l.size_ + r.size_ → lo ≤ order ((cat l r).key_array_ i)
  cat_above i a = ground (arith, vl.above i, vr.above (i - l.size_))

  cat_below : (i : ℕ) → i < l.size_ + r.size_ → order ((cat l r).key_array_ i) < hi
  cat_below i a = ground (arith, vl.below i, vr.below (i - l.size_))

  -- What the two leaves found is what their row of entries has.
  pair_finds :
      (q : IntegerKey)
      → (if ltb (order q) mid then find t 0 l_id q else find t 0 r_id q) ≡ get_value (cat l r) q
  pair_finds q =
      rw (vl.page, vr.page)
        (elim (Bool-cases (ltb (order q) mid)) [
          | inl e ↦ rw e (
              LeafPart-get_value (cat l r) l 0 (cat-left l r) cat-IsLeaf q
                (λ j a. absurd (omega arith))
                (λ j a b. ground (arith, e, a, b, vr.above (j - l.size_))))
          | inr e ↦ rw e (
              LeafPart-get_value (cat l r) r l.size_ (cat-right l r) cat-IsLeaf q
                (λ j a. ground (arith, e, a, vl.below j)) (λ j a b. absurd (omega arith)))
        ])

  module _ (pages' : ℕ → Page) (others : (q : ℕ) → q ≢ l_id → q ≢ r_id → pages' q ≡ t.pages_ q)
      (cap' : ℕ) (grown : places.cap ≤ cap') where
    abbrev t1 : BPlusTree
    t1 =
        repaged t places 0 lo mid hi l_id r_id vl.here vr.here l_span r_span pages' others cap'
          grown

    ids_differ : l_id ≢ r_id
    ids_differ =
        apart t places 0 lo mid hi l_id r_id vl.here vr.here l_span r_span pages' others cap' grown

    -- A loan.
    module _ (l' r' : LeafPage) (m : ℕ) (s : Respread l r l' r' m)
        (l_page : pages' l_id ≡ leaf_page l') (r_page : pages' r_id ≡ leaf_page r')
        (some_left : 0 < m) (some_right : 0 < r'.size_) (l_fits : l'.size_ ≤ l'.max_size_)
        (r_fits : r'.size_ ≤ r'.max_size_) where
      abbrev key : IntegerKey
      key = r'.key_array_ 0

      abbrev places1 : Places
      places1 =
          two_places t places 0 lo mid hi l_id r_id vl.here vr.here l_span r_span pages' others cap'
            grown (order key)

      key_is : key ≡ (cat l r).key_array_ m
      key_is = s.right.keys 0 some_right ∙ ap (cat l r).key_array_ (omega arith)

      pub lent-Split : Split t places 0 lo mid hi l_id r_id t1 places1 key
      lent-Split = record {
        after =
            two_places-After t places 0 lo mid hi l_id r_id vl.here vr.here l_span r_span pages'
              others cap' grown (order key);
        key_lo = ground (arith, key_is, s.sizes, cat_above 0, cat-IsLeaf 0 m);
        key_hi = ground (arith, key_is, s.sizes, cat_below m);
        left = (
          l',
          record {
            page = l_page;
            given = vl.given;
            here = ground arith;
            rising = LeafPart-IsLeaf (cat l r) l' 0 s.left cat-IsLeaf;
            above = λ i a. ground (arith, s.left.keys i, s.left.size, cat_above i);
            below =
                λ i a. ground (arith, key_is, s.left.keys i, s.left_size, s.sizes, cat-IsLeaf i m);
            fits = l_fits;
            max = s.left_max ∙ vl.max;
          },
        );
        right = (
          r',
          record {
            page = r_page;
            given = vr.given;
            here = ground (arith, ids_differ);
            rising = LeafPart-IsLeaf (cat l r) r' m s.right cat-IsLeaf;
            above = λ i a. ground (arith, key_is, s.right.keys i, s.sizes, cat-IsLeaf m (m + i));
            below = λ i a. ground (arith, s.right.keys i, s.sizes, cat_below (m + i));
            fits = r_fits;
            max = s.right_max ∙ vr.max;
          },
        );
        found = λ q a b.
            rw (pair_finds q, l_page, r_page)
              (elim (Bool-cases (ltb (order q) (order key))) [
                | inl e ↦ rw e (
                    LeafPart-get_value (cat l r) l' 0 s.left cat-IsLeaf q
                      (λ j c. absurd (omega arith))
                      (λ j c d. ground (arith, e, key_is, s.left_size, s.sizes, cat-IsLeaf m j)))
                | inr e ↦ rw e (
                    LeafPart-get_value (cat l r) r' m s.right cat-IsLeaf q
                      (λ j c. ground (arith, e, key_is, s.sizes, some_right, cat-IsLeaf j m))
                      (λ j c d. absurd (omega (arith, s.sizes))))
              ]);
      }

    -- A merge.
    module _ (l' : LeafPage) (part : LeafPart (cat l r) l' 0) (all : l'.size_ ≡ l.size_ + r.size_)
        (max : l'.max_size_ ≡ l.max_size_) (l_page : pages' l_id ≡ leaf_page l')
        (l_fits : l'.size_ ≤ l'.max_size_) where
      abbrev united_places : Places
      united_places =
          one_place t places 0 lo mid hi l_id r_id vl.here vr.here l_span r_span pages' others cap'
            grown

      pub merged-United : United t places 0 lo mid hi l_id r_id t1 united_places
      merged-United = record {
        after =
            one_place-After t places 0 lo mid hi l_id r_id vl.here vr.here l_span r_span pages'
              others cap' grown;
        whole = (
          l',
          record {
            page = l_page;
            given = vl.given;
            here = ground arith;
            rising = LeafPart-IsLeaf (cat l r) l' 0 part cat-IsLeaf;
            above = λ i a. ground (arith, part.keys i, part.size, cat_above i);
            below = λ i a. ground (arith, part.keys i, part.size, cat_below i);
            fits = l_fits;
            max = max ∙ vl.max;
          },
        );
        found = λ q a b.
            rw (pair_finds q, l_page)
              (LeafPart-get_value (cat l r) l' 0 part cat-IsLeaf q (λ j c. absurd (omega arith))
                (λ j c d. absurd (omega (arith, all))));
      }
