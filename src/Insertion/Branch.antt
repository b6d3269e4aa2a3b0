-- ===== src/Insertion/Branch.antt =====
-- An internal page after the change of the child on the key's way.
use bicycletub.Common.{
  ℕ, suc, ◌+◌, ◌-◌, ◌<◌, ◌≤◌, ◌≡◌, ◌≢◌, refl, sym, ap, ◌∙◌, subst, arith, false, ltb, ◌==◌,
  if◌then◌else◌, Option, some, Bool-cases, inl, inr,
}
use bicycletub.Tree.{internal_page, InternalPage, IntegerKey, Rid, internal_key_index}
use bicycletub.Tree.Search.{order, IsSorted, Splits, Splits-unique}
use bicycletub.Tree.Internal.{Routes}
use bicycletub.Tree.Lookup.{low, high}
use bicycletub.Parent.Route.{
  route, Routes-unique, index-Splits, route-Routes, grown_page, grown_page-IsSorted,
  grown_page-Routes,
}
use bicycletub.Insertion.{BPlusTree}
use bicycletub.Insertion.Sound.{
  place, Places, within, BranchAt, Sound, find, Agree, Sound-Agree, find-Agree, child_bounds,
  child_order, route_bounds,
}
use bicycletub.Insertion.Change.{After, Finds, GrownTree, SplitTree}
use bicycletub.Insertion.Leaves.{first, Linked, Linked-row, RowLinked}
use bicycletub.Insertion.Links.{first-Agree, Linked-Agree}
use bicycletub.Insertion.RowLinks.{changed-RowLinked, parted-RowLinked}
use bicycletub.Insertion.Pieces.{After-Agree, Row}

-- What the change of a subtree leaves alone is more when the subtree is a larger one.
pub After-larger :
    (t t' : BPlusTree) (places places' : Places) (height lo hi lo' hi' : ℕ)
    → lo ≤ lo'
    → hi' ≤ hi
    → After t t' places places' height lo' hi'
    → After t t' places places' (suc height) lo hi
After-larger t t' places places' height lo hi lo' hi' b c a = record {
  pages = λ q g w. a.pages q g (ground arith);
  same = λ q g w. a.same q g (ground arith);
  more = a.more;
  cap = a.cap;
  few = omega (arith, a.few);
  leaf_max = a.leaf_max;
  internal_max = a.internal_max;
  root = a.root;
}

pub Sound-at :
    (t : BPlusTree) (places : Places) (height : ℕ) {lo hi id lo' hi' id' : ℕ}
    → lo' ≡ lo
    → hi' ≡ hi
    → id' ≡ id
    → Sound t places height lo hi id
    → Sound t places height lo' hi' id'
Sound-at t places height a b c s = rw (a, b, c) s

module _ (t : BPlusTree) (places : Places) (height lo hi id : ℕ) (key : IntegerKey) (value : Rid)
    (p : InternalPage) (v : BranchAt t places (suc height) lo hi id p)
    (kids : (i : ℕ)
      → i < p.size_
      → Sound t places height (low p lo i) (high p hi i) (p.page_id_array_ i))
    (from : lo ≤ order key) (upto : order key < hi) where
  abbrev pub at : ℕ
  at = route p key

  abbrev pub child_lo : ℕ
  child_lo = low p lo at

  abbrev pub child_hi : ℕ
  child_hi = high p hi at

  pub inside : lo < hi
  inside = omega arith

  abbrev pub bounds :
      (i : ℕ) → i < p.size_ → (lo ≤ low p lo i) × (high p hi i ≤ hi) × (low p lo i < high p hi i)
  bounds = child_bounds t places (suc height) lo hi id p v inside

  pub at_bounds : (child_lo ≤ order key) × (order key < child_hi) × (at < p.size_)
  at_bounds = route_bounds t places (suc height) lo hi id p v inside key from upto

  pub find_page :
      (q : IntegerKey) → find t (suc height) id q ≡ find t height (p.page_id_array_ (route p q)) q
  find_page q = rw v.page refl

  module _ (t' : BPlusTree) (places' : Places)
      (a : After t t' places places' height child_lo child_hi) where
    -- The page and the other children are as they were.
    pub page_same : (t'.pages_ id ≡ internal_page p) × (places'.spot id ≡ place (suc height) lo hi)
    page_same =
        let w : within (places.spot id) height child_lo child_hi ≡ false = ground (arith, v.here) in
        (a.pages id v.given w ∙ v.page, a.same id v.given w ∙ v.here)

    sibling-Agree :
        (i : ℕ) → i < p.size_ → i ≢ at → Agree t t' places places' height (low p lo i) (high p hi i)
    sibling-Agree i b c =
        let (after, before) =
          After-Agree t t' places places' height child_lo child_hi (low p lo i) (high p hi i) a in
        elim (Bool-cases (ltb i at)) [
          | inl d ↦ before (
              child_order t places (suc height) lo hi id p v inside i at (ground arith) at_bounds.2)
          | inr d ↦
              after
                (child_order t places (suc height) lo hi id p v inside at i (ground (arith, c)) b)
        ]

    pub sibling :
        (i : ℕ)
        → i < p.size_
        → i ≢ at
        → Sound t' places' height (low p lo i) (high p hi i) (p.page_id_array_ i)
    sibling i b c =
        Sound-Agree t t' places places' height _ _ _ (bounds i b).2 (sibling-Agree i b c) (kids i b)

    sibling-Linked :
        (i : ℕ)
        → i < p.size_
        → i ≢ at
        → (next : ℕ) → Linked t height (p.page_id_array_ i) next
        → Linked t' height (p.page_id_array_ i) next
    sibling-Linked i b c next =
        Linked-Agree t t' places places' height _ _ _ next (bounds i b).2 (sibling-Agree i b c)
          (kids i b)

    child_firsts :
        first t' height (p.page_id_array_ at) ≡ first t height (p.page_id_array_ at)
        → (i : ℕ) → i < p.size_
        → first t' height (p.page_id_array_ i) ≡ first t height (p.page_id_array_ i)
    child_firsts e i b = elim (Bool-cases (i == at)) [
      | inl c ↦
          subst (λ j. first t' height (p.page_id_array_ j) ≡ first t height (p.page_id_array_ j))
            (ground (arith, c)) e
      | inr c ↦
          first-Agree t t' places places' height _ _ _ (bounds i b).2
            (sibling-Agree i b (ground (arith, c))) (kids i b)
    ]

    pub sibling_find :
        (q : IntegerKey)
        → lo ≤ order q
        → order q < hi
        → route p q ≢ at
        → find t' height (p.page_id_array_ (route p q)) q ≡ find t (suc height) id q
    sibling_find q d e c =
        let (f, g, h) = route_bounds t places (suc height) lo hi id p v inside q d e in
        find-Agree t t' places places' height _ _ _ (bounds (route p q) h).2
          (sibling-Agree (route p q) h c) (kids (route p q) h) q f g
        ∙ sym (find_page q)

    -- Another child's keys are not the new key.
    sibling_key : (q : IntegerKey) → route p q ≢ at → (order key == order q) ≡ false
    sibling_key q c =
        let s = route-Routes p v.rising v.used key in
        elim (Bool-cases (order key == order q)) [
          | inr e ↦ e
          | inl e ↦ absurd (
              c (
                Routes-unique p q (route p q) at (route-Routes p v.rising v.used q)
                  (s.0, λ j x y. ground (arith, s.1 j x y), λ j x y. ground (arith, s.2 j x y))))
        ]

  -- A child that grew leaves its page alone.
  pub branch-GrownTree :
      (t' : BPlusTree)
      → GrownTree t places height child_lo child_hi (p.page_id_array_ at) key value t'
      → GrownTree t places (suc height) lo hi id key value t'
  branch-GrownTree t' g =
      let a = g.after in
      let same = page_same t' g.places' a in
      let large =
        After-larger t t' places g.places' height lo hi child_lo child_hi (bounds at at_bounds.2).0
          (bounds at at_bounds.2).1 a in
      record {
        places' = g.places';
        same_cap = g.same_cap;
        absent = find_page key ∙ g.absent;
        after = large;
        sound = (
          p,
          record {
            page = same.0;
            given = omega (arith, v.given, a.more);
            here = same.1;
            used = v.used;
            rising = v.rising;
            above = v.above;
            below = v.below;
            fits = omega (arith, v.fits, g.same_cap);
            max = v.max ∙ sym a.internal_max;
          },
          λ i b. kid i b,
        );
        finds = λ q b d. rw same.0 (found q b d);
        same_first = rw (same.0, v.page) (child_firsts t' g.places' a g.same_first 0 v.used);
        linked = λ next l. (Linked-row t' height id next p same.0).1 (
            changed-RowLinked t t' height p at at_bounds.2
              (child_firsts t' g.places' a g.same_first) (sibling-Linked t' g.places' a) g.linked
              next ((Linked-row t height id next p v.page).0 l));
      }
    where
      kid :
          (i : ℕ)
          → i < p.size_
          → Sound t' g.places' height (low p lo i) (high p hi i) (p.page_id_array_ i)
      kid i b = elim (Bool-cases (i == at)) [
        | inl e ↦
            subst (λ j. Sound t' g.places' height (low p lo j) (high p hi j) (p.page_id_array_ j))
              (ground (arith, e)) g.sound
        | inr e ↦ sibling t' g.places' g.after i b (ground (arith, e))
      ]

      found :
          (q : IntegerKey)
          → lo ≤ order q
          → order q < hi
          → find t' height (p.page_id_array_ (route p q)) q
            ≡ (if order key == order q then some value else find t (suc height) id q)
      found q b d =
          let r = route_bounds t places (suc height) lo hi id p v inside q b d in
          elim (Bool-cases (route p q == at)) [
            | inl e ↦
                let same : route p q ≡ at = ground (arith, e) in
                rw (find_page q) (
                  subst
                    (λ j. find t' height (p.page_id_array_ j) q ≡ (
                      if order key == order q
                      then some value
                      else find t height (p.page_id_array_ j) q))
                    (sym same)
                    (g.finds q (subst (λ j. low p lo j ≤ order q) same r.0)
                      (subst (λ j. order q < high p hi j) same r.1)))
            | inr e ↦
                rw (sibling_key t' g.places' g.after q (ground (arith, e)))
                  (sibling_find t' g.places' g.after q b d (ground (arith, e)))
          ]

  -- A child that split asks for a new entry behind its own.
  module _ (t' : BPlusTree) (up_key : IntegerKey) (new_id : ℕ)
      (s : SplitTree t places height child_lo child_hi
        (p.page_id_array_ at)
        key
        value
        t'
        up_key
        new_id) where
    behind : Splits p.key_array_ up_key 1 p.size_ (at + 1)
    behind = (
      omega arith,
      omega (arith, at_bounds.2),
      λ i a b. ground (arith, s.up_lo, at_bounds.2, v.rising i at),
      λ i a b. ground (arith, s.up_hi, v.rising (at + 1) i),
    )

    pub index_behind : internal_key_index p up_key ≡ at + 1
    index_behind =
        Splits-unique p.key_array_ up_key 1 p.size_ _ _ (index-Splits p v.rising v.used up_key)
          behind

    abbrev pub whole : InternalPage
    whole = grown_page p (at + 1) up_key new_id

    fresh : at + 1 < p.size_ → order up_key < order (p.key_array_ (at + 1))
    fresh a = ground (arith, s.up_hi)

    pub whole-IsSorted : IsSorted whole.key_array_ 1 whole.size_
    whole-IsSorted = grown_page-IsSorted p v.rising (at + 1) up_key new_id behind fresh

    -- The children of the new page, each between its keys.
    whole_kid :
        (i : ℕ)
        → i < whole.size_
        → Sound t' s.places' height (low whole lo i) (high whole hi i) (whole.page_id_array_ i)
    whole_kid i a = elim (Bool-cases (ltb i at)) [
      | inl d ↦
          Sound-at t' s.places' height (ground arith) (ground (arith, at_bounds.2)) (ground arith)
            (sibling t' s.places' s.after i (ground (arith, at_bounds.2)) (ground arith))
      | inr d ↦ elim (Bool-cases (i == at)) [
        | inl e ↦
            Sound-at t' s.places' height (ground arith) (ground (arith, at_bounds.2)) (ground arith)
              s.left
        | inr e ↦ elim (Bool-cases (i == at + 1)) [
          | inl f ↦
              Sound-at t' s.places' height (ground arith) (ground arith) (ground arith) s.right
          | inr f ↦
              Sound-at t' s.places' height (ground arith) (ground arith) (ground arith)
                (sibling t' s.places' s.after (i - 1) (ground arith) (ground arith))
        ]
      ]
    ]

    pub whole-Row : Row t' s.places' height lo hi whole
    whole-Row = record {
      rising = whole-IsSorted;
      above = λ i a b. ground (arith, at_bounds.2, s.up_lo, v.above i, v.above (i - 1), v.above at);
      below = λ i a b.
          ground (arith, at_bounds.2, s.up_hi, v.below i, v.below (i - 1), v.below (at + 1));
      kids = whole_kid;
    }

    pub whole-RowLinked :
        (next : ℕ) → Linked t (suc height) id next → RowLinked t' height whole next
    whole-RowLinked next l =
        parted-RowLinked t t' height p at at_bounds.2
          (child_firsts t' s.places' s.after s.same_first) (sibling-Linked t' s.places' s.after)
          up_key new_id s.linked next ((Linked-row t height id next p v.page).0 l)

    pub whole_first : first t' height (whole.page_id_array_ 0) ≡ first t (suc height) id
    whole_first =
        let same : whole.page_id_array_ 0 ≡ p.page_id_array_ 0 = ground arith in
        rw (same, v.page) (child_firsts t' s.places' s.after s.same_first 0 v.used)

    -- Where the new page has a key's child.
    abbrev moved : ℕ → IntegerKey → ℕ
    moved i q =
        if ltb i at
        then i
        else (if i == at then (if ltb (order q) (order up_key) then i else at + 1) else i + 1)

    whole-Routes : (q : IntegerKey) → Routes whole q (moved (route p q) q)
    whole-Routes q = subst (Routes whole q) (ground arith) (
        grown_page-Routes p v.rising (at + 1) up_key new_id behind fresh q (route p q)
          (route-Routes p v.rising v.used q))

    abbrev pub find_whole : IntegerKey → Option Rid
    find_whole q = find t' height (whole.page_id_array_ (route whole q)) q

    -- What the two halves of the child find for its keys.
    found :
        (q : IntegerKey)
        → lo ≤ order q
        → order q < hi
        → route p q ≡ at
        → find t' height (if ltb (order q) (order up_key) then p.page_id_array_ at else new_id) q
          ≡ (if order key == order q then some value else find t (suc height) id q)
    found q b d e =
        let r = route_bounds t places (suc height) lo hi id p v inside q b d in
        let old : find t (suc height) id q ≡ find t height (p.page_id_array_ at) q =
          find_page q ∙ ap (λ j. find t height (p.page_id_array_ j) q) e in
        let child =
          s.finds q (subst (λ j. low p lo j ≤ order q) e r.0)
            (subst (λ j. order q < high p hi j) e r.1) in
        rw old (elim (Bool-cases (ltb (order q) (order up_key))) [
          | inl x ↦ rw x (ground (arith, x, child))
          | inr x ↦ rw x (ground (arith, x, child))
        ])

    pub whole-Finds : Finds lo hi key value (find t (suc height) id) find_whole
    whole-Finds q b d =
        let r = route_bounds t places (suc height) lo hi id p v inside q b d in
        let e =
          Routes-unique whole q (route whole q) (moved (route p q) q)
            (route-Routes whole whole-IsSorted (omega arith) q) (whole-Routes q) in
        rw e (elim (Bool-cases (route p q == at)) [
          | inl f ↦ ap (λ c. find t' height c q) (ground arith) ∙ found q b d (ground (arith, f))
          | inr f ↦ rw (sibling_key t' s.places' s.after q (ground (arith, f))) (
              ap (λ c. find t' height c q) (ground (arith, f))
              ∙ sibling_find t' s.places' s.after q b d (ground (arith, f)))
        ])
