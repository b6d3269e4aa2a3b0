-- ===== src/Removal/Rekeyed.antt =====
-- A new key between two neighbouring children that have lent each other an entry.
use bicycletub.Common.{
  ℕ, suc, ◌+◌, ◌<◌, ◌≤◌, ◌≡◌, refl, sym, ap, ◌∙◌, arith, ltb, ◌==◌, if◌then◌else◌, ◌||◌, ◌⊎◌,
  Bool-cases, inl, inr,
}
use bicycletub.Tree.{internal_page, InternalPage, IntegerKey}
use bicycletub.Tree.Search.{order, IsSorted}
use bicycletub.Tree.Internal.{Routes}
use bicycletub.Tree.Lookup.{low, high}
use bicycletub.Parent.Route.{route, route-Routes, Routes-unique}
use bicycletub.Insertion.{BPlusTree}
use bicycletub.Insertion.Sound.{Places, BranchAt, Sound, find, route_bounds}
use bicycletub.Insertion.Change.{After}
use bicycletub.Insertion.Branch.{Sound-at}
use bicycletub.Removal.{put_key}
use bicycletub.Removal.Above.{
  Mended, stored, stored-After, page_there, beside, beside_find, kept_child,
}

module _ (t : BPlusTree) (places : Places) (height lo hi id : ℕ) (p : InternalPage)
    (v : BranchAt t places (suc height) lo hi id p)
    (kids : (i : ℕ)
      → i < p.size_
      → Sound t places height (low p lo i) (high p hi i) (p.page_id_array_ i))
    (inside : lo < hi) (a : ℕ) (two : a + 1 < p.size_) (t1 : BPlusTree) (places1 : Places)
    (after : After t t1 places places1 height (low p lo a) (high p hi (a + 1))) (key : IntegerKey)
    (key_lo : low p lo a < order key) (key_hi : order key < high p hi (a + 1))
    (left : Sound t1 places1 height (low p lo a) (order key) (p.page_id_array_ a))
    (right : Sound t1 places1 height (order key) (high p hi (a + 1)) (p.page_id_array_ (a + 1)))
    (found : (q : IntegerKey)
      → low p lo a ≤ order q
      → order q < high p hi (a + 1)
      → (if ltb (order q) (order key)
          then find t1 height (p.page_id_array_ a) q
          else find t1 height (p.page_id_array_ (a + 1)) q)
        ≡ (if ltb (order q) (order (p.key_array_ (a + 1)))
            then find t height (p.page_id_array_ a) q
            else find t height (p.page_id_array_ (a + 1)) q)) where
  abbrev p' : InternalPage
  p' = put_key p (a + 1) key

  abbrev t' : BPlusTree
  t' = stored t places height lo hi id p v kids inside a two t1 places1 after p'

  p'-IsSorted : IsSorted p'.key_array_ 1 p'.size_
  p'-IsSorted i j b c d = ground (
    arith,
    two,
    v.rising i j,
    v.rising a j,
    v.rising i a,
    v.rising i (a + 2),
    v.rising (a + 2) j,
    v.rising (a + 1) j,
    v.rising i (a + 1),
  )

  kid :
      (i : ℕ)
      → i < p'.size_
      → Sound t' places1 height (low p' lo i) (high p' hi i) (p'.page_id_array_ i)
  kid i b = elim (Bool-cases (i == a)) [
    | inl e ↦
        Sound-at t' places1 height (ground arith) (ground (arith, two)) (ground arith)
          (kept_child t places height lo hi id p v kids inside a two t1 places1 after p' _ _ _
            key_lo left).0
    | inr e ↦ elim (Bool-cases (i == a + 1)) [
      | inl f ↦
          Sound-at t' places1 height (ground arith) (ground (arith, two)) (ground arith)
            (kept_child t places height lo hi id p v kids inside a two t1 places1 after p' _ _ _
              key_hi right).0
      | inr f ↦ Sound-at t' places1 height (ground arith) (ground arith) (ground arith) (
          beside t places height lo hi id p v kids inside a two t1 places1 after p' i b
            (ground (arith, e)) (ground (arith, f)))
    ]
  ]

  -- Where the page sends a key.
  abbrev sends : ℕ → IntegerKey → ℕ
  sends i q =
      if (i == a) || (i == a + 1) then (if ltb (order q) (order key) then a else a + 1) else i

  sends-Routes : (q : IntegerKey) → Routes p' q (sends (route p q) q)
  sends-Routes q =
      let r = route-Routes p v.rising v.used q in
      (
        ground (arith, r.0, two),
        λ j b c. ground (
          arith,
          r.0,
          two,
          r.1 j,
          r.1 a,
          r.1 (a + 1),
          r.1 (a + 2),
          r.2 (a + 2),
          r.2 (a + 1),
          v.rising j a,
          v.rising j (a + 1),
          key_lo,
        ),
        λ j b c. ground (
          arith,
          r.0,
          two,
          r.2 j,
          r.2 a,
          r.2 (a + 1),
          r.2 (a + 2),
          r.1 a,
          v.rising (a + 1) j,
          v.rising (a + 2) j,
          key_hi,
        ),
      )

  abbrev FindsAll : IntegerKey → Type 0
  FindsAll q = find t' (suc height) id q ≡ find t (suc height) id q

  old_find :
      (q : IntegerKey) → find t (suc height) id q ≡ find t height (p.page_id_array_ (route p q)) q
  old_find q = rw v.page refl

  new_find :
      (q : IntegerKey)
      → find t' (suc height) id q ≡ find t' height (p.page_id_array_ (sends (route p q) q)) q
  new_find q =
      let page : t'.pages_ id ≡ internal_page p' = ground arith in
      let used : 0 < p'.size_ = omega (arith, two) in
      let e =
        Routes-unique p' q (route p' q) (sends (route p q) q) (route-Routes p' p'-IsSorted used q)
          (sends-Routes q) in
      rw (page, e) refl

  kept_left :
      (q : IntegerKey)
      → low p lo a ≤ order q
      → order q < order key
      → find t' height (p.page_id_array_ a) q ≡ find t1 height (p.page_id_array_ a) q
  kept_left =
      (kept_child t places height lo hi id p v kids inside a two t1 places1 after p' _ _ _ key_lo
        left).1

  kept_right :
      (q : IntegerKey)
      → order key ≤ order q
      → order q < high p hi (a + 1)
      → find t' height (p.page_id_array_ (a + 1)) q ≡ find t1 height (p.page_id_array_ (a + 1)) q
  kept_right =
      (kept_child t places height lo hi id p v kids inside a two t1 places1 after p' _ _ _ key_hi
        right).1

  -- The keys of the two children.
  pair_find :
      (q : IntegerKey)
      → low p lo a ≤ order q
      → order q < high p hi (a + 1)
      → (if ltb (order q) (order key)
          then find t' height (p.page_id_array_ a) q
          else find t' height (p.page_id_array_ (a + 1)) q)
        ≡ (if ltb (order q) (order (p.key_array_ (a + 1)))
            then find t height (p.page_id_array_ a) q
            else find t height (p.page_id_array_ (a + 1)) q)
  pair_find q b c = elim (Bool-cases (ltb (order q) (order key))) [
    | inl e ↦ ground (arith, e, kept_left q b, found q b c)
    | inr e ↦ ground (arith, e, kept_right q (ground (arith, e)) c, found q b c)
  ]

  rekeyed_find : (q : IntegerKey) → lo ≤ order q → order q < hi → FindsAll q
  rekeyed_find q b c =
      let i = route p q in
      let (d, e, f) = route_bounds t places (suc height) lo hi id p v inside q b c in
      let r = route-Routes p v.rising v.used q in
      new_find q
      ∙ (elim (Bool-cases ((i == a) || (i == a + 1))) [
        | inr x ↦
            ap (λ j. find t' height (p.page_id_array_ j) q) (ground (arith, x))
            ∙ beside_find t places height lo hi id p v kids inside a two t1 places1 after p' i f
                (ground (arith, x)) (ground (arith, x)) q d e
        | inl x ↦
            let in_lo : low p lo a ≤ order q = ground (arith, x, r.1 a) in
            let in_hi : order q < high p hi (a + 1) = ground (arith, x, r.2 (a + 2), c) in
            let side : ltb (order q) (order (p.key_array_ (a + 1))) ≡ (i == a) =
              ground (arith, x, r.1 (a + 1), r.2 (a + 1)) in
            ap (λ j. find t' height (p.page_id_array_ j) q) (ground (arith, x))
            ∙ by_side q i (ground (arith, x)) side (pair_find q in_lo in_hi)
      ])
      ∙ sym (old_find q)
    where
      by_side :
          (q : IntegerKey) (i : ℕ)
          → (i ≡ a) ⊎ (i ≡ a + 1)
          → ltb (order q) (order (p.key_array_ (a + 1))) ≡ (i == a)
          → (if ltb (order q) (order key)
              then find t' height (p.page_id_array_ a) q
              else find t' height (p.page_id_array_ (a + 1)) q)
            ≡ (if ltb (order q) (order (p.key_array_ (a + 1)))
                then find t height (p.page_id_array_ a) q
                else find t height (p.page_id_array_ (a + 1)) q)
          → find t' height (p.page_id_array_ (if ltb (order q) (order key) then a else a + 1)) q
            ≡ find t height (p.page_id_array_ i) q
      by_side q i (inl f) side e = elim (Bool-cases (ltb (order q) (order key))) [
        | inl g ↦ rw (g, f) (ground (arith, e, g, side, f))
        | inr g ↦ rw (g, f) (ground (arith, e, g, side, f))
      ]
      by_side q i (inr f) side e = elim (Bool-cases (ltb (order q) (order key))) [
        | inl g ↦ rw (g, f) (ground (arith, e, g, side, f))
        | inr g ↦ rw (g, f) (ground (arith, e, g, side, f))
      ]

  pub rekeyed-Mended : Mended t places (suc height) lo hi id t' places1
  rekeyed-Mended = record {
    after = stored-After t places height lo hi id p v kids inside a two t1 places1 after p';
    sound = (
      p',
      record {
        page = ground arith;
        given = omega (arith, v.given, after.more);
        here = (page_there t places height lo hi id p v kids inside a two t1 places1 after).1;
        used = omega (arith, two);
        rising = p'-IsSorted;
        above = λ i b c. ground (arith, two, v.above i, v.above a, key_lo);
        below = λ i b c. ground (arith, two, v.below i, v.below (a + 2), key_hi);
        fits = omega (arith, v.fits, after.cap);
        max = v.max ∙ sym after.internal_max;
      },
      kid,
    );
    finds = rekeyed_find;
  }
