-- ===== src/Removal/Fewer.antt =====
-- One child in the place of two neighbouring ones that have become one page.
use bicycletub.Common.{
  ℕ, suc, ◌+◌, ◌-◌, ◌<◌, ◌≤◌, ◌≡◌, refl, sym, ap, ◌∙◌, arith, ltb, leb, ◌==◌, if◌then◌else◌, ◌||◌,
  Bool-cases, inl, inr,
}
use bicycletub.Tree.{internal_page, InternalPage, IntegerKey}
use bicycletub.Tree.Search.{order, IsSorted}
use bicycletub.Tree.Internal.{Routes}
use bicycletub.Tree.Lookup.{low, high}
use bicycletub.Parent.Route.{route, route-Routes, Routes-unique}
use bicycletub.Insertion.{BPlusTree}
use bicycletub.Insertion.Sound.{Places, BranchAt, Sound, find, route_bounds}
use bicycletub.Insertion.Change.{After}
use bicycletub.Insertion.Branch.{Sound-at}
use bicycletub.Removal.Joined.{Shorter}
use bicycletub.Removal.Above.{
  Mended, stored, stored-After, page_there, beside, beside_find, kept_child,
}

module _ (t : BPlusTree) (places : Places) (height lo hi id : ℕ) (p : InternalPage)
    (v : BranchAt t places (suc height) lo hi id p)
    (kids : (i : ℕ)
      → i < p.size_
      → Sound t places height (low p lo i) (high p hi i) (p.page_id_array_ i))
    (inside : lo < hi) (a : ℕ) (two : a + 1 < p.size_) (t1 : BPlusTree) (places1 : Places)
    (after : After t t1 places places1 height (low p lo a) (high p hi (a + 1)))
    (span : low p lo a < high p hi (a + 1))
    (whole : Sound t1 places1 height (low p lo a) (high p hi (a + 1)) (p.page_id_array_ a))
    (found : (q : IntegerKey)
      → low p lo a ≤ order q
      → order q < high p hi (a + 1)
      → find t1 height (p.page_id_array_ a) q ≡ (
          if ltb (order q) (order (p.key_array_ (a + 1)))
          then find t height (p.page_id_array_ a) q
          else find t height (p.page_id_array_ (a + 1)) q))
    (p' : InternalPage) (s : Shorter p (a + 1) p') where
  abbrev t' : BPlusTree
  t' = stored t places height lo hi id p v kids inside a two t1 places1 after p'

  p'-IsSorted : IsSorted p'.key_array_ 1 p'.size_
  p'-IsSorted i j b c d = ground (
    arith,
    s.size,
    s.keys i,
    s.keys j,
    v.rising i j,
    v.rising i (j + 1),
    v.rising (i + 1) (j + 1),
  )

  -- The child's position before.
  abbrev was : ℕ → ℕ
  was i = if leb i a then i else i + 1

  kid :
      (i : ℕ)
      → i < p'.size_
      → Sound t' places1 height (low p' lo i) (high p' hi i) (p'.page_id_array_ i)
  kid i b = elim (Bool-cases (i == a)) [
    | inl e ↦
        Sound-at t' places1 height (ground (arith, e, s.size, s.keys i))
          (ground (arith, e, two, s.size, s.keys (i + 1))) (ground (arith, e, s.children i b))
          (kept_child t places height lo hi id p v kids inside a two t1 places1 after p' _ _ _ span
            whole).0
    | inr e ↦
        Sound-at t' places1 height (ground (arith, e, s.size, s.keys i))
          (ground (arith, e, s.size, s.keys (i + 1))) (ground (arith, e, s.children i b))
          (beside t places height lo hi id p v kids inside a two t1 places1 after p' (was i)
            (ground (arith, s.size)) (ground (arith, e)) (ground (arith, e)))
  ]

  -- Where the page sends a key.
  abbrev sends : ℕ → ℕ
  sends i = if leb i a then i else i - 1

  sends-Routes : (q : IntegerKey) → Routes p' q (sends (route p q))
  sends-Routes q =
      let r = route-Routes p v.rising v.used q in
      (
        ground (arith, r.0, s.size, two),
        λ j b c. ground (arith, r.0, s.size, s.keys j, r.1 j, r.1 (j + 1)),
        λ j b c. ground (arith, r.0, s.size, s.keys j, r.2 j, r.2 (j + 1)),
      )

  old_find :
      (q : IntegerKey) → find t (suc height) id q ≡ find t height (p.page_id_array_ (route p q)) q
  old_find q = rw v.page refl

  new_find :
      (q : IntegerKey)
      → find t' (suc height) id q ≡ find t' height (p'.page_id_array_ (sends (route p q))) q
  new_find q =
      let page : t'.pages_ id ≡ internal_page p' = ground arith in
      let used : 0 < p'.size_ = omega (arith, two, s.size) in
      let e =
        Routes-unique p' q (route p' q) (sends (route p q)) (route-Routes p' p'-IsSorted used q)
          (sends-Routes q) in
      rw (page, e) refl

  joined_find :
      (q : IntegerKey)
      → low p lo a ≤ order q
      → order q < high p hi (a + 1)
      → find t' height (p.page_id_array_ a) q ≡ (
          if ltb (order q) (order (p.key_array_ (a + 1)))
          then find t height (p.page_id_array_ a) q
          else find t height (p.page_id_array_ (a + 1)) q)
  joined_find q b c =
      (kept_child t places height lo hi id p v kids inside a two t1 places1 after p' _ _ _ span
          whole).1
        q b c
      ∙ found q b c

  fewer_find :
      (q : IntegerKey)
      → lo ≤ order q
      → order q < hi
      → find t' (suc height) id q ≡ find t (suc height) id q
  fewer_find q b c =
      let i = route p q in
      let (d, e, f) = route_bounds t places (suc height) lo hi id p v inside q b c in
      let r = route-Routes p v.rising v.used q in
      new_find q
      ∙ (elim (Bool-cases ((i == a) || (i == a + 1))) [
        | inr x ↦
            let same : p'.page_id_array_ (sends i) ≡ p.page_id_array_ i =
              ground (arith, x, f, s.size, s.children (sends i)) in
            ap (λ j. find t' height j q) same
            ∙ beside_find t places height lo hi id p v kids inside a two t1 places1 after p' i f
                (ground (arith, x)) (ground (arith, x)) q d e
        | inl x ↦
            let in_lo : low p lo a ≤ order q = ground (arith, x, r.1 a) in
            let in_hi : order q < high p hi (a + 1) = ground (arith, x, r.2 (a + 2), c) in
            let same : p'.page_id_array_ (sends i) ≡ p.page_id_array_ a =
              ground (arith, x, two, s.size, s.children (sends i)) in
            let pair : (if ltb (order q) (order (p.key_array_ (a + 1)))
                  then find t height (p.page_id_array_ a) q
                  else find t height (p.page_id_array_ (a + 1)) q)
                ≡ find t height (p.page_id_array_ i) q =
              ground (arith, x, r.1 (a + 1), r.2 (a + 1)) in
            ap (λ j. find t' height j q) same ∙ joined_find q in_lo in_hi ∙ pair
      ])
      ∙ sym (old_find q)

  pub fewer-Mended : Mended t places (suc height) lo hi id t' places1
  fewer-Mended = record {
    after = stored-After t places height lo hi id p v kids inside a two t1 places1 after p';
    sound = (
      p',
      record {
        page = ground arith;
        given = omega (arith, v.given, after.more);
        here = (page_there t places height lo hi id p v kids inside a two t1 places1 after).1;
        used = omega (arith, two, s.size);
        rising = p'-IsSorted;
        above = λ i b c. ground (arith, s.size, s.keys i, v.above i, v.above (i + 1));
        below = λ i b c. ground (arith, s.size, s.keys i, v.below i, v.below (i + 1));
        fits = omega (arith, v.fits, s.size, after.cap);
        max = s.max ∙ v.max ∙ sym after.internal_max;
      },
      kid,
    );
    finds = fewer_find;
  }
