-- ===== src/Replacer/Walk.antt =====
-- The walk of `try_evict` from the back of a list of frames.
use bicycletub.Common.{
  ℕ, ◌+◌, ◌<◌, ◌≡◌, refl, true, List, [], ◌∷◌, ◌++◌, Option, none, some, arith, count, bit, bit_of,
  ◌==◌, ==_iff, Bool-cases, inl, inr, ap,
}
use bicycletub.Common.Assoc.{lookup}
use bicycletub.Replacer.{FrameStatus, Scan, nothing, found, dangling, test_frame, keep_front, scan}

module _ (alive : List (ℕ × FrameStatus)) where
  abbrev pub can_evict : ℕ → ℕ
  can_evict f = bit_of (λ (st : FrameStatus). st.evictable_) (lookup f alive)

  abbrev pub Explains : List ℕ → Scan → Type 0
  Explains l nothing = (g : ℕ) → 0 < count g l → can_evict g ≡ 0
  Explains l (found f st rest) =
      (lookup f alive ≡ some st)
      × (st.evictable_ ≡ true)
      × ((g : ℕ) → count g l ≡ count g rest + bit (f == g))
  Explains l dangling = (g : ℕ) × (0 < count g l) × (lookup g alive ≡ none)

  test-Explains :
      (f : ℕ) (fs : List ℕ) (o : Option FrameStatus)
      → lookup f alive ≡ o
      → Explains fs nothing
      → Explains (f ∷ fs) (test_frame f fs o)
  test-Explains f fs none e h = (f, ground arith, e)
  test-Explains f fs (some st) e h = elim (Bool-cases st.evictable_) [
    | inl good ↦ simp good (e, refl, λ g. omega arith)
    | inr bad ↦ simp bad (λ g p. elim (Bool-cases (f == g)) [
      | inl here ↦ ground (arith, ap can_evict ((==_iff f g).0 here))
      | inr there ↦ h g (ground arith)
    ])
  ]

  keep-Explains :
      (f : ℕ) (fs : List ℕ) (s : Scan)
      → Explains fs s
      → Explains (f ∷ fs) (keep_front f s (test_frame f fs (lookup f alive)))
  keep-Explains f fs nothing h = test-Explains f fs (lookup f alive) refl h
  keep-Explains f fs (found g st rest) h = (h.0, h.1, λ k. omega (arith, h.2 k))
  keep-Explains f fs dangling h = (h.0, omega arith, h.2)

  pub scan-Explains : (l : List ℕ) → Explains l (scan alive l)
  unfolding scan
  scan-Explains [] = λ g h. absurd (omega arith)
  scan-Explains (f ∷ fs) = keep-Explains f fs (scan alive fs) (scan-Explains fs)

  -- The walk splits the list at the frame that it takes: nothing behind it can be evicted.
  abbrev pub Splits : List ℕ → Scan → Type 0
  Splits l nothing = Unit
  Splits l (found f st rest) =
      (front : List ℕ) × (back : List ℕ) × (l ≡ front ++ f ∷ back)
      × (rest ≡ front ++ back)
      × ((g : ℕ) → 0 < count g back → can_evict g ≡ 0)
  Splits l dangling = Unit

  test-Splits :
      (f : ℕ) (fs : List ℕ) (o : Option FrameStatus)
      → Explains fs nothing
      → Splits (f ∷ fs) (test_frame f fs o)
  test-Splits f fs none h = tt
  test-Splits f fs (some st) h = elim (Bool-cases st.evictable_) [
    | inl good ↦ rw good ([], fs, refl, refl, h)
    | inr bad ↦ rw bad tt
  ]

  keep-Splits :
      (f : ℕ) (fs : List ℕ) (s : Scan)
      → Explains fs s
      → Splits fs s
      → Splits (f ∷ fs) (keep_front f s (test_frame f fs (lookup f alive)))
  keep-Splits f fs nothing h p = test-Splits f fs (lookup f alive) h
  keep-Splits f fs (found g st rest) h (front, back, e, e', p) =
      (f ∷ front, back, ap (◌∷◌ f) e, ap (◌∷◌ f) e', p)
  keep-Splits f fs dangling h p = tt

  pub scan-Splits : (l : List ℕ) → Splits l (scan alive l)
  unfolding scan
  scan-Splits [] = tt
  scan-Splits (f ∷ fs) = keep-Splits f fs (scan alive fs) (scan-Explains fs) (scan-Splits fs)
