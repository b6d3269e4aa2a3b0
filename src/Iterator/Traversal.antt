-- ===== src/Iterator/Traversal.antt =====
-- A traversal with the iterator passes every entry of the leaves, in order.
use bicycletub.Common.{
  ℕ, zero, suc, ◌+◌, ◌<◌, ◌≡◌, ◌≢◌, refl, arith, false, List, [], ◌∷◌, ◌++◌, length, Result, ok,
  blocked, ◌>>=◌, if◌then◌else◌, half32, minus_one, subst,
}
use bicycletub.Tree.{LeafPage, IntegerKey, Rid}
use bicycletub.Iterator.{IndexIterator, is_end, dereference, entry_at, step_from, increment}

-- The entries of a leaf from `i` on, `n` of them.
abbrev pub entries : LeafPage → ℕ → ℕ → List (IntegerKey × Rid)
entries p i zero = []
entries p i (suc n) = (p.key_array_ i, p.rid_array_ i) ∷ entries p (i + 1) n

-- All entries of the leaves.
abbrev pub all_entries : List LeafPage → List (IntegerKey × Rid)
all_entries [] = []
all_entries (p ∷ ps) = entries p 0 p.size_ ++ all_entries ps

module _ (read : ℕ → Result LeafPage) where
  -- The leaf `p` on the page, and behind it the leaves `ps`, which are not empty.
  abbrev pub Chain : ℕ → LeafPage → List LeafPage → Type 0
  Chain id p [] = (read id ≡ ok p) × (p.size_ < half32) × (p.next_page_id_ ≡ minus_one)
  Chain id p (q ∷ qs) =
      (read id ≡ ok p)
      × (p.size_ < half32)
      × (p.next_page_id_ ≢ minus_one)
      × (0 < q.size_)
      × Chain p.next_page_id_ q qs

  abbrev pub at : ℕ → ℕ → IndexIterator
  at id i = record { page_id_ = id; index_ = i }

  -- The loop of a client: until `IsEnd()`, `*it` and then `++it`.
  unfoldable pub traverse : ℕ → IndexIterator → Result (List (IntegerKey × Rid))
  traverse zero it = blocked
  traverse (suc fuel) it = do
    e ← is_end read it
    if e then ok [] else (do
      x ← dereference read it
      it' ← increment read it
      xs ← traverse fuel it'
      ok (x ∷ xs))

  module _ (id i : ℕ) (p : LeafPage) (here : read id ≡ ok p) (small : p.size_ < half32)
      (inside : i < p.size_) where
    not_end : is_end read (at id i) ≡ ok false
    unfolding is_end
    not_end = simp here (ground arith)

    pub dereference-here : dereference read (at id i) ≡ ok (entry_at read p i)
    unfolding dereference
    dereference-here = simp (not_end, here) (ground arith)

    increment-here : increment read (at id i) ≡ ok (step_from read (at id i) p)
    unfolding increment
    increment-here = simp (not_end, here) (ground arith)

    traverse-one :
        (fuel : ℕ) (xs : List (IntegerKey × Rid))
        → traverse fuel (step_from read (at id i) p) ≡ ok xs
        → traverse (suc fuel) (at id i) ≡ ok (entry_at read p i ∷ xs)
    unfolding traverse
    traverse-one fuel xs e = simp (not_end, dereference-here, increment-here, e) refl

  -- What is left from the position `i` with `n` entries of the leaf behind it.
  abbrev rest_of : LeafPage → List LeafPage → ℕ → ℕ → List (IntegerKey × Rid)
  rest_of p ps i n = entries p i n ++ all_entries ps

  traverse-last :
      (fuel id : ℕ) (p : LeafPage) → Chain id p [] → traverse (suc fuel) (at id p.size_) ≡ ok []
  unfolding traverse is_end
  traverse-last fuel id p (here, small, last) = simp (here, last) (ground arith)

  step_in :
      (id i : ℕ) (p : LeafPage)
      → p.size_ < half32
      → i < p.size_
      → (i + 1 ≡ p.size_ → p.next_page_id_ ≡ minus_one)
      → step_from read (at id i) p ≡ at id (i + 1)
  step_in id i p small inside stays = ground arith

  step_over :
      (id i : ℕ) (p : LeafPage)
      → p.size_ < half32
      → i + 1 ≡ p.size_
      → p.next_page_id_ ≢ minus_one
      → step_from read (at id i) p ≡ at p.next_page_id_ 0
  step_over id i p small last more = ground arith

  traverse-rest :
      (fuel id i : ℕ) (p : LeafPage) (ps : List LeafPage) (n : ℕ)
      → Chain id p ps
      → i + n ≡ p.size_
      → (n ≡ 0 → ps ≡ [])
      → length (rest_of p ps i n) < fuel
      → traverse fuel (at id i) ≡ ok (rest_of p ps i n)
  traverse-rest zero id i p ps n c e z h = absurd (omega arith)
  traverse-rest (suc fuel) id i p [] zero c e z h =
      subst (λ k. traverse (suc fuel) (at id k) ≡ ok []) (omega (arith, e))
        (traverse-last fuel id p c)
  traverse-rest (suc fuel) id i p (q ∷ qs) zero c e z h = absurd (ground (arith, z refl))
  traverse-rest (suc fuel) id i p [] (suc m) c e z h =
      let inside : i < p.size_ = omega (arith, e) in
      traverse-one id i p c.0 c.1 inside fuel _ (
        rw (step_in id i p c.1 inside (λ k. c.2)) (
          traverse-rest fuel id (i + 1) p [] m c (omega (arith, e)) (λ k. refl) (omega (arith, h))))
  traverse-rest (suc fuel) id i p (q ∷ qs) (suc zero) c e z h =
      traverse-one id i p c.0 c.1 (omega (arith, e)) fuel _ (
        rw (step_over id i p c.1 e c.2) (
          traverse-rest fuel p.next_page_id_ 0 q qs q.size_ c.4 (omega arith)
            (λ k. absurd (omega (arith, k, c.3))) (omega (arith, h))))
  traverse-rest (suc fuel) id i p (q ∷ qs) (suc (suc m)) c e z h =
      let inside : i < p.size_ = omega (arith, e) in
      traverse-one id i p c.0 c.1 inside fuel _ (
        rw (step_in id i p c.1 inside (λ k. absurd (omega (arith, e, k)))) (
          traverse-rest fuel id (i + 1) p (q ∷ qs) (suc m) c (omega (arith, e))
            (λ k. absurd (omega (arith, k))) (omega (arith, h))))

  -- From the first position of a chain of leaves, of which the ones behind the first are not
  -- empty, a traversal returns every entry of the leaves in order, with more fuel than entries.
  -- On a single empty leaf the first position is already the end.
  pub traverse-all_entries :
      (fuel id : ℕ) (p : LeafPage) (ps : List LeafPage)
      → Chain id p ps
      → (p.size_ ≡ 0 → ps ≡ [])
      → length (all_entries (p ∷ ps)) < fuel
      → traverse fuel (at id 0) ≡ ok (all_entries (p ∷ ps))
  traverse-all_entries fuel id p ps c z h = traverse-rest fuel id 0 p ps p.size_ c (omega arith) z h
