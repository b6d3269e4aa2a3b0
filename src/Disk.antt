-- ===== src/Disk.antt =====
-- DiskManagerMemory (include/disk_manager_memory.h, src/disk_manager_memory.cpp). Each method holds
-- `latch_`, so each is one step; ReadPage lets go of it before it takes it anew for a page that it
-- has not found, and what another thread may do in between is left out. A page's 4096 bytes are one value of the type `D`, which the code
-- copies whole; `zero_page` is the page of zero bytes.
use bicycletub.Common.{
  ℕ, ◌≡◌, refl, List, Option, none, some, arith, length, Option-cases, inl, inr, Result, ok, err,
  runtime_error, ◌>>=◌, if◌then◌else◌, ◌==◌,
}
use bicycletub.Common.Assoc.{lookup, insert, erase, lookup-insert}

pub record DiskManagerMemory (D : Type 0) : Type 0 where
  pub pages_ : List (ℕ × D)

unfoldable pub deallocate_page : {D : Type 0} → DiskManagerMemory D → ℕ → DiskManagerMemory D
deallocate_page d p = record d { pages_ = erase p d.pages_ }

abbrev pub num_pages : {D : Type 0} → DiskManagerMemory D → ℕ
num_pages d = length d.pages_

module _ {D : Type 0} (zero_page : D) where
  unfoldable pub allocate_page : DiskManagerMemory D → ℕ → Result (DiskManagerMemory D)
  allocate_page d p = elim (lookup p d.pages_) [
    | some _ ↦ err runtime_error
    | none ↦ ok (record d { pages_ = insert p zero_page d.pages_ })
  ]

  -- The buffer's new contents come second. `pages_.find` after the allocation finds the page.
  abbrev pub read_found : DiskManagerMemory D → Option D → Result (DiskManagerMemory D × D)
  read_found d (some b) = ok (d, b)
  read_found d none = err runtime_error

  -- The second part, under the unique lock, with its own `find`.
  unfoldable read_locked : DiskManagerMemory D → ℕ → Result (DiskManagerMemory D × D)
  unfolding allocate_page
  read_locked d p = elim (lookup p d.pages_) [
    | some b ↦ ok (d, b)
    | none ↦ allocate_page d p >>= λ d'. read_found d' (lookup p d'.pages_)
  ]

  unfoldable pub read_page : DiskManagerMemory D → ℕ → Result (DiskManagerMemory D × D)
  unfolding read_locked
  read_page d p = elim (lookup p d.pages_) [ some b ↦ ok (d, b) | none ↦ read_locked d p ]

  unfoldable pub write_page : DiskManagerMemory D → ℕ → D → Result (DiskManagerMemory D)
  unfolding allocate_page
  write_page d p buf = elim (lookup p d.pages_) [
    | some _ ↦ ok (record d { pages_ = insert p buf d.pages_ })
    | none ↦ allocate_page d p >>= λ d'. ok (record d' { pages_ = insert p buf d'.pages_ })
  ]

  abbrev or_zero : Option D → D
  or_zero (some b) = b
  or_zero none = zero_page

  -- What a page holds: zero bytes until it is written.
  abbrev pub content : DiskManagerMemory D → ℕ → D
  content d p = or_zero (lookup p d.pages_)

  -- `ReadPage` never fails, gives the page's contents and changes no page's contents.
  pub read_page-content :
      (d : DiskManagerMemory D) (p : ℕ)
      → (d' : DiskManagerMemory D) × (read_page d p ≡ ok (d', content d p))
        × ((q : ℕ) → content d' q ≡ content d q)
  unfolding read_page
  read_page-content d p = elim (Option-cases (lookup p d.pages_)) [
    | inl e ↦ (
      record d { pages_ = insert p zero_page d.pages_ },
      ground (arith, lookup-insert p p zero_page d.pages_),
      λ q. ground (arith, lookup-insert p q zero_page d.pages_),
    )
    | inr (b, e) ↦ (d, ground arith, λ q. refl)
  ]

  -- `WritePage` never fails, and changes the contents of that page alone.
  pub write_page-content :
      (d : DiskManagerMemory D) (p : ℕ) (b : D)
      → (d' : DiskManagerMemory D) × (write_page d p b ≡ ok d')
        × ((q : ℕ) → content d' q ≡ (if p == q then b else content d q))
  unfolding write_page
  write_page-content d p b = elim (Option-cases (lookup p d.pages_)) [
    | inl e ↦ (
      record d { pages_ = insert p b (insert p zero_page d.pages_) },
      ground arith,
      λ q. ground (
        arith,
        lookup-insert p q b (insert p zero_page d.pages_),
        lookup-insert p q zero_page d.pages_,
      ),
    )
    | inr (_, e) ↦ (
      record d { pages_ = insert p b d.pages_ },
      ground arith,
      λ q. ground (arith, lookup-insert p q b d.pages_),
    )
  ]
