-- ===== src/Pool/Guard.antt =====
-- ReadPageGuard and WritePageGuard (include/page_guard.h, src/page_guard.cpp): their constructors,
-- `Drop`, and the access to the page. A moved-from guard is an invalid one.
use bicycletub.Common.{ℕ, Bool, true, false, Result, ok, ◌>>=◌, if◌then◌else◌, ◌==◌, add64, sub64}
use bicycletub.Frame.{Latch, lock, lock_shared, unlock, unlock_shared}
use bicycletub.Replacer.{ArcReplacer}
use bicycletub.Replacer
use bicycletub.Pool.{BufferPoolManager, PageGuard, update_frame}

-- Guards: the constructors, after the members are set, and `Drop`.
abbrev pub guard_of : ℕ → ℕ → PageGuard
guard_of p f = record { page_id_ = p; frame_ = f; is_valid_ = true }

-- The move constructor: the new guard, and the one that was moved from.
abbrev pub move_guard : PageGuard → PageGuard × PageGuard
move_guard that = (that, record that { is_valid_ = false })

module _ {D : Type 0} where
  -- `pin_count_.fetch_add(1); replacer_->SetEvictable(frame_id_, false)` under `bpm_latch_`.
  unfoldable pub pin : BufferPoolManager D → ℕ → Result (BufferPoolManager D)
  pin s f = Replacer.set_evictable s.replacer_ f false >>= λ r. ok (
      update_frame (record s { replacer_ = r }) f
        (record (s.frames_ f) { pin_count_ = add64 (s.frames_ f).pin_count_ 1 }))

  abbrev pub set_latch : BufferPoolManager D → ℕ → Latch → BufferPoolManager D
  set_latch s f l = update_frame s f (record (s.frames_ f) { rwlatch_ = l })

  unfoldable pub make_read_guard :
      BufferPoolManager D → ℕ → ℕ → Result (BufferPoolManager D × PageGuard)
  unfolding pin
  make_read_guard s p f = pin s f >>= λ s'.
      (lock_shared (s'.frames_ f).rwlatch_ >>= λ l. ok (set_latch s' f l, guard_of p f))

  unfoldable pub make_write_guard :
      BufferPoolManager D → ℕ → ℕ → Result (BufferPoolManager D × PageGuard)
  unfolding pin
  make_write_guard s p f =
      pin s f >>= λ s'. (lock (s'.frames_ f).rwlatch_ >>= λ l. ok (set_latch s' f l, guard_of p f))

  -- `pin_count_.fetch_sub(1)`, and `SetEvictable(frame_id_, true)` at zero.
  unfoldable pub unpin : BufferPoolManager D → ℕ → Result (BufferPoolManager D)
  unpin s f =
      let n = sub64 (s.frames_ f).pin_count_ 1 in
      let s' = update_frame s f (record (s.frames_ f) { pin_count_ = n }) in
      if n == 0
      then (Replacer.set_evictable s'.replacer_ f true >>= λ r. ok (record s' { replacer_ = r }))
      else ok s'

  unfoldable pub drop_read :
      BufferPoolManager D → PageGuard → Result (BufferPoolManager D × PageGuard)
  unfolding unpin
  drop_read s g =
      if g.is_valid_
      then (unpin (set_latch s g.frame_ (unlock_shared (s.frames_ g.frame_).rwlatch_)) g.frame_
          >>= λ s'. ok (s', record g { is_valid_ = false }))
      else ok (s, g)

  unfoldable pub drop_write :
      BufferPoolManager D → PageGuard → Result (BufferPoolManager D × PageGuard)
  unfolding unpin
  drop_write s g =
      if g.is_valid_
      then (unpin (set_latch s g.frame_ (unlock (s.frames_ g.frame_).rwlatch_)) g.frame_ >>= λ s'.
          ok (s', record g { is_valid_ = false }))
      else ok (s, g)

  -- The move assignment from another guard: `Drop`, and then the move.
  unfoldable pub assign_read :
      BufferPoolManager D
      → PageGuard
      → PageGuard
      → Result (BufferPoolManager D × PageGuard × PageGuard)
  assign_read s g that =
      drop_read s g >>= λ (s', _). ok (s', (move_guard that).0, (move_guard that).1)

  unfoldable pub assign_write :
      BufferPoolManager D
      → PageGuard
      → PageGuard
      → Result (BufferPoolManager D × PageGuard × PageGuard)
  assign_write s g that =
      drop_write s g >>= λ (s', _). ok (s', (move_guard that).0, (move_guard that).1)

  -- `As<T>()`, `IsDirty()`, and a write through `AsMut<T>()`, which marks the frame as dirty.
  abbrev pub get_data : BufferPoolManager D → PageGuard → D
  get_data s g = (s.frames_ g.frame_).data_

  abbrev pub is_dirty : BufferPoolManager D → PageGuard → Bool
  is_dirty s g = (s.frames_ g.frame_).is_dirty_

  abbrev pub write_data : BufferPoolManager D → PageGuard → D → BufferPoolManager D
  write_data s g b =
      update_frame s g.frame_ (record (s.frames_ g.frame_) { data_ = b; is_dirty_ = true })
