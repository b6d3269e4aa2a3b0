-- ===== src/Pool/Calls.antt =====
-- The public methods of BufferPoolManager, and the guards' `Flush`.
use bicycletub.Common.{
  ℕ, Bool, true, false, List, [], ◌∷◌, Option, none, some, Result, ok, err, runtime_error, ◌>>=◌,
  if◌then◌else◌,
}
use bicycletub.Common.Assoc.{lookup}
use bicycletub.Frame.{lock}
use bicycletub.Replacer.{ArcReplacer}
use bicycletub.Replacer
use bicycletub.Scheduler.{run_request}
use bicycletub.Pool.{BufferPoolManager, PageGuard, update_frame, out_of_range}
use bicycletub.Pool.Guard.{make_read_guard, make_write_guard}
use bicycletub.Pool.Fetch.{page_switch, bring_in}

module _ {D : Type 0} (zero_page : D) where
  -- The rest of CheckedReadPage: `RecordAccess`, and the guard.
  abbrev pub read_guard :
      ℕ → BufferPoolManager D × Option ℕ → Result (BufferPoolManager D × Option PageGuard)
  read_guard p (s, none) = ok (s, none)
  read_guard p (s, some f) = do
    r ← Replacer.record_access s.replacer_ f p
    (s', g) ← make_read_guard (record s { replacer_ = r }) p f
    ok (s', some g)

  unfoldable pub checked_read_page :
      BufferPoolManager D → ℕ → Result (BufferPoolManager D × Option PageGuard)
  checked_read_page s p = bring_in zero_page s p >>= read_guard p

  abbrev pub write_guard :
      ℕ → BufferPoolManager D × Option ℕ → Result (BufferPoolManager D × Option PageGuard)
  write_guard p (s, none) = ok (s, none)
  write_guard p (s, some f) = do
    r ← Replacer.record_access s.replacer_ f p
    (s', g) ← make_write_guard (record s { replacer_ = r }) p f
    ok (s', some g)

  unfoldable pub checked_write_page :
      BufferPoolManager D → ℕ → Result (BufferPoolManager D × Option PageGuard)
  checked_write_page s p = bring_in zero_page s p >>= write_guard p

  abbrev pub or_throw :
      BufferPoolManager D × Option PageGuard → Result (BufferPoolManager D × PageGuard)
  or_throw (s, some g) = ok (s, g)
  or_throw (s, none) = err runtime_error

  unfoldable pub read_page : BufferPoolManager D → ℕ → Result (BufferPoolManager D × PageGuard)
  read_page s p = checked_read_page s p >>= or_throw

  unfoldable pub write_page : BufferPoolManager D → ℕ → Result (BufferPoolManager D × PageGuard)
  write_page s p = checked_write_page s p >>= or_throw

  abbrev pub clean : BufferPoolManager D → ℕ → BufferPoolManager D
  clean s f = update_frame s f (record (s.frames_ f) { is_dirty_ = false })

  -- The write of a frame under its latch, which is taken and given back.
  abbrev pub flush_frame : BufferPoolManager D → ℕ → ℕ → Result (BufferPoolManager D)
  flush_frame s p f = lock (s.frames_ f).rwlatch_ >>= λ _.
      (if (s.frames_ f).is_dirty_
        then (page_switch zero_page true p f s >>= λ s'. ok (clean s' f))
        else ok s)

  abbrev pub flush_found : BufferPoolManager D → ℕ → Option ℕ → Result (BufferPoolManager D × Bool)
  flush_found s p none = ok (s, false)
  flush_found s p (some f) = flush_frame s p f >>= λ s'. ok (s', true)

  unfoldable pub flush_page : BufferPoolManager D → ℕ → Result (BufferPoolManager D × Bool)
  flush_page s p =
      if out_of_range s p then ok (s, false) else flush_found s p (lookup p s.page_table_)

  -- The loop of FlushAllPages over the entries of `page_table_`.
  unfoldable pub flush_entries : List (ℕ × ℕ) → BufferPoolManager D → Result (BufferPoolManager D)
  flush_entries [] s = ok s
  flush_entries ((p, f) ∷ m) s = flush_frame s p f >>= flush_entries m

  unfoldable pub flush_all_pages : BufferPoolManager D → Result (BufferPoolManager D)
  flush_all_pages s = flush_entries s.page_table_ s

  -- `Flush` of either guard: the write, without the pool's counters.
  unfoldable pub flush : BufferPoolManager D → PageGuard → Result (BufferPoolManager D)
  flush s g =
      run_request zero_page s.disk_scheduler_ s.frames_
        (record { is_write_ = true; data_ = g.frame_; page_id_ = g.page_id_ })
      >>= λ (d, frames). ok (clean (record s { disk_scheduler_ = d; frames_ = frames }) g.frame_)
