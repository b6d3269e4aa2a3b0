-- ===== src/Pool/Fetch.antt =====
-- How the pool brings a page into a frame: `PageSwitch`, and the part of CheckedReadPage and
-- CheckedWritePage under `bpm_latch_`, which is the same text in both.
use bicycletub.Common.{
  ℕ, Bool, true, false, List, [], ◌∷◌, Option, none, some, Result, ok, ◌>>=◌, if◌then◌else◌, ◌==◌,
  add64,
}
use bicycletub.Common.Assoc.{lookup, insert, erase}
use bicycletub.Frame.{reset}
use bicycletub.Replacer.{ArcReplacer}
use bicycletub.Replacer
use bicycletub.Scheduler.{run_request}
use bicycletub.Pool.{BufferPoolManager, update_frame, out_of_range}

-- The first entry of `page_table_` that has the frame.
unfoldable pub page_of : ℕ → List (ℕ × ℕ) → Option ℕ
page_of f [] = none
page_of f ((p, g) ∷ m) = if g == f then some p else page_of f m

module _ {D : Type 0} (zero_page : D) where
  -- `PageSwitch`, which always returns true.
  unfoldable pub page_switch : Bool → ℕ → ℕ → BufferPoolManager D → Result (BufferPoolManager D)
  unfolding run_request
  page_switch w p f s =
      run_request zero_page s.disk_scheduler_ s.frames_
        (record { is_write_ = w; data_ = f; page_id_ = p })
      >>= λ (d, frames). ok (record s {
        disk_scheduler_ = d;
        frames_ = frames;
        disk_writes_ = if w then add64 s.disk_writes_ 1 else s.disk_writes_;
        disk_reads_ = if w then s.disk_reads_ else add64 s.disk_reads_ 1;
      })

  -- `frames_[frame_id]->Reset()` and the read of the page.
  abbrev pub reset_frame : BufferPoolManager D → ℕ → BufferPoolManager D
  reset_frame s f = update_frame s f (reset zero_page (s.frames_ f))

  abbrev pub count_miss : BufferPoolManager D → BufferPoolManager D
  count_miss s = record s { cache_misses_ = add64 s.cache_misses_ 1 }

  unfoldable pub load_free :
      BufferPoolManager D → ℕ → ℕ → List ℕ → Result (BufferPoolManager D × Option ℕ)
  load_free s p f rest =
      page_switch false p f
        (reset_frame (record s { free_frames_ = rest; page_table_ = insert p f s.page_table_ }) f)
      >>= λ s'. ok (count_miss s', some f)

  -- The loop over `page_table_`: the page that leaves the frame is written if it is dirty.
  unfoldable pub write_back : BufferPoolManager D → ℕ → Option ℕ → Result (BufferPoolManager D)
  write_back s f none = ok s
  write_back s f (some q) =
      (if (s.frames_ f).is_dirty_ then page_switch true q f s else ok s) >>= λ s'.
      ok (record s' { page_table_ = erase q s'.page_table_ })

  unfoldable pub load_evicted :
      BufferPoolManager D → ℕ → ℕ → Result (BufferPoolManager D × Option ℕ)
  load_evicted s p f = write_back s f (page_of f s.page_table_) >>= λ s'.
      (page_switch false p f (reset_frame s' f) >>= λ s''.
      ok (count_miss (record s'' { page_table_ = insert p f s''.page_table_ }), some f))

  abbrev pub evict_for :
      BufferPoolManager D → ℕ → ArcReplacer × Option ℕ → Result (BufferPoolManager D × Option ℕ)
  evict_for s p (r, none) = ok (record s { replacer_ = r }, none)
  evict_for s p (r, some f) = load_evicted (record s { replacer_ = r }) p f

  abbrev pub miss : BufferPoolManager D → ℕ → List ℕ → Result (BufferPoolManager D × Option ℕ)
  miss s p (f ∷ rest) = load_free s p f rest
  miss s p [] = Replacer.evict s.replacer_ >>= evict_for s p

  abbrev pub find_frame :
      BufferPoolManager D → ℕ → Option ℕ → Result (BufferPoolManager D × Option ℕ)
  find_frame s p (some f) = ok (record s { cache_hits_ = add64 s.cache_hits_ 1 }, some f)
  find_frame s p none = miss s p s.free_frames_

  -- The part under `bpm_latch_` that CheckedReadPage and CheckedWritePage share.
  unfoldable pub bring_in : BufferPoolManager D → ℕ → Result (BufferPoolManager D × Option ℕ)
  bring_in s p = if out_of_range s p then ok (s, none) else find_frame s p (lookup p s.page_table_)
