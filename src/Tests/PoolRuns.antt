-- ===== src/Tests/PoolRuns.antt =====
-- A pool of two frames over pages that hold one number each.
use bicycletub.Common.{
  ℕ, ◌+◌, ◌<◌, ◌≡◌, refl, true, false, [], ◌∷◌, Option, some, arith, Result, ok, err, blocked,
  ◌>>=◌, word64, runtime_error, if◌then◌else◌, ◌==◌,
}
use bicycletub.Common.Assoc.{lookup, insert, erase}
use bicycletub.Disk
use bicycletub.Disk.{DiskManagerMemory, content, read_page-content, write_page-content}
use bicycletub.Frame.{lock, lock_shared, unlock, unlock_shared}
use bicycletub.Scheduler.{schedule, run_worker, run_request}
use bicycletub.Replacer
use bicycletub.Pool.{BufferPoolManager, PageGuard, init, count_up, new_page}
use bicycletub.Pool.Guard.{
  pin, unpin, make_read_guard, make_write_guard, drop_read, drop_write, write_data, guard_of,
  get_data,
}
use bicycletub.Pool.Fetch.{page_switch, load_free, page_of, write_back, load_evicted, bring_in}
use bicycletub.Pool.Calls.{
  checked_read_page, checked_write_page, read_page, write_page, flush_page, flush_entries,
  flush_all_pages, flush,
}
use bicycletub.Pool.Switch.{on_disk}
use bicycletub.Pool.Invariant.{Inv, view, init-Inv, new_page-Inv}
use bicycletub.Pool.Checked.{checked_read_page-Outcome, checked_write_page-Outcome}
use bicycletub.Pool.Acquire.{is_held}
use bicycletub.Pool.Release.{Freed, drop_read-Freed, drop_write-Freed, write_data-Inv}
use bicycletub.Pool.Flush.{FlushOutcome, flush_page-Outcome, flush_all_pages_durable}

program : Unit {0}
unfolding lookup insert erase Disk.allocate_page Disk.read_page Disk.write_page lock lock_shared
    schedule run_worker run_request Replacer.init Replacer.set_evictable Replacer.scan
    Replacer.try_evict Replacer.both Replacer.over_target Replacer.under_target Replacer.evict
    Replacer.record_access count_up init new_page pin unpin make_read_guard make_write_guard
    drop_read drop_write page_switch load_free page_of write_back load_evicted bring_in
    checked_read_page checked_write_page read_page write_page flush_page flush_entries
    flush_all_pages flush
program = tt

abbrev disk : DiskManagerMemory ℕ
disk = record { pages_ = (1, 77) ∷ [] }

-- Two frames, and three page ids given out.
abbrev fresh : BufferPoolManager ℕ
fresh = (new_page (new_page (new_page (init 0 2 disk)).0).0).0

abbrev after_guard : Result (BufferPoolManager ℕ × Option PageGuard) → BufferPoolManager ℕ
after_guard (ok (s, g)) = s
after_guard (err e) = fresh
after_guard blocked = fresh

-- A write guard on page 1.
abbrev writing : BufferPoolManager ℕ
writing = after_guard (checked_write_page 0 fresh 1)

-- A read guard on page 1.
abbrev reading : BufferPoolManager ℕ
reading = after_guard (checked_read_page 0 fresh 1)

reads_page : get_data writing (guard_of 1 0) ≡ 77
unfolding program
reads_page = refl

-- Page 1 is written and let go; pages 0 and 2 then need both frames, and page 1 goes to disk. The
-- bytes that are read back, the disk's, and the counts of reads, writes, hits and misses.
abbrev evicting : Result (ℕ × ℕ × ℕ × ℕ × ℕ × ℕ)
evicting = do
  (s1, g1) ← write_page 0 fresh 1
  (s2, _) ← drop_write (write_data s1 g1 5) g1
  (s3, g3) ← read_page 0 s2 0
  (s4, g4) ← read_page 0 s3 2
  (s5, _) ← drop_read s4 g4
  (s6, g6) ← read_page 0 s5 1
  ok (
    get_data s6 g6,
    on_disk 0 s6 1,
    s6.disk_reads_,
    s6.disk_writes_,
    s6.cache_hits_,
    s6.cache_misses_,
  )

evicting_runs : evicting ≡ ok (5, 5, 4, 1, 0, 4)
unfolding program
evicting_runs = refl

-- A third page, while both frames are pinned.
full_pool :
    (do
      (s1, _) ← read_page 0 fresh 0
      (s2, _) ← read_page 0 s1 1
      (s3, g3) ← read_page 0 s2 2
      ok (get_data s3 g3))
    ≡ err runtime_error
unfolding program
full_pool = refl

-- A second write guard on the page waits.
write_twice :
    (do (s1, _) ← write_page 0 fresh 1; (s2, g2) ← write_page 0 s1 1; ok (get_data s2 g2)) ≡ blocked
unfolding program
write_twice = refl

fresh-Inv : Inv 0 fresh
fresh-Inv =
    new_page-Inv 0 _
      (new_page-Inv 0 _ (new_page-Inv 0 (init 0 2 disk) (init-Inv 0 2 disk (omega arith))))

fresh_room : (f : ℕ) → (fresh.frames_ f).pin_count_ + 1 < word64
unfolding program
fresh_room f = omega arith

writing-Inv : Inv 0 writing
unfolding program
writing-Inv = (checked_write_page-Outcome 0 fresh fresh-Inv 1 fresh_room).0.valid

reading-Inv : Inv 0 reading
unfolding program
reading-Inv = (checked_read_page-Outcome 0 fresh fresh-Inv 1 fresh_room).0.valid

writing_here : lookup 1 writing.page_table_ ≡ some 0
unfolding program
writing_here = refl

writing_held : (writing.frames_ 0).rwlatch_.writer ≡ true
unfolding program
writing_held = refl

reading_here : lookup 1 reading.page_table_ ≡ some 0
unfolding program
reading_here = refl

reading_shared : (reading.frames_ 0).rwlatch_.writer ≡ false
unfolding program
reading_shared = refl

reading_held : 0 < (reading.frames_ 0).rwlatch_.readers
unfolding program
reading_held = omega arith

write_data-Inv_example :
    Inv 0 (write_data writing (guard_of 1 0) 5)
    × ((q : ℕ)
        → view 0 (write_data writing (guard_of 1 0) 5) q ≡ (if 1 == q then 5 else view 0 writing q))
write_data-Inv_example = write_data-Inv 0 writing writing-Inv 1 0 writing_here (guard_of 1 0) 5 refl

drop_write-Freed_example :
    (s : BufferPoolManager ℕ) × (drop_write writing (guard_of 1 0)
      ≡ ok (s, record { page_id_ = 1; frame_ = 0; is_valid_ = false }))
    × Freed 0 writing 0 (unlock (writing.frames_ 0).rwlatch_) s
drop_write-Freed_example =
    drop_write-Freed 0 writing writing-Inv 1 0 writing_here (guard_of 1 0) refl refl writing_held

drop_read-Freed_example :
    (s : BufferPoolManager ℕ) × (drop_read reading (guard_of 1 0)
      ≡ ok (s, record { page_id_ = 1; frame_ = 0; is_valid_ = false }))
    × Freed 0 reading 0 (unlock_shared (reading.frames_ 0).rwlatch_) s
drop_read-Freed_example =
    drop_read-Freed 0 reading reading-Inv 1 0 reading_here (guard_of 1 0) refl refl reading_shared
      reading_held

fresh_unheld : (f : ℕ) → is_held (fresh.frames_ f).rwlatch_ ≡ false
unfolding program
fresh_unheld f = refl

flush_all_pages_durable_example :
    (s : BufferPoolManager ℕ) × (flush_all_pages 0 fresh ≡ ok s)
    × Inv 0 s
    × ((q : ℕ) → on_disk 0 s q ≡ view 0 fresh q)
    × ((q : ℕ) → view 0 s q ≡ view 0 fresh q)
flush_all_pages_durable_example = flush_all_pages_durable 0 fresh fresh-Inv fresh_unheld

write_page-content_example :
    (d : DiskManagerMemory ℕ) × (Disk.write_page 0 disk 4 9 ≡ ok d)
    × ((q : ℕ) → content 0 d q ≡ (if 4 == q then 9 else content 0 disk q))
write_page-content_example = write_page-content 0 disk 4 9

flush_page-Outcome_example : FlushOutcome 0 fresh 1 (flush_page 0 fresh 1)
flush_page-Outcome_example = flush_page-Outcome 0 fresh 1 fresh-Inv

read_page-content_example :
    (d : DiskManagerMemory ℕ) × (Disk.read_page 0 disk 1 ≡ ok (d, content 0 disk 1))
    × ((q : ℕ) → content 0 d q ≡ content 0 disk q)
read_page-content_example = read_page-content 0 disk 1
