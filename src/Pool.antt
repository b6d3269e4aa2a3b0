-- ===== src/Pool.antt =====
-- BufferPoolManager (include/buffer_pool_manager.h, src/buffer_pool_manager.cpp): the pages that the
-- frames hold, and those on disk. A method call is one step here, and so is a guard's constructor
-- or `Drop`: the state between the calls of one thread.
pub mod Guard
pub mod Fetch
pub mod Invariant
pub mod Load
pub mod WriteBack
pub mod Bring
pub mod Acquire
pub mod Checked
pub mod Release
pub mod Flush
pub mod Calls
pub mod Switch
use bicycletub.Common.{
  ℕ, zero, suc, ◌+◌, ◌%◌, Bool, true, false, not, ◌||◌, List, [], ◌∷◌, Option, none, some, Result,
  ok, err, blocked, runtime_error, ◌>>=◌, if◌then◌else◌, ◌==◌, ltb, add64, sub64, word32,
  is_negative, signed_lt,
}
use bicycletub.Common.Assoc.{lookup, insert, erase}
use bicycletub.Disk.{DiskManagerMemory}
use bicycletub.Frame.{FrameHeader, Latch, unlocked, lock, lock_shared, unlock, unlock_shared, reset}
use bicycletub.Replacer.{ArcReplacer}
use bicycletub.Replacer
use bicycletub.Scheduler.{DiskScheduler, DiskRequest, Frames, set_frame, run_request}

pub record BufferPoolManager (D : Type 0) : Type 0 where
  pub num_frames_ : ℕ
  pub next_page_id_ : ℕ
  pub frames_ : Frames D
  pub page_table_ : List (ℕ × ℕ)
  pub free_frames_ : List ℕ
  pub replacer_ : ArcReplacer
  pub disk_scheduler_ : DiskScheduler D
  pub disk_reads_ : ℕ
  pub disk_writes_ : ℕ
  pub cache_hits_ : ℕ
  pub cache_misses_ : ℕ

-- `for (i = 0; i < num_frames_; i++) free_frames_.push_back(i)`, `n` rounds from `i` on.
unfoldable pub count_up : ℕ → ℕ → List ℕ
count_up i zero = []
count_up i (suc n) = i ∷ count_up (i + 1) n

-- A page guard: ReadPageGuard and WritePageGuard have the same fields. The pointers to the frame,
-- the replacer, the latch and the scheduler are the number of the frame in the pool.
pub record PageGuard : Type 0 where
  pub page_id_ : ℕ
  pub frame_ : ℕ
  pub is_valid_ : Bool

-- `page_id < 0 || page_id >= next_page_id_.load()`.
abbrev pub out_of_range : {D : Type 0} → BufferPoolManager D → ℕ → Bool
out_of_range s p = is_negative p || not (signed_lt p s.next_page_id_)

-- `next_page_id_.fetch_add(1)`, on an atomic `int32_t`.
unfoldable pub new_page : {D : Type 0} → BufferPoolManager D → BufferPoolManager D × ℕ
new_page s = (record s { next_page_id_ = (s.next_page_id_ + 1) % word32 }, s.next_page_id_)

unfoldable pub get_pin_count : {D : Type 0} → BufferPoolManager D → ℕ → Option ℕ
get_pin_count s p =
    if out_of_range s p
    then none
    else elim (lookup p s.page_table_) [ none ↦ none | some f ↦ some (s.frames_ f).pin_count_ ]

abbrev pub update_frame :
    {D : Type 0} → BufferPoolManager D → ℕ → FrameHeader D → BufferPoolManager D
update_frame s f h = record s { frames_ = set_frame s.frames_ f h }

module _ {D : Type 0} (zero_page : D) where
  unfoldable pub init : ℕ → DiskManagerMemory D → BufferPoolManager D
  unfolding count_up Replacer.init
  init n d = record {
    num_frames_ = n;
    next_page_id_ = 0;
    frames_ =
        λ f. record { rwlatch_ = unlocked; pin_count_ = 0; is_dirty_ = false; data_ = zero_page };
    page_table_ = [];
    free_frames_ = count_up 0 n;
    replacer_ = Replacer.init n;
    disk_scheduler_ = record {
      disk_manager_ = d;
      request_queue_ = [];
      scheduled_reads_ = 0;
      scheduled_writes_ = 0;
    };
    disk_reads_ = 0;
    disk_writes_ = 0;
    cache_hits_ = 0;
    cache_misses_ = 0;
  }
