-- ===== src/Frame.antt =====
-- FrameHeader (include/frame_header.h): a frame of the buffer pool, with its reader-writer latch.
use bicycletub.Common.{
  ℕ, ◌+◌, ◌-◌, Bool, true, false, ◌||◌, if◌then◌else◌, ltb, Result, ok, blocked,
}

-- `std::shared_mutex`: its holders. A lock that is not free makes the caller wait.
pub record Latch : Type 0 where
  pub readers : ℕ
  pub writer : Bool

abbrev pub unlocked : Latch
unlocked = record { readers = 0; writer = false }

unfoldable pub lock_shared : Latch → Result Latch
lock_shared l = if l.writer then blocked else ok (record l { readers = l.readers + 1 })

unfoldable pub lock : Latch → Result Latch
lock l = if l.writer || ltb 0 l.readers then blocked else ok (record l { writer = true })

abbrev pub unlock_shared : Latch → Latch
unlock_shared l = record l { readers = l.readers - 1 }

abbrev pub unlock : Latch → Latch
unlock l = record l { writer = false }

pub record FrameHeader (D : Type 0) : Type 0 where
  pub rwlatch_ : Latch
  pub pin_count_ : ℕ
  pub is_dirty_ : Bool
  pub data_ : D

-- `Reset()`.
abbrev pub reset : {D : Type 0} → D → FrameHeader D → FrameHeader D
reset zero_page f = record f { data_ = zero_page; pin_count_ = 0; is_dirty_ = false }
