-- ===== src/Replacer.antt =====
-- ArcReplacer (include/arc_replacer.h, src/arc_replacer.cpp): the adaptive replacement cache that
-- picks the frame to evict. Every method holds `latch_` from entry to exit, so each is one step;
-- a method that calls another one under the latch never returns (`blocked`).
-- The `FrameStatus` objects are values: an entry moves between the two maps and is never in both.
pub mod Evict
pub mod Access
pub mod Enter
pub mod Policy
pub mod Walk
pub mod Invariant
use bicycletub.Common.{
  ℕ, ◌+◌, ◌/◌, min, max, Bool, true, false, if◌then◌else◌, ltb, leb, ◌==◌, List, [], ◌∷◌, Option,
  none, some, length, remove, Result, ok, err, blocked, logic_error, div_by_zero, null_deref, ◌>>=◌,
  add64, sub64,
}
use bicycletub.Common.Assoc.{lookup, insert, erase}

pub data ArcStatus : Type 0 where
  mru mfu mru_ghost mfu_ghost : ArcStatus

pub record FrameStatus : Type 0 where
  pub page_id_ : ℕ
  pub frame_id_ : ℕ
  pub evictable_ : Bool
  pub arc_status_ : ArcStatus

pub record ArcReplacer : Type 0 where
  pub mru_ : List ℕ
  pub mfu_ : List ℕ
  pub mru_ghost_ : List ℕ
  pub mfu_ghost_ : List ℕ
  pub alive_map_ : List (ℕ × FrameStatus)
  pub ghost_map_ : List (ℕ × FrameStatus)
  pub curr_size_ : ℕ
  pub mru_target_size_ : ℕ
  pub replacer_size_ : ℕ

unfoldable pub init : ℕ → ArcReplacer
init num_frames = record {
  mru_ = [];
  mfu_ = [];
  mru_ghost_ = [];
  mfu_ghost_ = [];
  alive_map_ = [];
  ghost_map_ = [];
  curr_size_ = 0;
  mru_target_size_ = 0;
  replacer_size_ = num_frames;
}

-- `Size()`.
abbrev pub size : ArcReplacer → ℕ
size r = r.curr_size_

abbrev pub bool_eq : Bool → Bool → Bool
bool_eq true b = b
bool_eq false true = false
bool_eq false false = true

set_status : ArcReplacer → ℕ → Bool → FrameStatus → ArcReplacer
set_status r f e st = if bool_eq st.evictable_ e then r else record r {
  alive_map_ = insert f (record st { evictable_ = e }) r.alive_map_;
  curr_size_ = if e then add64 r.curr_size_ 1 else sub64 r.curr_size_ 1;
}

unfoldable pub set_evictable : ArcReplacer → ℕ → Bool → Result ArcReplacer
unfolding set_status
set_evictable r f e = elim (lookup f r.alive_map_) [
  | none ↦ err logic_error
  | some st ↦ ok (set_status r f e st)
]

-- What the walk from the back of a list finds: no evictable frame, the last evictable one with its
-- status and the list without it, or a frame that `alive_map_` lacks (a null pointer).
pub data Scan : Type 0 where
  nothing : Scan
  found : ℕ → FrameStatus → List ℕ → Scan
  dangling : Scan

abbrev pub test_frame : ℕ → List ℕ → Option FrameStatus → Scan
test_frame f fs none = dangling
test_frame f fs (some st) = if st.evictable_ then found f st fs else nothing

abbrev pub keep_front : ℕ → Scan → Scan → Scan
keep_front f nothing front = front
keep_front f (found g st rest) front = found g st (f ∷ rest)
keep_front f dangling front = dangling

-- `for (; it != end; it++)` over the reverse iterators: the frames behind `f` are tried first.
unfoldable pub scan : List (ℕ × FrameStatus) → List ℕ → Scan
scan alive [] = nothing
scan alive (f ∷ fs) = keep_front f (scan alive fs) (test_frame f fs (lookup f alive))

-- The body of the branch that evicts `f`, for the lists of `stat`.
abbrev pub move_to_ghost : ArcReplacer → ArcStatus → ℕ → FrameStatus → List ℕ → ArcReplacer
move_to_ghost r mfu f st rest = record r {
  mfu_ = rest;
  mfu_ghost_ = st.page_id_ ∷ r.mfu_ghost_;
  alive_map_ = erase f r.alive_map_;
  ghost_map_ = insert st.page_id_ (record st { arc_status_ = mfu_ghost }) r.ghost_map_;
  curr_size_ = sub64 r.curr_size_ 1;
}
move_to_ghost r _ f st rest = record r {
  mru_ = rest;
  mru_ghost_ = st.page_id_ ∷ r.mru_ghost_;
  alive_map_ = erase f r.alive_map_;
  ghost_map_ = insert st.page_id_ (record st { arc_status_ = mru_ghost }) r.ghost_map_;
  curr_size_ = sub64 r.curr_size_ 1;
}

abbrev pub frames_of : ArcReplacer → ArcStatus → List ℕ
frames_of r mfu = r.mfu_
frames_of r _ = r.mru_

abbrev pub finish_scan : ArcReplacer → ArcStatus → Scan → Result (ArcReplacer × Option ℕ)
finish_scan r stat nothing = ok (r, none)
finish_scan r stat (found f st rest) = ok (move_to_ghost r stat f st rest, some f)
finish_scan r stat dangling = err null_deref

-- The lambda `try_evict`.
unfoldable pub try_evict : ArcReplacer → ArcStatus → Result (ArcReplacer × Option ℕ)
try_evict r stat = finish_scan r stat (scan r.alive_map_ (frames_of r stat))

-- `if (auto evicted = …; evicted.has_value()) return evicted; else …`. A lambda that finds nothing
-- changes nothing, so the rest starts from the same state.
abbrev pub or_else :
    Result (ArcReplacer × Option ℕ)
    → Result (ArcReplacer × Option ℕ)
    → Result (ArcReplacer × Option ℕ)
or_else (ok (r, some f)) rest = ok (r, some f)
or_else (ok (r, none)) rest = rest
or_else (err e) rest = err e
or_else blocked rest = blocked

unfoldable pub both : ArcReplacer → ArcStatus → ArcStatus → Result (ArcReplacer × Option ℕ)
both r s t = or_else (try_evict r s) (try_evict r t)

-- The two guarded pairs of attempts in `Evict`. In the second, `replacer_size_ - mru_target_size_`
-- is a `size_t`.
unfoldable pub over_target : ArcReplacer → Result (ArcReplacer × Option ℕ)
over_target r = if ltb r.mru_target_size_ (length r.mru_) then both r mru mfu else ok (r, none)

unfoldable pub under_target : ArcReplacer → Result (ArcReplacer × Option ℕ)
under_target r =
    if leb (sub64 r.replacer_size_ r.mru_target_size_) (length r.mfu_)
    then both r mfu mru
    else ok (r, none)

unfoldable pub evict : ArcReplacer → Result (ArcReplacer × Option ℕ)
evict r =
    if r.curr_size_ == 0
    then ok (r, none)
    else or_else (over_target r) (or_else (under_target r) (both r mru mfu))

-- `if (alive_map_.size() > replacer_size_) Evict();`, under `latch_`, which `Evict` locks again.
abbrev pub check_size : ArcReplacer → Result ArcReplacer
check_size r = if ltb r.replacer_size_ (length r.alive_map_) then blocked else ok r

-- A frame in `alive_map_`.
abbrev pub touch_alive : ArcReplacer → ℕ → FrameStatus → ArcStatus → Result ArcReplacer
touch_alive r f st mru = ok (record r {
  mru_ = remove f r.mru_;
  mfu_ = f ∷ r.mfu_;
  alive_map_ = insert f (record st { arc_status_ = mfu }) r.alive_map_;
})
touch_alive r f st mfu = ok (record r { mfu_ = f ∷ remove f r.mfu_ })
touch_alive r f st _ = err logic_error

-- `size_t` division.
abbrev pub divide : ℕ → ℕ → Result ℕ
divide a b = if b == 0 then err div_by_zero else ok (a / b)

-- The new target and ghost lists at a page in `ghost_map_`.
abbrev pub adapt : ArcReplacer → ℕ → ArcStatus → Result ArcReplacer
adapt r p mru_ghost = do
  q ← divide (length r.mfu_ghost_) (length r.mru_ghost_)
  ok (record r {
    mru_target_size_ = min (add64 r.mru_target_size_ (max q 1)) r.replacer_size_;
    mru_ghost_ = remove p r.mru_ghost_;
  })
adapt r p mfu_ghost = do
  q ← divide (length r.mru_ghost_) (length r.mfu_ghost_)
  ok (record r {
    mru_target_size_ = max (sub64 r.mru_target_size_ (max q 1)) 0;
    mfu_ghost_ = remove p r.mfu_ghost_;
  })
adapt r p _ = err logic_error

-- From the ghosts to the front of `mfu_`.
abbrev pub revive : ArcReplacer → ℕ → ℕ → FrameStatus → ArcReplacer
revive r f p st = record r {
  ghost_map_ = erase p r.ghost_map_;
  alive_map_ =
      insert f (record st { arc_status_ = mfu; frame_id_ = f; evictable_ = false }) r.alive_map_;
  mfu_ = f ∷ r.mfu_;
}

-- A page that the replacer does not know.
abbrev pub enter : ArcReplacer → ℕ → ℕ → ArcReplacer
enter r f p = record r {
  alive_map_ =
      insert f (record { page_id_ = p; frame_id_ = f; evictable_ = false; arc_status_ = mru })
        r.alive_map_;
  mru_ = f ∷ r.mru_;
}

abbrev pub record_new : ArcReplacer → ℕ → ℕ → Option FrameStatus → Result ArcReplacer
record_new r f p none = check_size (enter r f p)
record_new r f p (some st) = do r' ← adapt r p st.arc_status_; check_size (revive r' f p st)

unfoldable pub record_access : ArcReplacer → ℕ → ℕ → Result ArcReplacer
record_access r f p = elim (lookup f r.alive_map_) [
  | some st ↦ touch_alive r f st st.arc_status_
  | none ↦ record_new r f p (lookup p r.ghost_map_)
]
