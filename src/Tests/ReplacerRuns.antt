-- ===== src/Tests/ReplacerRuns.antt =====
-- A replacer of three frames.
use bicycletub.Common.{
  ℕ, ◌+◌, ◌<◌, ◌≡◌, ◌≢◌, refl, sym, ap, subst, true, false, Option, none, some, arith, Result, ok,
  err, blocked, word64, if◌then◌else◌, ◌==◌, max, ◌/◌, length,
}
use bicycletub.Common.Assoc.{lookup, insert, erase}
use bicycletub.Replacer.{
  ArcReplacer, mru, mfu, mfu_ghost, FrameStatus, init, set_evictable, scan, try_evict, both,
  over_target, under_target, evict, record_access,
}
use bicycletub.Replacer.Walk.{can_evict}
use bicycletub.Replacer.Invariant.{Inv, init-Inv}
use bicycletub.Replacer.Access.{entry, set_evictable-Inv, record_access_known}
use bicycletub.Replacer.Enter.{Entered, record_access-Entered}
use bicycletub.Replacer.Evict.{Tries, Evicted, evict-Tries}
use bicycletub.Replacer.Policy.{
  mru_first, evict_order, TakesLast, try_evict-TakesLast, record_access_wraps,
}

program : Unit {0}
unfolding lookup insert erase init set_evictable scan try_evict both over_target under_target evict
    record_access
program = tt

abbrev value : Result ArcReplacer → ArcReplacer
value (ok r) = r
value (err e) = init 0
value blocked = init 0

abbrev pair : Result (ArcReplacer × Option ℕ) → ArcReplacer
pair (ok (r, f)) = r
pair (err e) = init 0
pair blocked = init 0

-- Page 10 enters frame 0, is used again, and becomes evictable.
abbrev entered : ArcReplacer
entered = value (record_access (init 3) 0 10)

abbrev used : ArcReplacer
used = value (record_access entered 0 10)

abbrev idle : ArcReplacer
idle = value (set_evictable used 0 true)

-- It is evicted, and its page is a frequently used ghost.
abbrev evicted : ArcReplacer
evicted = pair (evict idle)

-- When the page comes back, the target of 0 wraps.
wraps : (value (record_access evicted 1 10)).mru_target_size_ ≡ 0xffff_ffff_ffff_ffff
unfolding program
wraps = refl

init_valid : Inv (init 3)
init_valid = init-Inv 3 (omega arith)

init_unknown : lookup 0 (init 3).alive_map_ ≡ none
unfolding program
init_unknown = refl

init_room : 0 < (init 3).replacer_size_
unfolding program
init_room = omega arith

init_fresh : (g : ℕ) (su : FrameStatus) → lookup g (init 3).alive_map_ ≡ some su → su.page_id_ ≢ 10
unfolding program
init_fresh g su e = absurd (ground arith)

record_access-Entered_example : Entered (init 3) 0 10 (record_access (init 3) 0 10)
record_access-Entered_example =
    record_access-Entered (init 3) init_valid 0 10 init_unknown init_room init_fresh

entered_valid : Inv entered
entered_valid =
    let (r', e, v, m, rest) = record_access-Entered_example in subst Inv (sym (ap value e)) v

abbrev first_status : FrameStatus
first_status = record { page_id_ = 10; frame_id_ = 0; evictable_ = false; arc_status_ = mru }

entered_alive : lookup 0 entered.alive_map_ ≡ some first_status
unfolding program
entered_alive = refl

record_access_known_example :
    (r' : ArcReplacer) × (record_access entered 0 10 ≡ ok r')
    × Inv r'
    × (r'.replacer_size_ ≡ entered.replacer_size_)
    × ((g : ℕ) → entry r' g ≡ entry entered g)
record_access_known_example =
    record_access_known entered entered_valid 0 first_status entered_alive 10

used_valid : Inv used
used_valid = let (r', e, v, m, rest) = record_access_known_example in subst Inv (sym (ap value e)) v

abbrev used_status : FrameStatus
used_status = record { page_id_ = 10; frame_id_ = 0; evictable_ = false; arc_status_ = mfu }

used_alive : lookup 0 used.alive_map_ ≡ some used_status
unfolding program
used_alive = refl

set_evictable-Inv_example :
    (r' : ArcReplacer) × (set_evictable used 0 true ≡ ok r')
    × Inv r'
    × (r'.replacer_size_ ≡ used.replacer_size_)
    × ((g : ℕ) → entry r' g ≡ (if 0 == g then some (10, true) else entry used g))
set_evictable-Inv_example = set_evictable-Inv used used_valid 0 used_status used_alive true

idle_valid : Inv idle
idle_valid = let (r', e, v, m, rest) = set_evictable-Inv_example in subst Inv (sym (ap value e)) v

evict-Tries_example : Tries idle ((f : ℕ) → can_evict idle.alive_map_ f ≡ 0) (evict idle)
evict-Tries_example = evict-Tries idle idle_valid

idle_busy : idle.curr_size_ ≢ 0
unfolding program
idle_busy e = absurd (omega arith)

evict_order_example : evict idle ≡ (if mru_first idle then both idle mru mfu else both idle mfu mru)
evict_order_example = evict_order idle idle_valid idle_busy

idle_attempt : try_evict idle mfu ≡ ok (evicted, some 0)
unfolding program
idle_attempt = refl

try_evict-TakesLast_example : TakesLast idle mfu (try_evict idle mfu)
try_evict-TakesLast_example = try_evict-TakesLast idle idle_valid mfu

abbrev ghost_status : FrameStatus
ghost_status = record { page_id_ = 10; frame_id_ = 0; evictable_ = true; arc_status_ = mfu_ghost }

evicted_unknown : lookup 1 evicted.alive_map_ ≡ none
unfolding program
evicted_unknown = refl

evicted_ghost : lookup 10 evicted.ghost_map_ ≡ some ghost_status
unfolding program
evicted_ghost = refl

abbrev back : ArcReplacer
back = value (record_access evicted 1 10)

comes_back : record_access evicted 1 10 ≡ ok back
unfolding program
comes_back = refl

evicted_low :
    evicted.mru_target_size_ < max (length evicted.mru_ghost_ / length evicted.mfu_ghost_) 1
unfolding program
evicted_low = omega arith

evicted_fits :
    max (length evicted.mru_ghost_ / length evicted.mfu_ghost_) 1 + evicted.replacer_size_ < word64
unfolding program
evicted_fits = omega arith

evicted_valid : Inv evicted
unfolding program
evicted_valid = Evicted.valid (evict-Tries idle idle_valid)

record_access_wraps_example : evicted.replacer_size_ < back.mru_target_size_
record_access_wraps_example =
    record_access_wraps evicted evicted_valid 1 10 ghost_status back evicted_unknown evicted_ghost
      refl comes_back evicted_low evicted_fits
