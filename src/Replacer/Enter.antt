-- ===== src/Replacer/Enter.antt =====
-- `RecordAccess` of a page in a frame that the replacer does not know.
use bicycletub.Common.{
  ℕ, ◌<◌, ◌≡◌, refl, false, Option, none, some, arith, length, count-remove, count-le-length,
  remove, ◌==◌, if◌then◌else◌, Result, ok, ◌>>=◌, add64, sub64, ◌≢◌, ◌/◌, max, min,
}
use bicycletub.Common.Assoc.{
  lookup, insert, erase, lookup-insert, lookup-erase, IsMap-insert, IsMap-erase, tally-insert,
  length-le_of_keys-lt,
}
use bicycletub.Replacer.{
  ArcReplacer, ArcStatus, mru, mfu, mru_ghost, mfu_ghost, FrameStatus, check_size, adapt, revive,
  enter, record_new, record_access, divide,
}
use bicycletub.Replacer.Invariant.{Inv}
use bicycletub.Replacer.Evict.{evictable}
use bicycletub.Replacer.Access.{entry}

check_size-ok : (r : ArcReplacer) → Inv r → check_size r ≡ ok r
check_size-ok r v =
    ground (arith, length-le_of_keys-lt r.replacer_size_ r.alive_map_ v.alive_keys v.below)

divide-ok : (a b : ℕ) → 0 < b → divide a b ≡ ok (a / b)
divide-ok a b h = ground arith

-- `x` is a valid replacer in which frame `f` holds page `p` and is not evictable, and which agrees
-- with `r` on the page and the flag of each other frame.
abbrev pub Entered : ArcReplacer → ℕ → ℕ → Result ArcReplacer → Type 0
Entered r f p x =
    (r' : ArcReplacer) × (x ≡ ok r')
    × Inv r'
    × (r'.replacer_size_ ≡ r.replacer_size_)
    × ((g : ℕ) → entry r' g ≡ (if f == g then some (p, false) else entry r g))

module _ (r : ArcReplacer) (v : Inv r) (f p : ℕ) (unknown : lookup f r.alive_map_ ≡ none)
    (room : f < r.replacer_size_)
    (fresh : (g : ℕ) (su : FrameStatus) → lookup g r.alive_map_ ≡ some su → su.page_id_ ≢ p) where
  look :
      (su : FrameStatus) (g : ℕ)
      → lookup g (insert f su r.alive_map_) ≡ (if f == g then some su else lookup g r.alive_map_)
  look su g = lookup-insert f g su r.alive_map_

  gone :
      (q : ℕ) → lookup q (erase p r.ghost_map_) ≡ (if p == q then none else lookup q r.ghost_map_)
  gone q = lookup-erase p q r.ghost_map_

  mru_ghost-revive-Inv :
      (st : FrameStatus) (t : ℕ)
      → lookup p r.ghost_map_ ≡ some st
      → st.arc_status_ ≡ mru_ghost
      → Inv (revive (record r { mru_target_size_ = t; mru_ghost_ = remove p r.mru_ghost_ }) f p st)
  mru_ghost-revive-Inv st t ghost s =
      let su : FrameStatus = record st { arc_status_ = mfu; frame_id_ = f; evictable_ = false } in
      record {
        alive_keys = IsMap-insert f _ _ v.alive_keys;
        ghost_keys = IsMap-erase p _ v.ghost_keys;
        in_mru = λ g. ground (arith, v.in_mru g, look su g);
        in_mfu = λ g. ground (arith, v.in_mfu g, look su g);
        in_mru_ghost = λ q. ground (
          arith,
          v.in_mru_ghost q,
          v.in_mru_ghost p,
          v.ghost_status p,
          gone q,
          count-remove p q r.mru_ghost_,
        );
        in_mfu_ghost = λ q. ground (arith, v.in_mfu_ghost q, v.in_mfu_ghost p, gone q);
        alive_status = λ g. ground (arith, v.alive_status g, look su g);
        ghost_status = λ q. ground (arith, v.ghost_status q, gone q);
        ghost_page = λ q sw e. ground (arith, v.ghost_page q sw, gone q);
        not_ghost = λ g sw e.
            ground (arith, v.not_ghost g sw, v.ghost_page p st, look su g, gone sw.page_id_);
        one_frame = λ g h sw sx e e' q. ground (
          arith,
          v.one_frame g h sw sx,
          v.ghost_page p st,
          fresh g sw,
          fresh h sx,
          look su g,
          look su h,
        );
        below = λ g sw e. ground (arith, v.below g sw, look su g);
        counted = ground (arith, v.counted, tally-insert evictable f su r.alive_map_);
        small = v.small;
      }

  mfu_ghost-revive-Inv :
      (st : FrameStatus) (t : ℕ)
      → lookup p r.ghost_map_ ≡ some st
      → st.arc_status_ ≡ mfu_ghost
      → Inv (revive (record r { mru_target_size_ = t; mfu_ghost_ = remove p r.mfu_ghost_ }) f p st)
  mfu_ghost-revive-Inv st t ghost s =
      let su : FrameStatus = record st { arc_status_ = mfu; frame_id_ = f; evictable_ = false } in
      record {
        alive_keys = IsMap-insert f _ _ v.alive_keys;
        ghost_keys = IsMap-erase p _ v.ghost_keys;
        in_mru = λ g. ground (arith, v.in_mru g, look su g);
        in_mfu = λ g. ground (arith, v.in_mfu g, look su g);
        in_mfu_ghost = λ q. ground (
          arith,
          v.in_mfu_ghost q,
          v.in_mfu_ghost p,
          v.ghost_status p,
          gone q,
          count-remove p q r.mfu_ghost_,
        );
        in_mru_ghost = λ q. ground (arith, v.in_mru_ghost q, v.in_mru_ghost p, gone q);
        alive_status = λ g. ground (arith, v.alive_status g, look su g);
        ghost_status = λ q. ground (arith, v.ghost_status q, gone q);
        ghost_page = λ q sw e. ground (arith, v.ghost_page q sw, gone q);
        not_ghost = λ g sw e.
            ground (arith, v.not_ghost g sw, v.ghost_page p st, look su g, gone sw.page_id_);
        one_frame = λ g h sw sx e e' q. ground (
          arith,
          v.one_frame g h sw sx,
          v.ghost_page p st,
          fresh g sw,
          fresh h sx,
          look su g,
          look su h,
        );
        below = λ g sw e. ground (arith, v.below g sw, look su g);
        counted = ground (arith, v.counted, tally-insert evictable f su r.alive_map_);
        small = v.small;
      }

  enter-Inv : lookup p r.ghost_map_ ≡ none → Inv (enter r f p)
  enter-Inv absent =
      let su : FrameStatus = record {
        page_id_ = p;
        frame_id_ = f;
        evictable_ = false;
        arc_status_ = mru;
      } in
      record {
        alive_keys = IsMap-insert f _ _ v.alive_keys;
        ghost_keys = v.ghost_keys;
        in_mru = λ g. ground (arith, v.in_mru g, look su g);
        in_mfu = λ g. ground (arith, v.in_mfu g, look su g);
        in_mru_ghost = v.in_mru_ghost;
        in_mfu_ghost = v.in_mfu_ghost;
        alive_status = λ g. ground (arith, v.alive_status g, look su g);
        ghost_status = v.ghost_status;
        ghost_page = v.ghost_page;
        not_ghost = λ g sw e. ground (arith, v.not_ghost g sw, look su g);
        one_frame = λ g h sw sx e e' q.
            ground (arith, v.one_frame g h sw sx, fresh g sw, fresh h sx, look su g, look su h);
        below = λ g sw e. ground (arith, v.below g sw, look su g);
        counted = ground (arith, v.counted, tally-insert evictable f su r.alive_map_);
        small = v.small;
      }

  ghost-Entered :
      (st : FrameStatus)
      → lookup p r.ghost_map_ ≡ some st
      → (s : ArcStatus) → st.arc_status_ ≡ s
      → Entered r f p (adapt r p s >>= λ r1. check_size (revive r1 f p st))
  ghost-Entered st e mru_ghost s =
      let inv =
        mru_ghost-revive-Inv st
          (min (add64 r.mru_target_size_ (max (length r.mfu_ghost_ / length r.mru_ghost_) 1))
            r.replacer_size_)
          e s in
      rw
        (divide-ok (length r.mfu_ghost_) (length r.mru_ghost_)
          (ground (arith, v.in_mru_ghost p, count-le-length p r.mru_ghost_)))
        (
          _,
          check_size-ok _ inv,
          inv,
          refl,
          λ g. ground (
            arith,
            v.ghost_page p st,
            v.ghost_page p st e,
            look (record st { arc_status_ = mfu; frame_id_ = f; evictable_ = false }) g,
          ),
        )
  ghost-Entered st e mfu_ghost s =
      let inv =
        mfu_ghost-revive-Inv st
          (max (sub64 r.mru_target_size_ (max (length r.mru_ghost_ / length r.mfu_ghost_) 1)) 0) e
          s in
      rw
        (divide-ok (length r.mru_ghost_) (length r.mfu_ghost_)
          (ground (arith, v.in_mfu_ghost p, count-le-length p r.mfu_ghost_)))
        (
          _,
          check_size-ok _ inv,
          inv,
          refl,
          λ g. ground (
            arith,
            v.ghost_page p st,
            v.ghost_page p st e,
            look (record st { arc_status_ = mfu; frame_id_ = f; evictable_ = false }) g,
          ),
        )
  ghost-Entered st e mru s = absurd (ground (arith, v.ghost_status p))
  ghost-Entered st e mfu s = absurd (ground (arith, v.ghost_status p))

  record_new-Entered :
      (o : Option FrameStatus) → lookup p r.ghost_map_ ≡ o → Entered r f p (record_new r f p o)
  record_new-Entered none e =
      let inv = enter-Inv e in
      (
        enter r f p,
        check_size-ok (enter r f p) inv,
        inv,
        refl,
        λ g. ground (
          arith,
          look (record { page_id_ = p; frame_id_ = f; evictable_ = false; arc_status_ = mru }) g,
        ),
      )
  record_new-Entered (some st) e = ghost-Entered st e st.arc_status_ refl

  -- On a valid replacer, a frame that it does not know, with a number below its size, and a page
  -- that no known frame holds, `RecordAccess` returns: it neither
  -- divides by zero nor waits for its own latch. The invariant is kept, the frame enters with the
  -- page and is not evictable, and no other frame's page or flag changes.
  pub record_access-Entered : Entered r f p (record_access r f p)
  unfolding record_access
  record_access-Entered =
      rw (unknown, record_access) (record_new-Entered (lookup p r.ghost_map_) refl)
