-- ===== src/Pool/Bring.antt =====
-- The part of CheckedReadPage and CheckedWritePage under `bpm_latch_`, with the `RecordAccess` that
-- follows it.
use bicycletub.Common.{
  ℕ, suc, ◌≡◌, ◌≢◌, refl, ap, Bool, true, false, Option, none, some, arith, count, ◌==◌, Result, ok,
  err, blocked, [], ◌∷◌, Option-cases, Bool-cases, inl, inr, ◌>>=◌, List, ◌⊎◌,
}
use bicycletub.Common.Assoc.{lookup, insert}
use bicycletub.Replacer.{ArcReplacer, FrameStatus, record_access}
use bicycletub.Replacer
use bicycletub.Replacer.Access.{entry, record_access_known}
use bicycletub.Replacer.Evict.{Tries, Evicted, evict-Tries}
use bicycletub.Replacer.Walk.{can_evict}
use bicycletub.Pool.{BufferPoolManager, out_of_range}
use bicycletub.Pool.Fetch.{
  reset_frame, load_free, load_evicted, evict_for, miss, find_frame, bring_in, count_miss,
}
use bicycletub.Pool.Switch.{page_switch_read}
use bicycletub.Pool.Load.{Fetched, Fetched-from, Loaded, record_access-Fetched}
use bicycletub.Pool.WriteBack.{
  gone, entries, frame, write_back-WrittenBack, evicted-Inv, view-evicted,
}
use bicycletub.Pool.Invariant.{Inv}

module _ {D : Type 0} (zero_page : D) where
  -- Every resident page is pinned.
  abbrev pub AllPinned : BufferPoolManager D → Type 0
  AllPinned s = (q f : ℕ) → lookup q s.page_table_ ≡ some f → (s.frames_ f).pin_count_ ≢ 0

  -- Why a page cannot be brought in.
  abbrev pub NoRoom : BufferPoolManager D → ℕ → Type 0
  NoRoom s p =
      (out_of_range s p ≡ true)
      ⊎ (lookup p s.page_table_ ≡ none) × (s.free_frames_ ≡ []) × AllPinned s

  abbrev Accessed : BufferPoolManager D → ℕ → ℕ → BufferPoolManager D → Type 0
  Accessed s p f s' =
      (b : Bool) × (r : ArcReplacer) × (record_access s'.replacer_ f p ≡ ok r)
      × Fetched zero_page s p f b (record s' { replacer_ = r })

  abbrev pub Brought : BufferPoolManager D → ℕ → Result (BufferPoolManager D × Option ℕ) → Type 0
  Brought s p (ok (s', none)) = (s' ≡ s) × NoRoom s p
  Brought s p (ok (s', some f)) = Accessed s p f s'
  Brought s p (err e) = ⊥
  Brought s p blocked = ⊥

  module _ (s : BufferPoolManager D) (v : Inv zero_page s) (p : ℕ) where
    known :
        (f : ℕ) (e : ℕ × Bool)
        → entry s.replacer_ f ≡ some e
        → (st : FrameStatus) × (lookup f s.replacer_.alive_map_ ≡ some st)
    known f e h = elim (Option-cases (lookup f s.replacer_.alive_map_)) [
      | inl k ↦ absurd (ground arith)
      | inr (st, k) ↦ (st, k)
    ]

    hit-Brought :
        (f : ℕ) → lookup p s.page_table_ ≡ some f → Brought s p (find_frame zero_page s p (some f))
    hit-Brought f here =
        let (st, alive) = known f _ (v.resident p f here) in
        let (r, e, rv, size, entries) = record_access_known s.replacer_ v.replacer f st alive p in
        (
          (s.frames_ f).pin_count_ == 0,
          r,
          e,
          record {
            valid = record {
              replacer = rv;
              capacity = ground (arith, v.capacity);
              table_keys = v.table_keys;
              resident = λ q g h. ground (arith, v.resident q g, entries g);
              held = λ g q b h. ground (arith, v.held g q b, entries g);
              unused = λ g h. ground (arith, v.unused g, entries g);
              free_known = λ g h. ground (arith, v.free_known g, entries g);
              free_below = v.free_below;
              free_once = v.free_once;
              clean = v.clean;
              latched = v.latched;
              bounded = v.bounded;
              exclusive = v.exclusive;
              served = v.served;
            };
            here = here;
            same = λ q. refl;
            latches = λ g. refl;
            prior = inl here;
            next_id = refl;
            frame_count = refl;
          },
        )

    module _ (absent : lookup p s.page_table_ ≡ none) where
      -- The state in which a frame has left the free list.
      popped-Inv :
          (f : ℕ) (rest : List ℕ)
          → s.free_frames_ ≡ f ∷ rest
          → Inv zero_page (record s { free_frames_ = rest })
      popped-Inv f rest e = record {
        replacer = v.replacer;
        capacity = v.capacity;
        table_keys = v.table_keys;
        resident = v.resident;
        held = v.held;
        unused = v.unused;
        free_known = λ g c. v.free_known g (omega (arith, ap (count g) e));
        free_below = λ g c. v.free_below g (omega (arith, ap (count g) e));
        free_once = λ g. omega (arith, v.free_once g, ap (count g) e);
        clean = v.clean;
        latched = v.latched;
        bounded = v.bounded;
        exclusive = v.exclusive;
        served = v.served;
      }

      free-Brought :
          (f : ℕ) (rest : List ℕ)
          → s.free_frames_ ≡ f ∷ rest
          → Brought s p (load_free zero_page s p f rest)
      unfolding load_free
      free-Brought f rest e =
          let t = record s { free_frames_ = rest } in
          let t0 = reset_frame zero_page (record t { page_table_ = insert p f s.page_table_ }) f in
          let (s2, e2, k, fr, dk) = page_switch_read zero_page t0 v.served p f in
          let c : count f s.free_frames_ ≡ suc (count f rest) = ground (arith, ap (count f) e) in
          let loaded : Loaded zero_page t p f (count_miss zero_page s2) = record {
            table = k.table;
            free = k.free;
            replacer = k.replacer;
            frame_count = k.frame_count;
            next_id = k.next_id;
            served = k.served;
            frames = λ g. ground (arith, ap (λ h. h g) fr);
            disk = dk;
          } in
          let (r, er, F) =
            record_access-Fetched zero_page t (count_miss zero_page s2) p f (popped-Inv f rest e)
              loaded (v.free_known f (omega (arith, c))) (v.free_below f (omega (arith, c)))
              (omega (arith, c, v.free_once f)) absent in
          simp e2 (
            false,
            r,
            er,
            Fetched-from zero_page s t _ p f false (λ q. refl) (λ g. refl) refl refl
                (v.unused f (v.free_known f (omega (arith, c)))) F,
          )

      victim-Brought :
          (r : ArcReplacer) (f : ℕ)
          → Evicted s.replacer_ r f
          → Brought s p (load_evicted zero_page (record s { replacer_ = r }) p f)
      unfolding load_evicted
      victim-Brought r f ev =
          let q = ev.victim.page_id_ in
          let was : entry s.replacer_ f ≡ some (q, true) =
            ground (arith, ev.was_alive, ev.was_evictable) in
          let here : lookup q s.page_table_ ≡ some f = v.held f q true was in
          let (t, et, w) = write_back-WrittenBack zero_page s v f q here r in
          let tv = evicted-Inv zero_page s v f q here r ev t w in
          let (s2, e2, k, fr, dk) =
            page_switch_read zero_page (reset_frame zero_page t f) tv.served p f in
          let s3 = count_miss zero_page (record s2 { page_table_ = insert p f s2.page_table_ }) in
          let loaded : Loaded zero_page t p f s3 = record {
            table = ap (insert p f) k.table;
            free = k.free;
            replacer = k.replacer;
            frame_count = k.frame_count;
            next_id = k.next_id;
            served = k.served;
            frames = λ g. ground (arith, ap (λ h. h g) fr);
            disk = dk;
          } in
          let (r', er, F) =
            record_access-Fetched zero_page t s3 p f tv loaded
              (ground (arith, entries zero_page s v f q here r ev t w f))
              (ground (arith, w.frame_count, v.replacer.below f ev.victim ev.was_alive, v.capacity))
              (ground (arith, v.free_known f, was, w.free))
              (ground (arith, gone zero_page s v f q here r ev t w p, absent)) in
          simp (et, e2)
            (
              false,
              r',
              er,
              Fetched-from zero_page s t (record s3 { replacer_ = r' }) p f false
                  (view-evicted zero_page s v f q here r ev t w)
                  (frame zero_page s v f q here r ev t w) w.next_id w.frame_count
                  (ground (arith, v.resident q f here, was)) F,
            )

      evict-Brought :
          (x : Result (ArcReplacer × Option ℕ))
          → s.free_frames_ ≡ []
          → Tries s.replacer_ ((f : ℕ) → can_evict s.replacer_.alive_map_ f ≡ 0) x
          → Brought s p (x >>= evict_for zero_page s p)
      evict-Brought (ok (r, none)) e (same, stuck) =
          (ground arith, inr (absent, e, λ q f h z. ground (arith, stuck f, v.resident q f h)))
      evict-Brought (ok (r, some f)) e ev = victim-Brought r f ev
      evict-Brought (err _) e h = h
      evict-Brought blocked e h = h

      miss-Brought : (l : List ℕ) → s.free_frames_ ≡ l → Brought s p (miss zero_page s p l)
      miss-Brought (f ∷ rest) e = free-Brought f rest e
      miss-Brought [] e =
          evict-Brought (Replacer.evict s.replacer_) e (evict-Tries s.replacer_ v.replacer)

    find-Brought :
        (o : Option ℕ) → lookup p s.page_table_ ≡ o → Brought s p (find_frame zero_page s p o)
    find-Brought (some f) e = hit-Brought f e
    find-Brought none e = miss-Brought e s.free_frames_ refl

    -- On a valid pool the step returns. It brings in the page and keeps what every page shows, or
    -- it changes nothing: the page id is out of range, or no frame is free and all are pinned.
    pub bring_in-Brought : Brought s p (bring_in zero_page s p)
    unfolding bring_in
    bring_in-Brought = elim (Bool-cases (out_of_range s p)) [
      | inl out ↦ rw out (refl, inl out)
      | inr within ↦ rw within (find-Brought (lookup p s.page_table_) refl)
    ]
