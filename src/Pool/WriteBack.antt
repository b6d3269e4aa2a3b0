-- ===== src/Pool/WriteBack.antt =====
-- An evicted frame gives up its page: what a dirty frame holds is written first.
use bicycletub.Common.{
  ℕ, ◌≡◌, refl, sym, subst, ap, ◌∙◌, true, false, none, some, arith, ◌==◌, if◌then◌else◌, ok, [],
  Option-cases, Bool-cases, inl, inr,
}
use bicycletub.Common.Assoc.{lookup, erase, lookup-erase, IsMap, IsMap-erase, IsMap-distinct}
use bicycletub.Replacer.{ArcReplacer}
use bicycletub.Replacer.Access.{entry}
use bicycletub.Replacer.Evict.{Evicted}
use bicycletub.Replacer.Invariant
use bicycletub.Pool.{BufferPoolManager}
use bicycletub.Pool.Fetch.{write_back, page_of}
use bicycletub.Pool.Switch.{on_disk, page_switch_write}
use bicycletub.Pool.Invariant.{Inv, view, page_of_sound, page_of_complete}

module _ {D : Type 0} (zero_page : D) where
  pub record WrittenBack (s : BufferPoolManager D) (f q : ℕ) (r : ArcReplacer)
      (t : BufferPoolManager D) : Type 0 where
    pub table : t.page_table_ ≡ erase q s.page_table_
    pub free : t.free_frames_ ≡ s.free_frames_
    pub replacer : t.replacer_ ≡ r
    pub frame_count : t.num_frames_ ≡ s.num_frames_
    pub next_id : t.next_page_id_ ≡ s.next_page_id_
    pub served : t.disk_scheduler_.request_queue_ ≡ []
    pub frames : t.frames_ ≡ s.frames_
    pub disk :
        (x : ℕ)
        → on_disk zero_page t x ≡ (if q == x then (s.frames_ f).data_ else on_disk zero_page s x)

  module _ (s : BufferPoolManager D) (v : Inv zero_page s) (f q : ℕ)
      (here : lookup q s.page_table_ ≡ some f) where
    page_of-here : page_of f s.page_table_ ≡ some q
    page_of-here = elim (Option-cases (page_of f s.page_table_)) [
      | inl e ↦ absurd (page_of_complete f q s.page_table_ e here)
      | inr (x, e) ↦ ground (
        arith,
        v.resident x f (page_of_sound f x s.page_table_ (IsMap-distinct _ v.table_keys) e),
        v.resident q f here,
      )
    ]

    module _ (r : ArcReplacer) where
      write_back-dirty :
          (s.frames_ f).is_dirty_ ≡ true
          → (t : BufferPoolManager D) × (write_back zero_page
                (record s { replacer_ = r })
                f
                (some q)
              ≡ ok t)
            × WrittenBack s f q r t
      unfolding write_back
      write_back-dirty d =
          let (s', e, k, fr, dk) =
            page_switch_write zero_page (record s { replacer_ = r }) v.served q f in
          (
            record s' { page_table_ = erase q s'.page_table_ },
            simp (d, e),
            record {
              table = ap (erase q) k.table;
              free = k.free;
              replacer = k.replacer;
              frame_count = k.frame_count;
              next_id = k.next_id;
              served = k.served;
              frames = fr;
              disk = dk;
            },
          )

      write_back-clean :
          (s.frames_ f).is_dirty_ ≡ false
          → (t : BufferPoolManager D) × (write_back zero_page
                (record s { replacer_ = r })
                f
                (some q)
              ≡ ok t)
            × WrittenBack s f q r t
      unfolding write_back
      write_back-clean d = (
        record s { replacer_ = r; page_table_ = erase q s.page_table_ },
        simp d,
        record {
          table = refl;
          free = refl;
          replacer = refl;
          frame_count = refl;
          next_id = refl;
          served = v.served;
          frames = refl;
          disk = λ x. ground (arith, v.clean q f);
        },
      )

      pub write_back-WrittenBack :
          (t : BufferPoolManager D) × (write_back zero_page
              (record s { replacer_ = r })
              f
              (page_of f s.page_table_)
            ≡ ok t)
          × WrittenBack s f q r t
      write_back-WrittenBack = rw page_of-here (elim (Bool-cases (s.frames_ f).is_dirty_) [
        | inl d ↦ write_back-dirty d
        | inr d ↦ write_back-clean d
      ])

    module _ (r : ArcReplacer) (ev : Evicted s.replacer_ r f) (t : BufferPoolManager D)
        (w : WrittenBack s f q r t) where
      pub gone :
          (x : ℕ) → lookup x t.page_table_ ≡ (if q == x then none else lookup x s.page_table_)
      gone x = ap (lookup x) w.table ∙ lookup-erase q x s.page_table_

      pub entries : (g : ℕ) → entry t.replacer_ g ≡ (if f == g then none else entry s.replacer_ g)
      entries g =
          ground
            (arith, w.replacer, ap (lookup g) ev.taken_out, lookup-erase f g s.replacer_.alive_map_)

      pub frame : (g : ℕ) → t.frames_ g ≡ s.frames_ g
      frame g = ap (λ h. h g) w.frames

      -- Without the page and its frame the pool is still valid.
      pub evicted-Inv : Inv zero_page t
      evicted-Inv = record {
        replacer = subst Invariant.Inv (sym w.replacer) ev.valid;
        capacity = ground (arith, v.capacity, w.frame_count, w.replacer, ev.size_kept);
        table_keys = subst IsMap (sym w.table) (IsMap-erase q s.page_table_ v.table_keys);
        resident =
            λ x g e. ground (arith, v.resident x g, v.resident q f, gone x, entries g, frame g);
        held = λ g x b e. ground (arith, v.held g x b, v.held f q b, gone x, entries g);
        unused = λ g e.
            ground (
              arith,
              v.unused g,
              v.resident q f,
              entries g,
              frame g,
              ev.was_alive,
              ev.was_evictable,
            );
        free_known = λ g c. ground (arith, v.free_known g, entries g, w.free);
        free_below = λ g c. ground (arith, v.free_below g, w.free, w.frame_count);
        free_once = λ g. ground (arith, v.free_once g, w.free);
        clean = λ x g e d. ground (arith, v.clean x g, gone x, frame g, w.disk x);
        latched = λ g. ground (arith, v.latched g, frame g);
        bounded = λ g. ground (arith, v.bounded g, frame g);
        exclusive = λ g e. ground (arith, v.exclusive g, frame g);
        served = w.served;
      }

      pub view-evicted : (x : ℕ) → view zero_page t x ≡ view zero_page s x
      view-evicted x = elim (Option-cases (lookup x s.page_table_)) [
        | inl e ↦ ground (arith, gone x, w.disk x)
        | inr (g, e) ↦ ground (arith, gone x, w.disk x, frame g)
      ]
