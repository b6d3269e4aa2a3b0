-- ===== src/Replacer/Invariant.antt =====
-- The invariant of ArcReplacer: the two maps, the four lists and the count agree.
use bicycletub.Common.{
  ℕ, ◌+◌, ◌<◌, ◌≡◌, refl, Bool, true, false, none, some, arith, count, bit_of, word64,
}
use bicycletub.Common.Assoc.{lookup, IsMap, tally}
use bicycletub.Replacer.{ArcReplacer, ArcStatus, mru, mfu, mru_ghost, mfu_ghost, FrameStatus, init}

abbrev pub has : ArcStatus → FrameStatus → Bool
has mru st = elim st.arc_status_ [ mru ↦ true | _ ↦ false ]
has mfu st = elim st.arc_status_ [ mfu ↦ true | _ ↦ false ]
has mru_ghost st = elim st.arc_status_ [ mru_ghost ↦ true | _ ↦ false ]
has mfu_ghost st = elim st.arc_status_ [ mfu_ghost ↦ true | _ ↦ false ]

pub record Inv (r : ArcReplacer) : Type 0 where
  pub alive_keys : IsMap r.alive_map_
  pub ghost_keys : IsMap r.ghost_map_
  pub in_mru : (f : ℕ) → count f r.mru_ ≡ bit_of (has mru) (lookup f r.alive_map_)
  pub in_mfu : (f : ℕ) → count f r.mfu_ ≡ bit_of (has mfu) (lookup f r.alive_map_)
  pub in_mru_ghost : (p : ℕ) → count p r.mru_ghost_ ≡ bit_of (has mru_ghost) (lookup p r.ghost_map_)
  pub in_mfu_ghost : (p : ℕ) → count p r.mfu_ghost_ ≡ bit_of (has mfu_ghost) (lookup p r.ghost_map_)
  pub alive_status :
      (f : ℕ)
      → bit_of (has mru) (lookup f r.alive_map_) + bit_of (has mfu) (lookup f r.alive_map_)
        ≡ bit_of (λ _. true) (lookup f r.alive_map_)
  pub ghost_status :
      (p : ℕ)
      → bit_of (has mru_ghost) (lookup p r.ghost_map_)
          + bit_of (has mfu_ghost) (lookup p r.ghost_map_)
        ≡ bit_of (λ _. true) (lookup p r.ghost_map_)
  pub ghost_page : (p : ℕ) (st : FrameStatus) → lookup p r.ghost_map_ ≡ some st → st.page_id_ ≡ p
  pub not_ghost :
      (f : ℕ) (st : FrameStatus)
      → lookup f r.alive_map_ ≡ some st
      → lookup st.page_id_ r.ghost_map_ ≡ none
  pub one_frame :
      (f g : ℕ) (st su : FrameStatus)
      → lookup f r.alive_map_ ≡ some st
      → lookup g r.alive_map_ ≡ some su
      → st.page_id_ ≡ su.page_id_
      → f ≡ g
  pub below : (f : ℕ) (st : FrameStatus) → lookup f r.alive_map_ ≡ some st → f < r.replacer_size_
  pub counted : r.curr_size_ ≡ tally (λ (st : FrameStatus). st.evictable_) r.alive_map_
  pub small : r.replacer_size_ < word64

pub init-Inv : (n : ℕ) → n < word64 → Inv (init n)
unfolding init lookup
init-Inv n h = record {
  alive_keys = λ _. refl;
  ghost_keys = λ _. refl;
  in_mru = λ _. refl;
  in_mfu = λ _. refl;
  in_mru_ghost = λ _. refl;
  in_mfu_ghost = λ _. refl;
  alive_status = λ _. omega arith;
  ghost_status = λ _. omega arith;
  ghost_page = λ p st e. cc;
  not_ghost = λ f st e. refl;
  one_frame = λ f g st su e e' q. cc;
  below = λ f st e. cc;
  counted = refl;
  small = h;
}
