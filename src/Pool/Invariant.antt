-- ===== src/Pool/Invariant.antt =====
-- The invariant of the buffer pool between calls, and its abstract view: each page's contents.
use bicycletub.Common.{
  ℕ, zero, suc, ◌+◌, ◌<◌, ◌≤◌, ◌≡◌, ◌≢◌, refl, Bool, true, false, List, [], ◌∷◌, Option, none, some,
  arith, count, bit, ◌==◌, leb, ltb, ◌&&◌, if◌then◌else◌, word64,
}
use bicycletub.Common.Assoc.{lookup, IsMap, keys, count_of_lookup}
use bicycletub.Disk.{DiskManagerMemory}
use bicycletub.Replacer.Access.{entry}
use bicycletub.Replacer.Invariant
use bicycletub.Replacer
use bicycletub.Pool.{BufferPoolManager, init, count_up, new_page}
use bicycletub.Pool.Fetch.{page_of}
use bicycletub.Pool.Switch.{on_disk}

module _ {D : Type 0} (zero_page : D) where
  -- `flag f n` is the replacer's flag of a frame with `n` pins.
  pub record InvBy (flag : ℕ → ℕ → Bool) (s : BufferPoolManager D) : Type 0 where
    pub replacer : Invariant.Inv s.replacer_
    pub capacity : s.replacer_.replacer_size_ ≡ s.num_frames_
    pub table_keys : IsMap s.page_table_
    -- A page's frame is known to the replacer under that page.
    pub resident :
        (p f : ℕ)
        → lookup p s.page_table_ ≡ some f
        → entry s.replacer_ f ≡ some (p, flag f (s.frames_ f).pin_count_)
    pub held :
        (f p : ℕ) (b : Bool) → entry s.replacer_ f ≡ some (p, b) → lookup p s.page_table_ ≡ some f
    pub unused : (f : ℕ) → entry s.replacer_ f ≡ none → (s.frames_ f).pin_count_ ≡ 0
    pub free_known : (f : ℕ) → 0 < count f s.free_frames_ → (entry s.replacer_ f ≡ none)
    pub free_below : (f : ℕ) → 0 < count f s.free_frames_ → f < s.num_frames_
    pub free_once : (f : ℕ) → count f s.free_frames_ ≤ 1
    -- A frame that is not dirty agrees with the disk.
    pub clean :
        (p f : ℕ)
        → lookup p s.page_table_ ≡ some f
        → (s.frames_ f).is_dirty_ ≡ false
        → (s.frames_ f).data_ ≡ on_disk zero_page s p
    -- The pins of a frame are the holders of its latch: readers, or one writer.
    pub latched :
        (f : ℕ)
        → (s.frames_ f).rwlatch_.readers + bit (s.frames_ f).rwlatch_.writer
          ≡ (s.frames_ f).pin_count_
    pub exclusive :
        (f : ℕ) → (s.frames_ f).rwlatch_.writer ≡ true → (s.frames_ f).rwlatch_.readers ≡ 0
    pub bounded : (f : ℕ) → (s.frames_ f).pin_count_ < word64
    pub served : s.disk_scheduler_.request_queue_ ≡ []

  -- Between calls a frame is evictable exactly while nothing pins it.
  abbrev pub Inv : BufferPoolManager D → Type 0
  Inv s = InvBy (λ f n. n == 0) s

  -- The same, but for the flag of the frame `f`.
  abbrev pub InvBut : ℕ → Bool → BufferPoolManager D → Type 0
  InvBut f b s = InvBy (λ g n. if f == g then b else n == 0) s

  abbrev pub shown : BufferPoolManager D → ℕ → Option ℕ → D
  shown s p (some f) = (s.frames_ f).data_
  shown s p none = on_disk zero_page s p

  -- What page `p` holds for a client: its frame's bytes, or those on disk.
  abbrev pub view : BufferPoolManager D → ℕ → D
  view s p = shown s p (lookup p s.page_table_)

count-count_up : (f i n : ℕ) → count f (count_up i n) ≡ (if leb i f && ltb f (i + n) then 1 else 0)
unfolding count_up
count-count_up f i zero = ground arith
count-count_up f i (suc n) = ground (arith, count-count_up f (i + 1) n)

pub page_of_sound :
    (f q : ℕ) (m : List (ℕ × ℕ))
    → ((k : ℕ) → count k (keys m) ≤ 1)
    → page_of f m ≡ some q
    → lookup q m ≡ some f
unfolding page_of lookup
page_of_sound f q [] h e = cc
page_of_sound f q ((p, g) ∷ m) h e =
    ground (arith, h q, page_of_sound f q m (λ k. omega (arith, h k)), count_of_lookup q f m)

pub page_of_complete : (f q : ℕ) (m : List (ℕ × ℕ)) → page_of f m ≡ none → lookup q m ≢ some f
unfolding page_of lookup
page_of_complete f q [] h e = cc
page_of_complete f q ((p, g) ∷ m) h e = ground (arith, page_of_complete f q m)

module _ {D : Type 0} (zero_page : D) where
  -- The pool that the constructor builds, of fewer than 2 ^ 64 frames, is valid.
  pub init-Inv : (n : ℕ) (d : DiskManagerMemory D) → n < word64 → Inv zero_page (init zero_page n d)
  unfolding init lookup
  init-Inv n d h = record {
    replacer = Replacer.Invariant.init-Inv n h;
    capacity = refl;
    table_keys = λ _. refl;
    resident = λ p f e. cc;
    held = λ f p b e. cc;
    unused = λ f e. refl;
    free_known = λ f c. refl;
    free_below = λ f c. ground (arith, count-count_up f 0 n);
    free_once = λ f. ground (arith, count-count_up f 0 n);
    clean = λ p f e. cc;
    latched = λ f. refl;
    exclusive = λ f e. refl;
    bounded = λ f. omega arith;
    served = refl;
  }

  -- `NewPage` gives out the next page id and changes no page.
  pub new_page-Inv : (s : BufferPoolManager D) → Inv zero_page s → Inv zero_page (new_page s).0
  unfolding new_page
  new_page-Inv s v = record {
    replacer = v.replacer;
    capacity = v.capacity;
    table_keys = v.table_keys;
    resident = v.resident;
    held = v.held;
    unused = v.unused;
    free_known = v.free_known;
    free_below = v.free_below;
    free_once = v.free_once;
    clean = v.clean;
    latched = v.latched;
    exclusive = v.exclusive;
    bounded = v.bounded;
    served = v.served;
  }
