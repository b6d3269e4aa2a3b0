-- ===== src/Parent/Slots.antt =====
-- What the loops over an internal page do to each slot.
use bicycletub.Common.{
  ℕ, zero, suc, ◌+◌, ◌-◌, ◌≤◌, ◌≡◌, refl, ap, ◌∙◌, arith, ◌&&◌, ltb, leb, if◌then◌else◌, minus_one,
}
use bicycletub.Tree.{InternalPage, default_key, set_at}
use bicycletub.Tree.Arrays.{shifted}
use bicycletub.Parent.{clear_entry, copy_entry, shift_entry, shift_entries, move_entries}

pub record Shifted (p : InternalPage) (i n : ℕ) (q : InternalPage) : Type 0 where
  pub keys : (j : ℕ) → q.key_array_ j ≡ shifted p.key_array_ (i - n) i j
  pub children : (j : ℕ) → q.page_id_array_ j ≡ shifted p.page_id_array_ (i - n) i j
  pub size : q.size_ ≡ p.size_
  pub max : q.max_size_ ≡ p.max_size_

-- The loop on one array.
shift_array : {A : Type 0} → (ℕ → A) → ℕ → ℕ → ℕ → A
shift_array a i zero = a
shift_array a i (suc n) = shift_array (set_at a i (a (i - 1))) (i - 1) n

shift_array_lem :
    {A : Type 0} (a : ℕ → A) (i n j : ℕ) → n ≤ i → shift_array a i n j ≡ shifted a (i - n) i j
unfolding shift_array
shift_array_lem a i zero j h = ground arith
shift_array_lem a i (suc n) j h =
    ground (arith, shift_array_lem (set_at a i (a (i - 1))) (i - 1) n j)

shift_entries-keys :
    (p : InternalPage) (i n : ℕ) → (shift_entries p i n).key_array_ ≡ shift_array p.key_array_ i n
unfolding shift_entries shift_array
shift_entries-keys p i zero = refl
shift_entries-keys p i (suc n) = shift_entries-keys (shift_entry p i) (i - 1) n

shift_entries-children :
    (p : InternalPage) (i n : ℕ)
    → (shift_entries p i n).page_id_array_ ≡ shift_array p.page_id_array_ i n
unfolding shift_entries shift_array
shift_entries-children p i zero = refl
shift_entries-children p i (suc n) = shift_entries-children (shift_entry p i) (i - 1) n

shift_entries-size : (p : InternalPage) (i n : ℕ) → (shift_entries p i n).size_ ≡ p.size_
unfolding shift_entries
shift_entries-size p i zero = refl
shift_entries-size p i (suc n) = shift_entries-size (shift_entry p i) (i - 1) n

shift_entries-max : (p : InternalPage) (i n : ℕ) → (shift_entries p i n).max_size_ ≡ p.max_size_
unfolding shift_entries
shift_entries-max p i zero = refl
shift_entries-max p i (suc n) = shift_entries-max (shift_entry p i) (i - 1) n

pub shift_entries-Shifted :
    (p : InternalPage) (i n : ℕ) → n ≤ i → Shifted p i n (shift_entries p i n)
shift_entries-Shifted p i n h = record {
  keys = λ j. ap (λ a. a j) (shift_entries-keys p i n) ∙ shift_array_lem p.key_array_ i n j h;
  children =
      λ j. ap (λ a. a j) (shift_entries-children p i n) ∙ shift_array_lem p.page_id_array_ i n j h;
  size = shift_entries-size p i n;
  max = shift_entries-max p i n;
}

pub record Moved (p new : InternalPage) (i j n : ℕ) (x : InternalPage × InternalPage) : Type 0 where
  pub left_keys :
      (k : ℕ)
      → x.0.key_array_ k ≡ (if leb i k && ltb k (i + n) then default_key else p.key_array_ k)
  pub left_children :
      (k : ℕ)
      → x.0.page_id_array_ k ≡ (if leb i k && ltb k (i + n) then minus_one else p.page_id_array_ k)
  pub right_keys :
      (k : ℕ)
      → x.1.key_array_ k
        ≡ (if leb j k && ltb k (j + n) then p.key_array_ (i + (k - j)) else new.key_array_ k)
  pub right_children :
      (k : ℕ)
      → x.1.page_id_array_ k ≡ (
          if leb j k && ltb k (j + n) then p.page_id_array_ (i + (k - j)) else new.page_id_array_ k)
  pub left_size : x.0.size_ ≡ p.size_
  pub left_max : x.0.max_size_ ≡ p.max_size_
  pub right_size : x.1.size_ ≡ new.size_ + n
  pub right_max : x.1.max_size_ ≡ new.max_size_

pub move_entries-Moved :
    (p new : InternalPage) (i j n : ℕ) → Moved p new i j n (move_entries p new i j n)
unfolding move_entries
move_entries-Moved p new i j zero = record {
  left_keys = λ k. ground arith;
  left_children = λ k. ground arith;
  right_keys = λ k. ground arith;
  right_children = λ k. ground arith;
  left_size = refl;
  left_max = refl;
  right_size = omega arith;
  right_max = refl;
}
move_entries-Moved p new i j (suc n) =
    let v = move_entries-Moved (clear_entry p i) (copy_entry p new i j) (i + 1) (j + 1) n in
    record {
      left_keys = λ k. ground (arith, v.left_keys k);
      left_children = λ k. ground (arith, v.left_children k);
      right_keys = λ k. ground (arith, v.right_keys k);
      right_children = λ k. ground (arith, v.right_children k);
      left_size = v.left_size;
      left_max = v.left_max;
      right_size = omega (arith, v.right_size);
      right_max = v.right_max;
    }
