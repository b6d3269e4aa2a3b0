-- ===== src/Parent/Spread.antt =====
-- An insertion into an internal page, slot by slot: the entries with the new one among them, in one
-- page or spread over two.
use bicycletub.Common.{
  ℕ, ◌+◌, ◌-◌, ◌<◌, ◌≤◌, ◌≡◌, refl, arith, ◌==◌, ltb, if◌then◌else◌, half32, Result, ok, ◌>>=◌,
  subst, ==_iff, Bool-cases, inl, inr,
}
use bicycletub.Tree.{InternalPage, IntegerKey, min_size, key_at}
use bicycletub.Parent.{
  put_entry, clear_entry, resize, move_entries, insert_entry, first_child, Halves, split_at,
  spread_below, with_key, spread_above, split_internal,
}
use bicycletub.Parent.Slots.{shift_entries-Shifted, move_entries-Moved}

-- An array with `x` put in at `index`.
abbrev pub inserted {ℓ} : {A : Type ℓ} → (ℕ → A) → ℕ → A → ℕ → A
inserted a index x i = if ltb i index then a i else (if i == index then x else a (i - 1))

pub record Single (p : InternalPage) (index : ℕ) (key : IntegerKey) (child : ℕ) (q : InternalPage)
    : Type 0 where
  pub keys : (i : ℕ) → i ≤ p.size_ → q.key_array_ i ≡ inserted p.key_array_ index key i
  pub children :
      (i : ℕ) → i ≤ p.size_ → q.page_id_array_ i ≡ inserted p.page_id_array_ index child i
  pub size : q.size_ ≡ p.size_ + 1
  pub max : q.max_size_ ≡ p.max_size_

-- The first `m` entries in the one page, the others in the other, and the key between them.
pub record Spread (p new : InternalPage) (index : ℕ) (key : IntegerKey) (child m : ℕ) (x : Halves)
    : Type 0 where
  pub left_keys : (i : ℕ) → i < m → x.0.key_array_ i ≡ inserted p.key_array_ index key i
  pub left_children :
      (i : ℕ) → i < m → x.0.page_id_array_ i ≡ inserted p.page_id_array_ index child i
  pub right_keys :
      (i : ℕ) → 0 < i → m + i ≤ p.size_ → x.1.key_array_ i ≡ inserted p.key_array_ index key (m + i)
  pub right_children :
      (i : ℕ)
      → m + i ≤ p.size_
      → x.1.page_id_array_ i ≡ inserted p.page_id_array_ index child (m + i)
  pub left_size : x.0.size_ ≡ m
  pub left_max : x.0.max_size_ ≡ p.max_size_
  pub right_size : x.1.size_ + m ≡ p.size_ + 1
  pub right_max : x.1.max_size_ ≡ new.max_size_
  pub up_key : x.2 ≡ inserted p.key_array_ index key m

-- An insertion at an index inside an internal page, or right behind its entries, leaves the entries
-- with the new one among them there, the size one more, and the same maximum.
pub insert_entry-Single :
    (p : InternalPage) (index : ℕ) (key : IntegerKey) (child : ℕ)
    → index ≤ p.size_
    → Single p index key child (insert_entry p index key child)
unfolding insert_entry
insert_entry-Single p index key child h =
    let v = shift_entries-Shifted p p.size_ (p.size_ - index) (omega arith) in
    record {
      keys = λ i c. ground (arith, v.keys i);
      children = λ i c. ground (arith, v.children i);
      size = omega (arith, v.size);
      max = v.max;
    }

module _ (p new : InternalPage) (index : ℕ) (key : IntegerKey) (child : ℕ) (empty : new.size_ ≡ 0)
    (small : p.size_ < half32) (inside : index ≤ p.size_) where
  abbrev Splits : ℕ → Result Halves → Type 0
  Splits m r = (x : Halves) × (r ≡ ok x) × Spread p new index key child m x

  split_at-Spread : (mid : ℕ) → mid ≡ index → Splits mid (split_at p new mid key child)
  unfolding split_at
  split_at-Spread mid e =
      let v = move_entries-Moved p (first_child new child) mid 1 (p.size_ - mid) in
      (
        _,
        refl,
        record {
          left_keys = λ i c. ground (arith, v.left_keys i);
          left_children = λ i c. ground (arith, v.left_children i);
          right_keys = λ i c d. ground (arith, v.right_keys i);
          right_children = λ i d. ground (arith, v.right_children i);
          left_size = omega (arith, v.left_size);
          left_max = v.left_max;
          right_size = omega (arith, v.right_size);
          right_max = v.right_max;
          up_key = ground arith;
        },
      )

  key_at-inside : (i : ℕ) → 0 < i → i < p.size_ → key_at p i ≡ ok (p.key_array_ i)
  unfolding key_at
  key_at-inside i a b = ground arith

  split_below-Spread :
      (mid : ℕ)
      → 0 < index
      → index ≤ mid
      → mid < p.size_
      → Splits (mid + 1) (key_at p mid >>= with_key (spread_below p new mid index key child))
  unfolding spread_below
  split_below-Spread mid a b c =
      let new' = first_child new (p.page_id_array_ mid) in
      let v = move_entries-Moved (clear_entry p mid) new' (mid + 1) 1 (p.size_ - (mid + 1)) in
      let l = (move_entries (clear_entry p mid) new' (mid + 1) 1 (p.size_ - (mid + 1))).0 in
      let w =
        shift_entries-Shifted (resize l (l.size_ - (1 + (p.size_ - (mid + 1))))) mid (mid - index)
          (omega arith) in
      (
        (
          (spread_below p new mid index key child).0,
          (spread_below p new mid index key child).1,
          p.key_array_ mid,
        ),
        rw (key_at-inside mid (omega arith) c) refl,
        record {
          left_keys = λ i d. ground (arith, w.keys i, v.left_keys i, v.left_keys (i - 1));
          left_children =
              λ i d. ground (arith, w.children i, v.left_children i, v.left_children (i - 1));
          right_keys = λ i d e. ground (arith, v.right_keys i);
          right_children = λ i d. ground (arith, v.right_children i);
          left_size = omega (arith, w.size, v.left_size, a, b, c);
          left_max = ground (arith, w.max, v.left_max);
          right_size = omega (arith, v.right_size);
          right_max = v.right_max;
          up_key = ground arith;
        },
      )

  split_above-Spread :
      (mid : ℕ)
      → 0 < mid
      → mid < index
      → Splits mid (key_at p mid >>= with_key (spread_above p new mid index key child))
  unfolding spread_above
  split_above-Spread mid a b =
      let new' = first_child new (p.page_id_array_ mid) in
      let n = index - (mid + 1) in
      let v = move_entries-Moved (clear_entry p mid) new' (mid + 1) 1 n in
      let (l, r) = move_entries (clear_entry p mid) new' (mid + 1) 1 n in
      let r' = resize (put_entry r (1 + n) key child) (r.size_ + 1) in
      let w = move_entries-Moved l r' index (1 + n + 1) (p.size_ - index) in
      (
        (
          (spread_above p new mid index key child).0,
          (spread_above p new mid index key child).1,
          p.key_array_ mid,
        ),
        rw (key_at-inside mid a (omega arith)) refl,
        record {
          left_keys = λ i d. ground (arith, w.left_keys i, v.left_keys i);
          left_children = λ i d. ground (arith, w.left_children i, v.left_children i);
          right_keys = λ i d e.
              ground
                (arith, w.right_keys i, v.right_keys i, v.left_keys (index + (i - (1 + n + 1))));
          right_children = λ i d. ground (
            arith,
            w.right_children i,
            v.right_children i,
            v.left_children (index + (i - (1 + n + 1))),
          );
          left_size = omega (arith, w.left_size, v.left_size);
          left_max = ground (arith, w.left_max, v.left_max);
          right_size = omega (arith, w.right_size, v.right_size);
          right_max = ground (arith, w.right_max, v.right_max);
          up_key = ground arith;
        },
      )

  -- An internal page with no room left and a maximum of 2 at least, its size below 2 ^ 31, is split for
  -- an entry at an index from 1 to its size, with an empty new page: nothing throws. The entries with the new one among them stand in the
  -- two pages, the first `GetMinSize` of them in the old one, the others in the new, but for the key
  -- of the new page's first, which goes up. The maxima of both pages stay.
  pub split_internal-Spread :
      0 < index
      → 2 ≤ p.max_size_
      → p.max_size_ ≤ p.size_
      → Splits (min_size p.max_size_) (split_internal p new index key child)
  unfolding split_internal
  split_internal-Spread a b c =
      let m = min_size p.max_size_ in
      elim (Bool-cases (m == index)) [
        | inl e ↦ rw e (split_at-Spread m ((==_iff m index).0 e))
        | inr e ↦ elim (Bool-cases (ltb index m)) [
          | inl f ↦
              rw (e, f)
                (subst
                  (λ k.
                    Splits k
                      (key_at p (m - 1) >>= with_key (spread_below p new (m - 1) index key child)))
                  (omega (arith, b))
                  (split_below-Spread (m - 1) a (ground arith) (omega (arith, b, c))))
          | inr f ↦ rw (e, f) (split_above-Spread m (omega (arith, b)) (ground arith))
        ]
      ]
