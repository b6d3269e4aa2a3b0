-- ===== src/Insertion/Many.antt =====
-- A row of insertions, and GetValue after it.
use bicycletub.Common.{
  ℕ, suc, ◌+◌, ◌*◌, ◌<◌, ◌≤◌, ◌≡◌, refl, ap, ◌∙◌, arith, true, false, Bool-cases, ◌==◌,
  if◌then◌else◌, Option, none, some, List, [], length, ◌∷◌, inl, inr, half32, Result, ok, ◌>>=◌,
}
use native.Mathlib.Nat.{suc-mul}
use bicycletub.Tree.{IntegerKey, Rid, tree_get_value}
use bicycletub.Tree.Search.{order}
use bicycletub.Insertion.{BPlusTree, Casts, open_page, insert}
use bicycletub.Insertion.Descent.{Sizes}
use bicycletub.Insertion.Contents.{
  Valid, Chained, contents, contents_same_order, tree_get_value-contents,
}
use bicycletub.Insertion.Outcome.{Added, insert-InsertResult}

abbrev pub Entries : Type 0
Entries = List (IntegerKey × Rid)

-- The value of the first entry with the key.
abbrev pub first_value : Entries → IntegerKey → Option Rid
first_value [] q = none
first_value ((key, value) ∷ entries) q =
    if order key == order q then some value else first_value entries q

abbrev pub or_else : Option Rid → Option Rid → Option Rid
or_else (some w) o = some w
or_else none o = o

abbrev pub insert_all : Casts → ℕ → BPlusTree → Entries → Result BPlusTree
insert_all c fuel t [] = ok t
insert_all c fuel t ((key, value) ∷ entries) =
    insert c fuel t key value >>= λ (t', added). insert_all c fuel t' entries

-- Enough of everything for the insertions.
pub record Room (highest cap fuel : ℕ) (t : BPlusTree) (height : ℕ) (entries : Entries)
    : Type 0 where
  pub leaf_two : 2 ≤ t.leaf_max_size_
  pub internal_two : 2 ≤ t.internal_max_size_
  pub internal_cap : t.internal_max_size_ ≤ cap
  pub cap_small : cap < half32
  pub levels : height + length entries ≤ highest
  pub rounds : highest < fuel
  pub ids : t.next_page_id_ + length entries * (highest + 2) + 2 < half32

pub record Taken (cap fuel : ℕ) (t : BPlusTree) (height : ℕ) (entries : Entries) (t' : BPlusTree)
    : Type 0 where
  pub height' : ℕ
  pub valid : Valid t' height' cap
  pub chained : Chained t height → Chained t' height'
  pub few : t'.next_page_id_ < half32
  pub leaf_max : t'.leaf_max_size_ ≡ t.leaf_max_size_
  pub highest : height' ≤ height + length entries
  pub contents' :
      (q : IntegerKey)
      → contents t' height' q ≡ or_else (contents t height q) (first_value entries q)
  pub finds :
      (q : IntegerKey)
      → tree_get_value (open_page t') fuel t'.root_page_id_ q
        ≡ ok (or_else (contents t height q) (first_value entries q))

-- The rest of the row after the first entry.
module _ (c : Casts) (highest cap fuel : ℕ) (t : BPlusTree) (height : ℕ) (key : IntegerKey)
    (value : Rid) (entries : Entries) (v : Valid t height cap)
    (r : Room highest cap fuel t height ((key, value) ∷ entries)) where
  abbrev AllTaken : BPlusTree → ℕ → Entries → Type 0
  AllTaken t height entries =
      (t' : BPlusTree) × (insert_all c fuel t entries ≡ ok t') × Taken cap fuel t height entries t'

  step : suc (length entries) * (highest + 2) ≡ length entries * (highest + 2) + (highest + 2)
  step = suc-mul (length entries) (highest + 2)

  sizes : Sizes t (suc height) cap
  sizes = record {
    leaf_two = r.leaf_two;
    internal_two = r.internal_two;
    internal_cap = r.internal_cap;
    cap_small = r.cap_small;
    ids_left = omega (arith, r.ids, r.levels, step);
  }

  same-Room : Room highest cap fuel t height entries
  same-Room = record {
    leaf_two = r.leaf_two;
    internal_two = r.internal_two;
    internal_cap = r.internal_cap;
    cap_small = r.cap_small;
    levels = omega (arith, r.levels);
    rounds = r.rounds;
    ids = omega (arith, r.ids, step);
  }

  less-Room :
      (t' : BPlusTree) (height' : ℕ)
      → Added t height cap key value t' height'
      → Room highest cap fuel t' height' entries
  less-Room t' height' a = record {
    leaf_two = ground (arith, a.leaf_max, r.leaf_two);
    internal_two = ground (arith, a.internal_max, r.internal_two);
    internal_cap = ground (arith, a.internal_max, r.internal_cap);
    cap_small = r.cap_small;
    levels = omega (arith, r.levels, a.highest);
    rounds = r.rounds;
    ids = omega (arith, r.ids, r.levels, a.few, step);
  }

  -- What the map has under the key of the entry, it has under the key's equals.
  for_equals :
      (o : Option Rid)
      → contents t height key ≡ o
      → (q : IntegerKey) → (order key == order q) ≡ true
      → contents t height q ≡ o
  for_equals o e q f = contents_same_order t height cap key q (ground (arith, f)) v ∙ e

  refused_step :
      (w : Rid)
      → contents t height key ≡ some w
      → insert c fuel t key value ≡ ok (t, false)
      → AllTaken t height entries
      → AllTaken t height ((key, value) ∷ entries)
  refused_step w e f (t', g, n) = (
    t',
    rw f g,
    let value_of : (q : IntegerKey)
            → or_else (contents t height q) (first_value entries q)
              ≡ or_else (contents t height q) (first_value ((key, value) ∷ entries) q) =
          λ q. elim (Bool-cases (order key == order q)) [
            | inl x ↦ rw (x, for_equals (some w) e q x) refl
            | inr x ↦ rw x refl
          ] in
        record {
          height' = n.height';
          valid = n.valid;
          chained = n.chained;
          few = n.few;
          leaf_max = n.leaf_max;
          highest = omega (arith, n.highest);
          contents' = λ q. n.contents' q ∙ value_of q;
          finds = λ q. n.finds q ∙ ap ok (value_of q);
        },
  )

  Added-step :
      (t' : BPlusTree) (height' : ℕ)
      → contents t height key ≡ none
      → insert c fuel t key value ≡ ok (t', true)
      → Added t height cap key value t' height'
      → AllTaken t' height' entries
      → AllTaken t height ((key, value) ∷ entries)
  Added-step t' height' e f a (t'', g, n) = (
    t'',
    rw f g,
    let value_of : (q : IntegerKey)
            → or_else (contents t' height' q) (first_value entries q)
              ≡ or_else (contents t height q) (first_value ((key, value) ∷ entries) q) =
          λ q. rw (a.contents' q) (elim (Bool-cases (order key == order q)) [
            | inl x ↦ rw (x, for_equals none e q x) refl
            | inr x ↦ rw x refl
          ]) in
        record {
          height' = n.height';
          valid = n.valid;
          chained = λ l. n.chained (a.chained l);
          few = n.few;
          leaf_max = n.leaf_max ∙ a.leaf_max;
          highest = omega (arith, n.highest, a.highest);
          contents' = λ q. n.contents' q ∙ value_of q;
          finds = λ q. n.finds q ∙ ap ok (value_of q);
        },
  )

module _ (c : Casts) (highest cap fuel : ℕ) where
  -- Insertions one after the other into a valid tree, empty or not, whose maxima are 2 at least, with
  -- a bound on the children of its internal pages that is not under the internal maximum and below
  -- 2 ^ 31, with a bound on the height that leaves a level for each
  -- entry, more fuel than that bound, and as many page ids left below 2 ^ 31 as each entry may need at
  -- that height: each Insert returns, the tree is valid at the end, and GetValue then returns for every
  -- key what the tree had under it before or, when it had nothing, the value of the first entry
  -- with the key, if there is one.
  pub insert_all-Taken :
      (t : BPlusTree) (height : ℕ) (entries : Entries)
      → Valid t height cap
      → Room highest cap fuel t height entries
      → (t' : BPlusTree) × (insert_all c fuel t entries ≡ ok t')
        × Taken cap fuel t height entries t'
  insert_all-Taken t height [] v r = (
    t,
    refl,
    record {
      height' = height;
      valid = v;
      chained = λ l. l;
      few = omega (arith, r.ids);
      leaf_max = refl;
      highest = omega arith;
      contents' = λ q. or_else_none (contents t height q);
      finds = λ q.
          tree_get_value-contents t height cap fuel q v (omega (arith, r.ids)) r.cap_small
            (omega (arith, r.levels, r.rounds))
          ∙ ap ok (or_else_none (contents t height q));
    },
  )
    where
      or_else_none : (o : Option Rid) → o ≡ or_else o none
      or_else_none none = refl
      or_else_none (some w) = refl
  insert_all-Taken t height ((key, value) ∷ entries) v r =
      elim (insert-InsertResult c t height cap key value
        (sizes c highest cap fuel t height key value entries v r) fuel
        (omega (arith, r.levels, r.rounds)) v) [
          | inl (w, e, f) ↦ refused_step c highest cap fuel t height key value entries v r w e f (
              insert_all-Taken t height entries v
                (same-Room c highest cap fuel t height key value entries v r))
          | inr (e, t', height', f, a) ↦
              Added-step c highest cap fuel t height key value entries v r t' height' e f a (
                insert_all-Taken t' height' entries a.valid
                  (less-Room c highest cap fuel t height key value entries v r t' height' a))
        ]
