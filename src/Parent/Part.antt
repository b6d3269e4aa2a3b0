-- ===== src/Parent/Part.antt =====
-- A page that holds a range of another's entries: each of the two halves of a split.
use bicycletub.Common.{ℕ, ◌+◌, ◌-◌, ◌<◌, ◌≤◌, ◌≡◌, arith}
use bicycletub.Tree.{InternalPage, IntegerKey}
use bicycletub.Tree.Search.{IsSorted}
use bicycletub.Tree.Internal.{Routes}
use bicycletub.Parent.{Halves}
use bicycletub.Parent.Spread.{Single, Spread}
use bicycletub.Parent.Route.{grown_page, route, route-Routes, Routes-unique}

-- `p` holds the entries of `whole` from `m` on, but perhaps for the key of the first.
pub record Part (whole p : InternalPage) (m : ℕ) : Type 0 where
  pub keys : (i : ℕ) → 0 < i → i < p.size_ → p.key_array_ i ≡ whole.key_array_ (m + i)
  pub children : (i : ℕ) → i < p.size_ → p.page_id_array_ i ≡ whole.page_id_array_ (m + i)
  pub size : m + p.size_ ≤ whole.size_
  pub used : 0 < p.size_

module _ (p : InternalPage) (index : ℕ) (key : IntegerKey) (child : ℕ) where
  pub Single-Part :
      (q : InternalPage) → Single p index key child q → Part (grown_page p index key child) q 0
  Single-Part q s = record {
    keys = λ i a b. ground (arith, s.size, s.keys i);
    children = λ i a. ground (arith, s.size, s.children i);
    size = omega (arith, s.size);
    used = omega (arith, s.size);
  }

  module _ (new : InternalPage) (m : ℕ) (x : Halves) (h : Spread p new index key child m x)
      (some_left : 0 < m) (inner : m ≤ p.size_) where
    pub left-Part : Part (grown_page p index key child) x.0 0
    left-Part = record {
      keys = λ i a b. ground (arith, h.left_size, h.left_keys i);
      children = λ i a. ground (arith, h.left_size, h.left_children i);
      size = omega (arith, h.left_size);
      used = omega (arith, h.left_size);
    }

    pub right-Part : Part (grown_page p index key child) x.1 m
    right-Part = record {
      keys = λ i a b. h.right_keys i a (omega (arith, h.right_size));
      children = λ i a. h.right_children i (omega (arith, h.right_size));
      size = omega (arith, h.right_size);
      used = omega (arith, h.right_size);
    }

module _ (whole p : InternalPage) (m : ℕ) (h : Part whole p m)
    (sorted : IsSorted whole.key_array_ 1 whole.size_) where
  pub Part-IsSorted : IsSorted p.key_array_ 1 p.size_
  Part-IsSorted i j a b c = ground (arith, h.size, h.keys i, h.keys j, sorted (m + i) (m + j))

  Part-Routes :
      (q : IntegerKey) (i : ℕ) → m ≤ i → i < m + p.size_ → Routes whole q i → Routes p q (i - m)
  Part-Routes q i a b r = (
    omega arith,
    λ j c d. ground (arith, h.keys j, r.1 (m + j)),
    λ j c d. ground (arith, h.size, h.keys j, r.2 (m + j)),
  )

  -- A key whose child is in the range is sent to that child.
  pub Part-route :
      (q : IntegerKey) (i : ℕ) → m ≤ i → i < m + p.size_ → Routes whole q i → m + route p q ≡ i
  Part-route q i a b r = omega (
    arith,
    Routes-unique p q (route p q) (i - m) (route-Routes p Part-IsSorted h.used q)
        (Part-Routes q i a b r),
  )
