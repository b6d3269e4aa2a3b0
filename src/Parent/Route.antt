-- ===== src/Parent/Route.antt =====
-- Where a key's child stands in an internal page, before and after an insertion.
use bicycletub.Common.{
  ℕ, ◌+◌, ◌-◌, ◌<◌, ◌≡◌, arith, ◌==◌, ◌&&◌, ltb, if◌then◌else◌, half32, ok, ◌∙◌, ap,
}
use bicycletub.Tree.{InternalPage, IntegerKey, internal_key_index, child_index}
use bicycletub.Tree.Search.{order, IsSorted, Splits, search-Splits}
use bicycletub.Tree.Internal.{Routes, child_index-Routes}
use bicycletub.Parent.Spread.{inserted}

-- The child that a key is sent to.
unfoldable pub route : InternalPage → IntegerKey → ℕ
route p key =
    let index = internal_key_index p key in
    if ltb index p.size_ && (order (p.key_array_ index) == order key) then index else index - 1

pub Routes-unique :
    (p : InternalPage) (key : IntegerKey) (i j : ℕ) → Routes p key i → Routes p key j → i ≡ j
Routes-unique p key i j a b = ground (arith, a.1 i, a.2 j, b.1 j, b.2 i)

module _ (p : InternalPage) (sorted : IsSorted p.key_array_ 1 p.size_) (used : 0 < p.size_) where
  pub index-Splits :
      (key : IntegerKey) → Splits p.key_array_ key 1 p.size_ (internal_key_index p key)
  index-Splits key =
      search-Splits p.key_array_ key 1 p.size_ sorted p.size_ (omega arith) (omega arith)

  pub route-Routes : (key : IntegerKey) → Routes p key (route p key)
  unfolding route
  route-Routes key =
      let n = internal_key_index p key in
      let v = index-Splits key in
      (
        ground (arith, v.0, v.1),
        λ j a b. ground (arith, v.0, v.2 j, sorted j n),
        λ j a b. ground (arith, v.0, v.3 j, v.3 n, sorted n j),
      )

  pub child_index-route :
      (key : IntegerKey) → p.size_ < half32 → child_index p key ≡ ok (route p key)
  child_index-route key small =
      let (i, e, r) = child_index-Routes p key sorted used small in
      e ∙ ap ok (Routes-unique p key i (route p key) r (route-Routes key))

-- The page that an insertion aims at.
abbrev pub grown_page : InternalPage → ℕ → IntegerKey → ℕ → InternalPage
grown_page p index key child = record p {
  key_array_ = inserted p.key_array_ index key;
  page_id_array_ = inserted p.page_id_array_ index child;
  size_ = p.size_ + 1;
}

module _ (p : InternalPage) (sorted : IsSorted p.key_array_ 1 p.size_) (index : ℕ)
    (key : IntegerKey) (child : ℕ) (place : Splits p.key_array_ key 1 p.size_ index)
    (fresh : index < p.size_ → order key < order (p.key_array_ index)) where
  pub grown_page-IsSorted : IsSorted (grown_page p index key child).key_array_ 1 (p.size_ + 1)
  grown_page-IsSorted i j a b c = ground (
    arith,
    place.0,
    place.1,
    place.2 i,
    place.3 (j - 1),
    fresh,
    sorted i j,
    sorted (i - 1) (j - 1),
    sorted i (j - 1),
    sorted index (j - 1),
  )

  -- A key keeps its child, but for the keys of the split child from the new key on.
  pub grown_page-Routes :
      (q : IntegerKey) (i : ℕ)
      → Routes p q i
      → Routes (grown_page p index key child) q (
          if ltb (i + 1) index
          then i
          else (if i + 1 == index then (if ltb (order q) (order key) then i else index) else i + 1))
  grown_page-Routes q i r = (
    ground (arith, r.0, place.1),
    λ j a b. ground (
      arith,
      r.1 j,
      r.1 (j - 1),
      r.1 index,
      r.2 index,
      place.0,
      place.1,
      place.2 j,
      place.3 (j - 1),
      fresh,
    ),
    λ j a b. ground (
      arith,
      r.0,
      r.2 j,
      r.2 (j - 1),
      r.1 (index - 1),
      r.2 (index - 1),
      place.2 (index - 1),
      place.0,
      place.1,
      place.2 j,
      place.3 (j - 1),
      place.2 i,
      fresh,
    ),
  )
