-- ===== src/Tree/Leaf.antt =====
-- A leaf as a map from keys to record ids: GetValue, and Insert into a leaf with room.
use bicycletub.Common.{
  ℕ, ◌+◌, ◌-◌, ◌<◌, ◌≤◌, ◌≡◌, arith, false, ◌==◌, ◌&&◌, ltb, leb, if◌then◌else◌, none, some, ◌↔◌,
}
use bicycletub.Tree.{LeafPage, IntegerKey, Rid, is_at, get_value, insert_at, leaf_key_index}
use bicycletub.Tree.Search.{
  order, IsSorted, Splits, Splits-unique, search-Splits, compare_keys_zero,
}
use bicycletub.Tree.Arrays.{insert_at-key, insert_at-rid, insert_at-size}

-- The keys of a leaf rise.
abbrev pub IsLeaf : LeafPage → Type 0
IsLeaf p = IsSorted p.key_array_ 0 p.size_

-- The leaf stores `value` under the key.
abbrev pub Stores : LeafPage → IntegerKey → Rid → Type 0
Stores p key value =
    (i : ℕ) × (i < p.size_) × (order (p.key_array_ i) ≡ order key) × (p.rid_array_ i ≡ value)

abbrev pub Place : LeafPage → IntegerKey → ℕ → Type 0
Place p key i = Splits p.key_array_ key 0 p.size_ i

pub leaf_key_index-Place :
    (p : LeafPage) → IsLeaf p → (key : IntegerKey) → Place p key (leaf_key_index p key)
leaf_key_index-Place p sorted key =
    search-Splits p.key_array_ key 0 p.size_ sorted p.size_ (omega arith) (omega arith)

pub is_at-order :
    (p : LeafPage) (i : ℕ) (key : IntegerKey)
    → is_at p i key ≡ (ltb i p.size_ && (order (p.key_array_ i) == order key))
unfolding is_at
is_at-order p i key = ground (arith, compare_keys_zero (p.key_array_ i) key)

-- What GetValue returns, by the key's place.
pub get_value-Place :
    (p : LeafPage)
    → IsLeaf p
    → (key : IntegerKey) (i : ℕ) → Place p key i
    → get_value p key ≡ (
        if ltb i p.size_ && (order (p.key_array_ i) == order key)
        then some (p.rid_array_ i)
        else none)
unfolding get_value
get_value-Place p sorted key i h = ground (
  arith,
  is_at-order p (leaf_key_index p key) key,
  Splits-unique p.key_array_ key 0 p.size_ _ i (leaf_key_index-Place p sorted key) h,
)

Place-at :
    (p : LeafPage)
    → IsLeaf p
    → (key : IntegerKey) (j : ℕ) → j < p.size_
    → order (p.key_array_ j) ≡ order key
    → Place p key j
Place-at p sorted key j a b = (
  omega arith,
  omega arith,
  λ k c d. ground (arith, sorted k j),
  λ k c d. ground (arith, sorted j k),
)

-- On a leaf whose keys rise, GetValue finds a record id exactly when the leaf stores it under the key.
pub get_value-Stores :
    (p : LeafPage)
    → IsLeaf p
    → (key : IntegerKey) (value : Rid) → (get_value p key ≡ some value) ↔ Stores p key value
get_value-Stores p sorted key value =
    let i = leaf_key_index p key in
    let h = leaf_key_index-Place p sorted key in
    (
      λ e. (
        i,
        ground (arith, get_value-Place p sorted key i h),
        ground (arith, get_value-Place p sorted key i h),
        ground (arith, get_value-Place p sorted key i h),
      ),
      λ (j, a, b, c). ground (arith, get_value-Place p sorted key j (Place-at p sorted key j a b)),
    )

module _ (p : LeafPage) (sorted : IsLeaf p) (key : IntegerKey) (value : Rid) (i : ℕ)
    (place : Place p key i) (absent : is_at p i key ≡ false) where
  abbrev grown : LeafPage
  grown = insert_at p i key value

  fresh : i < p.size_ → order key < order (p.key_array_ i)
  fresh h = ground (arith, is_at-order p i key, place.3 i)

  key_of :
      (j : ℕ)
      → j ≤ p.size_
      → grown.key_array_ j
        ≡ (if i == j then key else (if ltb i j then p.key_array_ (j - 1) else p.key_array_ j))
  key_of j h = insert_at-key p i key value j place.1 h

  pub insert_at-IsLeaf : IsLeaf grown
  insert_at-IsLeaf a b h c d = ground (
    arith,
    insert_at-size p i key value,
    key_of a,
    key_of b,
    place.2 a,
    place.3 (b - 1),
    fresh,
    sorted a b,
    sorted (a - 1) (b - 1),
    sorted a (b - 1),
    sorted i (b - 1),
  )

  -- The place of another key moves up behind the new one.
  abbrev moved : IntegerKey → ℕ
  moved q = if leb (order q) (order key) then leaf_key_index p q else leaf_key_index p q + 1

  moved-Place : (q : IntegerKey) → Place grown q (moved q)
  moved-Place q =
      let h = leaf_key_index-Place p sorted q in
      (
        omega arith,
        ground (arith, insert_at-size p i key value, h.1),
        λ j a b. ground (
          arith,
          key_of j,
          h.1,
          h.2 j,
          h.2 (j - 1),
          h.2 i,
          place.1,
          place.2 j,
          place.2 (j - 1),
          place.3 j,
          fresh,
          sorted i (j - 1),
        ),
        λ j a b. ground (
          arith,
          insert_at-size p i key value,
          key_of j,
          h.3 j,
          h.3 (j - 1),
          h.3 (i - 1),
          place.2 (i - 1),
          place.2 j,
          place.3 (j - 1),
          place.1,
          fresh,
        ),
      )

  -- Insertion at the key's place is insertion into the map.
  pub insert_at-get_value :
      (q : IntegerKey)
      → get_value grown q ≡ (if order key == order q then some value else get_value p q)
  insert_at-get_value q =
      let h = leaf_key_index-Place p sorted q in
      ground (
        arith,
        get_value-Place grown insert_at-IsLeaf q (moved q) (moved-Place q),
        get_value-Place p sorted q (leaf_key_index p q) h,
        insert_at-size p i key value,
        key_of (moved q),
        insert_at-rid p i key value (moved q) place.1,
        fresh,
        place.2 (leaf_key_index p q),
        place.3 (leaf_key_index p q),
        h.1,
        h.2 i,
        h.3 i,
        h.3 (i - 1),
        place.2 (i - 1),
        place.1,
      )
