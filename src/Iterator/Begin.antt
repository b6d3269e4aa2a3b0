-- ===== src/Iterator/Begin.antt =====
-- Where `Begin(key)` puts the iterator.
use bicycletub.Common.{
  ℕ, ◌+◌, ◌<◌, ◌≤◌, ◌≡◌, ◌≢◌, refl, arith, Bool, true, false, not, ◌&&◌, ◌||◌, Result, ok, err,
  ◌>>=◌, if◌then◌else◌, ◌==◌, half32, minus_one,
}
use bicycletub.Common
use bicycletub.Tree.{LeafPage, IntegerKey, leaf_key_index}
use bicycletub.Tree.Search.{order}
use bicycletub.Tree.Leaf.{IsLeaf, leaf_key_index-Place}
use bicycletub.Iterator.{is_end, dereference, entry_at, begin_from}
use bicycletub.Iterator.Traversal.{dereference-here}

module _ (read : ℕ → Result LeafPage) (id : ℕ) (p : LeafPage) (key : IntegerKey)
    (here : read id ≡ ok p) (sorted : IsLeaf p) (small : p.size_ < half32) where
  -- On a leaf that is read, with rising keys and a size below 2 ^ 31: if it has a key that is not below the given one, `Begin(key)` stands on the leaf's first
  -- such entry, and `*it` returns it.
  pub begin_from-first :
      (i : ℕ)
      → i < p.size_
      → order key ≤ order (p.key_array_ i)
      → (j : ℕ) × (j ≤ i)
        × (order key ≤ order (p.key_array_ j))
        × ((k : ℕ) → k < j → order (p.key_array_ k) < order key)
        × (dereference read (begin_from id p key) ≡ ok (entry_at read p j))
  unfolding begin_from
  begin_from-first i a b =
      let v = leaf_key_index-Place p sorted key in
      let j = leaf_key_index p key in
      let c : j ≤ i = ground (arith, v.2 i) in
      (
        j,
        c,
        v.3 j (omega arith) (omega (arith, a, c)),
        λ k d. v.2 k (omega arith) d,
        dereference-here read id j p here small (omega (arith, a, c)),
      )

  -- On a leaf that is read, with rising keys and a size below 2 ^ 31: if all its keys are below the given one and another leaf follows, the iterator of
  -- `Begin(key)` is not at the end, but `*it` throws: it does not stand on the next leaf's first
  -- entry.
  pub begin_from_stranded :
      p.next_page_id_ ≢ minus_one
      → ((i : ℕ) → i < p.size_ → order (p.key_array_ i) < order key)
      → (is_end read (begin_from id p key) ≡ ok false)
        × (dereference read (begin_from id p key) ≡ err Common.out_of_range)
  unfolding begin_from is_end dereference
  begin_from_stranded more below =
      let v = leaf_key_index-Place p sorted key in
      let j = leaf_key_index p key in
      let last : j ≡ p.size_ = ground (arith, v.3 j, v.1, below j) in
      (simp here (ground arith), simp here (ground arith))
