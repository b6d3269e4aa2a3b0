-- ===== src/Iterator/Agree.antt =====
-- GetValue and the traversal from Begin() on the same tree.
use bicycletub.Common.{ℕ, ◌<◌, ◌≡◌, sym, ap, ◌∙◌, half32, word32, minus_one, length, ok, inr}
use bicycletub.Tree.{IntegerKey, tree_get_value}
use bicycletub.Insertion.{BPlusTree, Casts, open_page}
use bicycletub.Insertion.Leaves.{Linked}
use bicycletub.Insertion.Contents.{Rooted, tree_get_value-contents}
use bicycletub.Insertion.Many.{Entries, first_value}
use bicycletub.Iterator.{IndexIterator, begin}
use bicycletub.Iterator.Traversal.{traverse}
use bicycletub.Iterator.Ends.{leaf_at}
use bicycletub.Iterator.Entries.{Rising}
use bicycletub.Iterator.InOrder.{begin-PassesAll}

-- The loop from Begin() passes entries with rising keys, and GetValue finds those and no others.
abbrev pub Agrees : Casts → BPlusTree → ℕ → Type 0
Agrees c t fuel =
    (x : IndexIterator) × (begin (open_page t) fuel t.root_page_id_ ≡ ok x)
    × (xs : Entries) × ((rounds : ℕ) → length xs < rounds → traverse (leaf_at c t) rounds x ≡ ok xs)
    × Rising 0 word32 xs
    × ((q : IntegerKey)
        → tree_get_value (open_page t) fuel t.root_page_id_ q ≡ ok (first_value xs q))

-- On a sound tree with a root and chained leaves, page ids, leaf maximum and the bound on the
-- children of its internal pages below 2 ^ 31 and more fuel than the height: Begin() returns a
-- position, the loop of `*it` and `++it` from there until IsEnd() returns, with more rounds than
-- entries, entries with strictly rising keys, and GetValue returns for every key the value of the
-- entry with that key among them, and nothing if there is none.
pub tree_get_value-Agrees :
    (c : Casts) (t : BPlusTree) (height cap fuel : ℕ)
    → t.next_page_id_ < half32
    → cap < half32
    → t.leaf_max_size_ < half32
    → height < fuel
    → Rooted t height cap
    → Linked t height t.root_page_id_ minus_one
    → Agrees c t fuel
tree_get_value-Agrees c t height cap fuel small cap_small leaf_small enough r l =
    let (x, e, xs, rising, same, passes) =
      begin-PassesAll c t height cap fuel small cap_small leaf_small enough r l in
    (
      x,
      e,
      xs,
      passes,
      rising,
      λ q.
          tree_get_value-contents t height cap fuel q (inr r) small cap_small enough
          ∙ ap ok (sym (same q)),
    )
