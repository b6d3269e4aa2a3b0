-- ===== src/Insertion/Change.antt =====
-- What an insertion does to a subtree.
use bicycletub.Common.{
  ℕ, ◌+◌, ◌<◌, ◌≤◌, ◌≡◌, arith, Bool, true, false, ltb, ◌==◌, if◌then◌else◌, Option, none, some,
  List, half32, Result, ok,
}
use bicycletub.Tree.{IntegerKey, Rid}
use bicycletub.Tree.Search.{order}
use bicycletub.Insertion.{BPlusTree, Casts, add_up, create_page, open_page}
use bicycletub.Insertion.Sound.{Places, within, Sound, find}
use bicycletub.Insertion.Leaves.{first, Linked}

-- The subtree has the key; it has grown; or it has split, with the key and the page for the parent.
pub data Change : Type 0 where
  refused : Change
  grown : BPlusTree → Change
  split : BPlusTree → IntegerKey → ℕ → Change

-- How Insert goes on from the change, with the pages that it holds above.
abbrev pub resume : Casts → ℕ → List ℕ → ℕ → BPlusTree → Change → Result (BPlusTree × Bool)
resume c fuel held id t refused = ok (t, false)
resume c fuel held id t (grown t') = ok (t', true)
resume c fuel held id t (split t' key new_id) = add_up c fuel t' id held key new_id

-- Nothing outside the subtree has changed.
pub record After (t t' : BPlusTree) (places places' : Places) (height lo hi : ℕ) : Type 0 where
  pub pages :
      (q : ℕ)
      → q < t.next_page_id_
      → within (places.spot q) height lo hi ≡ false
      → t'.pages_ q ≡ t.pages_ q
  pub same :
      (q : ℕ)
      → q < t.next_page_id_
      → within (places.spot q) height lo hi ≡ false
      → places'.spot q ≡ places.spot q
  pub more : t.next_page_id_ ≤ t'.next_page_id_
  pub cap : places.cap ≤ places'.cap
  pub few : t'.next_page_id_ ≤ t.next_page_id_ + height + 1
  pub leaf_max : t'.leaf_max_size_ ≡ t.leaf_max_size_
  pub internal_max : t'.internal_max_size_ ≡ t.internal_max_size_
  pub root : t'.root_page_id_ ≡ t.root_page_id_

-- The search finds what it found, and the new value under the key.
abbrev pub Finds :
    ℕ → ℕ → IntegerKey → Rid → (IntegerKey → Option Rid) → (IntegerKey → Option Rid) → Type 0
Finds lo hi key value old new =
    (q : IntegerKey)
    → lo ≤ order q
    → order q < hi
    → new q ≡ (if order key == order q then some value else old q)

pub record GrownTree (t : BPlusTree) (places : Places) (height lo hi id : ℕ) (key : IntegerKey)
    (value : Rid) (t' : BPlusTree) : Type 0 where
  pub places' : Places
  pub absent : find t height id key ≡ none
  pub after : After t t' places places' height lo hi
  pub same_cap : places'.cap ≡ places.cap
  pub sound : Sound t' places' height lo hi id
  pub finds : Finds lo hi key value (find t height id) (find t' height id)
  pub same_first : first t' height id ≡ first t height id
  pub linked : (next : ℕ) → Linked t height id next → Linked t' height id next

pub record SplitTree (t : BPlusTree) (places : Places) (height lo hi id : ℕ) (key : IntegerKey)
    (value : Rid) (t' : BPlusTree) (up_key : IntegerKey) (new_id : ℕ) : Type 0 where
  pub places' : Places
  pub absent : find t height id key ≡ none
  pub after : After t t' places places' height lo hi
  pub same_cap : places'.cap ≡ places.cap
  pub up_lo : lo < order up_key
  pub up_hi : order up_key < hi
  pub left : Sound t' places' height lo (order up_key) id
  pub right : Sound t' places' height (order up_key) hi new_id
  pub finds :
      Finds lo hi key value
        (find t height id)
        (λ q. if ltb (order q) (order up_key) then find t' height id q else find t' height new_id q)
  pub same_first : first t' height id ≡ first t height id
  pub linked :
      (next : ℕ)
      → Linked t height id next
      → Linked t' height id (first t' height new_id) × Linked t' height new_id next

abbrev pub Changed : BPlusTree → Places → ℕ → ℕ → ℕ → ℕ → IntegerKey → Rid → Change → Type 0
Changed t places height lo hi id key value refused = (w : Rid) × (find t height id key ≡ some w)
Changed t places height lo hi id key value (grown t') =
    GrownTree t places height lo hi id key value t'
Changed t places height lo hi id key value (split t' up_key new_id) =
    SplitTree t places height lo hi id key value t' up_key new_id

-- The store after NewPage.
abbrev pub with_page : BPlusTree → BPlusTree
with_page t = record t { next_page_id_ = t.next_page_id_ + 1 }

-- While ids are left, NewPage gives the next one, and WritePage opens it.
pub create_page_lem :
    (t : BPlusTree)
    → t.next_page_id_ + 1 < half32
    → create_page t ≡ ok (with_page t, t.next_page_id_, t.pages_ t.next_page_id_)
unfolding create_page
create_page_lem t h = ground arith

pub open_page_lem :
    (t : BPlusTree) (id : ℕ)
    → id < t.next_page_id_
    → t.next_page_id_ < half32
    → open_page t id ≡ ok (t.pages_ id)
open_page_lem t id a b = ground arith
