-- ===== src/Insertion.antt =====
-- Insert of BPlusTree on the page store (src/b_plus_tree.cpp, include/b_plus_tree.h): FindAndLock,
-- the leaf, and the way up through the parents. The write guards of `ctx.write_set_` are page ids,
-- the deque's back first. A page is what WritePage gives of its id; `Casts` says how a page's bytes
-- read as the other kind of page, which happens to new pages only.
pub mod Sound
pub mod Leaves
pub mod Change
pub mod LeafStep
pub mod Pieces
pub mod Links
pub mod RowLinks
pub mod Branch
pub mod Entry
pub mod Descent
pub mod NewRoot
pub mod Contents
pub mod Outcome
pub mod Many
use bicycletub.Common.{
  ℕ, zero, suc, ◌+◌, ◌%◌, Bool, true, false, not, ◌||◌, ◌≡◌, List, [], ◌∷◌, Option, none, some,
  Result, ok, err, blocked, runtime_error, null_deref, ◌>>=◌, if◌then◌else◌, leb, ◌==◌, word32,
  minus_one, is_negative, signed_lt,
}
use bicycletub.Tree.{
  Page, leaf_page, internal_page, LeafPage, InternalPage, IntegerKey, Rid, set_at, init_leaf,
  init_internal, internal_key_index, child_index, value_at, Inserted, duplicate, into_leaf,
  into_two, insert_leaf,
}
use bicycletub.Parent.{first_child, insert_entry, split_internal}

-- `AsMut<LeafPage>()` and `AsMut<InternalPage>()`.
pub record Casts : Type 0 where
  pub as_leaf : Page → LeafPage
  pub as_internal : Page → InternalPage
  pub as_leaf-leaf_page : (p : LeafPage) → as_leaf (leaf_page p) ≡ p
  pub as_internal-internal_page : (p : InternalPage) → as_internal (internal_page p) ≡ p

-- `root_page_id_` is that of the header page.
pub record BPlusTree : Type 0 where
  pub leaf_max_size_ : ℕ
  pub internal_max_size_ : ℕ
  pub root_page_id_ : ℕ
  pub pages_ : ℕ → Page
  pub next_page_id_ : ℕ

-- ReadPage and WritePage throw for an id that NewPage has not given out.
abbrev pub open_page : BPlusTree → ℕ → Result Page
open_page t id =
    if is_negative id || not (signed_lt id t.next_page_id_)
    then err runtime_error
    else ok (t.pages_ id)

abbrev pub store : BPlusTree → ℕ → Page → BPlusTree
store t id page = record t { pages_ = set_at t.pages_ id page }

-- NewPage, and WritePage of the new id.
unfoldable pub create_page : BPlusTree → Result (BPlusTree × ℕ × Page)
create_page t =
    let t' = record t { next_page_id_ = (t.next_page_id_ + 1) % word32 } in
    open_page t' t.next_page_id_ >>= λ page. ok (t', t.next_page_id_, page)

-- FindAndLock, with the write guards that it adds to those held.
unfoldable pub find_and_lock : BPlusTree → IntegerKey → ℕ → ℕ → List ℕ → Result (List ℕ)
find_and_lock t key zero id held = blocked
find_and_lock t key (suc fuel) id held = open_page t id >>= λ page. elim page [
  | leaf_page p ↦ ok (id ∷ held)
  | internal_page p ↦
      child_index p key >>= λ i. (value_at p i >>= λ c. find_and_lock t key fuel c (id ∷ held))
]

-- The first key: a leaf for the root.
abbrev pub first_leaf : LeafPage → ℕ → IntegerKey → Rid → LeafPage
first_leaf new leaf_max_size key value =
    let p = init_leaf new leaf_max_size in
    record p {
      key_array_ = set_at p.key_array_ 0 key;
      rid_array_ = set_at p.rid_array_ 0 value;
      size_ = p.size_ + 1;
    }

-- The constructor: a header page without a root, over the pages of the pool.
abbrev pub new_tree : ℕ → ℕ → (ℕ → Page) → ℕ → BPlusTree
new_tree leaf_max_size internal_max_size pages next_page_id = record {
  leaf_max_size_ = leaf_max_size;
  internal_max_size_ = internal_max_size;
  root_page_id_ = minus_one;
  pages_ = pages;
  next_page_id_ = next_page_id;
}

-- `IsEmpty()` and `GetRootPageId()`.
abbrev pub is_empty : BPlusTree → Bool
is_empty t = t.root_page_id_ == minus_one

abbrev pub get_root_page_id : BPlusTree → ℕ
get_root_page_id t = t.root_page_id_

module _ (c : Casts) where
  open c use {as_leaf, as_internal}

  -- The parent of a split page: the next write guard, or "create a new root if need".
  unfoldable pub take_parent : BPlusTree → ℕ → List ℕ → Result (BPlusTree × ℕ × List ℕ)
  take_parent t left (id ∷ held) = ok (t, id, held)
  take_parent t left [] = create_page t >>= λ (t', id, page). ok (
    store (record t' { root_page_id_ = id }) id
        (internal_page (first_child (init_internal (as_internal page) t'.internal_max_size_) left)),
    id,
    [],
  )

  -- One insertion into a parent; a split gives the key and the page for the next level.
  unfoldable pub add_entry :
      BPlusTree → ℕ → IntegerKey → ℕ → Result (BPlusTree × Option (IntegerKey × ℕ))
  add_entry t id up_key child =
      let p = as_internal (t.pages_ id) in
      let index = internal_key_index p up_key in
      if leb p.max_size_ p.size_
      then (create_page t >>= λ (t', new_id, page).
          (split_internal p (init_internal (as_internal page) t'.internal_max_size_) index up_key
              child
            >>= λ (l, r, k).
                ok (
                  store (store t' id (internal_page l)) new_id (internal_page r),
                  some (k, new_id),
                )))
      else ok (store t id (internal_page (insert_entry p index up_key child)), none)

  -- The way up: "insert into parent if split" and the loop behind it.
  unfoldable pub add_up : ℕ → BPlusTree → ℕ → List ℕ → IntegerKey → ℕ → Result (BPlusTree × Bool)
  add_up zero t left held up_key child = blocked
  add_up (suc fuel) t left held up_key child = take_parent t left held >>= λ (t1, id, held').
      (add_entry t1 id up_key child >>= λ (t2, o). elim o [
        | none ↦ ok (t2, true)
        | some (k, new_id) ↦ add_up fuel t2 id held' k new_id
      ])

  -- The leaf behind the last write guard: the outcome of `insert_leaf` in the store.
  abbrev pub leave_leaf : ℕ → BPlusTree → ℕ → List ℕ → Inserted → Result (BPlusTree × Bool)
  leave_leaf fuel t id held duplicate = ok (t, false)
  leave_leaf fuel t id held (into_leaf p) = ok (store t id (leaf_page p), true)
  leave_leaf fuel t id held (into_two l r up_key) = create_page t >>= λ (t', new_id, page).
      add_up fuel (store (store t' id (leaf_page l)) new_id (leaf_page r)) id held up_key new_id

  -- From the write guards that FindAndLock leaves. A split takes the page that NewPage gives next.
  unfoldable pub insert_locked :
      ℕ → BPlusTree → IntegerKey → Rid → List ℕ → Result (BPlusTree × Bool)
  insert_locked fuel t key value [] = err null_deref
  insert_locked fuel t key value (id ∷ held) = leave_leaf fuel t id held (
      insert_leaf (as_leaf (t.pages_ id)) (as_leaf (t.pages_ t.next_page_id_)) t.next_page_id_
        t.leaf_max_size_ key value)

  unfoldable pub start_tree : BPlusTree → IntegerKey → Rid → Result (BPlusTree × Bool)
  start_tree t key value = create_page t >>= λ (t', id, page). ok (
    store (record t' { root_page_id_ = id }) id
        (leaf_page (first_leaf (as_leaf page) t'.leaf_max_size_ key value)),
    true,
  )

  -- Insert. The fuel bounds the rounds of FindAndLock's loop and of the loop on the way up.
  unfoldable pub insert : ℕ → BPlusTree → IntegerKey → Rid → Result (BPlusTree × Bool)
  insert fuel t key value =
      if t.root_page_id_ == minus_one
      then start_tree t key value
      else (find_and_lock t key fuel t.root_page_id_ [] >>= insert_locked fuel t key value)
