-- ===== src/Insertion/NewRoot.antt =====
-- "Create a new root if need": the page over the two halves of a split root.
use bicycletub.Common.{
  ℕ, suc, ◌+◌, ◌<◌, ◌≤◌, ◌≡◌, refl, ◌∙◌, arith, true, false, ltb, leb, ◌==◌, if◌then◌else◌, [],
  Bool-cases, inl, inr, half32, word32, ok,
}
use bicycletub.Tree.{
  internal_page, InternalPage, IntegerKey, Rid, init_internal, internal_key_index,
}
use bicycletub.Tree.Search.{order, Splits-unique}
use bicycletub.Parent.{first_child, insert_entry}
use bicycletub.Parent.Spread.{Single, insert_entry-Single}
use bicycletub.Parent.Route.{route, route-Routes, index-Splits, grown_page}
use bicycletub.Parent.Part.{Single-Part}
use bicycletub.Insertion.{BPlusTree, Casts, store, take_parent, add_entry, add_up}
use bicycletub.Insertion.Sound.{place, Places, Sound, find, Agree}
use bicycletub.Insertion.Change.{Finds, SplitTree, with_page, create_page_lem}
use bicycletub.Insertion.Leaves.{Linked, RowLinked}
use bicycletub.Insertion.Links.{piece-Linked}
use bicycletub.Insertion.Branch.{Sound-at}
use bicycletub.Insertion.Pieces.{Row, piece-Sound, piece-find}

-- A tree that is one level higher, with the new entry.
pub record RaisedTree (t : BPlusTree) (places : Places) (height : ℕ) (key : IntegerKey)
    (value : Rid) (t' : BPlusTree) : Type 0 where
  pub places' : Places
  pub same_cap : places'.cap ≡ places.cap
  pub sound : Sound t' places' (suc height) 0 word32 t'.root_page_id_
  pub few : t'.next_page_id_ ≤ t.next_page_id_ + height + 2
  pub leaf_max : t'.leaf_max_size_ ≡ t.leaf_max_size_
  pub internal_max : t'.internal_max_size_ ≡ t.internal_max_size_
  pub finds :
      Finds 0 word32 key value
        (find t height t.root_page_id_)
        (find t' (suc height) t'.root_page_id_)
  pub linked :
      (next : ℕ)
      → Linked t height t.root_page_id_ next
      → Linked t' (suc height) t'.root_page_id_ next

module _ (c : Casts) (t : BPlusTree) (places : Places) (height : ℕ) (key : IntegerKey) (value : Rid)
    (t' : BPlusTree) (up_key : IntegerKey) (new_id : ℕ)
    (s : SplitTree t places height 0 word32 t.root_page_id_ key value t' up_key new_id)
    (two : 2 ≤ t.internal_max_size_) (internal_cap : t.internal_max_size_ ≤ places.cap) where
  abbrev root : ℕ
  root = t.root_page_id_

  -- The new root before and after it takes the new half.
  abbrev bare : InternalPage
  bare =
      first_child (init_internal (c.as_internal (t'.pages_ t'.next_page_id_)) t'.internal_max_size_)
        root

  abbrev over : InternalPage
  over = insert_entry bare 1 up_key new_id

  over-Single : Single bare 1 up_key new_id over
  over-Single = insert_entry-Single bare 1 up_key new_id (omega arith)

  bare_index : internal_key_index bare up_key ≡ 1
  bare_index =
      Splits-unique bare.key_array_ up_key 1 1 _ 1
        (index-Splits bare (λ i j a b d. absurd (omega arith)) (omega arith) up_key)
        (omega arith, omega arith, λ i a b. absurd (omega arith), λ i a b. absurd (omega arith))

  abbrev rooted : BPlusTree
  rooted =
      store (record (with_page t') { root_page_id_ = t'.next_page_id_ }) t'.next_page_id_
        (internal_page bare)

  abbrev raised : BPlusTree
  raised = store rooted t'.next_page_id_ (internal_page over)

  abbrev raised_places : Places
  raised_places = record {
    spot = λ q. if q == t'.next_page_id_ then place (suc height) 0 word32 else s.places'.spot q;
    cap = s.places'.cap;
  }

  abbrev pair : InternalPage
  pair = grown_page bare 1 up_key new_id

  pair-Row : Row t' s.places' height 0 word32 pair
  pair-Row = record {
    rising = λ i j a b d. absurd (omega arith);
    above = λ i a b. ground (arith, s.up_lo);
    below = λ i a b. ground (arith, s.up_hi);
    kids = λ i a. elim (Bool-cases (i == 0)) [
      | inl e ↦ Sound-at t' s.places' height (ground arith) (ground arith) (ground arith) s.left
      | inr e ↦ Sound-at t' s.places' height (ground arith) (ground arith) (ground arith) s.right
    ];
  }

  raised-Agree : Agree t' raised s.places' raised_places height 0 word32
  raised-Agree = record {
    pages = λ q a b. ground arith;
    same = λ q a b. ground arith;
    more = omega arith;
    cap = omega arith;
    leaf_max = refl;
    internal_max = refl;
  }

  pair-route : (q : IntegerKey) → route pair q ≡ (if ltb (order q) (order up_key) then 0 else 1)
  pair-route q =
      let r = route-Routes pair pair-Row.rising (omega arith) q in ground (arith, r.0, r.1 1, r.2 1)

  new_root-Finds :
      Finds 0 word32 key value (find t height root) (find raised (suc height) t'.next_page_id_)
  new_root-Finds q a b =
      let r = route-Routes pair pair-Row.rising (omega arith) q in
      piece-find t' raised s.places' raised_places height 0 word32 pair pair-Row (omega arith)
        raised-Agree t'.next_page_id_ over 0 0 word32
        (Single-Part bare 1 up_key new_id over over-Single) (ground arith)
        (ground (arith, over-Single.size)) (ground arith) q (route pair q) r (omega arith)
        (omega (arith, r.0, over-Single.size)) a b
      ∙ (rw (pair-route q) (elim (Bool-cases (ltb (order q) (order up_key))) [
        | inl e ↦ rw e (ground (arith, e, s.finds q a b))
        | inr e ↦ rw e (ground (arith, e, s.finds q a b))
      ]))

  pair-RowLinked : (next : ℕ) → Linked t height root next → RowLinked t' height pair next
  pair-RowLinked next l i a =
      let (before, behind) = s.linked next l in
      elim (Bool-cases (i == 0)) [
        | inl e ↦ let here : i ≡ 0 = ground (arith, e) in rw here before
        | inr e ↦ let here : i ≡ 1 = ground (arith, e) in rw here behind
      ]

  raised-RaisedTree : RaisedTree t places height key value raised
  raised-RaisedTree = record {
    places' = raised_places;
    same_cap = s.same_cap;
    sound =
        piece-Sound t' raised s.places' raised_places height 0 word32 pair pair-Row (omega arith)
          raised-Agree t'.next_page_id_ over 0 0 word32
          (Single-Part bare 1 up_key new_id over over-Single) (ground arith)
          (ground (arith, over-Single.size)) (ground arith) (omega arith) (ground arith)
          (omega (arith, over-Single.size, two, internal_cap, s.same_cap)) over-Single.max;
    few = omega (arith, s.after.few);
    leaf_max = s.after.leaf_max;
    internal_max = s.after.internal_max;
    finds = new_root-Finds;
    linked = λ next l.
        piece-Linked t' raised s.places' raised_places height 0 word32 pair pair-Row (omega arith)
          raised-Agree t'.next_page_id_ over 0 (Single-Part bare 1 up_key new_id over over-Single)
          (ground arith) next next (ground (arith, over-Single.size)) (pair-RowLinked next l);
  }

  -- Above a root that split, the loop on the way up makes a new root, and ends.
  pub root_step :
      (fuel : ℕ)
      → t'.next_page_id_ + 1 < half32
      → (r : BPlusTree) × (add_up c (suc fuel) t' root [] up_key new_id ≡ ok (r, true))
        × RaisedTree t places height key value r
  unfolding add_up take_parent add_entry
  root_step fuel more =
      let e : rooted.pages_ t'.next_page_id_ ≡ internal_page bare = ground arith in
      let room : leb bare.max_size_ bare.size_ ≡ false =
        ground (arith, two, s.after.internal_max) in
      (
        raised,
        rw (create_page_lem t' more, e, c.as_internal-internal_page bare, room, bare_index) refl,
        raised-RaisedTree,
      )
