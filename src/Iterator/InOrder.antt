-- ===== src/Iterator/InOrder.antt =====
-- The traversal from Begin() over the leaves of a sound tree whose leaves are chained.
use bicycletub.Common.{
  ℕ, zero, suc, ◌+◌, ◌-◌, ◌<◌, ◌≤◌, ◌≡◌, ◌≢◌, refl, sym, ◌∙◌, subst, arith, ◌==◌, ltb, true, Option,
  none, some, List, [], length, ◌∷◌, ◌++◌, Bool-cases, inl, inr, half32, word32, minus_one, Result,
  ok,
}
use mathlib.Core.List.{append-nil}
use bicycletub.Tree.{LeafPage, InternalPage, IntegerKey, Rid}
use bicycletub.Tree.Search.{order}
use bicycletub.Tree.Internal.{value_at-ok}
use bicycletub.Tree.Lookup.{low, high}
use bicycletub.Insertion.{BPlusTree, Casts, open_page}
use bicycletub.Insertion.Sound.{Places, LeafAt, BranchAt, Sound, find, child_bounds}
use bicycletub.Insertion.Leaves.{first, next_first, Linked, Linked-row, LeafLink-page}
use bicycletub.Insertion.Change.{open_page_lem}
use bicycletub.Insertion.Contents.{Rooted, Valid, contents, has_root}
use bicycletub.Insertion.Many.{
  Entries, first_value, or_else, insert_all, Room, Taken, insert_all-Taken,
}
use bicycletub.Iterator.{IndexIterator, first_leaf_id, begin}
use bicycletub.Iterator.Traversal.{at, entries, traverse, traverse-all_entries, all_entries}
use bicycletub.Iterator.Traversal
use bicycletub.Iterator.Ends.{leaf_at, kid_route}
use bicycletub.Iterator.Entries.{
  Rising, Rising-append, first_value-below, first_value-above, first_value-append,
  all_entries-append, entries-Rising, first_value-entries,
}

module _ (read : ℕ → Result LeafPage) where
  -- The leaves from the page `id` on, none of them empty, up to the page `next`.
  abbrev pub Run : ℕ → List LeafPage → ℕ → Type 0
  Run id [] next = id ≡ next
  Run id (p ∷ ps) next =
      (read id ≡ ok p)
      × (p.size_ < half32)
      × (id ≢ minus_one)
      × (0 < p.size_)
      × Run p.next_page_id_ ps next

  pub Run-append :
      (id mid next : ℕ) (ps qs : List LeafPage)
      → Run id ps mid
      → Run mid qs next
      → Run id (ps ++ qs) next
  Run-append id mid next [] qs r s = rw r s
  Run-append id mid next (p ∷ ps) qs (a, b, c, d, r) s =
      (a, b, c, d, Run-append p.next_page_id_ mid next ps qs r s)

  pub Run-Chain :
      (id : ℕ) (p : LeafPage) (ps : List LeafPage)
      → Run id (p ∷ ps) minus_one
      → Traversal.Chain read id p ps
  Run-Chain id p [] (a, b, c, d, r) = (a, b, r)
  Run-Chain id p (q ∷ qs) (a, b, c, d, r) = (a, b, r.2, r.3, Run-Chain p.next_page_id_ q qs r)

or_nothing : (o : Option Rid) → or_else o none ≡ o
or_nothing none = refl
or_nothing (some w) = refl

module _ (c : Casts) (t : BPlusTree) (places : Places) (small : t.next_page_id_ < half32)
    (cap_small : places.cap < half32) (leaf_small : t.leaf_max_size_ < half32) where
  -- The leaves of a subtree: a run of them, with rising keys that are those of the map.
  pub record InOrder (height lo hi id next : ℕ) : Type 0 where
    pub leaf : LeafPage
    pub others : List LeafPage
    pub run : Run (leaf_at c t) (first t height id) (leaf ∷ others) next
    pub rising : Rising lo hi (all_entries (leaf ∷ others))
    pub same :
        (q : IntegerKey)
        → lo ≤ order q
        → order q < hi
        → first_value (all_entries (leaf ∷ others)) q ≡ find t height id q

  leaf-InOrder :
      (lo hi id next : ℕ) (p : LeafPage)
      → LeafAt t places lo hi id p
      → lo < hi
      → Linked t 0 id next
      → InOrder 0 lo hi id next
  leaf-InOrder lo hi id next p v h l =
      let link = (LeafLink-page t id next p v.page).0 l in
      let all : all_entries (p ∷ []) ≡ entries p 0 p.size_ = append-nil (entries p 0 p.size_) in
      record {
        leaf = p;
        others = [];
        run = (
          rw (open_page_lem t id v.given small, v.page, c.as_leaf-leaf_page p) refl,
          omega (arith, v.fits, v.max),
          λ e. omega (arith, v.given, e),
          link.0,
          link.1,
        );
        rising = rw all (
            entries-Rising p v.rising hi v.below p.size_ 0 lo (omega arith) (omega arith)
              (v.above 0));
        same = λ q a b. rw (all, v.page) (first_value-entries p v.rising hi v.below q);
      }

  module _ (height lo hi id next : ℕ) (p : InternalPage)
      (v : BranchAt t places (suc height) lo hi id p) (inside : lo < hi)
      (kids : (i : ℕ)
        → i < p.size_
        → InOrder height
            (low p lo i)
            (high p hi i)
            (p.page_id_array_ i)
            (next_first t height p.size_ p.page_id_array_ next i)) where
    -- The leaves from the child `i` on.
    abbrev From : ℕ → Type 0
    From i =
        (leaf : LeafPage) × (others : List LeafPage) × Run (leaf_at c t)
          (first t height (p.page_id_array_ i)) (leaf ∷ others) next
        × Rising (low p lo i) hi (all_entries (leaf ∷ others))
        × ((q : IntegerKey)
            → low p lo i ≤ order q
            → order q < hi
            → first_value (all_entries (leaf ∷ others)) q ≡ find t (suc height) id q)

    last-From : (i : ℕ) → i + 1 ≡ p.size_ → From i
    last-From i e =
        let k = kids i (omega (arith, e)) in
        let top : high p hi i ≡ hi = ground (arith, e) in
        let behind : next_first t height p.size_ p.page_id_array_ next i ≡ next =
          ground (arith, e) in
        (
          k.leaf,
          k.others,
          subst (Run (leaf_at c t) _ (k.leaf ∷ k.others)) behind k.run,
          subst (λ x. Rising (low p lo i) x (all_entries (k.leaf ∷ k.others))) top k.rising,
          λ q a b.
              let in_kid : order q < high p hi i = omega (arith, top, b) in
              k.same q a in_kid
              ∙ sym (
                  kid_route t places small cap_small height lo hi id p v i (omega (arith, e)) q a
                    in_kid),
        )

    step-From : (i : ℕ) → i + 1 < p.size_ → From (i + 1) → From i
    step-From i e (leaf, others, run, rising, same) =
        let within : i < p.size_ = omega (arith, e) in
        let k = kids i within in
        let top : high p hi i ≡ low p lo (i + 1) = ground (arith, e) in
        let behind : next_first t height p.size_ p.page_id_array_ next i
            ≡ first t height (p.page_id_array_ (i + 1)) =
          ground (arith, e) in
        let all : all_entries (k.leaf ∷ (k.others ++ leaf ∷ others))
            ≡ all_entries (k.leaf ∷ k.others) ++ all_entries (leaf ∷ others) =
          all_entries-append (k.leaf ∷ k.others) (leaf ∷ others) in
        let before =
          subst (λ x. Rising (low p lo i) x (all_entries (k.leaf ∷ k.others))) top k.rising in
        (
          k.leaf,
          k.others ++ leaf ∷ others,
          Run-append (leaf_at c t) _ _ next (k.leaf ∷ k.others) (leaf ∷ others)
              (subst (Run (leaf_at c t) _ (k.leaf ∷ k.others)) behind k.run) run,
          rw all (Rising-append (low p lo i) (low p lo (i + 1)) hi _ _ before rising),
          λ q a b.
              rw
                (
                  all,
                  first_value-append (all_entries (k.leaf ∷ k.others)) (all_entries (leaf ∷ others))
                      q,
                )
                (elim (Bool-cases (ltb (order q) (low p lo (i + 1)))) [
                  | inl x ↦
                      let in_kid : order q < high p hi i = ground (arith, top, x) in
                      let out =
                        first_value-below _ hi (all_entries (leaf ∷ others)) q rising
                          (ground (arith, x)) in
                      let found =
                        k.same q a in_kid
                        ∙ sym (
                            kid_route t places small cap_small height lo hi id p v i within q a
                              in_kid) in
                      rw out (or_nothing (first_value (all_entries (k.leaf ∷ k.others)) q) ∙ found)
                  | inr x ↦
                      let out =
                        first_value-above _ _ (all_entries (k.leaf ∷ k.others)) q before
                          (ground (arith, x)) in
                      rw out (same q (ground (arith, x)) b)
                ]),
        )

    all-From : (n i : ℕ) → i + suc n ≡ p.size_ → From i
    all-From zero i e = last-From i e
    all-From (suc n) i e = step-From i (omega (arith, e)) (all-From n (i + 1) (omega (arith, e)))

    branch-InOrder : InOrder (suc height) lo hi id next
    branch-InOrder =
        let (leaf, others, run, rising, same) = all-From (p.size_ - 1) 0 (omega (arith, v.used)) in
        record { leaf = leaf; others = others; run = rw v.page run; rising = rising; same = same }

  tree-InOrder :
      (height lo hi id next : ℕ)
      → lo < hi
      → Sound t places height lo hi id
      → Linked t height id next
      → InOrder height lo hi id next
  tree-InOrder zero lo hi id next h (p, v) l = leaf-InOrder lo hi id next p v h l
  tree-InOrder (suc height) lo hi id next h (p, v, kids) l =
      branch-InOrder height lo hi id next p v h (λ i a.
        tree-InOrder height _ _ (p.page_id_array_ i) _
          (child_bounds t places (suc height) lo hi id p v h i a).2 (kids i a)
          ((Linked-row t height id next p v.page).0 l i a))

  first_leaf_id-first :
      (height fuel lo hi id : ℕ)
      → Sound t places height lo hi id
      → height < fuel
      → first_leaf_id (open_page t) fuel id ≡ ok (first t height id)
  unfolding first_leaf_id
  first_leaf_id-first height zero lo hi id s h = absurd (omega arith)
  first_leaf_id-first zero (suc fuel) lo hi id (p, v) h =
      rw (open_page_lem t id v.given small, v.page) refl
  first_leaf_id-first (suc height) (suc fuel) lo hi id (p, v, kids) h =
      let few : p.size_ < half32 = omega (arith, v.fits, cap_small) in
      rw (open_page_lem t id v.given small, v.page, value_at-ok p 0 v.used few)
        (first_leaf_id-first height fuel _ _ (p.page_id_array_ 0) (kids 0 v.used)
          (omega (arith, h)))

-- What the loop from Begin() passes: entries with strictly rising keys that are those of the map,
-- all of them with more rounds than there are.
abbrev pub PassesAll : Casts → BPlusTree → ℕ → (IntegerKey → Option Rid) → Type 0
PassesAll c t fuel map =
    (x : IndexIterator) × (begin (open_page t) fuel t.root_page_id_ ≡ ok x)
    × (xs : Entries) × Rising 0 word32 xs
    × ((q : IntegerKey) → first_value xs q ≡ map q)
    × ((rounds : ℕ) → length xs < rounds → traverse (leaf_at c t) rounds x ≡ ok xs)

module _ (c : Casts) (t : BPlusTree) (height cap fuel : ℕ) (small : t.next_page_id_ < half32)
    (cap_small : cap < half32) (leaf_small : t.leaf_max_size_ < half32)
    (enough : height < fuel) where
  -- On a sound tree with a root and chained leaves, page ids, leaf maximum and the bound on the
  -- children of its internal pages below 2 ^ 31 and more fuel than the height: Begin() returns a
  -- position, and the loop of `*it` and `++it` from there until IsEnd() returns, with more rounds
  -- than entries, entries with strictly rising keys that have for every key the value that the map
  -- of the tree has.
  pub begin-PassesAll :
      Rooted t height cap
      → Linked t height t.root_page_id_ minus_one
      → PassesAll c t fuel (contents t height)
  unfolding begin
  begin-PassesAll r l =
      let within = subst (λ x. x < half32) (sym r.within_cap) cap_small in
      let k =
        tree-InOrder c t r.places small within leaf_small height 0 word32 t.root_page_id_ minus_one
          (omega arith) r.sound l in
      let id = first t height t.root_page_id_ in
      let root = has_root t height cap small r in
      (
        at (leaf_at c t) id 0,
        rw
            (
              root,
              first_leaf_id-first c t r.places small within leaf_small height fuel 0 word32
                  t.root_page_id_ r.sound enough,
            )
            refl,
        all_entries (k.leaf ∷ k.others),
        k.rising,
        λ q. rw root (k.same q (omega arith) (omega arith)),
        λ rounds more.
            traverse-all_entries (leaf_at c t) rounds id k.leaf k.others
              (Run-Chain (leaf_at c t) id k.leaf k.others k.run)
              (λ e. absurd (omega (arith, e, k.run.3))) more,
      )

module _ (c : Casts) (highest cap fuel : ℕ) (t : BPlusTree) (key : IntegerKey) (value : Rid)
    (entries : Entries) where
  abbrev row : Entries
  row = (key, value) ∷ entries

  -- Insertions one after the other into an empty tree, of one entry at least, with maxima of 2 at
  -- least, a leaf maximum below 2 ^ 31, a bound on the children of internal pages that is not under
  -- the internal maximum and below 2 ^ 31, a bound on the height with a level for each entry, more
  -- fuel than that bound, and as many page ids left below 2 ^ 31 as each entry may need at that
  -- height: they return a tree whose traversal from
  -- Begin() passes entries with strictly rising keys that have for every key the value of the first
  -- inserted entry with that key, and nothing for a key that was not inserted.
  pub insert_all-PassesAll :
      t.root_page_id_ ≡ minus_one
      → Room highest cap fuel t 0 row
      → t.leaf_max_size_ < half32
      → (t' : BPlusTree) × (insert_all c fuel t row ≡ ok t') × PassesAll c t' fuel (first_value row)
  insert_all-PassesAll empty room leaf_small =
      let (t', e, n) = insert_all-Taken c highest cap fuel t 0 row (inl empty) room in
      (t', e, from_taken t' n n.valid)
    where
      no_entries :
          (q : IntegerKey) → or_else (contents t 0 q) (first_value row q) ≡ first_value row q
      no_entries q = rw empty refl

      same_value : (order key == order key) ≡ true
      same_value = ground arith

      from_taken :
          (t' : BPlusTree) (n : Taken cap fuel t 0 row t')
          → Valid t' n.height' cap
          → PassesAll c t' fuel (first_value row)
      from_taken t' n (inl gone) =
          let nothing : contents t' n.height' key ≡ none = rw gone refl in
          let found : first_value row key ≡ some value = rw same_value refl in
          absurd (ground (arith, nothing, found, n.contents' key, no_entries key))
      from_taken t' n (inr r) =
          let levels : n.height' < fuel = omega (arith, n.highest, room.levels, room.rounds) in
          let max : t'.leaf_max_size_ < half32 = omega (arith, n.leaf_max, leaf_small) in
          let root = has_root t' n.height' cap n.few r in
          let linked : Linked t' n.height' t'.root_page_id_ minus_one =
            elim (n.chained (inl empty)) [
              | inl gone ↦ absurd (ground (arith, gone, root))
              | inr l ↦ l
            ] in
          let (x, b, xs, rising, same, passes) =
            begin-PassesAll c t' n.height' cap fuel n.few room.cap_small max levels r linked in
          (x, b, xs, rising, λ q. same q ∙ n.contents' q ∙ no_entries q, passes)
