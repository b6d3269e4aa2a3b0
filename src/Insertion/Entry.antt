-- ===== src/Insertion/Entry.antt =====
-- The entry that a split child asks of its page: in the page, or in the two that it splits into.
use bicycletub.Common.{
  ℕ, suc, ◌+◌, ◌-◌, ◌<◌, ◌≤◌, ◌≡◌, refl, sym, ◌∙◌, arith, ltb, leb, ◌==◌, if◌then◌else◌, none, List,
  ◌∷◌, Bool-cases, inl, inr, half32,
}
use bicycletub.Tree.{internal_page, InternalPage, IntegerKey, Rid, min_size, init_internal}
use bicycletub.Tree.Search.{order}
use bicycletub.Tree.Lookup.{low, high}
use bicycletub.Parent.{Halves, insert_entry}
use bicycletub.Parent.Spread.{Single, Spread, insert_entry-Single, split_internal-Spread}
use bicycletub.Parent.Route.{route, route-Routes}
use bicycletub.Parent.Part.{Part, Single-Part, left-Part, right-Part}
use bicycletub.Insertion.{BPlusTree, Casts, store, take_parent, add_entry, add_up}
use bicycletub.Insertion.Sound.{place, Places, BranchAt, Sound, find, Agree}
use bicycletub.Insertion.Change.{
  Change, grown, split, resume, After, Finds, GrownTree, SplitTree, Changed, with_page,
  create_page_lem,
}
use bicycletub.Insertion.Pieces.{Row, piece-Sound, piece-find}
use bicycletub.Insertion.Leaves.{first, next_first}
use bicycletub.Insertion.Links.{piece_first, piece-Linked}
use bicycletub.Insertion.Branch.{
  After-larger, at, child_lo, child_hi, bounds, at_bounds, find_page, page_same, whole, whole-Row,
  whole-Finds, index_behind, whole-RowLinked, whole_first,
}

module _ (t : BPlusTree) (places : Places) (height lo hi id : ℕ) (key : IntegerKey) (value : Rid)
    (p : InternalPage) (v : BranchAt t places (suc height) lo hi id p)
    (kids : (i : ℕ)
      → i < p.size_
      → Sound t places height (low p lo i) (high p hi i) (p.page_id_array_ i))
    (from : lo ≤ order key) (upto : order key < hi) where
  abbrev key_at : ℕ
  key_at = at t places height lo hi id key value p v kids from upto

  abbrev from_lo : ℕ
  from_lo = child_lo t places height lo hi id key value p v kids from upto

  abbrev to_hi : ℕ
  to_hi = child_hi t places height lo hi id key value p v kids from upto

  module _ (t' : BPlusTree) (up_key : IntegerKey) (new_id : ℕ)
      (s : SplitTree t places height from_lo to_hi
        (p.page_id_array_ key_at)
        key
        value
        t'
        up_key
        new_id) where
    abbrev grows : InternalPage
    grows = whole t places height lo hi id key value p v kids from upto t' up_key new_id s

    same : (t'.pages_ id ≡ internal_page p) × (s.places'.spot id ≡ place (suc height) lo hi)
    same = page_same t places height lo hi id key value p v kids from upto t' s.places' s.after

    wider : After t t' places s.places' (suc height) lo hi
    wider =
        let b =
          bounds t places height lo hi id key value p v kids from upto key_at
            (at_bounds t places height lo hi id key value p v kids from upto).2 in
        After-larger t t' places s.places' height lo hi from_lo to_hi b.0 b.1 s.after

    lo_hi : lo < hi
    lo_hi = omega arith

    absent : find t (suc height) id key ≡ none
    absent = find_page t places height lo hi id key value p v kids from upto key ∙ s.absent

    row : Row t' s.places' height lo hi grows
    row = whole-Row t places height lo hi id key value p v kids from upto t' up_key new_id s

    abbrev entry : ℕ
    entry = key_at + 1

    module _ (q : InternalPage) (o : Single p entry up_key new_id q) (room : p.size_ < p.max_size_)
        (internal_cap : t.internal_max_size_ ≤ places.cap) where
      abbrev one : BPlusTree
      one = store t' id (internal_page q)

      one-Agree : Agree t' one s.places' s.places' height lo hi
      one-Agree = record {
        pages = λ x a b. ground (arith, same.1);
        same = λ x a b. refl;
        more = omega arith;
        cap = omega arith;
        leaf_max = refl;
        internal_max = refl;
      }

      high_end : hi ≡ high grows hi (0 + q.size_ - 1)
      high_end = ground (arith, o.size)

      one_page-GrownTree : GrownTree t places (suc height) lo hi id key value one
      one_page-GrownTree = record {
        places' = s.places';
        same_cap = s.same_cap;
        absent = absent;
        after = record {
          pages = λ x a b. ground (arith, v.here, wider.pages x a b);
          same = wider.same;
          more = wider.more;
          cap = wider.cap;
          few = wider.few;
          leaf_max = wider.leaf_max;
          internal_max = wider.internal_max;
          root = wider.root;
        };
        sound =
            piece-Sound t' one s.places' s.places' height lo hi grows row lo_hi one-Agree id q 0 lo
              hi (Single-Part p entry up_key new_id q o) (ground arith) high_end (ground arith)
              (omega (arith, v.given, wider.more)) same.1 (omega (arith, o.size, v.max, s.same_cap))
              (o.max ∙ v.max ∙ sym wider.internal_max);
        finds = λ x a b.
            let r = route-Routes grows row.rising (omega arith) x in
            piece-find t' one s.places' s.places' height lo hi grows row lo_hi one-Agree id q 0 lo
              hi (Single-Part p entry up_key new_id q o) (ground arith) high_end (ground arith) x
              (route grows x) r (omega arith) (omega (arith, r.0, o.size)) a b
            ∙ whole-Finds t places height lo hi id key value p v kids from upto t' up_key new_id s x
                a b;
        same_first =
            piece_first t' one s.places' s.places' height lo hi grows row lo_hi one-Agree id q 0
              (Single-Part p entry up_key new_id q o) (ground arith)
            ∙ whole_first t places height lo hi id key value p v kids from upto t' up_key new_id s;
        linked = λ next l.
            piece-Linked t' one s.places' s.places' height lo hi grows row lo_hi one-Agree id q 0
              (Single-Part p entry up_key new_id q o) (ground arith) next next
              (ground (arith, o.size))
              (whole-RowLinked t places height lo hi id key value p v kids from upto t' up_key
                new_id s next l);
      }

    module _ (new : InternalPage) (m : ℕ) (x : Halves) (o : Spread p new entry up_key new_id m x)
        (some_left : 0 < m) (inner : m ≤ p.size_)
        (new_max : new.max_size_ ≡ t.internal_max_size_) where
      abbrev mid_key : ℕ
      mid_key = order (x.2)

      abbrev two : BPlusTree
      two =
          store (store (with_page t') id (internal_page (x.0))) t'.next_page_id_
            (internal_page (x.1))

      abbrev two_places : Places
      two_places = record {
        spot = λ q.
            if q == t'.next_page_id_
            then place (suc height) mid_key hi
            else (if q == id then place (suc height) lo mid_key else s.places'.spot q);
        cap = s.places'.cap;
      }

      given : id < t'.next_page_id_
      given = omega (arith, v.given, wider.more)

      two-Agree : Agree t' two s.places' two_places height lo hi
      two-Agree = record {
        pages = λ q a b. ground (arith, same.1);
        same = λ q a b. ground (arith, same.1);
        more = omega arith;
        cap = omega arith;
        leaf_max = refl;
        internal_max = refl;
      }

      two-After : After t two places two_places (suc height) lo hi
      two-After = record {
        pages = λ q a b. ground (arith, v.here, wider.pages q a b, wider.more);
        same = λ q a b. ground (arith, v.here, wider.same q a b, wider.more);
        more = omega (arith, wider.more);
        cap = wider.cap;
        few = omega (arith, s.after.few);
        leaf_max = wider.leaf_max;
        internal_max = wider.internal_max;
        root = wider.root;
      }

      left_high : mid_key ≡ high grows hi (0 + x.0.size_ - 1)
      left_high = ground (arith, o.left_size, o.up_key)

      right_low : mid_key ≡ low grows lo m
      right_low = ground (arith, o.up_key)

      right_high : hi ≡ high grows hi (m + x.1.size_ - 1)
      right_high = ground (arith, o.right_size)

      two_left : two.pages_ id ≡ internal_page (x.0)
      two_left = ground (arith, given)

      two_right : two.pages_ t'.next_page_id_ ≡ internal_page (x.1)
      two_right = ground arith

      left_half : Part grows (x.0) 0
      left_half = left-Part p entry up_key new_id new m x o some_left inner

      right_half : Part grows (x.1) m
      right_half = right-Part p entry up_key new_id new m x o some_left inner

      -- The leaf behind the left page is the first one of the right page.
      left_behind :
          (next : ℕ)
          → first two (suc height) t'.next_page_id_
            ≡ next_first t' height grows.size_ grows.page_id_array_ next (0 + x.0.size_ - 1)
      left_behind next =
          let e =
            piece_first t' two s.places' two_places height lo hi grows row lo_hi two-Agree
              t'.next_page_id_ (x.1) m right_half two_right in
          ground (arith, e, o.left_size)

      mid_in : (lo < mid_key) × (mid_key < hi)
      mid_in = (ground (arith, o.up_key, row.above m), ground (arith, o.up_key, row.below m))

      two_found : Finds lo hi key value (find t (suc height) id) (λ q.
          if ltb (order q) mid_key
          then find two (suc height) id q
          else find two (suc height) t'.next_page_id_ q)
      two_found q a b =
          let r = route-Routes grows row.rising (omega arith) q in
          let e =
            whole-Finds t places height lo hi id key value p v kids from upto t' up_key new_id s q a
              b in
          elim (Bool-cases (ltb (order q) mid_key)) [
            | inl c ↦ rw c (
                piece-find t' two s.places' two_places height lo hi grows row lo_hi two-Agree id
                  (x.0) 0 lo mid_key left_half (ground arith) left_high two_left q (route grows q) r
                  (omega arith) (ground (arith, r.1 m, o.up_key, o.left_size)) a b
                ∙ e)
            | inr c ↦ rw c (
                piece-find t' two s.places' two_places height lo hi grows row lo_hi two-Agree
                  t'.next_page_id_ (x.1) m mid_key hi right_half right_low right_high two_right q
                  (route grows q) r (ground (arith, r.2 m, o.up_key))
                  (omega (arith, r.0, o.right_size)) a b
                ∙ e)
          ]

      two_pages-SplitTree :
          SplitTree t places (suc height) lo hi id key value two (x.2) t'.next_page_id_
      two_pages-SplitTree = record {
        places' = two_places;
        same_cap = s.same_cap;
        absent = absent;
        after = two-After;
        up_lo = mid_in.0;
        up_hi = mid_in.1;
        left =
            piece-Sound t' two s.places' two_places height lo hi grows row lo_hi two-Agree id (x.0)
              0 lo mid_key left_half (ground arith) left_high two_left (omega (arith, given))
              (ground (arith, given)) (omega (arith, o.left_size, v.fits, s.same_cap))
              (o.left_max ∙ v.max ∙ sym wider.internal_max);
        right =
            piece-Sound t' two s.places' two_places height lo hi grows row lo_hi two-Agree
              t'.next_page_id_ (x.1) m mid_key hi right_half right_low right_high two_right
              (omega arith) (ground arith)
              (omega (arith, o.right_size, some_left, v.fits, s.same_cap))
              (o.right_max ∙ new_max ∙ sym wider.internal_max);
        finds = two_found;
        same_first =
            piece_first t' two s.places' two_places height lo hi grows row lo_hi two-Agree id (x.0)
              0 left_half two_left
            ∙ whole_first t places height lo hi id key value p v kids from upto t' up_key new_id s;
        linked = λ next l.
            let old =
              whole-RowLinked t places height lo hi id key value p v kids from upto t' up_key new_id
                s next l in
            (
              piece-Linked t' two s.places' two_places height lo hi grows row lo_hi two-Agree id
                  (x.0) 0 left_half two_left next (first two (suc height) t'.next_page_id_)
                  (left_behind next) old,
              piece-Linked t' two s.places' two_places height lo hi grows row lo_hi two-Agree
                  t'.next_page_id_ (x.1) m right_half two_right next next
                  (ground (arith, o.right_size)) old,
            );
      }

    module _ (c : Casts) (internal_cap : t.internal_max_size_ ≤ places.cap)
        (small : places.cap < half32) (two_up : 2 ≤ t.internal_max_size_)
        (more : t'.next_page_id_ + 1 < half32) where
      -- One round of the loop on the way up does to the page what its child's split asks, and goes on
      -- as the page's change says.
      pub entry_step :
          (fuel left : ℕ) (held : List ℕ)
          → (o : Change) × Changed t places (suc height) lo hi id key value o
            × (add_up c (suc fuel) t' left (id ∷ held) up_key new_id ≡ resume c fuel held id t o)
      unfolding add_up add_entry take_parent
      entry_step fuel left held =
          let entry_inside = (at_bounds t places height lo hi id key value p v kids from upto).2 in
          let index =
            index_behind t places height lo hi id key value p v kids from upto t' up_key new_id s in
          let new =
            init_internal (c.as_internal (t'.pages_ t'.next_page_id_)) t'.internal_max_size_ in
          rw (same.0, c.as_internal-internal_page p, index)
            (elim (Bool-cases (leb p.max_size_ p.size_)) [
              | inr room ↦ (
                grown (store t' id (internal_page (insert_entry p entry up_key new_id))),
                one_page-GrownTree _
                    (insert_entry-Single p entry up_key new_id (omega (arith, entry_inside)))
                    (ground arith) internal_cap,
                rw room refl,
              )
              | inl full ↦
                  let m = min_size p.max_size_ in
                  let some_left : 0 < m = omega (arith, v.max) in
                  let inner : m ≤ p.size_ = ground (arith, v.max) in
                  let (x, e, o) =
                    split_internal-Spread p new entry up_key new_id refl (omega (arith, v.max))
                      (omega (arith, entry_inside)) (omega arith) (omega (arith, v.max))
                      (ground arith) in
                  (
                    split (two new m x o some_left inner wider.internal_max) (x.2) t'.next_page_id_,
                    two_pages-SplitTree new m x o some_left inner wider.internal_max,
                    rw (full, create_page_lem t' more, e) refl,
                  )
            ])
