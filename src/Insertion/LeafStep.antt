-- ===== src/Insertion/LeafStep.antt =====
-- Insert at the leaf.
use bicycletub.Common.{
  ℕ, ◌+◌, ◌<◌, ◌≤◌, ◌≡◌, refl, ◌∙◌, arith, ◌==◌, if◌then◌else◌, Option, none, some, List, ◌∷◌,
  half32,
}
use bicycletub.Tree.{
  leaf_page, LeafPage, IntegerKey, Rid, get_value, Inserted, duplicate, into_leaf, into_two,
  insert_leaf,
}
use bicycletub.Tree.Search.{order}
use bicycletub.Tree.Leaf.{IsLeaf, get_value-Stores}
use bicycletub.Tree.Insert.{OneLeaf, TwoLeaves, InsertOutcome, insert_leaf-InsertOutcome}
use bicycletub.Insertion.{BPlusTree, Casts, store, insert_locked, leave_leaf}
use bicycletub.Insertion.Sound.{place, Places, LeafAt}
use bicycletub.Insertion.Leaves.{LeafLink-page}
use bicycletub.Insertion.Change.{
  Change, refused, grown, split, resume, GrownTree, SplitTree, Changed, with_page, create_page_lem,
}

-- A leaf that stores no other key than `p` and the new one has its keys where they have theirs.
leaf_bounds :
    (p p' : LeafPage) (key : IntegerKey) (value : Rid) (lo hi : ℕ)
    → IsLeaf p
    → IsLeaf p'
    → ((i : ℕ) → i < p.size_ → lo ≤ order (p.key_array_ i))
    → ((i : ℕ) → i < p.size_ → order (p.key_array_ i) < hi)
    → lo ≤ order key
    → order key < hi
    → (i : ℕ) → i < p'.size_
    → get_value p' (p'.key_array_ i)
      ≡ (if order key == order (p'.key_array_ i) then some value else get_value p (p'.key_array_ i))
    → (lo ≤ order (p'.key_array_ i)) × (order (p'.key_array_ i) < hi)
leaf_bounds p p' key value lo hi s s' above below a b i c e =
    let k = p'.key_array_ i in
    let found = (get_value-Stores p' s' k (p'.rid_array_ i)).1 (i, c, refl, refl) in
    go (get_value p k) refl (ground (arith, found, e))
  where
    go :
        (o : Option Rid)
        → get_value p (p'.key_array_ i) ≡ o
        → (if order key == order (p'.key_array_ i) then some value else o) ≡ some (p'.rid_array_ i)
        → (lo ≤ order (p'.key_array_ i)) × (order (p'.key_array_ i) < hi)
    go none f g = (ground arith, ground arith)
    go (some w) f g =
        let (j, x, y, z) = (get_value-Stores p s (p'.key_array_ i) w).0 f in
        (ground (arith, above j x, y), ground (arith, below j x, y))

module _ (c : Casts) (t : BPlusTree) (places : Places) (lo hi id : ℕ) (key : IntegerKey)
    (value : Rid) (p : LeafPage) (v : LeafAt t places lo hi id p) (from : lo ≤ order key)
    (upto : order key < hi) where
  into_leaf-GrownTree :
      (p' : LeafPage)
      → get_value p key ≡ none
      → OneLeaf p key value p'
      → GrownTree t places 0 lo hi id key value (store t id (leaf_page p'))
  into_leaf-GrownTree p' none_there o = record {
    places' = places;
    same_cap = refl;
    absent = ground (arith, v.page);
    after = record {
      pages = λ q a b. ground (arith, v.here);
      same = λ q a b. refl;
      more = omega arith;
      cap = omega arith;
      few = omega arith;
      leaf_max = refl;
      internal_max = refl;
      root = refl;
    };
    sound = (
      p',
      record {
        page = ground arith;
        given = v.given;
        here = v.here;
        rising = o.leaf;
        above = λ i a.
            (leaf_bounds p p' key value lo hi v.rising o.leaf v.above v.below from upto i a
              (o.grown (p'.key_array_ i))).0;
        below = λ i a.
            (leaf_bounds p p' key value lo hi v.rising o.leaf v.above v.below from upto i a
              (o.grown (p'.key_array_ i))).1;
        fits = ground (arith, o.fits, o.max);
        max = o.max ∙ v.max;
      },
    );
    finds = λ q a b. ground (arith, o.grown q, v.page);
    same_first = refl;
    linked = λ next l.
        (LeafLink-page (store t id (leaf_page p')) id next p' (ground arith)).1
          (omega (arith, o.size), o.next ∙ ((LeafLink-page t id next p v.page).0 l).1);
  }

  module _ (more : t.next_page_id_ + 1 < half32) (two : 2 ≤ t.leaf_max_size_) where
    module _ (l r : LeafPage) (up_key : IntegerKey)
        (o : TwoLeaves p t.next_page_id_ t.leaf_max_size_ key value l r up_key) where
      abbrev up : ℕ
      up = order up_key

      abbrev split_store : BPlusTree
      split_store = store (store (with_page t) id (leaf_page l)) t.next_page_id_ (leaf_page r)

      abbrev split_places : Places
      split_places = record {
        spot = λ q.
            if q == t.next_page_id_
            then place 0 up hi
            else (if q == id then place 0 lo up else places.spot q);
        cap = places.cap;
      }

      left_in :
          (i : ℕ) → i < l.size_ → (lo ≤ order (l.key_array_ i)) × (order (l.key_array_ i) < hi)
      left_in i a =
          leaf_bounds p l key value lo hi v.rising o.left_leaf v.above v.below from upto i a
            (ground (arith, o.grown (l.key_array_ i), o.left_below i))

      right_above : (i : ℕ) → i < r.size_ → up ≤ order (r.key_array_ i)
      right_above i a = ground (arith, o.up_first, o.right_leaf 0 i)

      right_in :
          (i : ℕ) → i < r.size_ → (lo ≤ order (r.key_array_ i)) × (order (r.key_array_ i) < hi)
      right_in i a =
          leaf_bounds p r key value lo hi v.rising o.right_leaf v.above v.below from upto i a
            (ground (arith, o.grown (r.key_array_ i), right_above i a))

      into_two-SplitTree :
          get_value p key ≡ none
          → SplitTree t places 0 lo hi id key value split_store up_key t.next_page_id_
      into_two-SplitTree none_there = record {
        places' = split_places;
        same_cap = refl;
        absent = ground (arith, v.page);
        after = record {
          pages = λ q a b. ground (arith, v.here);
          same = λ q a b. ground (arith, v.here);
          more = omega arith;
          cap = omega arith;
          few = omega arith;
          leaf_max = refl;
          internal_max = refl;
          root = refl;
        };
        up_lo = ground (arith, left_in 0, o.left_below 0, o.left_used);
        up_hi = ground (arith, right_in 0, o.up_first, o.right_used);
        left = (
          l,
          record {
            page = ground (arith, v.given);
            given = omega (arith, v.given);
            here = ground (arith, v.given);
            rising = o.left_leaf;
            above = λ i a. (left_in i a).0;
            below = o.left_below;
            fits = ground (arith, o.left_fits, o.left_max);
            max = o.left_max ∙ v.max;
          },
        );
        right = (
          r,
          record {
            page = ground arith;
            given = omega arith;
            here = ground arith;
            rising = o.right_leaf;
            above = right_above;
            below = λ i a. (right_in i a).1;
            fits = ground (arith, o.right_fits, o.right_max, v.max);
            max = o.right_max;
          },
        );
        finds = λ q a b. ground (arith, o.grown q, v.page, v.given);
        same_first = refl;
        linked = λ next link. (
          (LeafLink-page split_store id t.next_page_id_ l (ground (arith, v.given))).1
              (o.left_used, o.left_next),
          (LeafLink-page split_store t.next_page_id_ next r (ground arith)).1
              (o.right_used, o.right_next ∙ ((LeafLink-page t id next p v.page).0 link).1),
        );
      }

    -- From the leaf's write guard Insert goes on as the change of the leaf says.
    pub leaf_step :
        (fuel : ℕ) (held : List ℕ)
        → (o : Change) × Changed t places 0 lo hi id key value o
          × (insert_locked c fuel t key value (id ∷ held) ≡ resume c fuel held id t o)
    unfolding insert_locked
    leaf_step fuel held =
        let new = c.as_leaf (t.pages_ t.next_page_id_) in
        rw (v.page, c.as_leaf-leaf_page p)
          (go (insert_leaf p new t.next_page_id_ t.leaf_max_size_ key value) (
            insert_leaf-InsertOutcome p new t.next_page_id_ t.leaf_max_size_ key value v.rising
              v.fits (ground (arith, v.max))))
      where
        go :
            (x : Inserted)
            → InsertOutcome p t.next_page_id_ t.leaf_max_size_ key value x
            → (o : Change) × Changed t places 0 lo hi id key value o
              × (leave_leaf c fuel t id held x ≡ resume c fuel held id t o)
        go duplicate (w, e) = (refused, (w, ground (arith, v.page)), refl)
        go (into_leaf p') (e, o) =
            (grown (store t id (leaf_page p')), into_leaf-GrownTree p' e o, refl)
        go (into_two l r up_key) (e, o) = (
          split (split_store l r up_key o) up_key t.next_page_id_,
          into_two-SplitTree l r up_key o e,
          rw (create_page_lem t more) refl,
        )
