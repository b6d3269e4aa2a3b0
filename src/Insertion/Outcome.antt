-- ===== src/Insertion/Outcome.antt =====
-- What Insert returns, and what becomes of the map that the tree stands for.
use bicycletub.Common.{
  ℕ, suc, ◌+◌, ◌-◌, ◌<◌, ◌≤◌, ◌≡◌, ◌⊎◌, refl, sym, subst, ◌∙◌, arith, Bool, true, false, ◌==◌,
  if◌then◌else◌, none, some, [], inl, inr, word32, minus_one, Result, ok, ◌>>=◌,
}
use bicycletub.Tree.{leaf_page, LeafPage, IntegerKey, Rid, get_value, leaf_key_index}
use bicycletub.Tree.Search.{order}
use bicycletub.Tree.Leaf.{IsLeaf, leaf_key_index-Place, get_value-Place}
use bicycletub.Insertion.{
  BPlusTree, Casts, store, first_leaf, start_tree, find_and_lock, insert_locked, insert,
}
use bicycletub.Insertion.Sound.{place, Sound, find}
use bicycletub.Insertion.Leaves.{Linked, LeafLink-page}
use bicycletub.Insertion.Change.{refused, grown, split, with_page, create_page_lem}
use bicycletub.Insertion.Descent.{Sizes, Sizes-smaller, Steps, descent}
use bicycletub.Insertion.NewRoot.{root_step}
use bicycletub.Insertion.Contents.{Rooted, Valid, Chained, contents, has_root}

-- The tree with the entry added.
pub record Added (t : BPlusTree) (height cap : ℕ) (key : IntegerKey) (value : Rid) (t' : BPlusTree)
    (height' : ℕ) : Type 0 where
  pub valid : Valid t' height' cap
  pub highest : height' ≤ height + 1
  pub few : t'.next_page_id_ ≤ t.next_page_id_ + height + 2
  pub leaf_max : t'.leaf_max_size_ ≡ t.leaf_max_size_
  pub internal_max : t'.internal_max_size_ ≡ t.internal_max_size_
  pub chained : Chained t height → Chained t' height'
  pub contents' :
      (q : IntegerKey)
      → contents t' height' q ≡ (if order key == order q then some value else contents t height q)

-- Insert refuses a key that the map has, and adds the entry of another.
abbrev pub InsertResult : BPlusTree → ℕ → ℕ → IntegerKey → Rid → Result (BPlusTree × Bool) → Type 0
InsertResult t height cap key value r =
    ((w : Rid) × (contents t height key ≡ some w) × (r ≡ ok (t, false)))
    ⊎ ((contents t height key ≡ none)
        × (t' : BPlusTree) × (height' : ℕ) × (r ≡ ok (t', true))
        × Added t height cap key value t' height')

module _ (new : LeafPage) (max : ℕ) (key : IntegerKey) (value : Rid) where
  abbrev one_key : LeafPage
  one_key = first_leaf new max key value

  one_key-IsLeaf : IsLeaf one_key
  one_key-IsLeaf i j a b c = absurd (omega arith)

  first_leaf-get_value :
      (q : IntegerKey) → get_value one_key q ≡ (if order key == order q then some value else none)
  first_leaf-get_value q =
      let v = leaf_key_index-Place one_key one_key-IsLeaf q in
      ground (
        arith,
        get_value-Place one_key one_key-IsLeaf q (leaf_key_index one_key q) v,
        v.1,
        v.3 0,
        v.2 0,
      )

module _ (c : Casts) (t : BPlusTree) (height cap : ℕ) (key : IntegerKey) (value : Rid)
    (s : Sizes t (suc height) cap) where
  -- The first entry.
  start_tree-InsertResult :
      t.root_page_id_ ≡ minus_one → InsertResult t height cap key value (start_tree c t key value)
  unfolding start_tree
  start_tree-InsertResult e =
      let new = c.as_leaf (t.pages_ t.next_page_id_) in
      let p = first_leaf new t.leaf_max_size_ key value in
      let started =
        store (record (with_page t) { root_page_id_ = t.next_page_id_ }) t.next_page_id_
          (leaf_page p) in
      rw (create_page_lem t (omega (arith, s.ids_left))) (
        inr (
          ground (arith, e),
          started,
          0,
          refl,
          record {
            valid = inr (record {
              places = record { spot = λ q. place 0 0 word32; cap = cap };
              within_cap = refl;
              sound = (
                p,
                record {
                  page = ground arith;
                  given = omega arith;
                  here = refl;
                  rising = one_key-IsLeaf new t.leaf_max_size_ key value;
                  above = λ i a. omega arith;
                  below = λ i a. omega arith;
                  fits = omega (arith, s.leaf_two);
                  max = refl;
                },
              );
            });
            highest = omega arith;
            few = omega arith;
            leaf_max = refl;
            internal_max = refl;
            chained = λ l. inr (
                (LeafLink-page started t.next_page_id_ minus_one p (ground arith)).1
                  (omega arith, refl));
            contents' =
                λ q. ground (arith, e, first_leaf-get_value new t.leaf_max_size_ key value q);
          },
        ))

  module _ (r : Rooted t height cap) where
    root : (t.root_page_id_ == minus_one) ≡ false
    root = has_root t height cap (omega (arith, s.ids_left)) r

    root_links : Chained t height → Linked t height t.root_page_id_ minus_one
    root_links (inl e) = absurd (ground (arith, e, root))
    root_links (inr l) = l

    from_root :
        (fuel : ℕ) (x : Result (BPlusTree × Bool))
        → Steps c t r.places key value height 0 word32 t.root_page_id_ (suc fuel) [] x
        → InsertResult t height cap key value x
    from_root fuel x (refused, (w, e), f) = inl (w, rw root (e), f)
    from_root fuel x (grown t', g, f) =
        let root' : (t'.root_page_id_ == minus_one) ≡ false = ground (arith, g.after.root, root) in
        inr (
          rw root g.absent,
          t',
          height,
          f,
          record {
            valid = inr (record {
              places = g.places';
              within_cap = g.same_cap ∙ r.within_cap;
              sound = subst (Sound t' g.places' height 0 word32) (sym g.after.root) g.sound;
            });
            highest = omega arith;
            few = omega (arith, g.after.few);
            leaf_max = g.after.leaf_max;
            internal_max = g.after.internal_max;
            chained = λ l. inr (
                subst (λ i. Linked t' height i minus_one) (sym g.after.root)
                  (g.linked minus_one (root_links l)));
            contents' = λ q.
                let found = g.finds q (omega arith) (omega arith) in
                rw (root', root)
                  (subst
                    (λ i. find t' height i q ≡ (
                      if order key == order q then some value else find t height t.root_page_id_ q))
                    (sym g.after.root) found);
          },
        )
    from_root fuel x (split t' up_key new_id, g, f) =
        let (t'', e, h) =
          root_step c t r.places height key value t' up_key new_id g s.internal_two
            (omega (arith, s.internal_cap, r.within_cap)) fuel
            (omega (arith, s.ids_left, g.after.few)) in
        let root'' : (t''.root_page_id_ == minus_one) ≡ false =
          has_root t'' (suc height) cap (omega (arith, h.few, s.ids_left)) (record {
            places = h.places';
            within_cap = h.same_cap ∙ r.within_cap;
            sound = h.sound;
          }) in
        inr (
          rw root g.absent,
          t'',
          suc height,
          f ∙ e,
          record {
            valid = inr (record {
              places = h.places';
              within_cap = h.same_cap ∙ r.within_cap;
              sound = h.sound;
            });
            highest = omega arith;
            few = h.few;
            leaf_max = h.leaf_max;
            internal_max = h.internal_max;
            chained = λ l. inr (h.linked minus_one (root_links l));
            contents' = λ q. rw (root'', root) (h.finds q (omega arith) (omega arith));
          },
        )

  smaller : (r : Rooted t height cap) → Sizes t height r.places.cap
  smaller r = subst (Sizes t height) (sym r.within_cap) (Sizes-smaller t height cap s)

  -- Insert on a valid tree with more fuel than its height, maxima of 2 at least, a bound on the
  -- children of its internal pages that is not under the internal maximum and below 2 ^ 31, and two more page ids below 2 ^ 31 than the height: it returns. It returns false
  -- with the tree unchanged for a key that the map of the tree has; for another it returns true with
  -- a valid tree with the same bound, no more than a level higher, whose map has the value under the keys of the key's
  -- order and is the same elsewhere, and whose leaves are chained if they were, after no more than a new page for each level and the new root.
  pub insert-InsertResult :
      (fuel : ℕ)
      → height < fuel
      → Valid t height cap
      → InsertResult t height cap key value (insert c fuel t key value)
  unfolding insert
  insert-InsertResult fuel h (inl e) =
      let no_root : (t.root_page_id_ == minus_one) ≡ true = ground (arith, e) in
      let at_start : insert c fuel t key value ≡ start_tree c t key value = rw no_root refl in
      subst (InsertResult t height cap key value) (sym at_start) (start_tree-InsertResult e)
  insert-InsertResult fuel h (inr r) =
      let down =
        descent c t r.places key value height fuel fuel (suc (fuel - height - 1)) 0 word32
          t.root_page_id_ [] r.sound (smaller r) (omega arith) (omega arith) h (omega arith) in
      let at_root : insert c fuel t key value
          ≡ (find_and_lock t key fuel t.root_page_id_ [] >>= insert_locked c fuel t key value) =
        rw (root r) refl in
      subst (InsertResult t height cap key value) (sym at_root)
        (from_root r (fuel - height - 1) _ down)
