-- ===== src/Insertion/Descent.antt =====
-- Insert on a whole tree: down with FindAndLock to the leaf, and up again.
use bicycletub.Common.{
  ℕ, zero, suc, ◌+◌, ◌<◌, ◌≤◌, ◌≡◌, ◌∙◌, arith, Bool, List, ◌∷◌, half32, Result, ◌>>=◌,
}
use bicycletub.Tree.{InternalPage, IntegerKey, Rid}
use bicycletub.Tree.Search.{order}
use bicycletub.Tree.Internal.{value_at-ok}
use bicycletub.Tree.Lookup.{low, high}
use bicycletub.Parent.Route.{route, child_index-route}
use bicycletub.Insertion.{BPlusTree, Casts, find_and_lock, insert_locked}
use bicycletub.Insertion.Sound.{Places, BranchAt, Sound}
use bicycletub.Insertion.Change.{Change, refused, grown, split, resume, Changed, open_page_lem}
use bicycletub.Insertion.LeafStep.{leaf_step}
use bicycletub.Insertion.Branch.{at_bounds, find_page, branch-GrownTree}
use bicycletub.Insertion.Entry.{entry_step}

-- What Insert asks of the bounds of its pages, with `cap` children at most in an internal page, and
-- of the ids that are left.
pub record Sizes (t : BPlusTree) (height cap : ℕ) : Type 0 where
  pub leaf_two : 2 ≤ t.leaf_max_size_
  pub internal_two : 2 ≤ t.internal_max_size_
  pub internal_cap : t.internal_max_size_ ≤ cap
  pub cap_small : cap < half32
  pub ids_left : t.next_page_id_ + height + 1 < half32

pub Sizes-smaller : (t : BPlusTree) (height cap : ℕ) → Sizes t (suc height) cap → Sizes t height cap
Sizes-smaller t height cap s = record {
  leaf_two = s.leaf_two;
  internal_two = s.internal_two;
  internal_cap = s.internal_cap;
  cap_small = s.cap_small;
  ids_left = omega (arith, s.ids_left);
}

module _ (c : Casts) (t : BPlusTree) (places : Places) (key : IntegerKey) (value : Rid) where
  -- From the page on: the change of its subtree, as the pages above see it.
  abbrev pub Steps : ℕ → ℕ → ℕ → ℕ → ℕ → List ℕ → Result (BPlusTree × Bool) → Type 0
  Steps height lo hi id fuel held r =
      (o : Change) × Changed t places height lo hi id key value o × (r ≡ resume c fuel held id t o)

  module _ (height lo hi id : ℕ) (p : InternalPage) (v : BranchAt t places (suc height) lo hi id p)
      (kids : (i : ℕ)
        → i < p.size_
        → Sound t places height (low p lo i) (high p hi i) (p.page_id_array_ i))
      (from : lo ≤ order key) (upto : order key < hi) (s : Sizes t (suc height) places.cap) where
    abbrev child : ℕ
    child = p.page_id_array_ (route p key)

    branch_step :
        (fuel : ℕ) (held : List ℕ) (r : Result (BPlusTree × Bool))
        → Steps height
            (low p lo (route p key))
            (high p hi (route p key))
            child
            (suc fuel)
            (id ∷ held)
            r
        → Steps (suc height) lo hi id fuel held r
    branch_step fuel held r (refused, (w, e), f) =
        (refused, (w, find_page t places height lo hi id key value p v kids from upto key ∙ e), f)
    branch_step fuel held r (grown t', g, f) =
        (grown t', branch-GrownTree t places height lo hi id key value p v kids from upto t' g, f)
    branch_step fuel held r (split t' up_key new_id, g, f) =
        let (o, h, e) =
          entry_step t places height lo hi id key value p v kids from upto t' up_key new_id g c
            s.internal_cap s.cap_small s.internal_two (omega (arith, s.ids_left, g.after.few)) fuel
            child held in
        (o, h, f ∙ e)

  pub descent :
      (height rounds up fuel lo hi id : ℕ) (held : List ℕ)
      → Sound t places height lo hi id
      → Sizes t height places.cap
      → lo ≤ order key
      → order key < hi
      → height < rounds
      → up ≡ fuel + height
      → Steps height lo hi id fuel held
          (find_and_lock t key rounds id held >>= insert_locked c up t key value)
  unfolding find_and_lock
  descent height zero up fuel lo hi id held tree s a b h e = absurd (omega arith)
  descent zero (suc rounds) up fuel lo hi id held (p, v) s a b h e =
      let same : up ≡ fuel = omega (arith, e) in
      rw (open_page_lem t id v.given (omega (arith, s.ids_left)), v.page, same)
        (leaf_step c t places lo hi id key value p v a b (omega (arith, s.ids_left)) s.leaf_two fuel
          held)
  descent (suc height) (suc rounds) up fuel lo hi id held (p, v, kids) s a b h e =
      let (x, y, z) = at_bounds t places height lo hi id key value p v kids a b in
      let small : p.size_ < half32 = omega (arith, v.fits, s.cap_small) in
      let below =
        descent height rounds up (suc fuel) _ _ (p.page_id_array_ (route p key)) (id ∷ held)
          (kids (route p key) z) (Sizes-smaller t height places.cap s) x y (omega (arith, h))
          (omega (arith, e)) in
      rw
        (
          open_page_lem t id v.given (omega (arith, s.ids_left)),
          v.page,
          child_index-route p v.rising v.used key small,
          value_at-ok p (route p key) z small,
        )
        (branch_step height lo hi id p v kids a b s fuel held _ below)
