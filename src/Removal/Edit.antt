-- ===== src/Removal/Edit.antt =====
-- The leaf that FindAndLock reaches, and the tree after a change of that leaf alone.
use bicycletub.Common.{
  ℕ, zero, suc, ◌+◌, ◌<◌, ◌≤◌, ◌≡◌, ◌≢◌, refl, ap, ◌∙◌, subst, arith, false, ◌&&◌, ltb, leb, ◌==◌,
  if◌then◌else◌, List, ◌∷◌, Bool-cases, inl, inr, half32, ok,
}
use bicycletub.Tree.{
  leaf_page, internal_page, LeafPage, InternalPage, IntegerKey, default_rid, get_value,
  find_leaf_page,
}
use bicycletub.Tree.Search.{order}
use bicycletub.Tree.Leaf.{IsLeaf}
use bicycletub.Tree.Internal.{value_at-ok}
use bicycletub.Tree.Lookup.{low, high}
use bicycletub.Parent.Route.{route, route-Routes, Routes-unique, child_index-route}
use bicycletub.Insertion.{BPlusTree, open_page, store, find_and_lock}
use bicycletub.Insertion.Sound.{Places, LeafAt, BranchAt, Sound, find, route_bounds}
use bicycletub.Insertion.Change.{After, open_page_lem}
use bicycletub.Insertion.Branch.{at_bounds, bounds, page_same, sibling, sibling_find}

-- A leaf that can stand for `p` in a tree, with keys from `lo` to below `hi`.
pub record Fits (p : LeafPage) (lo hi : ℕ) (p' : LeafPage) : Type 0 where
  pub rising : IsLeaf p'
  pub above : (i : ℕ) → i < p'.size_ → lo ≤ order (p'.key_array_ i)
  pub below : (i : ℕ) → i < p'.size_ → order (p'.key_array_ i) < hi
  pub fits : p'.size_ ≤ p'.max_size_
  pub max : p'.max_size_ ≡ p.max_size_

-- The leaf for the key.
pub record LeafFor (t : BPlusTree) (places : Places) (height lo hi id : ℕ) (key : IntegerKey)
    : Type 0 where
  pub leaf_id : ℕ
  pub leaf : LeafPage
  pub leaf_lo : ℕ
  pub leaf_hi : ℕ
  pub there : LeafAt t places leaf_lo leaf_hi leaf_id leaf
  pub inner : (lo ≤ leaf_lo) × (leaf_hi ≤ hi) × (leaf_lo ≤ order key) × (order key < leaf_hi)
  pub same :
      (q : IntegerKey)
      → leaf_lo ≤ order q
      → order q < leaf_hi
      → find t height id q ≡ get_value leaf q
  pub locked :
      (fuel : ℕ) (held : List ℕ)
      → height < fuel
      → (held' : List ℕ) × (find_and_lock t key fuel id held ≡ ok (leaf_id ∷ held'))
  pub reached : (fuel : ℕ) → height < fuel → find_leaf_page (open_page t) key fuel id ≡ ok leaf
  pub sound :
      (p' : LeafPage)
      → Fits leaf leaf_lo leaf_hi p'
      → Sound (store t leaf_id (leaf_page p')) places height lo hi id
  pub finds :
      (p' : LeafPage)
      → Fits leaf leaf_lo leaf_hi p'
      → (q : IntegerKey) → lo ≤ order q
      → order q < hi
      → find (store t leaf_id (leaf_page p')) height id q ≡ (
          if leb leaf_lo (order q) && ltb (order q) leaf_hi
          then get_value p' q
          else find t height id q)

module _ (t : BPlusTree) (places : Places) (key : IntegerKey) (small : t.next_page_id_ < half32)
    (cap_small : places.cap < half32) where
  lock_leaf :
      (id : ℕ) (p : LeafPage)
      → t.pages_ id ≡ leaf_page p
      → id < t.next_page_id_
      → (fuel : ℕ) (held : List ℕ) → 0 < fuel
      → (held' : List ℕ) × (find_and_lock t key fuel id held ≡ ok (id ∷ held'))
  unfolding find_and_lock
  lock_leaf id p e a zero held h = absurd (omega arith)
  lock_leaf id p e a (suc fuel) held h = (held, rw (open_page_lem t id a small, e) refl)

  reach_leaf :
      (id : ℕ) (p : LeafPage)
      → t.pages_ id ≡ leaf_page p
      → id < t.next_page_id_
      → (fuel : ℕ) → 0 < fuel
      → find_leaf_page (open_page t) key fuel id ≡ ok p
  unfolding find_leaf_page
  reach_leaf id p e a zero h = absurd (omega arith)
  reach_leaf id p e a (suc fuel) h = rw (open_page_lem t id a small, e) refl

  at_leaf :
      (lo hi id : ℕ) (p : LeafPage)
      → LeafAt t places lo hi id p
      → lo ≤ order key
      → order key < hi
      → LeafFor t places 0 lo hi id key
  at_leaf lo hi id p v a b = record {
    leaf_id = id;
    leaf = p;
    leaf_lo = lo;
    leaf_hi = hi;
    there = v;
    inner = (omega arith, omega arith, a, b);
    same = λ q c d. rw v.page refl;
    locked = lock_leaf id p v.page v.given;
    reached = reach_leaf id p v.page v.given;
    sound = λ p' f. (
      p',
      record {
        page = ground arith;
        given = v.given;
        here = v.here;
        rising = f.rising;
        above = f.above;
        below = f.below;
        fits = f.fits;
        max = f.max ∙ v.max;
      },
    );
    finds = λ p' f q c d. ground arith;
  }

  edit_After :
      (height lo hi id : ℕ) (e : LeafFor t places height lo hi id key) (p' : LeafPage)
      → After t (store t e.leaf_id (leaf_page p')) places places height lo hi
  edit_After height lo hi id e p' = record {
    pages = λ q a b. ground (arith, e.there.here, e.inner);
    same = λ q a b. refl;
    more = omega arith;
    cap = omega arith;
    few = omega arith;
    leaf_max = refl;
    internal_max = refl;
    root = refl;
  }

  module _ (height lo hi id : ℕ) (p : InternalPage) (v : BranchAt t places (suc height) lo hi id p)
      (kids : (i : ℕ)
        → i < p.size_
        → Sound t places height (low p lo i) (high p hi i) (p.page_id_array_ i))
      (from : lo ≤ order key) (upto : order key < hi)
      (e : LeafFor t places height
        (low p lo (route p key))
        (high p hi (route p key))
        (p.page_id_array_ (route p key))
        key) where
    abbrev at : ℕ
    at = route p key

    inside : (low p lo at ≤ order key) × (order key < high p hi at) × (at < p.size_)
    inside = at_bounds t places height lo hi id key default_rid p v kids from upto

    child_in : (lo ≤ low p lo at) × (high p hi at ≤ hi)
    child_in =
        let b = bounds t places height lo hi id key default_rid p v kids from upto at inside.2 in
        (b.0, b.1)

    routes_at : (q : IntegerKey) → low p lo at ≤ order q → order q < high p hi at → route p q ≡ at
    routes_at q a b = Routes-unique p q (route p q) at (route-Routes p v.rising v.used q) (
      inside.2,
      λ j x y. ground (arith, inside, v.rising j at),
      λ j x y. ground (arith, inside, v.rising (at + 1) j),
    )

    module _ (p' : LeafPage) (f : Fits e.leaf e.leaf_lo e.leaf_hi p') where
      abbrev t' : BPlusTree
      t' = store t e.leaf_id (leaf_page p')

      change : After t t' places places height (low p lo at) (high p hi at)
      change = edit_After height (low p lo at) (high p hi at) (p.page_id_array_ at) e p'

      stays : t'.pages_ id ≡ internal_page p
      stays =
          (page_same t places height lo hi id key default_rid p v kids from upto t' places change).0

      edited_kid :
          (i : ℕ)
          → i < p.size_
          → Sound t' places height (low p lo i) (high p hi i) (p.page_id_array_ i)
      edited_kid i a = elim (Bool-cases (i == at)) [
        | inl g ↦
            subst (λ j. Sound t' places height (low p lo j) (high p hi j) (p.page_id_array_ j))
              (ground (arith, g)) (e.sound p' f)
        | inr g ↦
            sibling t places height lo hi id key default_rid p v kids from upto t' places change i a
              (ground (arith, g))
      ]

      edited-Sound : Sound t' places (suc height) lo hi id
      edited-Sound = (
        p,
        record {
          page = stays;
          given = v.given;
          here = v.here;
          used = v.used;
          rising = v.rising;
          above = v.above;
          below = v.below;
          fits = v.fits;
          max = v.max;
        },
        edited_kid,
      )

      outside :
          (q : IntegerKey)
          → route p q ≢ at
          → (leb e.leaf_lo (order q) && ltb (order q) e.leaf_hi) ≡ false
      outside q n = elim (Bool-cases (leb e.leaf_lo (order q) && ltb (order q) e.leaf_hi)) [
        | inr c ↦ c
        | inl c ↦ absurd (n (routes_at q (ground (arith, c, e.inner)) (ground (arith, c, e.inner))))
      ]

      edited_find :
          (q : IntegerKey)
          → lo ≤ order q
          → order q < hi
          → find t' height (p.page_id_array_ (route p q)) q ≡ (
              if leb e.leaf_lo (order q) && ltb (order q) e.leaf_hi
              then get_value p' q
              else find t (suc height) id q)
      edited_find q a b =
          let (x, y, z) = route_bounds t places (suc height) lo hi id p v (omega arith) q a b in
          elim (Bool-cases (route p q == at)) [
            | inl g ↦
                let same : route p q ≡ at = ground (arith, g) in
                let old : find t (suc height) id q ≡ find t height (p.page_id_array_ at) q =
                  rw v.page (ap (λ j. find t height (p.page_id_array_ j) q) same) in
                rw (old, same)
                  (e.finds p' f q (subst (λ j. low p lo j ≤ order q) same x)
                    (subst (λ j. order q < high p hi j) same y))
            | inr g ↦ rw (outside q (ground (arith, g))) (
                sibling_find t places height lo hi id key default_rid p v kids from upto t' places
                  change q a b (ground (arith, g)))
          ]

    lock_branch :
        (fuel : ℕ) (held : List ℕ)
        → suc height < fuel
        → (held' : List ℕ) × (find_and_lock t key fuel id held ≡ ok (e.leaf_id ∷ held'))
    unfolding find_and_lock
    lock_branch zero held h = absurd (omega arith)
    lock_branch (suc fuel) held h =
        let few : p.size_ < half32 = omega (arith, v.fits, cap_small) in
        let (held', l) = e.locked fuel (id ∷ held) (omega (arith, h)) in
        (
          held',
          rw
              (
                open_page_lem t id v.given small,
                v.page,
                child_index-route p v.rising v.used key few,
                value_at-ok p at inside.2 few,
              )
              l,
        )

    reach_branch :
        (fuel : ℕ) → suc height < fuel → find_leaf_page (open_page t) key fuel id ≡ ok e.leaf
    unfolding find_leaf_page
    reach_branch zero h = absurd (omega arith)
    reach_branch (suc fuel) h =
        let few : p.size_ < half32 = omega (arith, v.fits, cap_small) in
        rw
          (
            open_page_lem t id v.given small,
            v.page,
            child_index-route p v.rising v.used key few,
            value_at-ok p at inside.2 few,
          )
          (e.reached fuel (omega (arith, h)))

    at_branch : LeafFor t places (suc height) lo hi id key
    at_branch = record {
      leaf_id = e.leaf_id;
      leaf = e.leaf;
      leaf_lo = e.leaf_lo;
      leaf_hi = e.leaf_hi;
      there = e.there;
      inner = (
        omega (arith, e.inner, child_in),
        omega (arith, e.inner, child_in),
        e.inner.2,
        e.inner.3,
      );
      same = λ q a b.
          rw (v.page, routes_at q (omega (arith, a, e.inner)) (omega (arith, b, e.inner)))
            (e.same q a b);
      locked = lock_branch;
      reached = reach_branch;
      sound = edited-Sound;
      finds = λ p' f q a b. rw (stays p' f) (edited_find p' f q a b);
    }

  pub find_and_lock-LeafFor :
      (height lo hi id : ℕ)
      → Sound t places height lo hi id
      → lo ≤ order key
      → order key < hi
      → LeafFor t places height lo hi id key
  find_and_lock-LeafFor zero lo hi id (p, v) a b = at_leaf lo hi id p v a b
  find_and_lock-LeafFor (suc height) lo hi id (p, v, kids) a b =
      let (x, y, z) = at_bounds t places height lo hi id key default_rid p v kids a b in
      at_branch height lo hi id p v kids a b (
        find_and_lock-LeafFor height _ _ (p.page_id_array_ (route p key)) (kids (route p key) z) x
          y)
