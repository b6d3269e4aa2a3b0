-- ===== src/Insertion/Contents.antt =====
-- Insert and GetValue of the tree, as operations on the map from keys to values that it stands for.
use bicycletub.Common.{
  ℕ, zero, suc, ◌<◌, ◌≤◌, ◌≡◌, ◌⊎◌, refl, ap, arith, false, ◌==◌, if◌then◌else◌, Option, none, inl,
  inr, half32, word32, minus_one, ok, ◌>>=◌,
}
use bicycletub.Tree.{IntegerKey, Rid, get_value, leaf_key_index, find_leaf_page, tree_get_value}
use bicycletub.Tree.Search.{order}
use bicycletub.Tree.Leaf.{Place, leaf_key_index-Place, get_value-Place}
use bicycletub.Tree.Internal.{value_at-ok}
use bicycletub.Parent.Route.{route, route-Routes, Routes-unique, child_index-route}
use bicycletub.Insertion.{BPlusTree, open_page}
use bicycletub.Insertion.Sound.{Places, Sound, find, route_bounds}
use bicycletub.Insertion.Leaves.{Linked}
use bicycletub.Insertion.Change.{open_page_lem}

-- A tree without a root, or with the root of a sound tree of that height, whose internal pages have
-- `cap` children at most.
pub record Rooted (t : BPlusTree) (height cap : ℕ) : Type 0 where
  pub places : Places
  pub within_cap : places.cap ≡ cap
  pub sound : Sound t places height 0 word32 t.root_page_id_

abbrev pub Valid : BPlusTree → ℕ → ℕ → Type 0
Valid t height cap = (t.root_page_id_ ≡ minus_one) ⊎ Rooted t height cap

-- The leaves of the tree, if it has a root, are chained, and the last one has no successor.
abbrev pub Chained : BPlusTree → ℕ → Type 0
Chained t height = (t.root_page_id_ ≡ minus_one) ⊎ Linked t height t.root_page_id_ minus_one

-- The map that the tree stands for.
abbrev pub contents : BPlusTree → ℕ → IntegerKey → Option Rid
contents t height q = if t.root_page_id_ == minus_one then none else find t height t.root_page_id_ q

-- A page of a sound tree is one that NewPage gave out.
pub given_out :
    (t : BPlusTree) (places : Places) (height lo hi id : ℕ)
    → Sound t places height lo hi id
    → id < t.next_page_id_
given_out t places zero lo hi id (p, v) = v.given
given_out t places (suc height) lo hi id (p, v, kids) = v.given

pub has_root :
    (t : BPlusTree) (height cap : ℕ)
    → t.next_page_id_ < half32
    → Rooted t height cap
    → (t.root_page_id_ == minus_one) ≡ false
has_root t height cap small r =
    ground (arith, given_out t r.places height 0 word32 t.root_page_id_ r.sound)

module _ (t : BPlusTree) (places : Places) (small : t.next_page_id_ < half32)
    (cap_small : places.cap < half32) (key : IntegerKey) where
  find_leaf_page-find :
      (height fuel lo hi id : ℕ)
      → Sound t places height lo hi id
      → lo ≤ order key
      → order key < hi
      → height < fuel
      → (find_leaf_page (open_page t) key fuel id >>= λ p. ok (get_value p key))
        ≡ ok (find t height id key)
  unfolding find_leaf_page
  find_leaf_page-find height zero lo hi id tree a b h = absurd (omega arith)
  find_leaf_page-find zero (suc fuel) lo hi id (p, v) a b h =
      rw (open_page_lem t id v.given small, v.page) refl
  find_leaf_page-find (suc height) (suc fuel) lo hi id (p, v, kids) a b h =
      let (x, y, z) = route_bounds t places (suc height) lo hi id p v (omega arith) key a b in
      let few : p.size_ < half32 = omega (arith, v.fits, cap_small) in
      rw
        (
          open_page_lem t id v.given small,
          v.page,
          child_index-route p v.rising v.used key few,
          value_at-ok p (route p key) z few,
        )
        (find_leaf_page-find height fuel _ _ (p.page_id_array_ (route p key)) (kids (route p key) z)
          x y (omega (arith, h)))

-- GetValue on a valid tree, with page ids and the bound on the children of its internal pages below
-- 2 ^ 31 and more fuel than the height, returns what find gives from the root, and nothing for an
-- empty tree.
pub tree_get_value-contents :
    (t : BPlusTree) (height cap fuel : ℕ) (key : IntegerKey)
    → Valid t height cap
    → t.next_page_id_ < half32
    → cap < half32
    → height < fuel
    → tree_get_value (open_page t) fuel t.root_page_id_ key ≡ ok (contents t height key)
unfolding tree_get_value
tree_get_value-contents t height cap fuel key (inl e) small cap_small h = rw e refl
tree_get_value-contents t height cap fuel key (inr r) small cap_small h =
    rw (has_root t height cap small r) (
      find_leaf_page-find t r.places small (omega (arith, r.within_cap)) key height fuel 0 word32
        t.root_page_id_ r.sound (omega arith) (omega arith) h)

-- Two keys of the same order have the same value.
find_same_order :
    (t : BPlusTree) (places : Places) (height lo hi id : ℕ) (key q : IntegerKey)
    → order key ≡ order q
    → Sound t places height lo hi id
    → find t height id q ≡ find t height id key
find_same_order t places zero lo hi id key q e (p, v) =
    let i = leaf_key_index p key in
    let at = leaf_key_index-Place p v.rising key in
    let at' : Place p q i =
      (at.0, at.1, λ j a b. ground (arith, at.2 j), λ j a b. ground (arith, at.3 j)) in
    ground
      (arith, e, v.page, get_value-Place p v.rising key i at, get_value-Place p v.rising q i at')
find_same_order t places (suc height) lo hi id key q e (p, v, kids) =
    let r = route-Routes p v.rising v.used key in
    let same =
      Routes-unique p q (route p q) (route p key) (route-Routes p v.rising v.used q)
        (r.0, λ j a b. ground (arith, r.1 j a b), λ j a b. ground (arith, r.2 j a b)) in
    rw (v.page, same)
      (find_same_order t places height _ _ (p.page_id_array_ (route p key)) key q e
        (kids (route p key) r.0))

pub contents_same_order :
    (t : BPlusTree) (height cap : ℕ) (key q : IntegerKey)
    → order key ≡ order q
    → Valid t height cap
    → contents t height q ≡ contents t height key
contents_same_order t height cap key q e (inl f) = rw f refl
contents_same_order t height cap key q e (inr r) =
    ap (λ o. if t.root_page_id_ == minus_one then none else o)
      (find_same_order t r.places height 0 word32 t.root_page_id_ key q e r.sound)
