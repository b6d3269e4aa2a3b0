-- ===== src/Removal/Repaged.antt =====
-- A store in which the pages of two neighbouring subtrees' roots are new.
use bicycletub.Common.{ℕ, ◌<◌, ◌≤◌, ◌≡◌, ◌≢◌, refl, ap, arith, true, false, ◌==◌, if◌then◌else◌}
use bicycletub.Tree.{Page}
use bicycletub.Insertion.{BPlusTree}
use bicycletub.Insertion.Sound.{Place, place, Places, within, Agree}
use bicycletub.Insertion.Change.{After}

module _ (t : BPlusTree) (places : Places) (height lo mid hi l_id r_id : ℕ)
    (l_here : places.spot l_id ≡ place height lo mid)
    (r_here : places.spot r_id ≡ place height mid hi) (l_span : lo < mid) (r_span : mid < hi)
    (pages' : ℕ → Page) (others : (q : ℕ) → q ≢ l_id → q ≢ r_id → pages' q ≡ t.pages_ q) (cap' : ℕ)
    (grown : places.cap ≤ cap') where
  abbrev pub repaged : BPlusTree
  repaged = record t { pages_ = pages' }

  pub apart : l_id ≢ r_id
  apart e =
      let same : place height lo mid ≡ place height mid hi = rw⁻¹ (l_here, r_here) (rw e refl) in
      omega (arith, ap Place.lo same)

  abbrev pub two_places : ℕ → Places
  two_places key = record {
    spot = λ q.
        if q == l_id
        then place height lo key
        else (if q == r_id then place height key hi else places.spot q);
    cap = cap';
  }

  abbrev pub one_place : Places
  one_place = record {
    spot = λ q. if q == l_id then place height lo hi else places.spot q;
    cap = cap';
  }

  outside : (q : ℕ) → within (places.spot q) height lo hi ≡ false → (q ≢ l_id) × (q ≢ r_id)
  outside q b =
      let l_in : within (places.spot l_id) height lo hi ≡ true = ground (arith, l_here) in
      let r_in : within (places.spot r_id) height lo hi ≡ true = ground (arith, r_here) in
      (λ e. ground (arith, b, l_in, e), λ e. ground (arith, b, r_in, e))

  pub two_places-After : (key : ℕ) → After t repaged places (two_places key) height lo hi
  two_places-After key = record {
    pages = λ q a b. others q (outside q b).0 (outside q b).1;
    same = λ q a b. ground (arith, outside q b);
    more = omega arith;
    cap = grown;
    few = omega arith;
    leaf_max = refl;
    internal_max = refl;
    root = refl;
  }

  pub one_place-After : After t repaged places one_place height lo hi
  one_place-After = record {
    pages = λ q a b. others q (outside q b).0 (outside q b).1;
    same = λ q a b. ground (arith, outside q b);
    more = omega arith;
    cap = grown;
    few = omega arith;
    leaf_max = refl;
    internal_max = refl;
    root = refl;
  }

  -- The pages below.
  module _ (below : ℕ) (under : below < height) where
    deeper : (q : ℕ) → within (places.spot q) below lo hi ≡ true → (q ≢ l_id) × (q ≢ r_id)
    deeper q b =
        let l_out : within (places.spot l_id) below lo hi ≡ false = ground (arith, l_here) in
        let r_out : within (places.spot r_id) below lo hi ≡ false = ground (arith, r_here) in
        (λ e. ground (arith, b, l_out, e), λ e. ground (arith, b, r_out, e))

    pub two_places-Agree : (key : ℕ) → Agree t repaged places (two_places key) below lo hi
    two_places-Agree key = record {
      pages = λ q a b. others q (deeper q b).0 (deeper q b).1;
      same = λ q a b. ground (arith, deeper q b);
      more = omega arith;
      cap = grown;
      leaf_max = refl;
      internal_max = refl;
    }

    pub one_place-Agree : Agree t repaged places one_place below lo hi
    one_place-Agree = record {
      pages = λ q a b. others q (deeper q b).0 (deeper q b).1;
      same = λ q a b. ground (arith, deeper q b);
      more = omega arith;
      cap = grown;
      leaf_max = refl;
      internal_max = refl;
    }
