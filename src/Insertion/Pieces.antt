-- ===== src/Insertion/Pieces.antt =====
-- The pages that hold a row of children between them: an internal page, or the two that it splits
-- into, over children that the store has already.
use bicycletub.Common.{ℕ, suc, ◌+◌, ◌-◌, ◌<◌, ◌≤◌, ◌≡◌, ap, ◌∙◌, arith}
use bicycletub.Tree.{internal_page, InternalPage, IntegerKey}
use bicycletub.Tree.Search.{order, IsSorted}
use bicycletub.Tree.Internal.{Routes}
use bicycletub.Tree.Lookup.{low, high}
use bicycletub.Parent.Route.{route}
use bicycletub.Parent.Part.{Part, Part-IsSorted, Part-route}
use bicycletub.Insertion.{BPlusTree}
use bicycletub.Insertion.Sound.{
  place, Places, BranchAt, Sound, find, Agree, Agree-smaller, Sound-Agree, find-Agree,
}
use bicycletub.Insertion.Change.{After}

-- What stands beside a changed subtree is as it was.
pub After-Agree :
    (t t' : BPlusTree) (places places' : Places) (height lo hi lo' hi' : ℕ)
    → After t t' places places' height lo hi
    → (hi ≤ lo' → Agree t t' places places' height lo' hi')
      × (hi' ≤ lo → Agree t t' places places' height lo' hi')
After-Agree t t' places places' height lo hi lo' hi' a = (
  λ d. record {
    pages = λ q g w. a.pages q g (ground arith);
    same = λ q g w. a.same q g (ground arith);
    more = a.more;
    cap = a.cap;
    leaf_max = a.leaf_max;
    internal_max = a.internal_max;
  },
  λ d. record {
    pages = λ q g w. a.pages q g (ground arith);
    same = λ q g w. a.same q g (ground arith);
    more = a.more;
    cap = a.cap;
    leaf_max = a.leaf_max;
    internal_max = a.internal_max;
  },
)

-- A row of sound children with the keys between them.
pub record Row (t : BPlusTree) (places : Places) (height lo hi : ℕ) (p : InternalPage)
    : Type 0 where
  pub rising : IsSorted p.key_array_ 1 p.size_
  pub above : (i : ℕ) → 0 < i → i < p.size_ → lo < order (p.key_array_ i)
  pub below : (i : ℕ) → 0 < i → i < p.size_ → order (p.key_array_ i) < hi
  pub kids :
      (i : ℕ) → i < p.size_ → Sound t places height (low p lo i) (high p hi i) (p.page_id_array_ i)

pub BranchAt-Row :
    (t : BPlusTree) (places : Places) (height lo hi id : ℕ) (p : InternalPage)
    → BranchAt t places (suc height) lo hi id p
    → ((i : ℕ)
        → i < p.size_
        → Sound t places height (low p lo i) (high p hi i) (p.page_id_array_ i))
    → Row t places height lo hi p
BranchAt-Row t places height lo hi id p v kids = record {
  rising = v.rising;
  above = v.above;
  below = v.below;
  kids = kids;
}

module _ (t t' : BPlusTree) (places places' : Places) (height lo hi : ℕ) (whole : InternalPage)
    (row : Row t places height lo hi whole) (inside : lo < hi)
    (agree : Agree t t' places places' height lo hi) where
  pub row_bounds :
      (i : ℕ)
      → i < whole.size_
      → (lo ≤ low whole lo i) × (high whole hi i ≤ hi) × (low whole lo i < high whole hi i)
  row_bounds i a = (
    ground (arith, row.above i),
    ground (arith, row.below (i + 1)),
    ground (arith, row.above i, row.above (i + 1), row.below i, row.rising i (i + 1)),
  )

  pub kid-Agree :
      (i : ℕ)
      → i < whole.size_
      → Agree t t' places places' height (low whole lo i) (high whole hi i)
  kid-Agree i a =
      let b = row_bounds i a in
      Agree-smaller t t' places places' height lo hi height _ _ (omega arith) b.0 b.1 agree

  module _ (id : ℕ) (p : InternalPage) (m lo' hi' : ℕ) (part : Part whole p m)
      (low_eq : lo' ≡ low whole lo m) (high_eq : hi' ≡ high whole hi (m + p.size_ - 1))
      (page : t'.pages_ id ≡ internal_page p) where
    kid_low : (i : ℕ) → i < p.size_ → low p lo' i ≡ low whole lo (m + i)
    kid_low i a = ground (arith, low_eq, part.keys i)

    kid_high : (i : ℕ) → i < p.size_ → high p hi' i ≡ high whole hi (m + i)
    kid_high i a = ground (arith, high_eq, part.keys (i + 1), part.size)

    piece_kid :
        (i : ℕ)
        → i < p.size_
        → Sound t' places' height (low p lo' i) (high p hi' i) (p.page_id_array_ i)
    piece_kid i a =
        rw (kid_low i a, kid_high i a, part.children i a)
          (Sound-Agree t t' places places' height _ _ _
            (row_bounds (m + i) (omega (arith, part.size))).2
            (kid-Agree (m + i) (omega (arith, part.size)))
            (row.kids (m + i) (omega (arith, part.size))))

    -- The page is sound over its part of the children.
    pub piece-Sound :
        id < t'.next_page_id_
        → places'.spot id ≡ place (suc height) lo' hi'
        → p.size_ ≤ places'.cap
        → p.max_size_ ≡ t'.internal_max_size_
        → Sound t' places' (suc height) lo' hi' id
    piece-Sound given here fits max = (
      p,
      record {
        page = page;
        given = given;
        here = here;
        used = part.used;
        rising = Part-IsSorted whole p m part row.rising;
        above = λ i a b.
            ground (arith, low_eq, part.keys i, part.size, row.above (m + i), row.rising m (m + i));
        below = λ i a b. ground (
          arith,
          high_eq,
          part.keys i,
          part.size,
          row.below (m + i),
          row.rising (m + i) (m + p.size_),
        );
        fits = fits;
        max = max;
      },
      piece_kid,
    )

    -- A key of the part is found where the row has it.
    pub piece-find :
        (q : IntegerKey) (i : ℕ)
        → Routes whole q i
        → m ≤ i
        → i < m + p.size_
        → lo ≤ order q
        → order q < hi
        → find t' (suc height) id q ≡ find t height (whole.page_id_array_ i) q
    piece-find q i r a b c d =
        let e = Part-route whole p m part row.rising q i a b r in
        let same : p.page_id_array_ (route p q) ≡ whole.page_id_array_ i =
          part.children (route p q) (omega (arith, e)) ∙ ap whole.page_id_array_ e in
        rw (page, same)
          (find-Agree t t' places places' height _ _ _ (row_bounds i r.0).2 (kid-Agree i r.0)
            (row.kids i r.0) q (ground (arith, r.1 i)) (ground (arith, r.2 (i + 1))))
