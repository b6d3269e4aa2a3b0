-- ===== src/Insertion/Leaves.antt =====
-- The chain of the leaves through `next_page_id_`, from the first leaf of a subtree on.
use bicycletub.Common.{
  ℕ, zero, suc, ◌+◌, ◌<◌, ◌≡◌, subst, refl, arith, Bool-cases, inl, inr, ltb, if◌then◌else◌,
}
use bicycletub.Tree.{Page, leaf_page, internal_page, LeafPage, InternalPage}
use bicycletub.Insertion.{BPlusTree}

abbrev pub children : Page → ℕ
children (internal_page p) = p.size_
children (leaf_page p) = 0

abbrev pub child_at : Page → ℕ → ℕ
child_at (internal_page p) i = p.page_id_array_ i
child_at (leaf_page p) i = 0

-- The first leaf of the subtree.
abbrev pub first : BPlusTree → ℕ → ℕ → ℕ
first t zero id = id
first t (suc height) id = first t height (child_at (t.pages_ id) 0)

-- A leaf with an entry, that names `next` as the leaf behind it.
abbrev pub LeafLink : Page → ℕ → Type 0
LeafLink (leaf_page p) next = (0 < p.size_) × (p.next_page_id_ ≡ next)
LeafLink (internal_page p) next = ⊥

-- The first leaf behind the child `i`, when `next` is the one behind the page.
abbrev pub next_first : BPlusTree → ℕ → ℕ → (ℕ → ℕ) → ℕ → ℕ → ℕ
next_first t height n child next i = if ltb (i + 1) n then first t height (child (i + 1)) else next

pub next_first-same :
    (t t' : BPlusTree) (height n : ℕ) (child : ℕ → ℕ) (next i : ℕ)
    → ((j : ℕ) → j < n → first t' height (child j) ≡ first t height (child j))
    → next_first t' height n child next i ≡ next_first t height n child next i
next_first-same t t' height n child next i firsts = elim (Bool-cases (ltb (i + 1) n)) [
  | inl c ↦ rw c (firsts (i + 1) (ground (arith, c)))
  | inr c ↦ rw c refl
]

-- Every leaf of the subtree has an entry and names the leaf behind it, the last one `next`.
abbrev pub Linked : BPlusTree → ℕ → ℕ → ℕ → Type 0
Linked t zero id next = LeafLink (t.pages_ id) next
Linked t (suc height) id next =
    (i : ℕ)
    → i < children (t.pages_ id)
    → Linked t height (child_at (t.pages_ id) i)
        (next_first t height (children (t.pages_ id)) (child_at (t.pages_ id)) next i)

-- The same of a row of children.
abbrev pub RowLinked : BPlusTree → ℕ → InternalPage → ℕ → Type 0
RowLinked t height p next =
    (i : ℕ)
    → i < p.size_
    → Linked t height (p.page_id_array_ i) (next_first t height p.size_ p.page_id_array_ next i)

-- Of an internal page, the two are the same.
pub Linked-row :
    (t : BPlusTree) (height id next : ℕ) (p : InternalPage)
    → t.pages_ id ≡ internal_page p
    → (Linked t (suc height) id next → RowLinked t height p next)
      × (RowLinked t height p next → Linked t (suc height) id next)
Linked-row t height id next p e = (
  subst
      (λ x.
        (i : ℕ)
        → i < children x
        → Linked t height (child_at x i) (next_first t height (children x) (child_at x) next i))
      e,
  λ row. rw e row,
)

-- Of a leaf, the link is that of the page.
pub LeafLink-page :
    (t : BPlusTree) (id next : ℕ) (p : LeafPage)
    → t.pages_ id ≡ leaf_page p
    → (LeafLink (t.pages_ id) next → (0 < p.size_) × (p.next_page_id_ ≡ next))
      × ((0 < p.size_) × (p.next_page_id_ ≡ next) → LeafLink (t.pages_ id) next)
LeafLink-page t id next p e = (subst (λ x. LeafLink x next) e, λ l. rw e l)
