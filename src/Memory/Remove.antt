-- ===== src/Memory/Remove.antt =====
-- The list that is left when `list_remove` has taken a page out of it.
use team_os_3_0_baios.Base.{
  ℕ, ◌≡◌, ◌≢◌, refl, List, [], ◌∷◌, ◌++◌, Option, none, some, sym, ap, subst, ◌∙◌,
}
use team_os_3_0_baios.Memory.{Page, list_remove, unlink_next}
use team_os_3_0_baios.Memory.Chain.{Linked, Absent, Distinct, IsChain}
use team_os_3_0_baios.Memory.Unlink.{
  Off, some-Off, Absent-split, Distinct-drop, Unlinks, list_remove-Unlinks,
}

-- Where the list starts once `p` is out: at the page after it, if it was the first.
abbrev start : (ℕ → Page) → ℕ → List ℕ → Option ℕ → Option ℕ
start pages p [] cur = (pages p).next
start pages p (x ∷ xs) cur = cur

module _ (pages : ℕ → Page) (p : ℕ) where
  -- No page of the list is one that is absent from it.
  first-Off :
      (before cur : Option ℕ) (ys : List ℕ) (z : ℕ)
      → Linked pages before cur ys
      → Absent z ys
      → cur ≢ some z
  first-Off before cur [] z e a = λ h. absurd (cc (e, h))
  first-Off before cur (y ∷ ys) z (e, f, l) (n, a) = λ h. n (cc (e, h))

  before_p :
      (before cur : Option ℕ) (xs ys : List ℕ) (z : ℕ)
      → Linked pages before cur (xs ++ (p ∷ ys))
      → before ≢ some z
      → Absent z xs
      → (pages p).prev ≢ some z
  before_p before cur [] ys z (e, f, l) n a = λ h. n (sym f ∙ h)
  before_p before cur (x ∷ xs) ys z (e, f, l) n (m, a) =
      before_p (some x) (pages x).next xs ys z l (λ h. m (cc h)) a

  after_p :
      (before cur : Option ℕ) (xs ys : List ℕ)
      → Linked pages before cur (xs ++ (p ∷ ys))
      → Linked pages (some p) (pages p).next ys
  after_p before cur [] ys l = l.2
  after_p before cur (x ∷ xs) ys l = after_p (some x) (pages x).next xs ys l.2

  module _ (F : ℕ → Page) (u : Unlinks F pages p) where
    -- Pages away from `p` keep their links.
    keep :
        (before cur : Option ℕ) (zs : List ℕ)
        → Absent p zs
        → Off (pages p).prev zs
        → Off (pages p).next zs
        → Linked pages before cur zs
        → Linked F before cur zs
    keep before cur [] a b c l = l
    keep before cur (z ∷ zs) (n, a) (b, bs) (c, cs) (e, f, l) = (
      e,
      u.prev_off z n c ∙ f,
      subst (λ q. Linked F (some z) q zs) (sym (u.next_off z n b))
          (keep (some z) (pages z).next zs a bs cs l),
    )

    -- The page after `p`, and what follows.
    tail_lem :
        (before : Option ℕ) (ys : List ℕ)
        → (pages p).prev ≡ before
        → Absent p ys
        → Distinct ys
        → Off before ys
        → Linked pages (some p) (pages p).next ys
        → Linked F before (pages p).next ys
    tail_lem before [] f a d o l = l
    tail_lem before (y ∷ ys) f (n, a) (b, d) (m, o) (g, k, l) = (
      g,
      u.prev_at y n g ∙ f,
      subst (λ q. Linked F (some y) q ys) (sym (u.next_off y n (λ h. m (sym f ∙ h))))
          (keep (some y) (pages y).next ys a (subst (λ q. Off q ys) (sym f) o)
            (some-Off (pages p).next y ys g b) l),
    )

    -- The link out of a page before `p`.
    next_lem :
        (x : ℕ) (xs ys : List ℕ)
        → x ≢ p
        → Absent x xs
        → Linked pages (some x) (pages x).next (xs ++ (p ∷ ys))
        → (F x).next ≡ start pages p xs (pages x).next
    next_lem x [] ys n a (e, f, l) = u.next_at x (λ h. n (sym h)) f
    next_lem x (w ∷ xs) ys n (m, a) (e, f, l) =
        u.next_off x (λ h. n (sym h)) (before_p (some w) (pages w).next xs ys x l (λ h. m (cc h)) a)

    skip :
        (before cur : Option ℕ) (xs ys : List ℕ)
        → Linked pages before cur (xs ++ (p ∷ ys))
        → Distinct (xs ++ (p ∷ ys))
        → Off before (xs ++ (p ∷ ys))
        → Linked F before (start pages p xs cur) (xs ++ ys)
    skip before cur [] ys (e, f, l) (a, d) (m, o) = tail_lem before ys f a d o l
    skip before cur (x ∷ xs) ys (e, f, l) (a, d) (m, o) =
        let (b, n, c) = Absent-split x p xs ys a in
        let after = after_p (some x) (pages x).next xs ys l in
        (
          e,
          u.prev_off x (λ h. n (sym h)) (first-Off (some p) (pages p).next ys x after c) ∙ f,
          subst (λ q. Linked F (some x) q (xs ++ ys)) (sym (next_lem x xs ys n b l))
              (skip (some x) (pages x).next xs ys l d
                (some-Off (some x) x (xs ++ (p ∷ ys)) refl a)),
        )

none-Off : (zs : List ℕ) → Off none zs
none-Off [] = tt
none-Off (z ∷ zs) = (λ e. cc e, none-Off zs)

Distinct-Absent : (p : ℕ) (xs ys : List ℕ) → Distinct (xs ++ (p ∷ ys)) → Absent p xs
Distinct-Absent p [] ys d = tt
Distinct-Absent p (x ∷ xs) ys (a, d) =
    let (b, n, c) = Absent-split x p xs ys a in (λ h. n (sym h), Distinct-Absent p xs ys d)

-- A page that is not the first has a page before it.
has_before :
    (pages : ℕ → Page) (p b : ℕ) (cur : Option ℕ) (xs ys : List ℕ)
    → Linked pages (some b) cur (xs ++ (p ∷ ys))
    → (w : ℕ) × ((pages p).prev ≡ some w)
has_before pages p b cur [] ys l = (b, l.1)
has_before pages p b cur (x ∷ xs) ys l = has_before pages p x (pages x).next xs ys l.2

-- The head that `list_remove` writes.
list_remove-start :
    (pages : ℕ → Page) (head : Option ℕ) (p : ℕ) (xs ys : List ℕ)
    → Linked pages none head (xs ++ (p ∷ ys))
    → (list_remove pages head p).1 ≡ start pages p xs head
unfolding list_remove
list_remove-start pages head p [] ys l = ap (λ b. (unlink_next pages head p b).1) l.1
list_remove-start pages head p (x ∷ xs) ys l =
    ap (λ b. (unlink_next pages head p b).1) (has_before pages p x (pages x).next xs ys l.2).1

-- `list_remove` of a page of a free list, wherever it stands, leaves the doubly linked list of the
-- other pages in their order.
pub list_remove-IsChain :
    (pages : ℕ → Page) (head : Option ℕ) (p : ℕ) (xs ys : List ℕ)
    → IsChain pages head (xs ++ (p ∷ ys))
    → let (pages', head') = list_remove pages head p in IsChain pages' head' (xs ++ ys)
list_remove-IsChain pages head p xs ys (l, d) =
    let u =
      list_remove-Unlinks pages head p
        (before_p pages p none head xs ys p l (λ e. cc e) (Distinct-Absent p xs ys d)) in
    (
      subst (λ cur. Linked (list_remove pages head p).0 none cur (xs ++ ys))
          (sym (list_remove-start pages head p xs ys l))
          (skip pages p (list_remove pages head p).0 u none head xs ys l d
            (none-Off (xs ++ (p ∷ ys)))),
      Distinct-drop p xs ys d,
    )
