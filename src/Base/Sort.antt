-- ===== src/Base/Sort.antt =====
-- `ORDER BY`: a stable insertion sort by a Boolean order, with its two laws.
use mathlib.Core.Path.{◌≡◌, refl, sym, subst, ◌∙◌}
use mathlib.Core.Logic.{inl, inr}
use mathlib.Core.Bool.{Bool, true, false}
use mathlib.Core.List.{List, [], ◌∷◌, Perm, head?}
use mathlib.Core.Option.{some, none}
use native.Mathlib.Omega.{arith}
use mathlib.Core.List.Perm
use vrtc.Base.Tests.{if◌then◌else◌, Bool-cases}
use vrtc.Base.Lists.{All, select, In, All-In, All-of_In}

module _ {A : Type 0} (le : A → A → Bool) where
  unfoldable pub insert_by : A → List A → List A
  insert_by a [] = a ∷ []
  insert_by a (x ∷ xs) = if le a x then a ∷ x ∷ xs else x ∷ insert_by a xs

  unfoldable pub sort_by : List A → List A
  unfolding insert_by
  sort_by [] = []
  sort_by (x ∷ xs) = insert_by x (sort_by xs)

  abbrev pub Sorted : List A → Type 0
  Sorted [] = Unit
  Sorted (x ∷ xs) = All (λ y. le x y ≡ true) xs × Sorted xs

  insert_by-perm : (a : A) (xs : List A) → Perm (insert_by a xs) (a ∷ xs)
  unfolding insert_by
  insert_by-perm a [] = Perm.refl _
  insert_by-perm a (x ∷ xs) = elim (Bool-cases (le a x)) [
    | inl e ↦ rw e (Perm.refl _)
    | inr e ↦ rw e (Perm.trans (Perm.cons x (insert_by-perm a xs)) (Perm.swap a x xs))
  ]

  -- A sorted list has the rows that it was made of.
  pub sort_by-perm : (xs : List A) → Perm (sort_by xs) xs
  unfolding sort_by
  sort_by-perm [] = Perm.refl _
  sort_by-perm (x ∷ xs) = Perm.trans (insert_by-perm x (sort_by xs)) (Perm.cons x (sort_by-perm xs))

  pub All-insert_by {κ} :
      (P : A → Type κ) (a : A) (xs : List A) → P a → All P xs → All P (insert_by a xs)
  unfolding insert_by
  All-insert_by P a [] h hs = (h, tt)
  All-insert_by P a (x ∷ xs) h hs = elim (Bool-cases (le a x)) [
    | inl e ↦ rw e (h, hs)
    | inr e ↦ rw e (hs.0, All-insert_by P a xs h hs.1)
  ]

  pub All-sort_by {κ} : (P : A → Type κ) (xs : List A) → All P xs → All P (sort_by xs)
  unfolding sort_by
  All-sort_by P [] h = tt
  All-sort_by P (x ∷ xs) h = All-insert_by P x (sort_by xs) h.0 (All-sort_by P xs h.1)

  insert_by-In : (a x : A) (xs : List A) → In a (x ∷ xs) → In a (insert_by x xs)
  unfolding insert_by
  insert_by-In a x [] i = i
  insert_by-In a x (y ∷ ys) i = elim (Bool-cases (le x y)) [
    | inl e ↦ rw e i
    | inr e ↦ rw e (elim i [
      | inl here ↦ inr (insert_by-In a x ys (inl here))
      | inr later ↦ elim later [
        | inl here ↦ inl here
        | inr last ↦ inr (insert_by-In a x ys (inr last))
      ]
    ])
  ]

  pub In-sort_by : (a : A) (xs : List A) → In a xs → In a (sort_by xs)
  unfolding sort_by
  In-sort_by a [] i = i
  In-sort_by a (x ∷ xs) (inl here) = insert_by-In a x (sort_by xs) (inl here)
  In-sort_by a (x ∷ xs) (inr later) = insert_by-In a x (sort_by xs) (inr (In-sort_by a xs later))

  pub In-of_sort_by : (a : A) (xs : List A) → In a (sort_by xs) → In a xs
  In-of_sort_by a xs =
      All-In (λ y. In y xs) (sort_by xs) a
        (All-sort_by (λ y. In y xs) xs (All-of_In (λ y. In y xs) xs (λ y i. i)))

  module _ (total : (a b : A) → le a b ≡ false → le b a ≡ true)
      (trans : (a b c : A) → le a b ≡ true → le b c ≡ true → le a c ≡ true) where
    below :
        (a x : A) (xs : List A)
        → le a x ≡ true
        → All (λ y. le x y ≡ true) xs
        → All (λ y. le a y ≡ true) xs
    below a x [] h hs = tt
    below a x (y ∷ ys) h hs = (trans a x y h hs.0, below a x ys h hs.1)

    insert_by-Sorted : (a : A) (xs : List A) → Sorted xs → Sorted (insert_by a xs)
    unfolding insert_by
    insert_by-Sorted a [] h = (tt, tt)
    insert_by-Sorted a (x ∷ xs) h = elim (Bool-cases (le a x)) [
      | inl e ↦ rw e ((e, below a x xs e h.0), h)
      | inr e ↦
          rw e
            (All-insert_by (λ y. le x y ≡ true) a xs (total a x e) h.0, insert_by-Sorted a xs h.1)
    ]

    -- Each row is in order with all the rows behind it.
    pub sort_by-Sorted : (xs : List A) → Sorted (sort_by xs)
    unfolding sort_by
    sort_by-Sorted [] = tt
    sort_by-Sorted (x ∷ xs) = insert_by-Sorted x (sort_by xs) (sort_by-Sorted xs)

    select-below : (p : A → Bool) (P : A → Type 0) (xs : List A) → All P xs → All P (select p xs)
    select-below p P [] h = tt
    select-below p P (x ∷ xs) h = elim (Bool-cases (p x)) [
      | inl e ↦ rw e (h.0, select-below p P xs h.1)
      | inr e ↦ rw e (select-below p P xs h.1)
    ]

    insert_by-least : (a : A) (xs : List A) → All (λ y. le a y ≡ true) xs → insert_by a xs ≡ a ∷ xs
    unfolding insert_by
    insert_by-least a [] h = refl
    insert_by-least a (x ∷ xs) h = rw h.0

    select-insert_by :
        (p : A → Bool) (a : A) (xs : List A)
        → Sorted xs
        → select p (insert_by a xs) ≡ (if p a then insert_by a (select p xs) else select p xs)
    unfolding insert_by
    select-insert_by p a [] s = refl
    select-insert_by p a (x ∷ xs) s = elim (Bool-cases (le a x)) [
      | inl e ↦ elim (Bool-cases (p a)) [
        | inl t ↦
            rw (e, t)
              (sym (
                insert_by-least a (select p (x ∷ xs))
                  (select-below p (λ y. le a y ≡ true) (x ∷ xs) (e, below a x xs e s.0))))
        | inr t ↦ rw (e, t)
      ]
      | inr e ↦ elim (Bool-cases (p x)) [
        | inl t ↦ elim (Bool-cases (p a)) [
          | inl u ↦ rw (e, t, u) (rw (select-insert_by p a xs s.1, u, e))
          | inr u ↦ rw (e, t, u) (rw (select-insert_by p a xs s.1, u))
        ]
        | inr t ↦ rw (e, t) (select-insert_by p a xs s.1)
      ]
    ]

    -- To filter a sorted table is to sort the filtered one.
    pub select-sort_by :
        (p : A → Bool) (xs : List A) → select p (sort_by xs) ≡ sort_by (select p xs)
    unfolding sort_by
    select-sort_by p [] = refl
    select-sort_by p (x ∷ xs) =
        select-insert_by p x (sort_by xs) (sort_by-Sorted xs) ∙ (elim (Bool-cases (p x)) [
          | inl t ↦ rw (t, select-sort_by p xs)
          | inr t ↦ rw (t, select-sort_by p xs)
        ])

    reflexive : (a : A) → le a a ≡ true
    reflexive a = elim (Bool-cases (le a a)) [ inl e ↦ e | inr e ↦ total a a e ]

    head-least : (a : A) (xs : List A) → Sorted xs → head? xs ≡ some a → All (λ y. le a y ≡ true) xs
    head-least a [] s h = tt
    head-least a (x ∷ xs) s h =
        let e : x ≡ a = ground arith in
        subst (λ b. All (λ y. le b y ≡ true) (x ∷ xs)) e (reflexive x, s.0)

    -- `ORDER BY … LIMIT 1`: the row is one of the table, and none comes before it.
    pub head-sort_by :
        (a : A) (xs : List A)
        → head? (sort_by xs) ≡ some a
        → In a xs × ((y : A) → In y xs → le a y ≡ true)
    head-sort_by a xs h = (
      In-of_sort_by a xs (head-In (sort_by xs) h),
      λ y i.
          All-In (λ z. le a z ≡ true) (sort_by xs) y
            (head-least a (sort_by xs) (sort_by-Sorted xs) h) (In-sort_by y xs i),
    )
      where
        head-In : (ys : List A) → head? ys ≡ some a → In a ys
        head-In [] e = cc
        head-In (y ∷ ys) e = inl (ground arith)

    -- There is none only in an empty table.
    pub head-sort_by-none : (xs : List A) → head? (sort_by xs) ≡ none → xs ≡ []
    unfolding sort_by
    head-sort_by-none [] h = refl
    head-sort_by-none (x ∷ xs) h = absurd (go _ (In-sort_by x (x ∷ xs) (inl refl)) h)
      where
        go : (ys : List A) → In x ys → head? ys ≡ none → ⊥
        go [] i e = i
        go (y ∷ ys) i e = cc
