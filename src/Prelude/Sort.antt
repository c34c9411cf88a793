-- ===== src/Prelude/Sort.antt =====
-- `Array.prototype.sort`: a stable sort by a comparator, here `lt a b` for "a stands before b".
use mathlib.Core.List.{Perm}
use mathlib.Core.List.Perm
use stock_mgt.Prelude.{
  ℕ, ◌+◌, ◌≡◌, refl, Bool, true, false, List, [], ◌∷◌, arith, if◌then◌else◌, Bool-cases, inl, inr,
}
use stock_mgt.Prelude.Lists.{All, sum_by}

module _ {ℓ} {A : Type ℓ} (lt : A → A → Bool) where
  -- Behind everything that stands before it.
  unfoldable pub insert_sorted : A → List A → List A
  insert_sorted a [] = a ∷ []
  insert_sorted a (b ∷ bs) = if lt b a then b ∷ insert_sorted a bs else a ∷ b ∷ bs

  unfoldable pub sort : List A → List A
  unfolding insert_sorted
  sort [] = []
  sort (a ∷ rest) = insert_sorted a (sort rest)

  -- What a comparator must satisfy for the order to be well defined.
  pub record IsOrder : Type ℓ where
    pub asym : (a b : A) → lt a b ≡ true → lt b a ≡ false
    pub le_trans : (a b c : A) → lt b a ≡ false → lt c b ≡ false → lt c a ≡ false

  -- No later element stands before an earlier one.
  abbrev pub IsSorted : List A → Type ℓ
  IsSorted [] = Unit
  IsSorted (a ∷ rest) = All (λ b. lt b a ≡ false) rest × IsSorted rest

module _ {ℓ} {A : Type ℓ} (lt : A → A → Bool) where
  insert_sorted-perm : (a : A) (bs : List A) → Perm (insert_sorted lt a bs) (a ∷ bs)
  unfolding insert_sorted
  insert_sorted-perm a [] = Perm.refl _
  insert_sorted-perm a (b ∷ bs) = elim (Bool-cases (lt b a)) [
    | inl e ↦ rw e (Perm.trans (Perm.cons b (insert_sorted-perm a bs)) (Perm.swap a b bs))
    | inr e ↦ rw e (Perm.refl _)
  ]

  -- The sorted array is a rearrangement of the given one.
  pub sort-perm : (xs : List A) → Perm (sort lt xs) xs
  unfolding sort
  sort-perm [] = Perm.refl _
  sort-perm (a ∷ rest) =
      Perm.trans (insert_sorted-perm a (sort lt rest)) (Perm.cons a (sort-perm rest))

  sum_by-insert_sorted :
      (f : A → ℕ) (a : A) (bs : List A) → sum_by f (insert_sorted lt a bs) ≡ f a + sum_by f bs
  unfolding insert_sorted
  sum_by-insert_sorted f a [] = refl
  sum_by-insert_sorted f a (b ∷ bs) = ground (arith, sum_by-insert_sorted f a bs)

  pub sum_by-sort : (f : A → ℕ) (xs : List A) → sum_by f (sort lt xs) ≡ sum_by f xs
  unfolding sort
  sum_by-sort f [] = refl
  sum_by-sort f (a ∷ rest) =
      omega (arith, sum_by-insert_sorted f a (sort lt rest), sum_by-sort f rest)

  All-insert_sorted {κ} :
      (P : A → Type κ) (a : A) (bs : List A) → P a → All P bs → All P (insert_sorted lt a bs)
  unfolding insert_sorted
  All-insert_sorted P a [] p h = (p, tt)
  All-insert_sorted P a (b ∷ bs) p (q, h) = elim (Bool-cases (lt b a)) [
    | inl e ↦ rw e (q, All-insert_sorted P a bs p h)
    | inr e ↦ rw e (p, (q, h))
  ]

  pub All-sort {κ} : (P : A → Type κ) (xs : List A) → All P xs → All P (sort lt xs)
  unfolding sort
  All-sort P [] h = tt
  All-sort P (a ∷ rest) (p, h) = All-insert_sorted P a (sort lt rest) p (All-sort P rest h)

  module _ (order : IsOrder lt) where
    All-later :
        (a b : A) (cs : List A)
        → lt b a ≡ false
        → All (λ c. lt c b ≡ false) cs
        → All (λ c. lt c a ≡ false) cs
    All-later a b [] e h = tt
    All-later a b (c ∷ cs) e (p, h) = (order.le_trans a b c e p, All-later a b cs e h)

    insert_sorted-IsSorted :
        (a : A) (bs : List A) → IsSorted lt bs → IsSorted lt (insert_sorted lt a bs)
    unfolding insert_sorted
    insert_sorted-IsSorted a [] h = (tt, tt)
    insert_sorted-IsSorted a (b ∷ bs) (p, h) = elim (Bool-cases (lt b a)) [
      | inl e ↦ rw e (
        All-insert_sorted (λ c. lt c b ≡ false) a bs (order.asym b a e) p,
        insert_sorted-IsSorted a bs h,
      )
      | inr e ↦ rw e ((e, All-later a b bs e p), (p, h))
    ]

    pub sort-IsSorted : (xs : List A) → IsSorted lt (sort lt xs)
    unfolding sort
    sort-IsSorted [] = tt
    sort-IsSorted (a ∷ rest) = insert_sorted-IsSorted a (sort lt rest) (sort-IsSorted rest)
