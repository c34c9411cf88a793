-- ===== src/Prelude/Lists.antt =====
-- Lists over the native numbers: lengths, sums, filters and membership as the source's array methods
-- use them.
use stock_mgt.Prelude.{
  ℕ, suc, ◌+◌, ◌≡◌, refl, Bool, false, Option, none, some, List, [], ◌∷◌, ◌++◌, map, arith,
  if◌then◌else◌, ◌==◌, ◌||◌,
}
use stock_mgt.Prelude.Int.{ℤ, pos, ◌+ℤ◌, int_laws}

module _ {ℓ} {A : Type ℓ} where
  abbrev pub length : List A → ℕ
  length [] = 0
  length (x ∷ xs) = suc (length xs)

  -- `find`, `filter` and `some`, with a test into Bool.
  abbrev pub find : (A → Bool) → List A → Option A
  find p [] = none
  find p (x ∷ xs) = if p x then some x else find p xs

  abbrev pub select : (A → Bool) → List A → List A
  select p [] = []
  select p (x ∷ xs) = if p x then x ∷ select p xs else select p xs

  abbrev pub any : (A → Bool) → List A → Bool
  any p [] = false
  any p (x ∷ xs) = p x || any p xs

  -- `reduce((total, x) => total + f(x), 0)` of numbers, and of integers.
  abbrev pub sum_by : (A → ℕ) → List A → ℕ
  sum_by f [] = 0
  sum_by f (x ∷ xs) = f x + sum_by f xs

  abbrev pub sum_ℤ : (A → ℤ) → List A → ℤ
  sum_ℤ f [] = pos 0
  sum_ℤ f (x ∷ xs) = f x +ℤ sum_ℤ f xs

  abbrev pub All {κ} : (A → Type κ) → List A → Type κ
  All P [] = Unit
  All P (x ∷ xs) = P x × All P xs

  pub length-append : (xs ys : List A) → length (xs ++ ys) ≡ length xs + length ys
  length-append [] ys = omega arith
  length-append (x ∷ xs) ys = omega (arith, length-append xs ys)

  pub length-sum_by : (xs : List A) → length xs ≡ sum_by (λ x. 1) xs
  length-sum_by [] = refl
  length-sum_by (x ∷ xs) = omega (arith, length-sum_by xs)

  pub sum_by-append : (f : A → ℕ) (xs ys : List A) → sum_by f (xs ++ ys) ≡ sum_by f xs + sum_by f ys
  sum_by-append f [] ys = omega arith
  sum_by-append f (x ∷ xs) ys = omega (arith, sum_by-append f xs ys)

  pub sum_ℤ-append : (f : A → ℤ) (xs ys : List A) → sum_ℤ f (xs ++ ys) ≡ sum_ℤ f xs +ℤ sum_ℤ f ys
  sum_ℤ-append f [] ys = omega int_laws
  sum_ℤ-append f (x ∷ xs) ys = rw (sum_ℤ-append f xs ys) (omega int_laws)

  pub All-append {κ} : (P : A → Type κ) (xs ys : List A) → All P xs → All P ys → All P (xs ++ ys)
  All-append P [] ys h k = k
  All-append P (x ∷ xs) ys (p, h) k = (p, All-append P xs ys h k)

  pub All-split {κ} : (P : A → Type κ) (xs ys : List A) → All P (xs ++ ys) → All P xs × All P ys
  All-split P [] ys h = (tt, h)
  All-split P (x ∷ xs) ys (p, h) = let (left, right) = All-split P xs ys h in ((p, left), right)

  pub All-imp {κ ι} :
      {P : A → Type κ} {Q : A → Type ι}
      → ((x : A) → P x → Q x)
      → (xs : List A) → All P xs
      → All Q xs
  All-imp f [] h = tt
  All-imp f (x ∷ xs) (p, h) = (f x p, All-imp f xs h)

abbrev pub mem : ℕ → List ℕ → Bool
mem a [] = false
mem a (x ∷ xs) = (x == a) || mem a xs

pub length-map {ℓ κ} :
    {A : Type ℓ} {B : Type κ} (f : A → B) (xs : List A) → length (map f xs) ≡ length xs
length-map f [] = refl
length-map f (x ∷ xs) = omega (arith, length-map f xs)
