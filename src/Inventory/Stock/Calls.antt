-- ===== src/Inventory/Stock/Calls.antt =====
-- Calls over the database: they return or throw, and leave the state as they have made it. The rules
-- prove what a chain of calls has done when it returns.
use stock_mgt.Prelude.{◌≡◌, refl, ap, Option, none, some, arith}
use stock_mgt.Prelude.Result.{Result, ok, err, Error}

-- A call: it returns or throws, and leaves the state as it has made it.
abbrev pub Action : Type 0 → Type 0 → Type 0
Action Db A = Db → Result A × Db

module _ {Db : Type 0} where
  abbrev pub pure : {A : Type 0} → A → Action Db A
  pure a d = (ok a, d)

  abbrev pub lift : {A : Type 0} → Result A → Action Db A
  lift r d = (r, d)

  abbrev pub gets : {A : Type 0} → (Db → A) → Action Db A
  gets f d = (ok (f d), d)

  -- a write that fails with a unique violation
  abbrev pub insert_or_throw : (Db → Option Db) → Action Db (Unit {0})
  insert_or_throw f d = elim (f d) [ none ↦ (err Error.unique, d) | some d' ↦ (ok tt, d') ]

  infixl 5 ◌>>=◌ ◌>>◌
  unfoldable pub ◌>>=◌ : {A B : Type 0} → Action Db A → (A → Action Db B) → Action Db B
  ◌>>=◌ m f d = let (r, d') = m d in elim r [ ok a ↦ f a d' | err e ↦ (err e, d') ]

  abbrev pub ◌>>◌ : {B : Type 0} → Action Db (Unit {0}) → Action Db B → Action Db B
  m >> k = m >>= λ _. k

  -- `$transaction`: what a call that throws has written is undone.
  unfoldable pub transaction : {A : Type 0} → Action Db A → Action Db A
  transaction m d = let (r, d') = m d in elim r [ ok a ↦ (ok a, d') | err e ↦ (err e, d) ]

  -- What holds of the value and the state, if the call returns.
  pub data Done {A : Type 0} (P : A → Db → Type 0) : Result A × Db → Type 0 where
    returned : (a : A) (d' : Db) → P a d' → Done P (ok a, d')
    threw : (e : Error) (d' : Db) → Done P (err e, d')

  pub Done-eq :
      {A : Type 0} {P : A → Db → Type 0} {x : Result A × Db} (a : A) (d' : Db)
      → Done P x
      → x ≡ (ok a, d')
      → P a d'
  Done-eq {P = P} a d' (Done.returned b d2 h) e = ground arith
  Done-eq a d' (Done.threw x d2) e = cc

  -- The rule for a chain of calls.
  after :
      {A B : Type 0} {P : A → Db → Type 0} {Q : B → Db → Type 0} (f : A → Action Db B)
      (x : Result A × Db)
      → Done P x
      → ((a : A) (d' : Db) → P a d' → Done Q (f a d'))
      → Done Q (elim x.0 [ ok a ↦ f a x.1 | err e ↦ (err e, x.1) ])
  after f x (Done.returned a d' h) k = k a d' h
  after f x (Done.threw e d') k = Done.threw e d'

  pub Done->>= :
      {A B : Type 0} (P : A → Db → Type 0) {Q : B → Db → Type 0} (m : Action Db A)
      (f : A → Action Db B) (d : Db)
      → Done P (m d)
      → ((a : A) (d' : Db) → P a d' → Done Q (f a d'))
      → Done Q ((m >>= f) d)
  unfolding ◌>>=◌
  Done->>= P {Q} m f d h k = after f (m d) h k

  -- A check leaves the state, and hands on what it returned.
  abbrev pub Checked : {A : Type 0} → Result A → Db → A → Db → Type 0
  Checked r d a d' = (d' ≡ d) × (r ≡ ok a)

  pub lift-Checked : {A : Type 0} (r : Result A) (d : Db) → Done (Checked r d) (lift r d)
  lift-Checked (ok a) d = Done.returned a d (refl, refl)
  lift-Checked (err e) d = Done.threw e d

  pub Done-map :
      {A : Type 0} {P Q : A → Db → Type 0} (x : Result A × Db)
      → ((a : A) (d' : Db) → P a d' → Q a d')
      → Done P x
      → Done Q x
  Done-map x f (Done.returned a d' h) = Done.returned a d' (f a d' h)
  Done-map x f (Done.threw e d') = Done.threw e d'

  pub Done-both :
      {A : Type 0} {P Q : A → Db → Type 0} (x : Result A × Db)
      → Done P x
      → Done Q x
      → Done (λ a d'. P a d' × Q a d') x
  Done-both x (Done.returned a d' p) h = Done.returned a d' (p, Done-eq a d' h refl)
  Done-both x (Done.threw e d') h = Done.threw e d'

  -- What holds anyway.
  pub Done-anyway : {A : Type 0} {C : Type 0} → C → (x : Result A × Db) → Done (λ _ _. C) x
  Done-anyway c (ok a, d') = Done.returned a d' c
  Done-anyway c (err e, d') = Done.threw e d'

  -- A call as a whole: what it returned, and the state that it left.
  pub Done-self :
      {A : Type 0} (d : Db) (x : Result A × Db)
      → Done (λ _ d'. d' ≡ d) x
      → Done (λ a d'. (d' ≡ d) × (x ≡ (ok a, d))) x
  Done-self d x (Done.returned a d' e) = Done.returned a d' (e, ap (λ d2. (ok a, d2)) e)
  Done-self d x (Done.threw e d') = Done.threw e d'

  -- A transaction that returns has done what its call does.
  pub transaction-Done :
      {A : Type 0} {P : A → Db → Type 0} (m : Action Db A) (d : Db)
      → Done P (m d)
      → Done P (transaction m d)
  unfolding transaction
  transaction-Done {A} {P} m d done = go (m d) done
    where
      go :
          (x : Result A × Db)
          → Done P x
          → Done P (elim x.0 [ ok a ↦ (ok a, x.1) | err e ↦ (err e, d) ])
      go x (Done.returned a d' p) = Done.returned a d' p
      go x (Done.threw e d') = Done.threw e d

  -- One step of a chain, forwards.
  then_do : {A B : Type 0} → (A → Action Db B) → Result A × Db → Result B × Db
  then_do f x = elim x.0 [ ok a ↦ f a x.1 | err e ↦ (err e, x.1) ]

  pub >>=-eq_of_ok :
      {A B : Type 0} (m : Action Db A) (f : A → Action Db B) {a : A} (d : Db) {d' : Db}
      → m d ≡ (ok a, d')
      → (m >>= f) d ≡ f a d'
  unfolding ◌>>=◌ then_do
  >>=-eq_of_ok m f d e = ap (then_do f) e

  pub >>=-eq_of_err :
      {A B : Type 0} (m : Action Db A) (f : A → Action Db B) {x : Error} (d : Db) {d' : Db}
      → m d ≡ (err x, d')
      → (m >>= f) d ≡ (err x, d')
  unfolding ◌>>=◌ then_do
  >>=-eq_of_err m f d e = ap (then_do f) e
