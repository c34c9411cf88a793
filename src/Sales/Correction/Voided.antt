-- ===== src/Sales/Correction/Voided.antt =====
-- Voiding one payment of a sale and recording another in its place
-- (src/modules/sales/sale-correction.service.ts): what is paid on the sale afterwards.
use stock_mgt.Prelude.{
  ℕ, ◌≡◌, refl, ◌∙◌, sym, ap, Bool, true, false, not, some, List, [], ◌∷◌, ◌++◌, arith, ◌==◌,
  ==_refl, if◌then◌else◌, Bool-cases, inl, inr,
}
use mathlib.Core.Path.{subst}
use stock_mgt.Prelude.Int.{ℤ, pos, ◌+ℤ◌, ◌≤ℤ◌, ltb_ℤ, int_laws, +ℤ_assoc, +ℤ_comm}
use stock_mgt.Prelude.Lists.{find, select, All, All-imp}
use stock_mgt.Prelude.Result.{ok, throw_if, Error, ◌>>◌}
use stock_mgt.Sales.Correction.{PaymentOnSale, live, paid}
use stock_mgt.Sales.Correction.Payments.{void, replacement, follow}

-- No two payments have one id.
abbrev pub AreDistinct : List PaymentOnSale → Type 0
AreDistinct [] = Unit
AreDistinct (p ∷ ps) = All (λ (q : PaymentOnSale). (q.id == p.id) ≡ false) ps × AreDistinct ps

-- A payment that is on this sale alone has nothing left over: all of it is allocated here.
abbrev pub AreWhole : List PaymentOnSale → Type 0
AreWhole = All (λ (p : PaymentOnSale). p.allocated_elsewhere ≡ false → p.amount ≡ p.allocated_here)

-- A live payment of the list: it is found by its id, and voiding it takes off just what it had here.
abbrev pub IsLive : List PaymentOnSale → PaymentOnSale → Type 0
IsLive all c =
    (find (λ (p : PaymentOnSale). p.id == c.id) all ≡ some c)
    × (c.voided ≡ false)
    × (paid (live (void c.id all)) +ℤ c.allocated_here ≡ paid (live all))

void-other :
    (id : ℕ) (ps : List PaymentOnSale)
    → All (λ (q : PaymentOnSale). (q.id == id) ≡ false) ps
    → void id ps ≡ ps
void-other id [] h = refl
void-other id (p ∷ ps) (this, h) = rw (this, void-other id ps h)

pub All-select :
    (P : PaymentOnSale → Type 0) (q : PaymentOnSale → Bool) (ps : List PaymentOnSale)
    → All P ps
    → All (λ p. P p × (q p ≡ true)) (select q ps)
All-select P q [] h = tt
All-select P q (p ∷ ps) (this, h) = elim (Bool-cases (q p)) [
  | inl e ↦ rw e ((this, e), All-select P q ps h)
  | inr e ↦ rw e (All-select P q ps h)
]

pub All-both :
    (P Q : PaymentOnSale → Type 0) (ps : List PaymentOnSale)
    → All P ps
    → All Q ps
    → All (λ p. P p × Q p) ps
All-both P Q [] h k = tt
All-both P Q (p ∷ ps) (h, hs) (k, ks) = ((h, k), All-both P Q ps hs ks)

different : (a b : ℕ) → (a == b) ≡ false → (b == a) ≡ false
different a b h = ground arith

-- One more payment in front.
later-IsLive :
    (x : PaymentOnSale) (ps : List PaymentOnSale) (c : PaymentOnSale)
    → (c.id == x.id) ≡ false
    → IsLive ps c
    → IsLive (x ∷ ps) c
later-IsLive x ps c apart (found, valid, taken_off) = elim (Bool-cases x.voided) [
  | inl e ↦ rw (different c.id x.id apart, e) (found, valid, taken_off)
  | inr e ↦
      rw (different c.id x.id apart, e)
        (found, valid, +ℤ_assoc _ _ _ ∙ ap (λ y. x.allocated_here +ℤ y) taken_off)
]

if_not : {A : Type 0} {b : Bool} (x y : A) → b ≡ false → (if not b then x else y) ≡ x
if_not x y h = rw h refl

if_not-true : {A : Type 0} {b : Bool} (x y : A) → b ≡ true → (if not b then x else y) ≡ y
if_not-true x y h = rw h refl

first-IsLive :
    (x : PaymentOnSale) (ps : List PaymentOnSale)
    → All (λ (q : PaymentOnSale). (q.id == x.id) ≡ false) ps
    → x.voided ≡ false
    → IsLive (x ∷ ps) x
first-IsLive x ps apart e =
    let alone : paid (live (void x.id (x ∷ ps))) ≡ paid (live ps) =
      rw (==_refl x.id, void-other x.id ps apart) refl in
    (
      rw (==_refl x.id) refl,
      e,
      ap (λ y. y +ℤ x.allocated_here) alone
          ∙ +ℤ_comm _ _
          ∙ ap paid (sym (if_not (x ∷ live ps) (live ps) e)),
    )

pub live-IsLive : (ps : List PaymentOnSale) → AreDistinct ps → All (IsLive ps) (live ps)
live-IsLive [] h = tt
live-IsLive (x ∷ ps) (apart, h) =
    let rest =
      All-imp (λ c (k : IsLive ps c × ((c.id == x.id) ≡ false)). later-IsLive x ps c k.1 k.0)
        (live ps)
        (All-both (IsLive ps) (λ c. (c.id == x.id) ≡ false) (live ps) (live-IsLive ps h)
          (All-imp (λ c k. k.0) (live ps) (All-select _ _ ps apart))) in
    elim (Bool-cases x.voided) [
      | inl e ↦ subst (All (IsLive (x ∷ ps))) (sym (if_not-true (x ∷ live ps) (live ps) e)) rest
      | inr e ↦
          subst (All (IsLive (x ∷ ps))) (sym (if_not (x ∷ live ps) (live ps) e))
            (first-IsLive x ps apart e, rest)
    ]

paid-replacement :
    (new_id : ℕ) (original : PaymentOnSale) (amount : ℤ) (ps : List PaymentOnSale)
    → pos 0 ≤ℤ amount
    → paid (live (replacement new_id original amount ++ ps)) ≡ amount +ℤ paid (live ps)
paid-replacement new_id original amount ps h = elim (Bool-cases (ltb_ℤ (pos 0) amount)) [
  | inl e ↦ rw e refl
  | inr e ↦
      let none_left : amount ≡ pos 0 = ground arith in
      rw e (sym (ap (λ y. y +ℤ paid (live ps)) none_left ∙ omega int_laws))
]

-- What follows a plan is written, and what is paid on the sale has changed by just as much as the
-- payment has.
pub follow-paid :
    (new_id : ℕ) (ps : List PaymentOnSale) (c : PaymentOnSale) (change amount : ℤ)
    → IsLive ps c
    → amount ≡ c.allocated_here +ℤ change
    → pos 0 ≤ℤ amount
    → (rows : List PaymentOnSale) × (follow
          (some (record { payment_id = c.id; amount = amount }))
          new_id
          ps
        ≡ ok rows)
      × (paid (live rows) ≡ paid (live ps) +ℤ change)
unfolding follow
follow-paid new_id ps c change amount (found, valid, taken_off) e h = (
  replacement new_id c amount ++ void c.id ps,
  rw (follow, found)
      (ap (λ b. throw_if b Error.conflict >> ok (replacement new_id c amount ++ void c.id ps))
        valid),
  paid-replacement new_id c amount (void c.id ps) h
      ∙ ap (λ y. y +ℤ paid (live (void c.id ps))) e
      ∙ rearranged _ _ _
      ∙ ap (λ y. y +ℤ change) taken_off,
)
  where
    rearranged : (a b left : ℤ) → a +ℤ b +ℤ left ≡ left +ℤ a +ℤ b
    rearranged a b left = omega int_laws
