-- ===== src/Sales/Correction/Following.antt =====
-- The payment that follows a corrected total, down or up (src/modules/sales/sale-correction.ts): writing it
-- leaves paid on the sale just what the plan says.
use stock_mgt.Prelude.{
  ℕ, ◌≡◌, refl, ◌∙◌, sym, ap, Bool, true, false, ◌&&◌, not, if◌then◌else◌, Option, none, some, List,
  [], ◌∷◌, arith, Bool-cases, Option-cases, inl, inr,
}
use mathlib.Core.Path.{subst}
use stock_mgt.Prelude.Int.{ℤ, pos, ◌+ℤ◌, ◌-ℤ◌, ◌≤ℤ◌, ◌<ℤ◌, ltb_ℤ, leb_ℤ, clip, int_laws}
use stock_mgt.Prelude.Lists.{All, All-imp, select}
use stock_mgt.Prelude.Result.{ok}
use stock_mgt.Prelude.Sort.{All-sort}
use stock_mgt.Sales.Correction.{
  RecordedSale, PaymentOnSale, PaymentFollows, Attempt, live, paid, first, is_own, latest_own,
  follow_down, follow_up, raised_payment, is_raised, paid_down,
}
use stock_mgt.Sales.Correction.Plan.{planned-injective, follow_up-settle}
use stock_mgt.Sales.Correction.Payments.{follow}
use stock_mgt.Sales.Correction.Voided.{
  AreDistinct, AreWhole, IsLive, live-IsLive, All-select, All-both, follow-paid,
}

-- A live payment that went wholly to this sale.
abbrev IsOwn : List PaymentOnSale → (PaymentOnSale → Bool) → PaymentOnSale → Type 0
IsOwn payments enough c =
    IsLive payments c × (c.amount ≡ c.allocated_here) × (pos 0 <ℤ c.amount) × (enough c ≡ true)

first-All :
    (P : PaymentOnSale → Type 0) (ps : List PaymentOnSale) (c : PaymentOnSale)
    → All P ps
    → first ps ≡ some c
    → P c
first-All P [] c h e = cc
first-All P (p ∷ ps) c (this, h) e = let same : p ≡ c = cc in subst P same this

own_parts :
    (elsewhere big enough : Bool)
    → (not elsewhere && big && enough) ≡ true
    → (elsewhere ≡ false) × (big ≡ true) × (enough ≡ true)
own_parts false true true h = (refl, refl, refl)
own_parts true big enough h = cc
own_parts false false enough h = cc
own_parts false true false h = cc

latest_own-IsOwn :
    (payments : List PaymentOnSale) (enough : PaymentOnSale → Bool) (c : PaymentOnSale)
    → AreDistinct payments
    → AreWhole payments
    → latest_own (live payments) enough ≡ some c
    → IsOwn payments enough c
unfolding latest_own
latest_own-IsOwn payments enough c distinct whole e =
    let lives = live-IsLive payments distinct in
    let wholes = All-imp (λ p k. k.0) (live payments) (All-select _ _ payments whole) in
    let owns =
      All-select _ (is_own enough) (live payments) (All-both _ _ (live payments) lives wholes) in
    let all =
      All-imp
        (λ (p : PaymentOnSale)
            (k : (IsLive payments p × (p.allocated_elsewhere ≡ false → p.amount ≡ p.allocated_here))
              × (is_own enough p ≡ true)).
          let (here, big, passes) =
            own_parts p.allocated_elsewhere (ltb_ℤ (pos 0) p.amount) (enough p) k.1 in
          (k.0.0, k.0.1 here, (ground arith), passes))
        (select (is_own enough) (live payments)) owns in
    first-All (IsOwn payments enough) _ c (All-sort _ (IsOwn payments enough) _ all) e

-- What the payments are afterwards.
abbrev pub Written :
    List PaymentOnSale → (new_id : ℕ) → Option PaymentFollows → (paid_after : ℤ) → Type 0
Written payments new_id follows paid_after =
    (rows : List PaymentOnSale) × (follow follows new_id payments ≡ ok rows)
    × (paid (live rows) ≡ paid_after)

follow_down-none :
    (before total_after : ℤ) (ps : List PaymentOnSale)
    → ltb_ℤ (pos 0) (before -ℤ total_after) ≡ false
    → follow_down before total_after ps ≡ Attempt.planned none
unfolding follow_down
follow_down-none before total_after ps e = rw e refl

abbrev enough_for : (before total_after : ℤ) → PaymentOnSale → Bool
enough_for before total_after payment = leb_ℤ (before -ℤ total_after) payment.allocated_here

follow_down-refused :
    (before total_after : ℤ) (ps : List PaymentOnSale)
    → ltb_ℤ (pos 0) (before -ℤ total_after) ≡ true
    → latest_own ps (enough_for before total_after) ≡ none
    → follow_down before total_after ps ≡ Attempt.refused 409
unfolding follow_down
follow_down-refused before total_after ps e k = rw (e, k) refl

follow_down-some :
    (before total_after : ℤ) (ps : List PaymentOnSale) (c : PaymentOnSale)
    → ltb_ℤ (pos 0) (before -ℤ total_after) ≡ true
    → latest_own ps (enough_for before total_after) ≡ some c
    → follow_down before total_after ps
      ≡ Attempt.planned
          (some (record { payment_id = c.id; amount = c.amount -ℤ (before -ℤ total_after) }))
unfolding follow_down
follow_down-some before total_after ps c e k = rw (e, k) refl

refused-planned : {A : Type 0} {status : ℕ} {a : A} → Attempt.refused status ≡ Attempt.planned a → ⊥
refused-planned h = cc

paid_down-same :
    (before total_after : ℤ)
    → ltb_ℤ (pos 0) (before -ℤ total_after) ≡ false
    → before ≡ paid_down before total_after
paid_down-same before total_after e =
    let x = before -ℤ total_after in
    let none_over : clip x ≡ pos 0 = ground arith in rw none_over (omega int_laws)

paid_down-less :
    (before total_after : ℤ)
    → ltb_ℤ (pos 0) (before -ℤ total_after) ≡ true
    → before +ℤ (pos 0 -ℤ (before -ℤ total_after)) ≡ paid_down before total_after
paid_down-less before total_after e =
    let x = before -ℤ total_after in
    let over : clip x ≡ x = ground arith in rw over (omega int_laws)

covered :
    (excess here amount : ℤ) → leb_ℤ excess here ≡ true → amount ≡ here → pos 0 ≤ℤ amount -ℤ excess
covered excess here amount h e = rw e (grind int_laws)

if_some :
    (b : Bool) (o : Option PaymentOnSale) (c : PaymentOnSale)
    → (if b then o else none) ≡ some c
    → (b ≡ true) × (o ≡ some c)
if_some true o c h = (refl, h)
if_some false o c h = cc

last_true : (a b c : Bool) → (a && b && c) ≡ true → c ≡ true
last_true true true c h = h
last_true true false c h = cc
last_true false b c h = cc

raised_payment-some :
    (sale : RecordedSale) (before shortfall : ℤ) (c : PaymentOnSale)
    → raised_payment sale before shortfall ≡ some c
    → (latest_own (live sale.payments) (λ p. true) ≡ some c) × (ltb_ℤ (pos 0) shortfall ≡ true)
unfolding raised_payment
raised_payment-some sale before shortfall c h =
    let (raises, own) =
      if_some (is_raised sale.total before sale.refunded shortfall)
        (latest_own (live sale.payments) (λ p. true)) c h in
    (
      own,
      last_true (leb_ℤ (sale.total -ℤ before -ℤ sale.refunded) (pos 0)) (ltb_ℤ (pos 0) before) _
          raises,
    )

Written-down :
    (payments : List PaymentOnSale) (new_id : ℕ) (total_after : ℤ) (down : Option PaymentFollows)
    → AreDistinct payments
    → AreWhole payments
    → follow_down (paid (live payments)) total_after (live payments) ≡ Attempt.planned down
    → Written payments new_id down (paid_down (paid (live payments)) total_after)
unfolding follow
Written-down payments new_id total_after down distinct whole h =
    let before = paid (live payments) in
    let excess = before -ℤ total_after in
    elim (Bool-cases (ltb_ℤ (pos 0) excess)) [
      | inr e ↦
          let same =
            planned-injective (sym (follow_down-none before total_after (live payments) e) ∙ h) in
          subst (λ d. Written payments new_id d (paid_down before total_after)) same
            (payments, refl, paid_down-same before total_after e)
      | inl e ↦ elim (Option-cases (latest_own (live payments) (enough_for before total_after))) [
        | inl k ↦
            absurd (
              refused-planned
                (sym (follow_down-refused before total_after (live payments) e k) ∙ h))
        | inr (c, k) ↦
            let same =
              planned-injective
                (sym (follow_down-some before total_after (live payments) c e k) ∙ h) in
            let (is_live, whole_here, big, covers) =
              latest_own-IsOwn payments (enough_for before total_after) c distinct whole k in
            let (rows, writes, total) =
              follow-paid new_id payments c (pos 0 -ℤ excess) (c.amount -ℤ excess) is_live
                (rw whole_here (omega int_laws))
                (covered excess c.allocated_here c.amount covers whole_here) in
            subst (λ d. Written payments new_id d (paid_down before total_after)) same
              (rows, writes, total ∙ paid_down-less before total_after e)
      ]
    ]

raised_nonneg : (a b : ℤ) → pos 0 <ℤ a → ltb_ℤ (pos 0) b ≡ true → pos 0 ≤ℤ a +ℤ b
raised_nonneg a b h k = grind int_laws

not_short : (t r : ℤ) → pos 0 ≤ℤ r → ltb_ℤ (pos 0) (t -ℤ t -ℤ r) ≡ true → ⊥
not_short t r h short = grind int_laws

-- A sale that falls short was not brought down.
not_over :
    (before total_after refunded : ℤ)
    → pos 0 ≤ℤ refunded
    → ltb_ℤ (pos 0) (total_after -ℤ paid_down before total_after -ℤ refunded) ≡ true
    → before ≡ paid_down before total_after
not_over before total_after refunded h short =
    elim (Bool-cases (ltb_ℤ (pos 0) (before -ℤ total_after))) [
      | inr e ↦ paid_down-same before total_after e
      | inl e ↦
          let lowered = paid_down-less before total_after e in
          let at_total : paid_down before total_after ≡ total_after =
            sym lowered ∙ omega int_laws in
          absurd (
            not_short total_after refunded h
              (subst (λ x. ltb_ℤ (pos 0) (total_after -ℤ x -ℤ refunded) ≡ true) at_total short))
    ]

-- What follows a plan can be written, and leaves paid on the sale just what the plan says.
pub follow_up-Written :
    (sale : RecordedSale) (new_id : ℕ) (total_after : ℤ) (down : Option PaymentFollows)
    → AreDistinct sale.payments
    → AreWhole sale.payments
    → pos 0 ≤ℤ sale.refunded
    → follow_down (paid (live sale.payments)) total_after (live sale.payments)
      ≡ Attempt.planned down
    → let settled = follow_up sale (paid (live sale.payments)) total_after down in
      Written sale.payments new_id settled.follows settled.paid_after
follow_up-Written sale new_id total_after down distinct whole refunded h =
    let before = paid (live sale.payments) in
    let shortfall = total_after -ℤ paid_down before total_after -ℤ sale.refunded in
    elim (Option-cases (raised_payment sale before shortfall)) [
      | inl e ↦
          rw (follow_up-settle sale before total_after down none e)
            (Written-down sale.payments new_id total_after down distinct whole h)
      | inr (c, e) ↦
          let (own, short) = raised_payment-some sale before shortfall c e in
          let (is_live, whole_here, big, passes) =
            latest_own-IsOwn sale.payments (λ p. true) c distinct whole own in
          let (rows, writes, total) =
            follow-paid new_id sale.payments c shortfall (c.amount +ℤ shortfall) is_live
              (ap (λ a. a +ℤ shortfall) whole_here) (raised_nonneg c.amount shortfall big short) in
          let kept = not_over before total_after sale.refunded refunded short in
          rw (follow_up-settle sale before total_after down (some c) e)
            (rows, writes, total ∙ ap (λ a. a +ℤ shortfall) kept)
    ]
