-- ===== src/Common/Idempotency/Once.antt =====
-- How often the work of one key is done, whatever the interleaving
-- (src/common/idempotency/idempotency.interceptor.ts).
use stock_mgt.Prelude.{
  ℕ, suc, ◌+◌, ◌≤◌, ◌≡◌, refl, Bool, true, false, not, Option, none, some, List, ◌∷◌, arith, leb,
  ◌&&◌, ◌==◌, inl, inr, Bool-cases, Option-cases,
}
use stock_mgt.Prelude.Lists.{sum_by, sum_by-append}
use stock_mgt.Common.Idempotency.{
  Answer, IdempotencyKey, Entry, Phase, Chance, Request, World, Step, Reach, next, is_same_request,
  is_fresh, is_unanswered, read_claim, work, read, take_over, release, complete,
}

abbrev flag : Bool → ℕ
flag true = 1
flag false = 0

-- A request that does the work, or has done it.
unfoldable pub holds : Phase → ℕ
holds (Phase.working id taken_over) = 1
holds (Phase.completing id answer taken_over) = 1
holds (Phase.releasing id taken_over) = 1
holds (Phase.succeeded answer taken_over) = 1
holds _ = 0

-- A request that has taken a claim over.
unfoldable pub took : Phase → ℕ
took (Phase.working id taken_over) = flag taken_over
took (Phase.completing id answer taken_over) = flag taken_over
took (Phase.releasing id taken_over) = flag taken_over
took (Phase.succeeded answer taken_over) = flag taken_over
took (Phase.failed taken_over) = flag taken_over
took _ = 0

abbrev pub occupied : Option IdempotencyKey → ℕ
occupied none = 0
occupied (some row) = 1

abbrev pub holders : List Request → ℕ
holders = sum_by (λ r. holds r.phase)

abbrev pub takeovers : List Request → ℕ
takeovers = sum_by (λ r. took r.phase)

-- No step makes a holder that the row or a takeover does not account for.
abbrev Accounted : Phase → Option IdempotencyKey → Phase × Option IdempotencyKey → Type 0
Accounted phase row (phase', row') =
    holds phase' + took phase + occupied row ≤ holds phase + took phase' + occupied row'

read_claim-idle :
    (now : ℕ) (row : IdempotencyKey) (o : Option Answer)
    → (holds (read_claim now row o) ≡ 0) × (took (read_claim now row o) ≡ 0)
unfolding holds took
read_claim-idle now row (some answer) = (refl, refl)
read_claim-idle now row none = elim (Bool-cases (is_fresh now row)) [
  | inl e ↦ rw e (refl, refl)
  | inr e ↦ rw e (refl, refl)
]

read-idle :
    (entry : Entry) (chance : Chance) (attempt : ℕ) (row : Option IdempotencyKey)
    → (holds (read entry chance attempt row) ≡ 0) × (took (read entry chance attempt row) ≡ 0)
unfolding holds took
read-idle entry chance attempt none = elim (Bool-cases (leb 2 attempt)) [
  | inl e ↦ rw e (refl, refl)
  | inr e ↦ rw e (refl, refl)
]
read-idle entry chance attempt (some row) = elim (Bool-cases (not (is_same_request entry row))) [
  | inl e ↦ rw e (refl, refl)
  | inr e ↦ rw e (read_claim-idle chance.now row row.answer)
]

complete-occupied :
    (chance : Chance) (id : ℕ) (answer : Answer) (row : Option IdempotencyKey)
    → occupied (complete chance id answer row) ≡ occupied row
complete-occupied chance id answer none = refl
complete-occupied chance id answer (some row) =
    elim (Bool-cases ((row.id == id) && chance.is_written)) [ inl e ↦ rw e | inr e ↦ rw e ]

release-occupied :
    (chance : Chance) (id : ℕ) (row : Option IdempotencyKey)
    → occupied row ≤ suc (occupied (release chance id row))
release-occupied chance id none = omega arith
release-occupied chance id (some row) = elim (Bool-cases ((row.id == id) && chance.is_written)) [
  | inl e ↦ rw e (omega arith)
  | inr e ↦ rw e (omega arith)
]

take_over-Accounted :
    (chance : Chance) (id created_at : ℕ) (row : Option IdempotencyKey)
    → Accounted (Phase.taking id created_at) row (take_over chance id created_at row)
unfolding holds took
take_over-Accounted chance id created_at none = omega arith
take_over-Accounted chance id created_at (some row) =
    elim (Bool-cases
      ((row.id == id) && is_unanswered row.answer && (row.created_at == created_at))) [
        | inl e ↦ rw e (omega arith)
        | inr e ↦ rw e (omega arith)
      ]

work-held :
    (outcome : Option Answer) (id : ℕ) (taken_over : Bool)
    → (holds (work outcome id taken_over) ≡ 1)
      × (took (work outcome id taken_over) ≡ flag taken_over)
unfolding holds took
work-held (some answer) id taken_over = (refl, refl)
work-held none id taken_over = (refl, refl)

next-Accounted :
    (entry : Entry) (chance : Chance) (phase : Phase) (row : Option IdempotencyKey)
    → Accounted phase row (next entry chance phase row)
unfolding next holds took
next-Accounted entry chance (Phase.inserting attempt) none = omega arith
next-Accounted entry chance (Phase.inserting attempt) (some row) = omega arith
next-Accounted entry chance (Phase.reading attempt) row =
    omega (arith, (read-idle entry chance attempt row).0, (read-idle entry chance attempt row).1)
next-Accounted entry chance (Phase.taking id created_at) row =
    take_over-Accounted chance id created_at row
next-Accounted entry chance (Phase.working id taken_over) row =
    omega (
      arith,
      (work-held chance.outcome id taken_over).0,
      (work-held chance.outcome id taken_over).1,
    )
next-Accounted entry chance (Phase.completing id answer taken_over) row =
    omega (arith, complete-occupied chance id answer row)
next-Accounted entry chance (Phase.releasing id taken_over) row =
    omega (arith, release-occupied chance id row)
next-Accounted entry chance (Phase.succeeded answer taken_over) row = omega arith
next-Accounted entry chance (Phase.failed taken_over) row = omega arith
next-Accounted entry chance (Phase.replayed answer) row = omega arith
next-Accounted entry chance Phase.mismatch row = omega arith
next-Accounted entry chance Phase.in_flight row = omega arith

-- Every holder is accounted for by the row, a takeover or a sweep.
abbrev pub Once : World → Type 0
Once w = holders w.requests ≤ takeovers w.requests + w.sweeps + occupied w.row

Step-Once : {w w' : World} → Step w w' → Once w → Once w'
unfolding holds took
Step-Once (Step.arrives w entry) h = omega (arith, h)
Step-Once (Step.goes_on row sweeps chance before r after) h = omega (
  arith,
  h,
  next-Accounted r.entry chance r.phase row,
  sum_by-append (λ (x : Request). holds x.phase) before (r ∷ after),
  sum_by-append (λ (x : Request). took x.phase) before (r ∷ after),
  sum_by-append (λ (x : Request). holds x.phase) before
      (record r { phase = (next r.entry chance r.phase row).0 } ∷ after),
  sum_by-append (λ (x : Request). took x.phase) before
      (record r { phase = (next r.entry chance r.phase row).0 } ∷ after),
)
Step-Once (Step.sweeps now row requests n expired) h = omega (arith, h)

pub Reach-Once : {w : World} → Reach w → Once w
Reach-Once Reach.here = omega arith
Reach-Once (Reach.then_step r s) = Step-Once s (Reach-Once r)

-- Of the requests that carry a key, those whose handler is running or has succeeded are at most one
-- more than the times that a stale claim was taken over or an expired row was swept away.
pub at_most_once : {w : World} → Reach w → holders w.requests ≤ takeovers w.requests + w.sweeps + 1
at_most_once {w} r = elim (Option-cases w.row) [
  | inl e ↦ let h = Reach-Once r in let h' = rw e at h in omega (arith, h')
  | inr (row, e) ↦ let h = Reach-Once r in let h' = rw e at h in omega (arith, h')
]
