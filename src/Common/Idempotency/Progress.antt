-- ===== src/Common/Idempotency/Progress.antt =====
-- No request waits for ever, and a retry gets through
-- (src/common/idempotency/idempotency.interceptor.ts).
use stock_mgt.Prelude.{
  ℕ, zero, suc, ◌+◌, ◌-◌, ◌≤◌, ◌<◌, ◌≡◌, refl, Bool, not, Option, none, some, List, [], ◌∷◌, arith,
  leb, ◌&&◌, ◌==◌, inl, inr, ◌⊎◌, Bool-cases,
}
use stock_mgt.Prelude.Lists.{length}
use stock_mgt.Common.Idempotency.{
  Answer, IdempotencyKey, Entry, Phase, Chance, next, is_same_request, is_fresh, is_unanswered,
  read_claim, work, read, take_over,
}

-- How many steps a request is from its answer, at most.
abbrev pub steps_left : Phase → ℕ
steps_left (Phase.inserting attempt) = 5 + (2 - attempt) + (2 - attempt)
steps_left (Phase.reading attempt) = 4 + (2 - attempt) + (2 - attempt)
steps_left (Phase.taking id created_at) = 3
steps_left (Phase.working id taken_over) = 2
steps_left (Phase.completing id answer taken_over) = 1
steps_left (Phase.releasing id taken_over) = 1
steps_left _ = 0

-- Each step of a request that is not answered yet brings it nearer to its answer.
abbrev Nearer : Phase → Phase → Type 0
Nearer phase phase' = (steps_left phase' < steps_left phase) ⊎ (steps_left phase ≡ 0)

read-bound :
    (now : ℕ) (row : IdempotencyKey) (o : Option Answer) → steps_left (read_claim now row o) ≤ 3
read-bound now row (some answer) = omega arith
read-bound now row none = elim (Bool-cases (is_fresh now row)) [
  | inl e ↦ rw e (omega arith)
  | inr e ↦ rw e (omega arith)
]

read-nearer :
    (entry : Entry) (chance : Chance) (attempt : ℕ) (row : Option IdempotencyKey)
    → steps_left (read entry chance attempt row) < steps_left (Phase.reading attempt)
read-nearer entry chance attempt none = elim (Bool-cases (leb 2 attempt)) [
  | inl e ↦ rw e (omega arith)
  | inr e ↦ rw e (ground arith)
]
read-nearer entry chance attempt (some row) = elim (Bool-cases (not (is_same_request entry row))) [
  | inl e ↦ rw e (omega arith)
  | inr e ↦ rw e (omega (arith, read-bound chance.now row row.answer))
]

take_over-nearer :
    (chance : Chance) (id created_at : ℕ) (row : Option IdempotencyKey)
    → steps_left (take_over chance id created_at row).0 < 3
take_over-nearer chance id created_at none = omega arith
take_over-nearer chance id created_at (some row) =
    elim (Bool-cases
      ((row.id == id) && is_unanswered row.answer && (row.created_at == created_at))) [
        | inl e ↦ rw e (omega arith)
        | inr e ↦ rw e (omega arith)
      ]

work-nearer :
    (outcome : Option Answer) (id : ℕ) (taken_over : Bool)
    → steps_left (work outcome id taken_over) < 2
work-nearer (some answer) id taken_over = omega arith
work-nearer none id taken_over = omega arith

next-Nearer :
    (entry : Entry) (chance : Chance) (phase : Phase) (row : Option IdempotencyKey)
    → Nearer phase (next entry chance phase row).0
unfolding next
next-Nearer entry chance (Phase.inserting attempt) none = inl (omega arith)
next-Nearer entry chance (Phase.inserting attempt) (some row) = inl (omega arith)
next-Nearer entry chance (Phase.reading attempt) row = inl (read-nearer entry chance attempt row)
next-Nearer entry chance (Phase.taking id created_at) row =
    inl (take_over-nearer chance id created_at row)
next-Nearer entry chance (Phase.working id taken_over) row =
    inl (work-nearer chance.outcome id taken_over)
next-Nearer entry chance (Phase.completing id answer taken_over) row = inl (omega arith)
next-Nearer entry chance (Phase.releasing id taken_over) row = inl (omega arith)
next-Nearer entry chance (Phase.succeeded answer taken_over) row = inr refl
next-Nearer entry chance (Phase.failed taken_over) row = inr refl
next-Nearer entry chance (Phase.replayed answer) row = inr refl
next-Nearer entry chance Phase.mismatch row = inr refl
next-Nearer entry chance Phase.in_flight row = inr refl

next-answered :
    (entry : Entry) (chance : Chance) (phase : Phase) (row : Option IdempotencyKey)
    → steps_left phase ≡ 0
    → steps_left (next entry chance phase row).0 ≡ 0
unfolding next
next-answered entry chance (Phase.inserting attempt) row h = absurd (omega arith)
next-answered entry chance (Phase.reading attempt) row h = absurd (omega arith)
next-answered entry chance (Phase.taking id created_at) row h = absurd (omega arith)
next-answered entry chance (Phase.working id taken_over) row h = absurd (omega arith)
next-answered entry chance (Phase.completing id answer taken_over) row h = absurd (omega arith)
next-answered entry chance (Phase.releasing id taken_over) row h = absurd (omega arith)
next-answered entry chance (Phase.succeeded answer taken_over) row h = refl
next-answered entry chance (Phase.failed taken_over) row h = refl
next-answered entry chance (Phase.replayed answer) row h = refl
next-answered entry chance Phase.mismatch row h = refl
next-answered entry chance Phase.in_flight row h = refl

-- A request's own steps, each with what it meets: whatever the others have made of the row.
unfoldable pub run : Entry → List (Chance × Option IdempotencyKey) → Phase → Phase
unfolding next
run entry [] phase = phase
run entry ((chance, row) ∷ meets) phase = run entry meets (next entry chance phase row).0

run-bound :
    (entry : Entry) (meets : List (Chance × Option IdempotencyKey)) (phase : Phase)
    → steps_left (run entry meets phase) ≤ steps_left phase - length meets
unfolding run
run-bound entry [] phase = omega arith
run-bound entry ((chance, row) ∷ meets) phase =
    let rest = run-bound entry meets (next entry chance phase row).0 in
    elim (next-Nearer entry chance phase row) [
      | inl h ↦ omega (arith, rest, h)
      | inr h ↦ omega (arith, rest, next-answered entry chance phase row h)
    ]

-- Whatever the other requests do, a request has its answer after seven steps of its own.
pub answered_in_seven :
    (entry : Entry) (meets : List (Chance × Option IdempotencyKey))
    → 7 ≤ length meets
    → steps_left (run entry meets (Phase.inserting 1)) ≡ 0
answered_in_seven entry meets h = omega (arith, run-bound entry meets (Phase.inserting 1))

-- A request that nobody disturbs, for some steps.
unfoldable pub alone :
    ℕ → Entry → Chance → Phase × Option IdempotencyKey → Phase × Option IdempotencyKey
unfolding next
alone zero entry chance at = at
alone (suc n) entry chance (phase, row) = alone n entry chance (next entry chance phase row)

-- The row of a claim that has been taken over, and answered.
abbrev pub settled : IdempotencyKey → ℕ → Answer → IdempotencyKey
settled row now answer = record row { answer = some answer; created_at = now }
