-- ===== src/Common/Idempotency/Answers.antt =====
-- What a repeat is answered with: a stored answer is one that the work has given
-- (src/common/idempotency/idempotency.interceptor.ts).
use stock_mgt.Prelude.{
  ℕ, ◌+◌, ◌≤◌, ◌≡◌, refl, Bool, true, false, not, Option, none, some, List, [], ◌∷◌, ◌++◌, arith,
  leb, ◌&&◌, ◌==◌, inl, inr, ◌⊎◌, Bool-cases,
}
use stock_mgt.Prelude.Lists.{sum_by, sum_by-append, All, All-append, All-split, All-imp}
use stock_mgt.Common.Idempotency.{
  Answer, IdempotencyKey, Entry, Phase, Chance, Request, World, Step, Reach, next, is_same_request,
  is_fresh, is_unanswered, read_claim, work, read, take_over, release, complete,
}
use stock_mgt.Common.Idempotency.Once.{holds, holders, takeovers, at_most_once}

abbrev pub answer_eq : Answer → Answer → Bool
answer_eq a b = (a.status_code == b.status_code) && (a.body == b.body)

abbrev flag : Bool → ℕ
flag true = 1
flag false = 0

-- The requests whose own work has given the answer, those that repeat it, and a row that holds it.
unfoldable pub wins : Answer → Phase → ℕ
wins a (Phase.succeeded answer taken_over) = flag (answer_eq a answer)
wins a _ = 0

unfoldable pub repeats : Answer → Phase → ℕ
repeats a (Phase.replayed answer) = flag (answer_eq a answer)
repeats a _ = 0

abbrev in_answer : Answer → Option Answer → ℕ
in_answer a none = 0
in_answer a (some answer) = flag (answer_eq a answer)

abbrev stored : Answer → Option IdempotencyKey → ℕ
stored a none = 0
stored a (some row) = in_answer a row.answer

abbrev pub winners : Answer → List Request → ℕ
winners a = sum_by (λ r. wins a r.phase)

-- The requests that are answered with `a`, by their own work or by a repeat.
abbrev pub answered_with : Answer → List Request → ℕ
answered_with a = sum_by (λ r. wins a r.phase + repeats a r.phase)

read_claim-repeats :
    (a : Answer) (now : ℕ) (row : IdempotencyKey) (o : Option Answer)
    → repeats a (read_claim now row o) ≤ in_answer a o
unfolding repeats
read_claim-repeats a now row (some answer) = omega arith
read_claim-repeats a now row none = elim (Bool-cases (is_fresh now row)) [
  | inl e ↦ rw e (omega arith)
  | inr e ↦ rw e (omega arith)
]

read-repeats :
    (a : Answer) (entry : Entry) (chance : Chance) (attempt : ℕ) (row : Option IdempotencyKey)
    → repeats a (read entry chance attempt row) ≤ stored a row
unfolding repeats
read-repeats a entry chance attempt none = elim (Bool-cases (leb 2 attempt)) [
  | inl e ↦ rw e (omega arith)
  | inr e ↦ rw e (omega arith)
]
read-repeats a entry chance attempt (some row) =
    elim (Bool-cases (not (is_same_request entry row))) [
      | inl e ↦ rw e (omega arith)
      | inr e ↦ rw e (read_claim-repeats a chance.now row row.answer)
    ]

take_over-stored :
    (a : Answer) (chance : Chance) (id created_at : ℕ) (row : Option IdempotencyKey)
    → (stored a (take_over chance id created_at row).1 ≤ stored a row)
      × (repeats a (take_over chance id created_at row).0 ≡ 0)
unfolding repeats
take_over-stored a chance id created_at none = (omega arith, refl)
take_over-stored a chance id created_at (some row) =
    elim (Bool-cases
      ((row.id == id) && is_unanswered row.answer && (row.created_at == created_at))) [
        | inl e ↦ rw e (omega arith, refl)
        | inr e ↦ rw e (omega arith, refl)
      ]

complete-stored :
    (a : Answer) (chance : Chance) (id : ℕ) (answer : Answer) (row : Option IdempotencyKey)
    → (stored a (complete chance id answer row) ≤ stored a row)
      ⊎ (stored a (complete chance id answer row) ≤ flag (answer_eq a answer))
complete-stored a chance id answer none = inl (omega arith)
complete-stored a chance id answer (some row) =
    elim (Bool-cases ((row.id == id) && chance.is_written)) [
      | inl e ↦ rw e (inr (omega arith))
      | inr e ↦ rw e (inl (omega arith))
    ]

release-stored :
    (a : Answer) (chance : Chance) (id : ℕ) (row : Option IdempotencyKey)
    → stored a (release chance id row) ≤ stored a row
release-stored a chance id none = omega arith
release-stored a chance id (some row) = elim (Bool-cases ((row.id == id) && chance.is_written)) [
  | inl e ↦ rw e (omega arith)
  | inr e ↦ rw e (omega arith)
]

work-repeats :
    (a : Answer) (outcome : Option Answer) (id : ℕ) (taken_over : Bool)
    → repeats a (work outcome id taken_over) ≡ 0
unfolding repeats
work-repeats a (some answer) id taken_over = refl
work-repeats a none id taken_over = refl

-- An answer comes into the row from the work only, and to a repeat from the row only; and what has
-- been given is not taken back.
abbrev Passed : Answer → Phase → Option IdempotencyKey → Phase × Option IdempotencyKey → Type 0
Passed a phase row (phase', row') =
    ((stored a row' ≤ stored a row) ⊎ (stored a row' ≤ wins a phase'))
    × ((repeats a phase' ≤ repeats a phase) ⊎ (repeats a phase' ≤ stored a row))
    × (wins a phase ≤ wins a phase')

next-Passed :
    (a : Answer) (entry : Entry) (chance : Chance) (phase : Phase) (row : Option IdempotencyKey)
    → Passed a phase row (next entry chance phase row)
unfolding next wins repeats
next-Passed a entry chance (Phase.inserting attempt) none =
    (inl (omega arith), inl (omega arith), omega arith)
next-Passed a entry chance (Phase.inserting attempt) (some row) =
    (inl (omega arith), inl (omega arith), omega arith)
next-Passed a entry chance (Phase.reading attempt) row =
    (inl (omega arith), inr (read-repeats a entry chance attempt row), omega arith)
next-Passed a entry chance (Phase.taking id created_at) row =
    let h = take_over-stored a chance id created_at row in
    (inl h.0, inl (omega (arith, h.1)), omega arith)
next-Passed a entry chance (Phase.working id taken_over) row = (
  inl (omega arith),
  inl (omega (arith, work-repeats a chance.outcome id taken_over)),
  omega arith,
)
next-Passed a entry chance (Phase.completing id answer taken_over) row =
    (complete-stored a chance id answer row, inl (omega arith), omega arith)
next-Passed a entry chance (Phase.releasing id taken_over) row =
    (inl (release-stored a chance id row), inl (omega arith), omega arith)
next-Passed a entry chance (Phase.succeeded answer taken_over) row =
    (inl (omega arith), inl (omega arith), omega arith)
next-Passed a entry chance (Phase.failed taken_over) row =
    (inl (omega arith), inl (omega arith), omega arith)
next-Passed a entry chance (Phase.replayed answer) row =
    (inl (omega arith), inl (omega arith), omega arith)
next-Passed a entry chance Phase.mismatch row = (inl (omega arith), inl (omega arith), omega arith)
next-Passed a entry chance Phase.in_flight row = (inl (omega arith), inl (omega arith), omega arith)

-- What is stored or repeated is backed by work that gave it.
abbrev Backed : Answer → World → Type 0
Backed a w =
    (stored a w.row ≤ winners a w.requests)
    × All (λ (r : Request). repeats a r.phase ≤ winners a w.requests) w.requests

Step-Backed : (a : Answer) {w w' : World} → Step w w' → Backed a w → Backed a w'
unfolding wins repeats
Step-Backed a (Step.arrives w entry) (in_row, all) =
    (omega (arith, in_row), (omega arith, All-imp (λ r h. omega (arith, h)) w.requests all))
Step-Backed a (Step.goes_on row sweeps chance before r after) (in_row, all) =
    let passed = next-Passed a r.entry chance r.phase row in
    let moved : Request = record r { phase = (next r.entry chance r.phase row).0 } in
    let old = sum_by-append (λ (x : Request). wins a x.phase) before (r ∷ after) in
    let new = sum_by-append (λ (x : Request). wins a x.phase) before (moved ∷ after) in
    let split =
      All-split (λ (x : Request). repeats a x.phase ≤ winners a (before ++ r ∷ after)) before
        (r ∷ after) all in
    (
      elim passed.0 [
        | inl h ↦ omega (arith, in_row, h, passed.2, old, new)
        | inr h ↦ omega (arith, h, new)
      ],
      All-append (λ (x : Request). repeats a x.phase ≤ winners a (before ++ moved ∷ after)) before
          (moved ∷ after) (All-imp (λ x h. omega (arith, h, old, new, passed.2)) before split.0)
          (
            elim passed.1 [
              | inl h ↦ omega (arith, split.1.0, h, passed.2, old, new)
              | inr h ↦ omega (arith, in_row, h, passed.2, old, new)
            ],
            All-imp (λ x h. omega (arith, h, old, new, passed.2)) after split.1.1,
          ),
    )
Step-Backed a (Step.sweeps now row requests n expired) (in_row, all) = (omega arith, all)

Reach-Backed : (a : Answer) {w : World} → Reach w → Backed a w
Reach-Backed a Reach.here = (omega arith, tt)
Reach-Backed a (Reach.then_step r s) = Step-Backed a s (Reach-Backed a r)

repeated-won :
    (a : Answer) (n : ℕ) (rs : List Request)
    → All (λ (r : Request). repeats a r.phase ≤ n) rs
    → 1 ≤ sum_by (λ (r : Request). repeats a r.phase) rs
    → 1 ≤ n
repeated-won a n [] all h = absurd (omega (arith, h))
repeated-won a n (r ∷ rs) (first, all) h = elim (Bool-cases (leb 1 (repeats a r.phase))) [
  | inl e ↦ ground arith
  | inr e ↦ repeated-won a n rs all (ground arith)
]

answered-sum :
    (a : Answer) (rs : List Request)
    → answered_with a rs ≡ winners a rs + sum_by (λ (r : Request). repeats a r.phase) rs
answered-sum a [] = refl
answered-sum a (r ∷ rs) = omega (arith, answered-sum a rs)

-- Two different answers take two holders.
two_answers :
    (a b : Answer) (phase : Phase)
    → answer_eq a b ≡ false
    → wins a phase + wins b phase ≤ holds phase
unfolding wins holds
two_answers a b (Phase.succeeded answer taken_over) h = elim (Bool-cases (answer_eq a answer)) [
  | inl e ↦ elim (Bool-cases (answer_eq b answer)) [
    | inl e2 ↦ absurd (ground arith)
    | inr e2 ↦ rw (e, e2) (omega arith)
  ]
  | inr e ↦ elim (Bool-cases (answer_eq b answer)) [
    | inl e2 ↦ rw (e, e2) (omega arith)
    | inr e2 ↦ rw (e, e2) (omega arith)
  ]
]
two_answers a b (Phase.inserting attempt) h = omega arith
two_answers a b (Phase.reading attempt) h = omega arith
two_answers a b (Phase.taking id created_at) h = omega arith
two_answers a b (Phase.working id taken_over) h = omega arith
two_answers a b (Phase.completing id answer taken_over) h = omega arith
two_answers a b (Phase.releasing id taken_over) h = omega arith
two_answers a b (Phase.failed taken_over) h = omega arith
two_answers a b (Phase.replayed answer) h = omega arith
two_answers a b Phase.mismatch h = omega arith
two_answers a b Phase.in_flight h = omega arith

two_holders :
    (a b : Answer) (rs : List Request)
    → answer_eq a b ≡ false
    → winners a rs + winners b rs ≤ holders rs
two_holders a b [] h = omega arith
two_holders a b (r ∷ rs) h = omega (arith, two_answers a b r.phase h, two_holders a b rs h)

answered-won :
    (a : Answer) {w : World} → Reach w → 1 ≤ answered_with a w.requests → 1 ≤ winners a w.requests
answered-won a {w} r h = elim (Bool-cases (leb 1 (winners a w.requests))) [
  | inl e ↦ ground arith
  | inr e ↦
      repeated-won a (winners a w.requests) w.requests (Reach-Backed a r).1
        (ground (arith, answered-sum a w.requests))
]

-- When no stale claim has been taken over and no row swept away, all the requests with one key that
-- are answered with a success, by the work of their own or by a repeat, are answered the same.
pub same_answer :
    {w : World} (a b : Answer)
    → Reach w
    → takeovers w.requests ≡ 0
    → w.sweeps ≡ 0
    → 1 ≤ answered_with a w.requests
    → 1 ≤ answered_with b w.requests
    → answer_eq a b ≡ true
same_answer {w} a b r no_takeover no_sweep ha hb = elim (Bool-cases (answer_eq a b)) [
  | inl e ↦ e
  | inr e ↦ absurd (
      omega (
        arith,
        answered-won a r ha,
        answered-won b r hb,
        two_holders a b w.requests e,
        at_most_once r,
      ))
]
