-- ===== src/Common/Idempotency.antt =====
-- src/common/idempotency/idempotency.interceptor.ts: retried writes with an Idempotency-Key. The model
-- follows the requests that carry one key of one organization; each statement on the table of keys is a
-- step, and the steps of different requests interleave in any order. The unique index on the key
-- (prisma/schema.prisma) lets there be one row at most. The hash of a body, an address, a body that is
-- answered with and the ids are numbers. A request without a key or an organization goes straight to
-- its handler and is left out.
pub mod Once
pub mod Answers
pub mod Progress
use stock_mgt.Prelude.{
  ℕ, suc, ◌+◌, ◌*◌, ◌≡◌, Bool, true, false, not, ◌&&◌, ◌||◌, Option, none, some, List, [], ◌∷◌,
  ◌++◌, ltb, leb, ◌==◌, if◌then◌else◌,
}

-- What is sent back, and stored for a repeat.
pub record Answer : Type 0 where
  pub status_code : ℕ
  pub body : ℕ

-- A row of `idempotency_keys`; `answer` is null until the work is done.
pub record IdempotencyKey : Type 0 where
  pub id : ℕ
  pub endpoint : ℕ
  pub request_hash : ℕ
  pub answer : Option Answer
  pub created_at : ℕ
  pub expires_at : ℕ

-- What a request asks for.
pub record Entry : Type 0 where
  pub endpoint : ℕ
  pub request_hash : ℕ

-- Where a request is: before a statement of `claim`, in its handler, before the statement of `complete`
-- or `release`, or answered. `taken_over` says that it holds a claim that was another's.
pub data Phase : Type 0 where
  inserting : (attempt : ℕ) → Phase
  reading : (attempt : ℕ) → Phase
  taking : (id created_at : ℕ) → Phase
  working : (id : ℕ) (taken_over : Bool) → Phase
  completing : (id : ℕ) (answer : Answer) (taken_over : Bool) → Phase
  releasing : (id : ℕ) (taken_over : Bool) → Phase
  succeeded : (answer : Answer) (taken_over : Bool) → Phase
  failed : (taken_over : Bool) → Phase
  replayed : (answer : Answer) → Phase
  mismatch : Phase
  in_flight : Phase

-- What the statement meets: the time, a new id, what the handler returns (`none` when it throws), and
-- whether the database takes the write of `complete` or `release`.
pub record Chance : Type 0 where
  pub now : ℕ
  pub fresh_id : ℕ
  pub outcome : Option Answer
  pub is_written : Bool

abbrev pub stale_claim_ms : ℕ
stale_claim_ms = 120_000

abbrev pub retention_ms : ℕ
retention_ms = 48 * 3_600_000

abbrev pub new_row : Entry → Chance → IdempotencyKey
new_row entry chance = record {
  id = chance.fresh_id;
  endpoint = entry.endpoint;
  request_hash = entry.request_hash;
  answer = none;
  created_at = chance.now;
  expires_at = chance.now + retention_ms;
}

-- `create`, or a unique violation.
abbrev pub insert : Entry → Chance → ℕ → Option IdempotencyKey → Phase × Option IdempotencyKey
insert entry chance attempt none =
    (Phase.working chance.fresh_id false, some (new_row entry chance))
insert entry chance attempt (some row) = (Phase.reading attempt, some row)

abbrev pub is_same_request : Entry → IdempotencyKey → Bool
is_same_request entry row =
    (row.endpoint == entry.endpoint) && (row.request_hash == entry.request_hash)

abbrev pub is_fresh : ℕ → IdempotencyKey → Bool
is_fresh now row = ltb now (row.created_at + stale_claim_ms)

-- The `where` of the hourly sweep (src/common/housekeeping/housekeeping.service.ts).
abbrev pub is_expired : ℕ → IdempotencyKey → Bool
is_expired now row = ltb row.expires_at now

-- What an unfinished claim means to another request.
abbrev pub read_claim : ℕ → IdempotencyKey → Option Answer → Phase
read_claim now row (some answer) = Phase.replayed answer
read_claim now row none =
    if is_fresh now row then Phase.in_flight else Phase.taking row.id row.created_at

-- `findFirst`, after the insert has failed.
abbrev pub read : Entry → Chance → ℕ → Option IdempotencyKey → Phase
read entry chance attempt none =
    if leb 2 attempt then Phase.in_flight else Phase.inserting (suc attempt)
read entry chance attempt (some row) =
    if not (is_same_request entry row) then Phase.mismatch else read_claim chance.now row row.answer

abbrev pub is_unanswered : Option Answer → Bool
is_unanswered none = true
is_unanswered (some answer) = false

-- `updateMany` of the claim, if nobody has touched it.
abbrev pub take_over :
    Chance → (id created_at : ℕ) → Option IdempotencyKey → Phase × Option IdempotencyKey
take_over chance id created_at none = (Phase.in_flight, none)
take_over chance id created_at (some row) =
    if (row.id == id) && is_unanswered row.answer && (row.created_at == created_at)
    then (Phase.working id true, some (record row { created_at = chance.now }))
    else (Phase.in_flight, some row)

-- The handler returns or throws.
abbrev pub work : Option Answer → ℕ → Bool → Phase
work (some answer) id taken_over = Phase.completing id answer taken_over
work none id taken_over = Phase.releasing id taken_over

-- The row that a write by id leaves: a write that fails, or finds no row, is logged only.
abbrev pub complete : Chance → ℕ → Answer → Option IdempotencyKey → Option IdempotencyKey
complete chance id answer none = none
complete chance id answer (some row) =
    if (row.id == id) && chance.is_written
    then some (record row { answer = some answer })
    else some row

abbrev pub release : Chance → ℕ → Option IdempotencyKey → Option IdempotencyKey
release chance id none = none
release chance id (some row) = if (row.id == id) && chance.is_written then none else some row

-- The next step of a request: its phase and the row after it.
unfoldable pub next : Entry → Chance → Phase → Option IdempotencyKey → Phase × Option IdempotencyKey
next entry chance (Phase.inserting attempt) row = insert entry chance attempt row
next entry chance (Phase.reading attempt) row = (read entry chance attempt row, row)
next entry chance (Phase.taking id created_at) row = take_over chance id created_at row
next entry chance (Phase.working id taken_over) row = (work chance.outcome id taken_over, row)
next entry chance (Phase.completing id answer taken_over) row =
    (Phase.succeeded answer taken_over, complete chance id answer row)
next entry chance (Phase.releasing id taken_over) row =
    (Phase.failed taken_over, release chance id row)
next entry chance (Phase.succeeded answer taken_over) row = (Phase.succeeded answer taken_over, row)
next entry chance (Phase.failed taken_over) row = (Phase.failed taken_over, row)
next entry chance (Phase.replayed answer) row = (Phase.replayed answer, row)
next entry chance Phase.mismatch row = (Phase.mismatch, row)
next entry chance Phase.in_flight row = (Phase.in_flight, row)

pub record Request : Type 0 where
  pub entry : Entry
  pub phase : Phase

-- The row of the key, the requests that have carried it, and how often the sweep has removed the row.
pub record World : Type 0 where
  pub row : Option IdempotencyKey
  pub requests : List Request
  pub sweeps : ℕ

abbrev pub start : World
start = record { row = none; requests = []; sweeps = 0 }

-- `claim(…)` starts with its first attempt.
abbrev pub arriving : Entry → Request
arriving entry = record { entry = entry; phase = Phase.inserting 1 }

-- One request goes a step on, and the others stand still.
abbrev pub go_on : Chance → World → List Request → Request → List Request → World
go_on chance w before r after =
    let (phase, row) = next r.entry chance r.phase w.row in
    record w { row = row; requests = before ++ record r { phase = phase } ∷ after }

-- A request arrives, a request goes on, or the sweep removes a row that has expired.
pub data Step : World → World → Type 0 where
  arrives :
      (w : World) (entry : Entry) → Step w (record w { requests = arriving entry ∷ w.requests })
  goes_on :
      (row : Option IdempotencyKey) (sweeps : ℕ) (chance : Chance) (before : List Request)
      (r : Request) (after : List Request)
      → Step
          (record { row = row; requests = before ++ r ∷ after; sweeps = sweeps })
          (go_on chance
            (record { row = row; requests = before ++ r ∷ after; sweeps = sweeps })
            before
            r
            after)
  sweeps :
      (now : ℕ) (row : IdempotencyKey) (requests : List Request) (n : ℕ)
      → is_expired now row ≡ true
      → Step
          (record { row = some row; requests = requests; sweeps = n })
          (record { row = none; requests = requests; sweeps = suc n })

pub data Reach : World → Type 0 where
  here : Reach start
  then_step : {w w' : World} → Reach w → Step w w' → Reach w'
