-- ===== src/Tests/Idempotency.antt =====
-- Two requests with one key: the first works, the second comes while it does and again after it.
use stock_mgt.Prelude.{ℕ, ◌+◌, ◌≡◌, ◌≤◌, refl, true, Option, none, some, List, [], ◌∷◌, arith}
use stock_mgt.Common.Idempotency.{
  Answer, IdempotencyKey, Entry, Phase, Chance, Request, World, Step, Reach, next, start, go_on,
  arriving, new_row,
}
use stock_mgt.Common.Idempotency.Once.{holders, takeovers, at_most_once, took}
use stock_mgt.Common.Idempotency.Answers.{same_answer, answered_with, answer_eq, wins, repeats}
use stock_mgt.Common.Idempotency.Progress.{answered_in_seven, run, steps_left}

abbrev sale : Entry
sale = record { endpoint = 5; request_hash = 77 }

abbrev created : Answer
created = record { status_code = 201; body = 9 }

abbrev at : ℕ → Chance
at now = record { now = now; fresh_id = 100; outcome = some created; is_written = true }

abbrev one : World
one = record { row = none; requests = arriving sale ∷ []; sweeps = 0 }

abbrev first_step : Chance → Option IdempotencyKey → Request → List Request → World
first_step chance row r after =
    go_on chance (record { row = row; requests = r ∷ after; sweeps = 0 }) [] r after

abbrev head : World → Request
head w = elim w.requests [ [] ↦ arriving sale | r ∷ rest ↦ r ]

abbrev step_on : ℕ → World → World
step_on now w = first_step (at now) w.row (head w) []

abbrev claimed : World
claimed = step_on 1_000 one

abbrev worked : World
worked = step_on 1_200 claimed

abbrev done : World
done = step_on 1_300 worked

done-Reach : Reach done
unfolding next
done-Reach =
    Reach.then_step
      (Reach.then_step
        (Reach.then_step (Reach.then_step Reach.here (Step.arrives start sale))
          (Step.goes_on none 0 (at 1_000) [] (arriving sale) []))
        (Step.goes_on claimed.row 0 (at 1_200) [] (head claimed) []))
      (Step.goes_on worked.row 0 (at 1_300) [] (head worked) [])

-- The repeat is inserted behind the row and reads it.
abbrev again : World
again = record done { requests = arriving sale ∷ done.requests }

abbrev looked : World
looked = first_step (at 2_000) again.row (arriving sale) done.requests

abbrev repeated : World
repeated = first_step (at 2_100) looked.row (head looked) done.requests

repeated-Reach : Reach repeated
unfolding next
repeated-Reach =
    Reach.then_step
      (Reach.then_step (Reach.then_step done-Reach (Step.arrives done sale))
        (Step.goes_on again.row 0 (at 2_000) [] (arriving sale) done.requests))
      (Step.goes_on looked.row 0 (at 2_100) [] (head looked) done.requests)

at_most_once_example : holders repeated.requests ≤ takeovers repeated.requests + repeated.sweeps + 1
at_most_once_example = at_most_once repeated-Reach

no_takeover : takeovers repeated.requests ≡ 0
unfolding next took
no_takeover = refl

answered : 1 ≤ answered_with created repeated.requests
unfolding next wins repeats
answered = omega arith

same_answer_example : answer_eq created created ≡ true
same_answer_example = same_answer created created repeated-Reach no_takeover refl answered answered

abbrev meets : List (Chance × Option IdempotencyKey)
meets =
    (at 1, none)
    ∷ (at 2, none)
    ∷ (at 3, none)
    ∷ (at 4, none)
    ∷ (at 5, none)
    ∷ (at 6, none)
    ∷ (at 7, none)
    ∷ []

answered_in_seven_example : steps_left (run sale meets (Phase.inserting 1)) ≡ 0
answered_in_seven_example = answered_in_seven sale meets (omega arith)

-- A claim of the same sale, two minutes old.
abbrev stale : IdempotencyKey
stale = new_row sale (at 1_000)

abbrev throwing : Chance
throwing = record (at 130_000) { outcome = none }
