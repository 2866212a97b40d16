-- ===== src/Semaphore/Samples.antt =====
-- Runs of the semaphores of hooks/runtime_semaphore.go.
use kive.Prelude.{
  ◌≡◌, ◌↔◌, ◌⊎◌, refl, true, false, none, some, List, [], ◌∷◌, Text, codes, get, put, has, insert,
  delete, text_key, ℕ_discrete, list_discrete,
}
use kive.Prelude.Int.{pos}
use kive.Semaphore.{
  JobSemaphore, Waiter, Coordinator, new_coordinator, finish_acquire, notified, timed_out,
  context_done, release, acquire, acquire_capacity, register_wait, register_in,
}
use kive.Semaphore.Steps.{
  IsSafe, Call, acquires, releases, run, step, run-IsSafe, step_elsewhere, holds, release_iff,
  release-hands_over,
}
use kive.Semaphore.Channels.{cancel_after_grant_keeps_holder}

abbrev scope : Text
scope = codes "db/start/lock"

abbrev first : Text
first = codes "a1"

abbrev second : Text
second = codes "a2"

-- `a1` holds the only slot and `a2` waits for it.
abbrev calls : List Call
calls = acquires scope first (pos 0) ∷ acquires scope second (pos 1) ∷ []

abbrev contended : Coordinator
contended = run new_coordinator calls

abbrev waiter : Waiter
waiter = record { allocation_id = second; notify = 0 }

abbrev locked : JobSemaphore
locked = record { capacity = 1; holders = first ∷ []; waiters = waiter ∷ [] }

contended_run : get scope contended.semaphores ≡ some locked
unfolding run acquire acquire_capacity register_wait register_in get put ℕ_discrete list_discrete
    has insert
contended_run = refl

run-IsSafe_example : IsSafe contended
run-IsSafe_example = run-IsSafe calls

step_elsewhere_example :
    get (codes "x") (step contended (releases scope first)).semaphores
    ≡ get (codes "x") contended.semaphores
unfolding list_discrete
step_elsewhere_example = step_elsewhere contended (releases scope first) (codes "x") (λ e. cc)

release_iff_example :
    (((release contended scope second).1 ≡ none) ↔ (holds contended scope second ≡ true))
    × (((release contended scope second).1 ≡ none)
        ⊎ ((release contended scope second).0 ≡ contended))
release_iff_example = release_iff contended scope second

held : has first locked.holders ≡ true
unfolding has list_discrete
held = refl

not_held : has second locked.holders ≡ false
unfolding has list_discrete
not_held = refl

release-hands_over_example :
    (get scope (release contended scope first).0.semaphores
      ≡ some (record {
        capacity = 1;
        holders = insert second (delete first (first ∷ []));
        waiters = [];
      }))
    × ((release contended scope first).0.closed ≡ 0 ∷ contended.closed)
release-hands_over_example =
    release-hands_over contended scope first locked waiter [] (run-IsSafe calls) contended_run held
      not_held refl

cancel_after_grant_keeps_holder_example :
    (finish_acquire (release contended scope first).0 scope 0 notified
      ≡ some ((release contended scope first).0, none))
    × ((c : Coordinator) × (finish_acquire (release contended scope first).0 scope 0 timed_out
          ≡ some (c, some context_done))
        × (get scope c.semaphores ≡ get scope (release contended scope first).0.semaphores)
        × (holds c scope second ≡ true))
cancel_after_grant_keeps_holder_example =
    cancel_after_grant_keeps_holder calls scope first locked waiter [] contended_run held not_held
      refl
