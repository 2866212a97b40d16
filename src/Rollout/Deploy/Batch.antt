-- ===== src/Rollout/Deploy/Batch.antt =====
-- deploy/rollout.go and deploy/hashes.go: what one batch of a rolling deploy changes.
use kive.Prelude.{
  ℕ, ◌≡◌, refl, Bool, true, false, ◌&&◌, ◌||◌, Option, none, some, List, [], ◌∷◌, arith, Text,
  if◌then◌else◌, get, put, has, get-put, Unique, text_key, Bool-cases, inl, inr,
}
use kive.Rollout.Hashes.{Allocation, promote_allocation_state, mark_allocation_health_failed}
use kive.Rollout.Deploy.{
  DeployError, post_batch_health, Allocations, Answers, update_workers, promote_allocation_workers,
  mark_allocation_workers_health_failed, promote_then_health, run_batch, run_parallel_workers,
}

-- Every worker has an allocation.
abbrev pub Present : List Text → Allocations → Type 0
Present ips rows = (ip : Text) → has ip ips ≡ true → (a : Allocation) × (get ip rows ≡ some a)

abbrev pub on : (Allocation → Allocation) → Option Allocation → Option Allocation
on f none = none
on f (some a) = some (f a)

-- `rows'` is `rows` with the allocations of `ips` changed by `f`.
abbrev pub Updated : (Allocation → Allocation) → List Text → Allocations → Allocations → Type 0
Updated f ips rows rows' =
    (j : Text) → get j rows' ≡ (if has j ips then on f (get j rows) else get j rows)

update_workers_step :
    (f : Allocation → Allocation) (ip : Text) (ips : List Text) (rows : Allocations)
    (a : Allocation)
    → get ip rows ≡ some a
    → update_workers f (ip ∷ ips) rows ≡ update_workers f ips (put ip (f a) rows)
unfolding update_workers
update_workers_step f ip ips rows a e = rw (e, update_workers) refl

update_workers_lem :
    (f : Allocation → Allocation) (ips : List Text) (rows : Allocations)
    → Unique ips
    → Present ips rows
    → ((update_workers f ips rows).1 ≡ true) × Updated f ips rows (update_workers f ips rows).0
unfolding update_workers has
update_workers_lem f [] rows u p = (refl, λ j. refl)
update_workers_lem f (ip ∷ ips) rows (new, u) p =
    let (a, e) = p ip (ground arith) in
    let (found, updated) =
      update_workers_lem f ips (put ip (f a) rows) u
        (λ j h. let (b, eb) = p j (ground arith) in (b, ground (arith, get-put ip j (f a) rows))) in
    rw (update_workers_step f ip ips rows a e)
      (found, λ j. (ground (arith, updated j, get-put ip j (f a) rows)))

pub Updated-Present :
    (f : Allocation → Allocation) (ips others : List Text) (rows rows' : Allocations)
    → Updated f ips rows rows'
    → Present others rows
    → Present others rows'
Updated-Present f ips others rows rows' up p j h =
    let (a, e) = p j h in
    elim (Bool-cases (has j ips)) [
      | inl changed ↦ (f a, ground (arith, up j))
      | inr same ↦ (a, ground (arith, up j))
    ]

abbrev pub is_post : Option DeployError → Bool
is_post none = false
is_post (some post_batch_health) = true
is_post (some e) = false

-- The allocations after a deploy that finished `finished` and failed in `failing`.
abbrev pub After : List Text → List Text → Option DeployError → Allocations → Allocations → Type 0
After finished failing e rows rows' =
    (j : Text)
    → get j rows' ≡ (
        if has j finished
        then on promote_allocation_state (get j rows)
        else if has j failing && is_post e
        then on mark_allocation_health_failed (on promote_allocation_state (get j rows))
        else get j rows)

abbrev pub Batched : List Text → Allocations → Allocations × Option DeployError → Type 0
Batched batch rows (rows', none) = Updated promote_allocation_state batch rows rows'
Batched batch rows (rows', some e) = After [] batch (some e) rows rows'

promote_then_health_lem :
    (health : Bool) (batch : List Text) (rows : Allocations)
    → Unique batch
    → Present batch rows
    → Batched batch rows (promote_then_health health batch rows)
unfolding promote_then_health promote_allocation_workers mark_allocation_workers_health_failed has
promote_then_health_lem health batch rows u p =
    let promoted = update_workers promote_allocation_state batch rows in
    let (found, up) = update_workers_lem promote_allocation_state batch rows u p in
    let (marks, up') =
      update_workers_lem mark_allocation_health_failed batch promoted.0 u
        (Updated-Present promote_allocation_state batch batch rows promoted.0 up p) in
    elim (Bool-cases health) [
      | inl good ↦ rw (good, found) up
      | inr bad ↦ rw (bad, found) (λ j. ground (arith, up j, up' j))
    ]

pub run_batch_lem :
    (answers : Answers) (force : Bool) (index : ℕ) (batch : List Text) (rows : Allocations)
    → Unique batch
    → Present batch rows
    → Batched batch rows (run_batch answers force index batch rows)
unfolding run_batch has
run_batch_lem answers force index batch rows u p =
    elim (Bool-cases (force || answers.healthy_before index)) [
      | inr sick ↦ rw sick (λ j. ground arith)
      | inl fine ↦
          elim (Bool-cases
            (run_parallel_workers (answers.cancelled index) (answers.works index) batch)) [
              | inr broken ↦ rw (fine, broken) (λ j. ground arith)
              | inl work ↦ elim (Bool-cases (answers.hooks_pass index)) [
                | inr fails ↦ rw (fine, work, fails) (λ j. ground arith)
                | inl pass ↦
                    rw (fine, work, pass)
                      (promote_then_health_lem (answers.healthy_after index) batch rows u p)
              ]
            ]
    ]
