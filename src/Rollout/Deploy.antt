-- ===== src/Rollout/Deploy.antt =====
-- deploy/rollout.go and deploy/hashes.go: the loop of a rolling deploy over its batches. What the
-- workers, the hooks and the health checks answer in each batch is a parameter, as is what the queries
-- for the job's settings answer. The keys in the store that a promotion clears are left out.
pub mod Batch
pub mod Progress
pub mod Outcome
pub mod Restart
mod Samples
use kive.Prelude.{
  ℕ, zero, suc, ◌+◌, ◌-◌, ◌/◌, Bool, true, false, not, ◌&&◌, ◌||◌, Option, none, some, List, [],
  ◌∷◌, Text, ltb, leb, if◌then◌else◌, get, put, text_key, length,
}
use kive.Kv.{Store}
use kive.Rollout.Batches.{slice, effective_batch_size}
use kive.Rollout.Order.{ResolvedOrder, resolve_order}
use kive.Rollout.Hashes.{Allocation, promote_allocation_state, mark_allocation_health_failed}

pub data DeployError : Type 0 where
  active_failed order_failed concurrency_failed hard_cap_failed : DeployError
  pre_batch_health worker_failed hook_failed unknown_allocation post_batch_health : DeployError

-- The job's allocations, under their workers.
abbrev pub Allocations : Type 0
Allocations = List (Text × Allocation)

-- A loop over workers that changes the allocation of each; false is the error of `GetAllocationID`.
unfoldable pub update_workers :
    (Allocation → Allocation) → List Text → Allocations → Allocations × Bool
update_workers f [] rows = (rows, true)
update_workers f (ip ∷ ips) rows = elim (get ip rows) [
  | none ↦ (rows, false)
  | some a ↦ update_workers f ips (put ip (f a) rows)
]

unfoldable pub promote_allocation_workers : List Text → Allocations → Allocations × Bool
unfolding update_workers
promote_allocation_workers = update_workers promote_allocation_state

unfoldable pub mark_allocation_workers_health_failed : List Text → Allocations → Allocations × Bool
unfolding update_workers
mark_allocation_workers_health_failed = update_workers mark_allocation_health_failed

-- `health` is the answer of the check after the batch.
unfoldable pub promote_then_health :
    Bool → List Text → Allocations → Allocations × Option DeployError
unfolding promote_allocation_workers mark_allocation_workers_health_failed
promote_then_health health batch rows =
    let (promoted, found) = promote_allocation_workers batch rows in
    let (marked, marks) = mark_allocation_workers_health_failed batch promoted in
    if not found
    then (promoted, some unknown_allocation)
    else if health
    then (promoted, none)
    else (marked, some post_batch_health)

-- What the outside answers in the batch of an index.
pub record Answers : Type 0 where
  pub healthy_before : ℕ → Bool
  pub cancelled : ℕ → Bool
  pub works : ℕ → Text → Bool
  pub hooks_pass : ℕ → Bool
  pub healthy_after : ℕ → Bool

-- `joinErrors`, of the errors of the workers.
abbrev pub all_work : (Text → Bool) → List Text → Bool
all_work works [] = true
all_work works (ip ∷ ips) = works ip && all_work works ips

-- What `runParallelWorkers` returns: once the context is cancelled, an error whatever the workers that
-- were started did; otherwise all of them were.
abbrev pub run_parallel_workers : Bool → (Text → Bool) → List Text → Bool
run_parallel_workers cancelled works [] = true
run_parallel_workers cancelled works (ip ∷ ips) = not cancelled && all_work works (ip ∷ ips)

-- The body of the loop of `rolloutStartBatches` and `rolloutRestartBatches`.
unfoldable pub run_batch :
    Answers → Bool → ℕ → List Text → Allocations → Allocations × Option DeployError
unfolding promote_then_health
run_batch answers force index batch rows =
    if not (force || answers.healthy_before index)
    then (rows, some pre_batch_health)
    else if not (run_parallel_workers (answers.cancelled index) (answers.works index) batch)
    then (rows, some worker_failed)
    else if not (answers.hooks_pass index)
    then (rows, some hook_failed)
    else promote_then_health (answers.healthy_after index) batch rows

abbrev pub and_then_batches :
    Allocations × Option DeployError
    → (Allocations → Allocations × Option DeployError)
    → Allocations × Option DeployError
and_then_batches (rows, some e) next = (rows, some e)
and_then_batches (rows, none) next = next rows

-- `for i := 0; i < len(resolved.Ordered); i += batchSize`; the fuel counts its rounds.
unfoldable pub batch_loop :
    Answers → Bool → ℕ → List Text → ℕ → ℕ → Allocations → Allocations × Option DeployError
unfolding run_batch
batch_loop answers force zero ordered size i rows = (rows, none)
batch_loop answers force (suc f) ordered size i rows =
    let end = if ltb (length ordered) (i + size) then length ordered else i + size in
    let round =
      and_then_batches (run_batch answers force (i / size) (slice ordered i end) rows)
        (batch_loop answers force f ordered size (i + size)) in
    if ltb i (length ordered) then round else (rows, none)

-- `IsAllocationActive` answers whether a worker's allocation is active; `none` is its error.
unfoldable pub active_workers : (Text → Option Bool) → List Text → Option (List Text)
active_workers is_active [] = some []
active_workers is_active (ip ∷ ips) = elim (is_active ip) [
  | none ↦ none
  | some ok ↦ elim (active_workers is_active ips) [
    | none ↦ none
    | some active ↦ some (if ok then ip ∷ active else active)
  ]
]

-- What the queries of a rolling deploy answer, `none` where they fail: `IsAllocationActive`, the job's
-- `GetMaxConcurrentStarts` or `GetMaxConcurrentRestarts`, and `maxConcurrentSyncs`.
pub record Settings : Type 0 where
  pub is_active : Text → Option Bool
  pub max_concurrent : Option ℕ
  pub max_syncs : Option ℕ

abbrev pub run_batches :
    Answers → Bool → ℕ → ℕ → List Text → Allocations → Allocations × Option DeployError
run_batches answers force parallelism hard_cap ordered rows =
    batch_loop answers force (length ordered) ordered
      (effective_batch_size parallelism (length ordered) hard_cap) 0 rows

-- What a start does with its active candidates.
unfoldable pub start_active :
    Option Store
    → Option (List Text)
    → Text
    → Answers
    → Bool
    → Settings
    → List Text
    → Allocations
    → Allocations × Option DeployError
unfolding batch_loop
start_active store catalog job answers force settings [] rows = (rows, none)
start_active store catalog job answers force settings (c ∷ cs) rows =
    elim (resolve_order store catalog job (c ∷ cs)) [
      | none ↦ (rows, some order_failed)
      | some r ↦ elim settings.max_concurrent [
        | none ↦ (rows, some concurrency_failed)
        | some parallelism ↦ elim settings.max_syncs [
          | none ↦ (rows, some hard_cap_failed)
          | some hard_cap ↦ run_batches answers force parallelism hard_cap r.ordered rows
        ]
      ]
    ]

unfoldable pub rollout_start_batches :
    Option Store
    → Option (List Text)
    → Text
    → Answers
    → Bool
    → Settings
    → List Text
    → Allocations
    → Allocations × Option DeployError
unfolding start_active active_workers
rollout_start_batches store catalog job answers force settings [] rows = (rows, none)
rollout_start_batches store catalog job answers force settings (c ∷ cs) rows =
    elim (active_workers settings.is_active (c ∷ cs)) [
      | none ↦ (rows, some active_failed)
      | some active ↦ start_active store catalog job answers force settings active rows
    ]

-- What a restart does with its active candidates: it takes one worker at a time unless the job says
-- otherwise.
unfoldable pub restart_active :
    Option Store
    → Option (List Text)
    → Text
    → Answers
    → Bool
    → Settings
    → List Text
    → Allocations
    → Allocations × Option DeployError
unfolding batch_loop
restart_active store catalog job answers force settings [] rows = (rows, none)
restart_active store catalog job answers force settings (c ∷ cs) rows =
    elim (resolve_order store catalog job (c ∷ cs)) [
      | none ↦ (rows, some order_failed)
      | some r ↦ elim settings.max_concurrent [
        | none ↦ (rows, some concurrency_failed)
        | some n ↦
            let parallelism = if ltb n 1 then 1 else n in
            elim settings.max_syncs [
              | none ↦ (rows, some hard_cap_failed)
              | some hard_cap ↦ run_batches answers force parallelism hard_cap r.ordered rows
            ]
      ]
    ]

unfoldable pub rollout_restart_batches :
    Option Store
    → Option (List Text)
    → Text
    → Answers
    → Bool
    → Settings
    → List Text
    → Allocations
    → Allocations × Option DeployError
unfolding restart_active active_workers
rollout_restart_batches store catalog job answers force settings [] rows = (rows, none)
rollout_restart_batches store catalog job answers force settings (c ∷ cs) rows =
    elim (active_workers settings.is_active (c ∷ cs)) [
      | none ↦ (rows, some active_failed)
      | some active ↦ restart_active store catalog job answers force settings active rows
    ]
