-- ===== src/Rollout/Deploy/Outcome.antt =====
-- deploy/rollout.go: what a rolling deploy leaves of the job's allocations.
use kive.Prelude.{
  ℕ, ◌/◌, ◌≡◌, refl, sym, ◌∙◌, ap, Bool, false, Option, some, List, [], ◌∷◌, arith, Text, ltb, has,
  Unique, text_key, length,
}
use mathlib.Core.Path.{subst}
use native.Mathlib.Nat.{div-eq_of_lt}
use kive.Kv.{Store}
use kive.Rollout.Batches.{
  effective_batch_size, effective_batch_size_range, split_worker_batches, split_loop, concat,
  split_worker_batches_lem,
}
use kive.Rollout.Order.{ResolvedOrder, resolve_order}
use kive.Rollout.Order.Members.{Covers, resolve_order-Covers}
use kive.Rollout.Deploy.{
  Allocations, Answers, Settings, DeployError, run_batches, batch_loop, active_workers,
  start_active, rollout_start_batches,
}
use kive.Rollout.Deploy.Batch.{Present}
use kive.Rollout.Deploy.Progress.{Ended, batch_loop-Ended}

-- The batches hold the active workers, each once, and the deploy took them up one after the other.
abbrev pub RolledOut :
    Answers
    → Bool
    → List Text
    → List (List Text)
    → Allocations
    → Allocations × Option DeployError
    → Type 0
RolledOut answers force active batches rows r =
    Unique (concat batches)
    × ((ip : Text) → has ip (concat batches) ≡ has ip active)
    × Ended answers force 0 batches rows r

run_batches-Ended :
    (answers : Answers) (force : Bool) (parallelism hard_cap : ℕ) (ordered : List Text)
    (rows : Allocations)
    → Unique ordered
    → Present ordered rows
    → Ended answers force 0
        (split_worker_batches ordered (effective_batch_size parallelism (length ordered) hard_cap))
        rows
        (run_batches answers force parallelism hard_cap ordered rows)
unfolding batch_loop split_worker_batches has
run_batches-Ended answers force parallelism hard_cap [] rows u p = λ j. refl
run_batches-Ended answers force parallelism hard_cap (x ∷ xs) rows u p =
    let ordered = x ∷ xs in
    let size = effective_batch_size parallelism (length ordered) hard_cap in
    let range = effective_batch_size_range parallelism (length ordered) hard_cap (omega arith) in
    let set : ltb size 1 ≡ false = ground arith in
    let first : 0 / size ≡ 0 = div-eq_of_lt {n = 0} {m = size} (omega arith) in
    rw set (
      subst
        (λ k.
          Ended answers force k (split_loop (length ordered) ordered size 0) rows
            (batch_loop answers force (length ordered) ordered size 0 rows))
        first
        (batch_loop-Ended answers force (length ordered) ordered size 0 rows range.0 (omega arith) u
          p))

pub run_batches-RolledOut :
    (answers : Answers) (force : Bool) (parallelism hard_cap : ℕ) (active : List Text)
    (rows : Allocations) (r : ResolvedOrder)
    → Covers active (some r)
    → Present active rows
    → RolledOut answers force active
        (split_worker_batches r.ordered
          (effective_batch_size parallelism (length r.ordered) hard_cap))
        rows
        (run_batches answers force parallelism hard_cap r.ordered rows)
run_batches-RolledOut answers force parallelism hard_cap active rows r (u, same) p =
    let size = effective_batch_size parallelism (length r.ordered) hard_cap in
    let all : concat (split_worker_batches r.ordered size) ≡ r.ordered =
      (split_worker_batches_lem r.ordered size).0 in
    (
      subst (λ x. Unique x) (sym all) u,
      (λ ip. ap (λ x. has ip x) all ∙ same ip),
      run_batches-Ended answers force parallelism hard_cap r.ordered rows u
          (λ ip h. p ip (sym (same ip) ∙ h)),
    )

pub no_workers : (xs : List Text) → ((ip : Text) → has ip xs ≡ false) → xs ≡ []
unfolding has
no_workers [] none_in = refl
no_workers (x ∷ xs) none_in = absurd (ground (arith, none_in x))

start_active_lem :
    (store : Option Store) (catalog : Option (List Text)) (job : Text) (answers : Answers)
    (force : Bool) (settings : Settings) (active : List Text) (rows : Allocations)
    (r : ResolvedOrder) (n hard_cap : ℕ)
    → resolve_order store catalog job active ≡ some r
    → settings.max_concurrent ≡ some n
    → settings.max_syncs ≡ some hard_cap
    → Covers active (some r)
    → start_active store catalog job answers force settings active rows
      ≡ run_batches answers force n hard_cap r.ordered rows
unfolding start_active batch_loop has
start_active_lem store catalog job answers force settings [] rows r n hard_cap e en ec (u, same) =
    rw (no_workers r.ordered same) refl
start_active_lem store catalog job answers force settings (c ∷ cs) rows r n hard_cap e en ec v =
    rw (e, en, ec, start_active) refl

rollout_start_batches_lem :
    (store : Option Store) (catalog : Option (List Text)) (job : Text) (answers : Answers)
    (force : Bool) (settings : Settings) (candidates active : List Text) (rows : Allocations)
    → active_workers settings.is_active candidates ≡ some active
    → rollout_start_batches store catalog job answers force settings candidates rows
      ≡ start_active store catalog job answers force settings active rows
unfolding rollout_start_batches start_active active_workers
rollout_start_batches_lem store catalog job answers force settings [] [] rows e = refl
rollout_start_batches_lem store catalog job answers force settings [] (c ∷ cs) rows e =
    absurd (ground arith)
rollout_start_batches_lem store catalog job answers force settings (c ∷ cs) active rows e =
    rw (e, rollout_start_batches) refl

-- A rolling start whose queries answer, of active candidates that have an allocation, each once in the
-- catalog. Its batches, of the effective size and in the resolved order, hold every active candidate
-- once. When it reports no error, every active candidate's allocation is promoted and no other is
-- changed. When it reports one, that is the error of one batch, run once the batches before it were
-- promoted: these stay promoted, the workers of that batch are as before or, after a failed health
-- check, promoted and marked, and the workers of the batches after it, as all others, are not touched.
pub rollout_start_batches-RolledOut :
    (store : Option Store) (catalog : List Text) (job : Text) (answers : Answers) (force : Bool)
    (settings : Settings) (candidates active : List Text) (rows : Allocations) (r : ResolvedOrder)
    (n hard_cap : ℕ)
    → Unique catalog
    → Present active rows
    → active_workers settings.is_active candidates ≡ some active
    → resolve_order store (some catalog) job active ≡ some r
    → settings.max_concurrent ≡ some n
    → settings.max_syncs ≡ some hard_cap
    → RolledOut answers force active
        (split_worker_batches r.ordered (effective_batch_size n (length r.ordered) hard_cap))
        rows
        (rollout_start_batches store (some catalog) job answers force settings candidates rows)
rollout_start_batches-RolledOut store catalog job answers force settings candidates active rows r n
      hard_cap u p ea e en ec =
    let covers : Covers active (some r) =
      subst (λ x. Covers active x) e (resolve_order-Covers store catalog job active u) in
    let same =
      rollout_start_batches_lem store (some catalog) job answers force settings candidates active
        rows ea
      ∙ start_active_lem store (some catalog) job answers force settings active rows r n hard_cap e
          en ec covers in
    let size = effective_batch_size n (length r.ordered) hard_cap in
    subst (λ x. RolledOut answers force active (split_worker_batches r.ordered size) rows x)
      (sym same) (run_batches-RolledOut answers force n hard_cap active rows r covers p)
