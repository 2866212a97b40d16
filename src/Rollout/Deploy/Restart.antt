-- ===== src/Rollout/Deploy/Restart.antt =====
-- deploy/rollout.go: what a rolling restart leaves of the job's allocations.
use kive.Prelude.{
  ℕ, ◌≤◌, ◌≡◌, refl, sym, ◌∙◌, Bool, Option, some, List, [], ◌∷◌, arith, Text, ltb, if◌then◌else◌,
  has, Unique, text_key, length,
}
use mathlib.Core.Path.{subst}
use kive.Kv.{Store}
use kive.Rollout.Batches.{
  effective_batch_size, effective_batch_size_range, split_worker_batches, split_worker_batches_lem,
  Bounded,
}
use kive.Rollout.Order.{ResolvedOrder, resolve_order}
use kive.Rollout.Order.Members.{Covers, resolve_order-Covers}
use kive.Rollout.Deploy.{
  Allocations, Answers, Settings, run_batches, batch_loop, active_workers, restart_active,
  rollout_restart_batches,
}
use kive.Rollout.Deploy.Batch.{Present}
use kive.Rollout.Deploy.Outcome.{RolledOut, run_batches-RolledOut, no_workers}

restart_active_lem :
    (store : Option Store) (catalog : Option (List Text)) (job : Text) (answers : Answers)
    (force : Bool) (settings : Settings) (active : List Text) (rows : Allocations)
    (r : ResolvedOrder) (n hard_cap : ℕ)
    → resolve_order store catalog job active ≡ some r
    → settings.max_concurrent ≡ some n
    → settings.max_syncs ≡ some hard_cap
    → Covers active (some r)
    → restart_active store catalog job answers force settings active rows
      ≡ run_batches answers force (if ltb n 1 then 1 else n) hard_cap r.ordered rows
unfolding restart_active batch_loop has
restart_active_lem store catalog job answers force settings [] rows r n hard_cap e en ec (u, same) =
    rw (no_workers r.ordered same) refl
restart_active_lem store catalog job answers force settings (c ∷ cs) rows r n hard_cap e en ec v =
    rw (e, en, ec, restart_active) refl

rollout_restart_batches_lem :
    (store : Option Store) (catalog : Option (List Text)) (job : Text) (answers : Answers)
    (force : Bool) (settings : Settings) (candidates active : List Text) (rows : Allocations)
    → active_workers settings.is_active candidates ≡ some active
    → rollout_restart_batches store catalog job answers force settings candidates rows
      ≡ restart_active store catalog job answers force settings active rows
unfolding rollout_restart_batches restart_active active_workers
rollout_restart_batches_lem store catalog job answers force settings [] [] rows e = refl
rollout_restart_batches_lem store catalog job answers force settings [] (c ∷ cs) rows e =
    absurd (ground arith)
rollout_restart_batches_lem store catalog job answers force settings (c ∷ cs) active rows e =
    rw (e, rollout_restart_batches) refl

Bounded-le : (m n : ℕ) (batches : List (List Text)) → m ≤ n → Bounded m batches → Bounded n batches
Bounded-le m n [] h b = tt
Bounded-le m n (x ∷ xs) h (some_in, fits, b) = (some_in, omega arith, Bounded-le m n xs h b)

requested_bound :
    (requested hard_cap : ℕ) (ordered : List Text)
    → 1 ≤ requested
    → Bounded requested
        (split_worker_batches ordered (effective_batch_size requested (length ordered) hard_cap))
unfolding split_worker_batches
requested_bound requested hard_cap [] positive = tt
requested_bound requested hard_cap (x ∷ xs) positive =
    let ordered = x ∷ xs in
    let size = effective_batch_size requested (length ordered) hard_cap in
    let range = effective_batch_size_range requested (length ordered) hard_cap (omega arith) in
    Bounded-le (if ltb size 1 then length ordered else size) requested
      (split_worker_batches ordered size) (ground (arith, range))
      (split_worker_batches_lem ordered size).1

-- A rolling restart, under the conditions of a start, leaves of its batches what a start leaves of
-- them: all promoted, or with an error those before the failing batch promoted, that batch as before
-- or promoted and marked, and those after it not touched. None of its batches has more workers than
-- the job lets restart at once, and where the job lets fewer than one, each has one worker.
pub rollout_restart_batches-RolledOut :
    (store : Option Store) (catalog : List Text) (job : Text) (answers : Answers) (force : Bool)
    (settings : Settings) (candidates active : List Text) (rows : Allocations) (r : ResolvedOrder)
    (n hard_cap : ℕ)
    → Unique catalog
    → Present active rows
    → active_workers settings.is_active candidates ≡ some active
    → resolve_order store (some catalog) job active ≡ some r
    → settings.max_concurrent ≡ some n
    → settings.max_syncs ≡ some hard_cap
    → RolledOut answers force active
        (split_worker_batches r.ordered
          (effective_batch_size (if ltb n 1 then 1 else n) (length r.ordered) hard_cap))
        rows
        (rollout_restart_batches store (some catalog) job answers force settings candidates rows)
      × Bounded (if ltb n 1 then 1 else n) (
          split_worker_batches r.ordered
            (effective_batch_size (if ltb n 1 then 1 else n) (length r.ordered) hard_cap))
rollout_restart_batches-RolledOut store catalog job answers force settings candidates active rows r
      n hard_cap u p ea e en ec =
    let covers : Covers active (some r) =
      subst (λ x. Covers active x) e (resolve_order-Covers store catalog job active u) in
    let same =
      rollout_restart_batches_lem store (some catalog) job answers force settings candidates active
        rows ea
      ∙ restart_active_lem store (some catalog) job answers force settings active rows r n hard_cap
          e en ec covers in
    let most = if ltb n 1 then 1 else n in
    let size = effective_batch_size most (length r.ordered) hard_cap in
    (
      subst (λ x. RolledOut answers force active (split_worker_batches r.ordered size) rows x)
          (sym same) (run_batches-RolledOut answers force most hard_cap active rows r covers p),
      requested_bound most hard_cap r.ordered (ground arith),
    )
