-- ===== src/Rollout/Deploy/Samples.antt =====
-- Runs of a rolling deploy.
use kive.Prelude.{
  ◌≡◌, not, join, refl, true, false, none, some, List, [], ◌∷◌, arith, Text, codes, ◌==◌, get, has,
  Unique, text_key, nat_key, list_discrete, Bool-cases, inl, inr,
}
use kive.Rollout.Hashes.{Allocation}
use kive.Rollout.Batches.{effective_batch_size, split_worker_batches, Bounded}
use kive.Rollout.Order.{
  ResolvedOrder, default, resolve_order, default_catalog_order, keep_candidates, append_unlisted,
  read_rollout_order_kv,
}
use kive.Rollout.Deploy.{
  Allocations, Answers, Settings, active_workers, rollout_start_batches, rollout_restart_batches,
}
use kive.Rollout.Deploy.Batch.{Present}
use kive.Rollout.Deploy.Outcome.{RolledOut, rollout_start_batches-RolledOut}
use kive.Rollout.Deploy.Restart.{rollout_restart_batches-RolledOut}

abbrev a1 : Text
a1 = codes "10.0.0.1"

abbrev a2 : Text
a2 = codes "10.0.0.2"

abbrev a3 : Text
a3 = codes "10.0.0.3"

abbrev workers : List Text
workers = a1 ∷ a2 ∷ []

abbrev staged : Allocation
staged = record {
  version = some (codes "1.0.0");
  disabled = false;
  hashes = some (record {
    pending_hash = some (codes "9e107d9d");
    applied_hash = none;
    applied_version = some (codes "0.0.0");
  });
  files = [];
}

abbrev rows : Allocations
rows = (a1, staged) ∷ (a2, staged) ∷ []

-- The health check after the second batch fails.
abbrev answers : Answers
answers = record {
  healthy_before = λ index. true;
  cancelled = λ index. false;
  works = λ index ip. true;
  hooks_pass = λ index. true;
  healthy_after = λ index. index == 0;
}

workers-Unique : Unique workers
unfolding has list_discrete
workers-Unique = (refl, (refl, tt))

both-Present : (p q : Text) (a b : Allocation) → Present (p ∷ q ∷ []) ((p, a) ∷ (q, b) ∷ [])
unfolding has get
both-Present p q a b ip h = elim (Bool-cases (p == ip)) [
  | inl e ↦ (a, ground arith)
  | inr e ↦ (b, ground arith)
]

abbrev settings : Settings
settings = record {
  is_active = λ ip. some (not (ip == a3));
  max_concurrent = some 0;
  max_syncs = some 1;
}

active_are_workers : active_workers settings.is_active (a1 ∷ a2 ∷ a3 ∷ []) ≡ some workers
unfolding active_workers list_discrete
active_are_workers = refl

abbrev resolved : ResolvedOrder
resolved = record {
  ordered = workers;
  full_order = join (codes ",") workers;
  source = some default;
}

in_catalog_order : resolve_order none (some workers) (codes "web") workers ≡ some resolved
unfolding resolve_order default_catalog_order keep_candidates append_unlisted has list_discrete
    read_rollout_order_kv
in_catalog_order = refl

rollout_start_batches-RolledOut_example :
    RolledOut answers false workers
      (split_worker_batches workers (effective_batch_size 0 2 1))
      rows
      (rollout_start_batches none
        (some workers)
        (codes "web")
        answers
        false
        settings
        (a1 ∷ a2 ∷ a3 ∷ [])
        rows)
rollout_start_batches-RolledOut_example =
    rollout_start_batches-RolledOut none workers (codes "web") answers false settings
      (a1 ∷ a2 ∷ a3 ∷ []) workers rows resolved 0 1 workers-Unique
      (both-Present a1 a2 staged staged) active_are_workers in_catalog_order refl refl

rollout_restart_batches-RolledOut_example :
    RolledOut answers true workers
      (split_worker_batches workers (effective_batch_size 1 2 1))
      rows
      (rollout_restart_batches none
        (some workers)
        (codes "web")
        answers
        true
        settings
        (a1 ∷ a2 ∷ a3 ∷ [])
        rows)
    × Bounded 1 (split_worker_batches workers (effective_batch_size 1 2 1))
rollout_restart_batches-RolledOut_example =
    rollout_restart_batches-RolledOut none workers (codes "web") answers true settings
      (a1 ∷ a2 ∷ a3 ∷ []) workers rows resolved 0 1 workers-Unique
      (both-Present a1 a2 staged staged) active_are_workers in_catalog_order refl refl
