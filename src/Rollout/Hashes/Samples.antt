-- ===== src/Rollout/Hashes/Samples.antt =====
-- Runs of the hashes of an allocation.
use kive.Prelude.{
  has, ◌↔◌, arith, ◌≡◌, ◌≢◌, refl, true, false, not, none, some, [], ◌∷◌, Text, codes, ◌==◌,
  text_key, list_discrete, ℕ_discrete, get, Distinct,
}
use kive.Rollout.Hashes.{
  diff_file_manifests, Allocation, FileManifest, health_failed, default_version,
  update_allocation_plan, promote_allocation_state, mark_allocation_health_failed, is_live,
  needs_rollout, applied_manifest,
}
use kive.Rollout.Hashes.Cycle.{promote-plan, plan-promote, health_failed_retried}
use kive.Rollout.Hashes.Diff.{diff_file_manifests_iff}
use kive.Rollout.Hashes.Files.{applied_manifest-promote, needs_staging}

abbrev digest : Text
digest = codes "9e107d9d"

abbrev next_digest : Text
next_digest = codes "e4d909c2"

abbrev fresh : Allocation
fresh = record { version = some default_version; disabled = false; hashes = none; files = [] }

abbrev planned : FileManifest
planned = (codes "run.sh", codes "aa") ∷ (codes "app.conf", codes "bb") ∷ []

-- An allocation that runs a file the plan no longer has.
abbrev running : Allocation
running = record {
  version = some (codes "1.2.0");
  disabled = false;
  hashes = some (record {
    pending_hash = some next_digest;
    applied_hash = some next_digest;
    applied_version = some (codes "1.1.0");
  });
  files =
      (codes "old.sh", record { pending = some (codes "cc"); applied = some (codes "cc") }) ∷ [];
}

not_empty : digest ≢ []
not_empty = ground arith

promote-plan_example :
    (needs_rollout (promote_allocation_state (update_allocation_plan digest planned running))
      ≡ false)
    × (is_live (promote_allocation_state (update_allocation_plan digest planned running))
        ≡ not (digest == health_failed))
promote-plan_example = promote-plan digest planned running not_empty

plan-promote_example :
    needs_rollout (
      update_allocation_plan next_digest planned
        (promote_allocation_state (update_allocation_plan digest planned fresh)))
    ≡ not (digest == next_digest)
plan-promote_example = plan-promote digest next_digest planned planned fresh not_empty

health_failed_retried_example :
    (is_live (
        mark_allocation_health_failed
          (promote_allocation_state (update_allocation_plan digest planned running)))
      ≡ false)
    × (needs_rollout (
          mark_allocation_health_failed
            (promote_allocation_state (update_allocation_plan digest planned running)))
        ≡ not (health_failed == digest))
health_failed_retried_example = health_failed_retried digest planned running not_empty

planned-Distinct : Distinct planned
unfolding get list_discrete ℕ_discrete
planned-Distinct = (refl, (refl, tt))

running-Distinct : Distinct running.files
unfolding get list_discrete
running-Distinct = (refl, tt)

stages_anew : needs_staging digest running ≡ true
unfolding list_discrete
stages_anew = refl

applied_manifest-promote_example :
    get
      (codes "old.sh")
      (applied_manifest (promote_allocation_state (update_allocation_plan digest planned running)))
    ≡ get (codes "old.sh") planned
applied_manifest-promote_example =
    applied_manifest-promote digest planned running (codes "old.sh") planned-Distinct
      running-Distinct stages_anew

abbrev before : FileManifest
before = (codes "run.sh", codes "aa") ∷ (codes "old.sh", codes "cc") ∷ []

diff_file_manifests_iff_example :
    (has (codes "old.sh") (diff_file_manifests before planned) ≡ true)
    ↔ (get (codes "old.sh") before ≢ get (codes "old.sh") planned)
diff_file_manifests_iff_example =
    diff_file_manifests_iff before planned (codes "old.sh") planned-Distinct
