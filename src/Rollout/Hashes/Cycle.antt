-- ===== src/Rollout/Hashes/Cycle.antt =====
-- The cycle of data/hash_allocation.go: plan, promote, fail, and what the next deploy makes of it.
use kive.Prelude.{
  ◌≡◌, ◌≢◌, refl, false, not, ◌&&◌, some, [], arith, Text, ◌==◌, text_key, list_discrete,
  Option-cases, Bool-cases, inl, inr,
}
use kive.Rollout.Hashes.{
  Allocation, HashRow, FileManifest, coalesce, default_version, health_failed,
  update_allocation_plan, promote_allocation_state, mark_allocation_health_failed, is_live,
  needs_rollout,
}

-- The allocation has a row in `allocation_hashes`, with `hash` staged.
abbrev Staged : Text → Allocation → Type 0
Staged hash a = (h : HashRow) × (a.hashes ≡ some h) × (h.pending_hash ≡ some hash)

plan-Staged :
    (hash : Text) (m : FileManifest) (a : Allocation)
    → hash ≢ []
    → Staged hash (update_allocation_plan hash m a)
unfolding update_allocation_plan
plan-Staged hash m a filled = elim (Option-cases a.hashes) [
  | inl e ↦ rw (e, update_allocation_plan) (_, refl, refl)
  | inr (h, e) ↦ elim (Bool-cases (coalesce h.pending_hash [] == hash)) [
    | inl same ↦ (h, ground arith, ground arith)
    | inr other ↦ (record h { pending_hash = some hash }, ground arith, refl)
  ]
]

promote_lem :
    (hash : Text) (a : Allocation)
    → Staged hash a
    → Staged hash (promote_allocation_state a)
      × (needs_rollout (promote_allocation_state a) ≡ false)
      × (is_live (promote_allocation_state a) ≡ (not (hash == []) && not (hash == health_failed)))
unfolding needs_rollout promote_allocation_state is_live
promote_lem hash a (h, e, p) =
    let h' : HashRow = record h {
      applied_hash = h.pending_hash;
      applied_version = some (coalesce a.version default_version);
    } in
    ((h', ground arith, p), ground arith, ground arith)

-- An allocation that was planned and promoted needs no rollout, and is live unless its hash is the
-- mark of a failed health check. (A plan's hash is a digest, never empty.)
pub promote-plan :
    (hash : Text) (m : FileManifest) (a : Allocation)
    → hash ≢ []
    → (needs_rollout (promote_allocation_state (update_allocation_plan hash m a)) ≡ false)
      × (is_live (promote_allocation_state (update_allocation_plan hash m a))
          ≡ not (hash == health_failed))
promote-plan hash m a filled =
    let (st, done, live) =
      promote_lem hash (update_allocation_plan hash m a) (plan-Staged hash m a filled) in
    (done, ground arith)

plan_of_promoted :
    (hash next : Text) (m : FileManifest) (a : Allocation)
    → Staged hash a
    → needs_rollout (update_allocation_plan next m (promote_allocation_state a))
      ≡ not (hash == next)
unfolding needs_rollout promote_allocation_state update_allocation_plan
plan_of_promoted hash next m a (h, e, p) = ground arith

-- After a promotion, a plan makes the allocation need a rollout exactly when it stages another hash.
pub plan-promote :
    (hash next : Text) (m m' : FileManifest) (a : Allocation)
    → hash ≢ []
    → needs_rollout (
        update_allocation_plan next m' (promote_allocation_state (update_allocation_plan hash m a)))
      ≡ not (hash == next)
plan-promote hash next m m' a filled =
    plan_of_promoted hash next m' (update_allocation_plan hash m a) (plan-Staged hash m a filled)

needs_rollout_lem :
    (a : Allocation) (h : HashRow) (hash applied : Text)
    → a.hashes ≡ some h
    → h.pending_hash ≡ some hash
    → h.applied_hash ≡ some applied
    → h.applied_version ≡ some (coalesce a.version default_version)
    → needs_rollout a ≡ not (applied == hash)
unfolding needs_rollout
needs_rollout_lem a h hash applied e p q v = ground arith

mark_lem :
    (hash : Text) (a : Allocation)
    → Staged hash a
    → (is_live (mark_allocation_health_failed (promote_allocation_state a)) ≡ false)
      × (needs_rollout (mark_allocation_health_failed (promote_allocation_state a))
          ≡ not (health_failed == hash))
unfolding promote_allocation_state is_live mark_allocation_health_failed
mark_lem hash a (h, e, p) =
    let h' : HashRow = record h {
      applied_hash = some health_failed;
      applied_version = some (coalesce a.version default_version);
    } in
    let b : Allocation = mark_allocation_health_failed (promote_allocation_state a) in
    let row : b.hashes ≡ some h' = rw e refl in
    (rw e (unfold list_discrete in refl), needs_rollout_lem b h' hash health_failed row p refl refl)

-- An allocation whose health check fails after its promotion is not live, and the next deploy takes
-- it up again, unless its content hash is the mark itself.
pub health_failed_retried :
    (hash : Text) (m : FileManifest) (a : Allocation)
    → hash ≢ []
    → (is_live (
          mark_allocation_health_failed
            (promote_allocation_state (update_allocation_plan hash m a)))
        ≡ false)
      × (needs_rollout (
            mark_allocation_health_failed
              (promote_allocation_state (update_allocation_plan hash m a)))
          ≡ not (health_failed == hash))
health_failed_retried hash m a filled =
    mark_lem hash (update_allocation_plan hash m a) (plan-Staged hash m a filled)
