-- ===== src/Demands.antt =====
-- build/build_deployment_sequence.go: which job demands which, and the search for a circle of demands.
-- The state that the source captures in a closure is passed on, and the fuel is the depth of the search.
pub mod Cycles
pub mod States
pub mod Search
pub mod Load
pub mod Query
pub mod Sequence
pub mod Rounds
pub mod Detect
pub mod Deployment
mod Samples
use kive.Prelude.{
  ℕ, zero, suc, Bool, true, false, Option, none, some, List, [], ◌∷◌, ◌++◌, map, Text, text_key,
  ◌==◌, if◌then◌else◌, get, put, length,
}

-- `dependencies`
abbrev pub Graph : Type 0
Graph = List (Text × List Text)

unfoldable pub demands_of : Text → Graph → List Text
demands_of job g = elim (get job g) [ none ↦ [] | some ds ↦ ds ]

abbrev pub names : Graph → List Text
names [] = []
names ((n, ds) ∷ g) = n ∷ names g

-- A job that is demanded has an entry, if only an empty one.
unfoldable pub ensure_entry : Text → Graph → Graph
ensure_entry d g = elim (get d g) [ none ↦ put d [] g | some ds ↦ g ]

unfoldable pub add_dependency : Text → Text → Graph → Graph
unfolding demands_of ensure_entry
add_dependency job d g = ensure_entry d (put job (demands_of job g ++ d ∷ []) g)

-- `loadHookDependencies`, of the rows (job, demand_job) of the query
unfoldable pub load_hook_dependencies : List (Text × Text) → Graph → Graph
unfolding add_dependency
load_hook_dependencies [] g = g
load_hook_dependencies ((job, d) ∷ rows) g = load_hook_dependencies rows (add_dependency job d g)

pub data VisitState : Type 0 where
  unseen visiting complete : VisitState

-- What a visit ends with: the states, or the jobs of a circle. The last is the model's own.
pub data Visit : Type 0 where
  passes : (Text → VisitState) → Visit
  circular : List Text → Visit
  out_of_fuel : Visit

abbrev pub then_visit : Visit → ((Text → VisitState) → Visit) → Visit
then_visit (passes st) f = f st
then_visit (circular c) f = circular c
then_visit out_of_fuel f = out_of_fuel

-- `visitState[job] = v`
abbrev pub mark : Text → VisitState → (Text → VisitState) → Text → VisitState
mark job v st n = if n == job then v else st n

-- `path[i:]` from the job on
unfoldable pub path_from : Text → List Text → List Text
path_from job [] = []
path_from job (n ∷ path) = let rest = path_from job path in if n == job then n ∷ path else rest

-- The loop over the jobs that a job demands.
unfoldable pub visit_all :
    (Text → (Text → VisitState) → Visit) → List Text → (Text → VisitState) → Visit
visit_all visit [] st = passes st
visit_all visit (d ∷ ds) st = then_visit (visit d st) (visit_all visit ds)

module _ (g : Graph) where
  unfoldable pub visit_job : ℕ → Text → List Text → (Text → VisitState) → Visit
  unfolding visit_all path_from demands_of
  visit_job zero job path st = out_of_fuel
  visit_job (suc f) job path st =
      let demanded =
        visit_all (λ d st'. visit_job f d (path ++ job ∷ []) st') (demands_of job g)
          (mark job visiting st) in
      elim (st job) [
        | complete ↦ passes st
        | visiting ↦ circular (path_from job path ++ job ∷ [])
        | unseen ↦ then_visit demanded (λ st'. passes (mark job complete st'))
      ]

  abbrev pub is_unseen : VisitState → Bool
  is_unseen unseen = true
  is_unseen v = false

  -- The loop over all jobs.
  unfoldable pub visit_jobs : ℕ → List Text → (Text → VisitState) → Visit
  unfolding visit_job
  visit_jobs f [] st = passes st
  visit_jobs f (job ∷ jobs) st =
      let visited = visit_job f job [] st in
      then_visit (if is_unseen (st job) then visited else passes st) (visit_jobs f jobs)

  unfoldable pub detect_circular_hook_dependencies : Visit
  unfolding visit_jobs
  detect_circular_hook_dependencies = visit_jobs (suc (length g)) (names g) (λ n. unseen)

-- The check in `BuildDeploymentSequence`.
abbrev pub check_hook_dependencies : List (Text × Text) → Visit
check_hook_dependencies rows = detect_circular_hook_dependencies (load_hook_dependencies rows [])
