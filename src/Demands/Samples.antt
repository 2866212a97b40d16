-- ===== src/Demands/Samples.antt =====
-- Runs of the search for circles.
use kive.Demands.Query.{hook_seq, first_round, demand_rows}
use kive.Demands.Deployment.{all_above, deployment_seq_lem}
use kive.Prelude.{
  ℕ, some, ◌≡◌, ◌↔◌, refl, true, List, [], ◌∷◌, Text, codes, list_discrete, ℕ_discrete, get, put,
  has,
}
use kive.Demands.{
  Visit, VisitState, unseen, passes, circular, check_hook_dependencies, demands_of, ensure_entry,
  add_dependency, load_hook_dependencies, path_from, visit_all, visit_job, visit_jobs,
  detect_circular_hook_dependencies,
}
use kive.Demands.Detect.{
  Orders, Outcome, check_hook_dependencies-Outcome, check_hook_dependencies_iff,
}

abbrev chain : List (Text × Text)
chain = (codes "web", codes "db") ∷ (codes "db", codes "disk") ∷ []

abbrev circle : List (Text × Text)
circle = (codes "web", codes "db") ∷ (codes "db", codes "web") ∷ []

check_hook_dependencies_of_circle :
    check_hook_dependencies circle ≡ circular (codes "web" ∷ codes "db" ∷ codes "web" ∷ [])
unfolding list_discrete ℕ_discrete get put has demands_of ensure_entry add_dependency
    load_hook_dependencies path_from visit_all visit_job visit_jobs
    detect_circular_hook_dependencies
check_hook_dependencies_of_circle = refl

check_hook_dependencies-Outcome_example : Outcome circle (check_hook_dependencies circle)
check_hook_dependencies-Outcome_example = check_hook_dependencies-Outcome circle

check_hook_dependencies_iff_example :
    ((st : Text → VisitState) × (check_hook_dependencies chain ≡ passes st)) ↔ Orders chain
check_hook_dependencies_iff_example = check_hook_dependencies_iff chain

abbrev states_of : Visit → Text → VisitState
states_of (passes st) = st
states_of v = λ n. unseen

abbrev chain_jobs : List Text
chain_jobs = codes "web" ∷ codes "db" ∷ codes "disk" ∷ []

deployment_seq_lem_example :
    (f : ℕ) × (seq : List (Text × ℕ)) × (hook_seq f chain (first_round chain_jobs) ≡ some seq)
    × (all_above chain_jobs seq chain ≡ true)
unfolding list_discrete ℕ_discrete get put has demands_of ensure_entry add_dependency
    load_hook_dependencies path_from visit_all visit_job visit_jobs
    detect_circular_hook_dependencies demand_rows
deployment_seq_lem_example =
    deployment_seq_lem chain chain_jobs (states_of (check_hook_dependencies (demand_rows chain)))
      refl refl refl
