-- ===== src/Demands/Detect.antt =====
-- build/build_deployment_sequence.go: the check of the demands before the deployment sequence is written.
use kive.Prelude.{
  ◌≡◌, ◌↔◌, refl, ◌∙◌, fun_ext, ap, get, Bool, true, false, ◌||◌, List, [], Text, text_key, has,
  arith,
}
use mathlib.Core.Path.{subst}
use kive.Demands.{
  demands_of, names, Visit, passes, circular, out_of_fuel, VisitState, load_hook_dependencies,
  check_hook_dependencies,
}
use kive.Demands.Query.{in_rows}
use kive.Demands.Cycles.{IsCircle, IsOrder, no_circle_in_order}
use kive.Demands.Load.{has-demands_of-load, load_hook_dependencies-IsClosed, names-demands}
use kive.Demands.States.{demands, Visited}
use kive.Demands.Search.{detect-Visited, IsClosed}

-- The rows say that `n` demands `d`.
abbrev pub said_by : List (Text × Text) → Text → Text → Bool
said_by rows n d = in_rows n d rows

loaded : (rows : List (Text × Text)) → demands (load_hook_dependencies rows []) ≡ said_by rows
unfolding demands_of has get
loaded rows =
    fun_ext λ n. fun_ext λ d. has-demands_of-load n d rows [] ∙ or_false (in_rows n d rows)
  where
    or_false : (b : Bool) → (b || false) ≡ b
    or_false b = ground arith

-- An order of the jobs, the last one first, that has every job after the jobs that it demands.
pub record Orders (rows : List (Text × Text)) : Type 0 where
  pub jobs : List Text
  pub is_order : IsOrder (said_by rows) jobs
  pub covers : (n d : Text) → in_rows n d rows ≡ true → has n jobs ≡ true

-- What the check finds out about the rows.
abbrev pub Outcome : List (Text × Text) → Visit → Type 0
Outcome rows (passes st) = Orders rows
Outcome rows (circular c) = IsCircle (said_by rows) c
Outcome rows out_of_fuel = ⊥

empty_closed : IsClosed []
unfolding demands_of has get
empty_closed n d h = absurd (ground arith)

Visited-Outcome :
    (rows : List (Text × Text)) (r : Visit)
    → Visited (load_hook_dependencies rows []) [] [] (names (load_hook_dependencies rows [])) r
    → Outcome rows r
Visited-Outcome rows (passes st) (done, inv, grows, met) =
    let order = subst (λ e. IsOrder e done) (loaded rows) inv.order in
    record {
      jobs = done;
      is_order = order;
      covers = λ n d h.
          met n (
            names-demands n d (load_hook_dependencies rows []) (ap (λ e. e n d) (loaded rows) ∙ h));
    }
Visited-Outcome rows (circular c) circle = subst (λ e. IsCircle e c) (loaded rows) circle
Visited-Outcome rows out_of_fuel h = elim h [ ]

-- The check always ends, and its error names jobs of which each demands the next and that lead from a
-- job back to it; when it passes, the jobs have an order in which each comes after those that it demands.
pub check_hook_dependencies-Outcome :
    (rows : List (Text × Text)) → Outcome rows (check_hook_dependencies rows)
check_hook_dependencies-Outcome rows =
    let closed = load_hook_dependencies-IsClosed rows [] empty_closed in
    Visited-Outcome rows (check_hook_dependencies rows)
      (detect-Visited (load_hook_dependencies rows []) closed)

decide :
    (rows : List (Text × Text)) (r : Visit)
    → Outcome rows r
    → Orders rows
    → (st : Text → VisitState) × (r ≡ passes st)
decide rows (passes st) found o = (st, refl)
decide rows (circular c) circle o =
    absurd (no_circle_in_order (said_by rows) c o.jobs o.is_order o.covers circle)
decide rows out_of_fuel h o = elim h [ ]

-- The check of the demands passes exactly when the jobs have an order in which each one comes after the
-- jobs that it demands.
pub check_hook_dependencies_iff :
    (rows : List (Text × Text))
    → ((st : Text → VisitState) × (check_hook_dependencies rows ≡ passes st)) ↔ Orders rows
check_hook_dependencies_iff rows = (
  (λ (st, e). subst (Outcome rows) e (check_hook_dependencies-Outcome rows)),
  (λ o. decide rows (check_hook_dependencies rows) (check_hook_dependencies-Outcome rows) o),
)
