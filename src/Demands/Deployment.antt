-- ===== src/Demands/Deployment.antt =====
-- build/build_deployment_sequence.go: `BuildDeploymentSequence`, the check and then the numbers.
use kive.Prelude.{
  ℕ, ◌+◌, ◌<◌, ◌≡◌, refl, sym, ◌∙◌, Bool, true, false, not, ◌&&◌, ◌||◌, some, List, [], ◌∷◌, arith,
  Text, text_key, nat_key, ◌==◌, has, length, ltb, Bool-cases, inl, inr,
}
use mathlib.Core.Path.{subst}
use kive.Demands.{passes, VisitState, check_hook_dependencies}
use kive.Demands.Query.{in_rows, demand_rows, hook_seq, first_round, deployment_seq}
use kive.Demands.Detect.{Outcome, Orders, said_by, check_hook_dependencies-Outcome}
use kive.Demands.Sequence.{has_entry, deployment_seq-demand}
use kive.Demands.Cycles.{IsOrder}
use kive.Demands.Rounds.{Round, Rows, hook_seq-some}

same_name : (n : Text) → (n == n) ≡ true
same_name n = ground arith

-- The row itself.
demand_row :
    (n d : Text) (hooks : List (Text × Text))
    → in_rows n d (demand_rows hooks) ≡ (not (d == []) && in_rows n d hooks)
    → in_rows n d (demand_rows ((n, d) ∷ hooks))
      ≡ (not (d == []) && ((n == n && d == d) || in_rows n d hooks))
unfolding demand_rows
demand_row n d hooks ih = elim (Bool-cases (d == [])) [
  | inl empty ↦ rw (empty, ih, empty) refl
  | inr named ↦ elim (Bool-cases (in_rows n d (demand_rows hooks))) [
    | inl already ↦ rw (named, already, already, same_name n, same_name d) refl
    | inr first ↦ rw (named, first, same_name n, same_name d) refl
  ]
]

in_rows-demand_rows :
    (n d : Text) (hooks : List (Text × Text))
    → in_rows n d (demand_rows hooks) ≡ (not (d == []) && in_rows n d hooks)
unfolding demand_rows
in_rows-demand_rows n d [] = ground arith
in_rows-demand_rows n d ((job, e) ∷ hooks) =
    let rest = demand_rows hooks in
    let ih = in_rows-demand_rows n d hooks in
    elim (Bool-cases (job == n && e == d)) [
      | inr other ↦ elim (Bool-cases (e == [] || in_rows job e rest)) [
        | inl left_out ↦ rw (left_out, other) ih
        | inr kept ↦ rw (kept, other) ih
      ]
      | inl here ↦
          let ej : job ≡ n = ground arith in
          let ee : e ≡ d = ground arith in rw (ej, ee) (demand_row n d hooks ih)
    ]

first_round-entry :
    (d : Text) (jobs : List Text) → has d jobs ≡ true → has_entry d 0 (first_round jobs) ≡ true
unfolding first_round has
first_round-entry d [] h = absurd (ground arith)
first_round-entry d (n ∷ jobs) h = ground (arith, first_round-entry d jobs)

row_here : (job d : Text) (hooks : List (Text × Text)) → in_rows job d ((job, d) ∷ hooks) ≡ true
row_here job d hooks = ground arith

row_there :
    (job d n e : Text) (hooks : List (Text × Text))
    → in_rows n e hooks ≡ true
    → in_rows n e ((job, d) ∷ hooks) ≡ true
row_there job d n e hooks h = ground arith

module _ (edge : Text → Text → Bool) (order : List Text) where
  rows-Rows :
      (hooks : List (Text × Text))
      → ((n d : Text) → in_rows n d hooks ≡ true → (n == []) ≡ false)
      → ((n d : Text) → in_rows n d hooks ≡ true → (d == []) ≡ false → edge n d ≡ true)
      → (o : IsOrder edge order) (c : (n d : Text) → edge n d ≡ true → has n order ≡ true)
      → Rows edge order o c hooks
  rows-Rows [] named said o c = tt
  rows-Rows ((job, d) ∷ hooks) named said o c = (
    named job d (row_here job d hooks),
    said job d (row_here job d hooks),
    rows-Rows hooks (λ n e h. named n e (row_there job d n e hooks h))
        (λ n e h. said n e (row_there job d n e hooks h)) o c,
  )

  first_round-Round :
      (jobs : List Text)
      → ((n : Text) → has n jobs ≡ true → (n == []) ≡ false)
      → (o : IsOrder edge order) (c : (n d : Text) → edge n d ≡ true → has n order ≡ true)
      → Round edge order o c 0 (first_round jobs)
  unfolding first_round has
  first_round-Round [] named o c = tt
  first_round-Round (n ∷ jobs) named o c = (
    refl,
    omega arith,
    named n (ground arith),
    first_round-Round jobs (λ m h. named m (ground arith)) o c,
  )

-- No name is empty.
abbrev pub are_named : List Text → Bool
are_named [] = true
are_named (n ∷ jobs) = not (n == []) && are_named jobs

abbrev pub rows_named : List (Text × Text) → Bool
rows_named [] = true
rows_named ((job, d) ∷ hooks) = not (job == []) && rows_named hooks

-- Each row's job has a higher number than the job that it demands, if that one is in the table.
abbrev pub all_above : List Text → List (Text × ℕ) → List (Text × Text) → Bool
all_above jobs seq [] = true
all_above jobs seq ((job, d) ∷ hooks) =
    (not (has d jobs) || ltb (deployment_seq d seq) (deployment_seq job seq))
    && all_above jobs seq hooks

not_first : (a b : Bool) → (not a && b) ≡ true → a ≡ false
not_first a b h = ground arith

are_named-has :
    (n : Text) (jobs : List Text) → are_named jobs ≡ true → has n jobs ≡ true → (n == []) ≡ false
unfolding has
are_named-has n [] h m = absurd (ground arith)
are_named-has n (k ∷ jobs) h m = elim (Bool-cases (k == n)) [
  | inl here ↦
      let e : k ≡ n = ground arith in let f = not_first (k == []) (are_named jobs) h in rw (sym e) f
  | inr later ↦ are_named-has n jobs (ground arith) (ground arith)
]

rows_named-in_rows :
    (n d : Text) (hooks : List (Text × Text))
    → rows_named hooks ≡ true
    → in_rows n d hooks ≡ true
    → (n == []) ≡ false
rows_named-in_rows n d [] h m = absurd (ground arith)
rows_named-in_rows n d ((job, e) ∷ hooks) h m = elim (Bool-cases (job == n && e == d)) [
  | inl here ↦
      let e : job ≡ n = ground arith in
      let f = not_first (job == []) (rows_named hooks) h in rw (sym e) f
  | inr later ↦ rows_named-in_rows n d hooks (ground arith) (ground arith)
]

all_above_lem :
    (jobs : List Text) (seq : List (Text × ℕ)) (all hooks : List (Text × Text))
    → ((job d : Text)
        → in_rows job d all ≡ true
        → has d jobs ≡ true
        → deployment_seq d seq < deployment_seq job seq)
    → ((n d : Text) → in_rows n d hooks ≡ true → in_rows n d all ≡ true)
    → all_above jobs seq hooks ≡ true
all_above_lem jobs seq all [] above sub = refl
all_above_lem jobs seq all ((job, d) ∷ hooks) above sub =
    let rest =
      all_above_lem jobs seq all hooks above (λ n e h. sub n e (row_there job d n e hooks h)) in
    elim (Bool-cases (has d jobs)) [
      | inr absent ↦ rw (absent, rest) refl
      | inl there ↦
          let less = above job d (sub job d (row_here job d hooks)) there in
          let e : ltb (deployment_seq d seq) (deployment_seq job seq) ≡ true = ground arith in
          rw (there, e, rest) refl
    ]

-- When the check of the demands passes, the recursive query ends, and it numbers each job above every
-- job of the table that it demands; no job of the table and no job of a row has an empty name.
pub deployment_seq_lem :
    (hooks : List (Text × Text)) (jobs : List Text) (st : Text → VisitState)
    → are_named jobs ≡ true
    → rows_named hooks ≡ true
    → check_hook_dependencies (demand_rows hooks) ≡ passes st
    → (f : ℕ) × (seq : List (Text × ℕ)) × (hook_seq f hooks (first_round jobs) ≡ some seq)
      × (all_above jobs seq hooks ≡ true)
deployment_seq_lem hooks jobs st named in_named passed =
    let o : Orders (demand_rows hooks) =
      subst (Outcome (demand_rows hooks)) passed
        (check_hook_dependencies-Outcome (demand_rows hooks)) in
    let edge = said_by (demand_rows hooks) in
    let said : (n d : Text) → in_rows n d hooks ≡ true → (d == []) ≡ false → edge n d ≡ true =
      λ n d h e. in_rows-demand_rows n d hooks ∙ (rw (e, h) refl) in
    let f = length o.jobs + 2 in
    let (seq, e) =
      hook_seq-some edge o.jobs o.is_order o.covers f 0 hooks (first_round jobs)
        (rows-Rows edge o.jobs hooks (λ n d. rows_named-in_rows n d hooks in_named) said o.is_order
          o.covers)
        (first_round-Round edge o.jobs jobs (λ n. are_named-has n jobs named) o.is_order o.covers)
        (omega arith) (omega arith) in
    (
      f,
      seq,
      e,
      all_above_lem jobs seq hooks hooks
          (λ job d r h.
            deployment_seq-demand f hooks (first_round jobs) seq job d 0 e r
              (first_round-entry d jobs h))
          (λ n d h. h),
    )
