-- ===== src/Demands/Query.antt =====
-- build/build_deployment_sequence.go: the queries, over the rows (job, demand_job) of the table hooks.
use kive.Prelude.{
  ℕ, zero, suc, Bool, false, ◌&&◌, ◌||◌, Option, none, some, List, [], ◌∷◌, ◌++◌, Text, text_key,
  nat_key, ◌==◌, ltb, if◌then◌else◌,
}

-- The rows (job, level) of `hook_seq` that a row of `hooks` adds to those of the round before.
unfoldable pub follow : Text → Text → List (Text × ℕ) → List (Text × ℕ)
follow job d [] = []
follow job d ((n, level) ∷ queue) =
    let rest = follow job d queue in if d == n then (job, suc level) ∷ rest else rest

-- A round of the recursive part, over the rows (job, demand_job) of `hooks`.
unfoldable pub next_round : List (Text × Text) → List (Text × ℕ) → List (Text × ℕ)
unfolding follow
next_round [] queue = []
next_round ((job, d) ∷ hooks) queue = follow job d queue ++ next_round hooks queue

-- `SELECT name AS job, 0 AS level FROM jobs`
unfoldable pub first_round : List Text → List (Text × ℕ)
first_round [] = []
first_round (n ∷ jobs) = (n, 0) ∷ first_round jobs

-- The rounds up to the first empty one; without it in so many rounds there is no result.
unfoldable pub hook_seq : ℕ → List (Text × Text) → List (Text × ℕ) → Option (List (Text × ℕ))
unfolding next_round
hook_seq zero hooks queue = none
hook_seq (suc f) hooks [] = some []
hook_seq (suc f) hooks (e ∷ queue) = elim (hook_seq f hooks (next_round hooks (e ∷ queue))) [
  | none ↦ none
  | some seq ↦ some ((e ∷ queue) ++ seq)
]

-- `MAX(level)` of a job's rows
unfoldable pub deployment_seq : Text → List (Text × ℕ) → ℕ
deployment_seq n [] = 0
deployment_seq n ((k, level) ∷ seq) =
    let rest = deployment_seq n seq in
    if k == n then (if ltb rest level then level else rest) else rest

-- The rows say that `n` demands `d`.
abbrev pub in_rows : Text → Text → List (Text × Text) → Bool
in_rows n d [] = false
in_rows n d ((job, e) ∷ rows) = (job == n && e == d) || in_rows n d rows

-- `SELECT DISTINCT job, demand_job FROM hooks WHERE demand_job != ''`
unfoldable pub demand_rows : List (Text × Text) → List (Text × Text)
demand_rows [] = []
demand_rows ((job, d) ∷ hooks) =
    let rest = demand_rows hooks in if d == [] || in_rows job d rest then rest else (job, d) ∷ rest
