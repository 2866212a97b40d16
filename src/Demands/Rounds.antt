-- ===== src/Demands/Rounds.antt =====
-- build/build_deployment_sequence.go: the rounds of the recursive query.
use kive.Prelude.{
  ℕ, zero, suc, ◌+◌, ◌≤◌, ◌≡◌, refl, ap, Bool, true, false, some, List, [], ◌∷◌, ◌++◌, arith, Text,
  text_key, nat_key, ◌==◌, has, length, Bool-cases, inl, inr,
}
use kive.Demands.Cycles.{IsOrder, rank, rank-bound, rank-demand}
use kive.Demands.Query.{follow, next_round, hook_seq}

-- The rounds end where the jobs have an order: a job's entries are bounded by its place in it.
module _ (edge : Text → Text → Bool) (jobs : List Text) (is_order : IsOrder edge jobs)
    (covers : (n d : Text) → edge n d ≡ true → has n jobs ≡ true) where
  -- The entries of a round, all of one level.
  abbrev pub Round : ℕ → List (Text × ℕ) → Type 0
  Round k [] = Unit
  Round k ((n, level) ∷ queue) =
      (level ≡ k) × (k ≤ rank edge n jobs) × ((n == []) ≡ false) × Round k queue

  Round-append : (k : ℕ) (s t : List (Text × ℕ)) → Round k s → Round k t → Round k (s ++ t)
  Round-append k [] t h h' = h'
  Round-append k ((n, level) ∷ s) t (a, b, c, h) h' = (a, b, c, Round-append k s t h h')

  follow-Round :
      (k : ℕ) (job d : Text) (queue : List (Text × ℕ))
      → ((d == []) ≡ false → edge job d ≡ true)
      → (job == []) ≡ false
      → Round k queue
      → Round (suc k) (follow job d queue)
  unfolding follow
  follow-Round k job d [] demands named h = tt
  follow-Round k job d ((n, level) ∷ queue) demands named (a, b, c, h) =
      let ih = follow-Round k job d queue demands named h in
      elim (Bool-cases (d == n)) [
        | inr other ↦ rw other ih
        | inl here ↦
            let e : d ≡ n = ground arith in
            let demanded = demands (rw e c) in
            let (member, low) =
              rank-demand edge job d jobs is_order (covers job d demanded) demanded in
            let bound : k ≤ rank edge d jobs = rw e b in rw here (ap suc a, omega arith, named, ih)
      ]

  -- The rows of hooks: a job has a name, and demands what its row names.
  abbrev pub Rows : List (Text × Text) → Type 0
  Rows [] = Unit
  Rows ((job, d) ∷ hooks) =
      ((job == []) ≡ false) × ((d == []) ≡ false → edge job d ≡ true) × Rows hooks

  next_round-Round :
      (k : ℕ) (hooks : List (Text × Text)) (queue : List (Text × ℕ))
      → Rows hooks
      → Round k queue
      → Round (suc k) (next_round hooks queue)
  unfolding next_round
  next_round-Round k [] queue rows h = tt
  next_round-Round k ((job, d) ∷ hooks) queue (named, demands, rows) h =
      Round-append (suc k) (follow job d queue) (next_round hooks queue)
        (follow-Round k job d queue demands named h) (next_round-Round k hooks queue rows h)

  pub hook_seq-some :
      (f k : ℕ) (hooks : List (Text × Text)) (queue : List (Text × ℕ))
      → Rows hooks
      → Round k queue
      → k ≤ length jobs + 1
      → length jobs + 2 ≤ f + k
      → (seq : List (Text × ℕ)) × (hook_seq f hooks queue ≡ some seq)
  unfolding hook_seq
  hook_seq-some zero k hooks queue rows h le enough = absurd (omega arith)
  hook_seq-some (suc f) k hooks [] rows h le enough = ([], refl)
  hook_seq-some (suc f) k hooks ((n, level) ∷ queue) rows (a, b, c, h) le enough =
      let bound = rank-bound edge n jobs in
      let (rest, e) =
        hook_seq-some f (suc k) hooks (next_round hooks ((n, level) ∷ queue)) rows
          (next_round-Round k hooks ((n, level) ∷ queue) rows (a, b, c, h)) (omega arith)
          (omega arith) in
      (((n, level) ∷ queue) ++ rest, rw (e, hook_seq) refl)
