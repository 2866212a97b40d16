-- ===== src/Demands/Sequence.antt =====
-- build/build_deployment_sequence.go: the numbers of jobs of which one demands the other.
use kive.Prelude.{
  ℕ, zero, suc, ◌≤◌, ◌<◌, ◌≡◌, refl, sym, ap, ◌∙◌, Bool, true, false, ◌&&◌, ◌||◌, some, List, [],
  ◌∷◌, ◌++◌, arith, Text, text_key, nat_key, ◌==◌, ltb, Bool-cases, Option-cases, inl, inr, ◌⊎◌,
}
use mathlib.Core.Path.{subst}
use kive.Demands.Query.{follow, next_round, hook_seq, deployment_seq, in_rows}

-- A row of the result.
abbrev pub has_entry : Text → ℕ → List (Text × ℕ) → Bool
has_entry n l [] = false
has_entry n l ((k, level) ∷ seq) = (k == n && level == l) || has_entry n l seq

has_entry-append :
    (n : Text) (l : ℕ) (s t : List (Text × ℕ))
    → has_entry n l (s ++ t) ≡ (has_entry n l s || has_entry n l t)
has_entry-append n l [] t = refl
has_entry-append n l ((k, level) ∷ s) t = ground (arith, has_entry-append n l s t)

has_entry-follow :
    (job d : Text) (l : ℕ) (queue : List (Text × ℕ))
    → has_entry d l queue ≡ true
    → has_entry job (suc l) (follow job d queue) ≡ true
unfolding follow
has_entry-follow job d l [] h = absurd (ground arith)
has_entry-follow job d l ((n, level) ∷ queue) h = ground (arith, has_entry-follow job d l queue)

has_entry-next_round :
    (job d : Text) (l : ℕ) (hooks : List (Text × Text)) (queue : List (Text × ℕ))
    → in_rows job d hooks ≡ true
    → has_entry d l queue ≡ true
    → has_entry job (suc l) (next_round hooks queue) ≡ true
unfolding next_round
has_entry-next_round job d l [] queue r h = absurd (ground arith)
has_entry-next_round job d l ((j, e) ∷ hooks) queue r h =
    rw (has_entry-append job (suc l) (follow j e queue) (next_round hooks queue))
      (elim (Bool-cases (j == job && e == d)) [
        | inl here ↦
            let ej : j ≡ job = ground arith in
            let ee : e ≡ d = ground arith in rw (ej, ee, has_entry-follow job d l queue h) refl
        | inr later ↦
            let ih = has_entry-next_round job d l hooks queue (ground arith) h in
            rw ih (ground arith)
      ])

or_true : (b : Bool) → (b || true) ≡ true
or_true b = ground arith

in_rest : (a b : Bool) → a ≡ false → (a || b) ≡ true → b ≡ true
in_rest a b h e = ground arith

-- What a result is made of: the round at hand and the result of the rounds after it.
hook_seq-parts :
    (f : ℕ) (hooks : List (Text × Text)) (x : Text × ℕ) (queue seq : List (Text × ℕ))
    → hook_seq (suc f) hooks (x ∷ queue) ≡ some seq
    → (rest : List (Text × ℕ)) × (hook_seq f hooks (next_round hooks (x ∷ queue)) ≡ some rest)
      × ((x ∷ queue) ++ rest ≡ seq)
unfolding hook_seq
hook_seq-parts f hooks x queue seq e =
    elim (Option-cases (hook_seq f hooks (next_round hooks (x ∷ queue)))) [
      | inl none_there ↦ absurd (ground arith)
      | inr (rest, e') ↦ let s : (x ∷ queue) ++ rest ≡ seq = ground arith in (rest, e', s)
    ]

hook_seq-queue :
    (f : ℕ) (hooks : List (Text × Text)) (queue seq : List (Text × ℕ)) (n : Text) (l : ℕ)
    → hook_seq f hooks queue ≡ some seq
    → has_entry n l queue ≡ true
    → has_entry n l seq ≡ true
unfolding hook_seq
hook_seq-queue zero hooks queue seq n l e h = absurd (ground arith)
hook_seq-queue (suc f) hooks [] seq n l e h = absurd (ground arith)
hook_seq-queue (suc f) hooks (x ∷ queue) seq n l e h =
    let (rest, e', s) = hook_seq-parts f hooks x queue seq e in
    rw (sym s, has_entry-append n l (x ∷ queue) rest, h) refl

-- An entry of a demanded job is followed by one of the job that demands it.
hook_seq-closed :
    (f : ℕ) (hooks : List (Text × Text)) (queue seq : List (Text × ℕ)) (job d : Text) (l : ℕ)
    → hook_seq f hooks queue ≡ some seq
    → in_rows job d hooks ≡ true
    → has_entry d l seq ≡ true
    → has_entry job (suc l) seq ≡ true
unfolding hook_seq
hook_seq-closed zero hooks queue seq job d l e r h = absurd (ground arith)
hook_seq-closed (suc f) hooks [] seq job d l e r h = absurd (nothing seq e h)
  where
    nothing : (seq : List (Text × ℕ)) → some [] ≡ some seq → has_entry d l seq ≡ true → ⊥
    nothing [] e h = ground arith
    nothing (x ∷ seq) e h = ground arith
hook_seq-closed (suc f) hooks (x ∷ queue) seq job d l e r h =
    let (rest, e', s) = hook_seq-parts f hooks x queue seq e in
    let split = has_entry-append d l (x ∷ queue) rest in
    let goal = has_entry-append job (suc l) (x ∷ queue) rest in
    rw (sym s, goal)
      (elim (Bool-cases (has_entry d l (x ∷ queue))) [
        | inl now ↦
            let next = has_entry-next_round job d l hooks (x ∷ queue) r now in
            rw (hook_seq-queue f hooks (next_round hooks (x ∷ queue)) rest job (suc l) e' next)
              (or_true (has_entry job (suc l) (x ∷ queue)))
        | inr later ↦
            let there : has_entry d l rest ≡ true =
              in_rest (has_entry d l (x ∷ queue)) (has_entry d l rest) later
                (sym split ∙ ap (has_entry d l) s ∙ h) in
            rw (hook_seq-closed f hooks (next_round hooks (x ∷ queue)) rest job d l e' r there)
              (or_true (has_entry job (suc l) (x ∷ queue)))
      ])

deployment_seq-bound :
    (n : Text) (l : ℕ) (seq : List (Text × ℕ)) → has_entry n l seq ≡ true → l ≤ deployment_seq n seq
unfolding deployment_seq
deployment_seq-bound n l [] h = absurd (ground arith)
deployment_seq-bound n l ((k, level) ∷ seq) h = ground (arith, deployment_seq-bound n l seq)

has_entry-cons :
    (n : Text) (l : ℕ) (k : Text) (level : ℕ) (seq : List (Text × ℕ))
    → has_entry n l seq ≡ true
    → has_entry n l ((k, level) ∷ seq) ≡ true
has_entry-cons n l k level seq h = ground arith

-- What the number of a job is, or an entry with that number.
abbrev Attained : Text → List (Text × ℕ) → Type 0
Attained n seq = (deployment_seq n seq ≡ 0) ⊎ (has_entry n (deployment_seq n seq) seq ≡ true)

deployment_seq_kept :
    (n k : Text) (level : ℕ) (seq : List (Text × ℕ))
    → deployment_seq n ((k, level) ∷ seq) ≡ deployment_seq n seq
    → Attained n seq
    → Attained n ((k, level) ∷ seq)
deployment_seq_kept n k level seq same (inl none_there) = inl (same ∙ none_there)
deployment_seq_kept n k level seq same (inr there) = inr (
    subst (λ m. has_entry n m ((k, level) ∷ seq) ≡ true) (sym same)
      (has_entry-cons n (deployment_seq n seq) k level seq there))

deployment_seq-cases : (n : Text) (seq : List (Text × ℕ)) → Attained n seq
unfolding deployment_seq
deployment_seq-cases n [] = inl refl
deployment_seq-cases n ((k, level) ∷ seq) =
    let ih = deployment_seq-cases n seq in
    elim (Bool-cases (k == n)) [
      | inr other ↦ deployment_seq_kept n k level seq (rw other refl) ih
      | inl here ↦ elim (Bool-cases (ltb (deployment_seq n seq) level)) [
        | inl larger ↦
            let same : (level == level) ≡ true = ground arith in inr (rw (here, larger, same) refl)
        | inr smaller ↦ deployment_seq_kept n k level seq (rw (here, smaller) refl) ih
      ]
    ]

deployment_seq-attained :
    (n : Text) (l : ℕ) (seq : List (Text × ℕ))
    → has_entry n l seq ≡ true
    → has_entry n (deployment_seq n seq) seq ≡ true
deployment_seq-attained n l seq h = elim (deployment_seq-cases n seq) [
  | inr there ↦ there
  | inl none_there ↦
      let low = deployment_seq-bound n l seq h in
      let e : l ≡ 0 = omega arith in rw (none_there, sym e) h
]

-- A job's number is above those of the jobs that it demands.
pub deployment_seq-demand :
    (f : ℕ) (hooks : List (Text × Text)) (queue seq : List (Text × ℕ)) (job d : Text) (l : ℕ)
    → hook_seq f hooks queue ≡ some seq
    → in_rows job d hooks ≡ true
    → has_entry d l queue ≡ true
    → deployment_seq d seq < deployment_seq job seq
deployment_seq-demand f hooks queue seq job d l e r h =
    let there = deployment_seq-attained d l seq (hook_seq-queue f hooks queue seq d l e h) in
    let above = hook_seq-closed f hooks queue seq job d (deployment_seq d seq) e r there in
    deployment_seq-bound job (suc (deployment_seq d seq)) seq above
