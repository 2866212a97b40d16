-- ===== src/Rollout/Deploy/Progress.antt =====
-- deploy/rollout.go: how far a rolling deploy came when it ends.
use kive.Prelude.{
  ℕ, zero, suc, ◌+◌, ◌/◌, ◌≤◌, ◌≡◌, refl, sym, ◌∙◌, ap, Bool, true, false, ◌||◌, Option, none, some,
  List, [], ◌∷◌, ◌++◌, arith, Text, ltb, has, has-append, Unique, text_key, length, drop,
  Bool-cases, inl, inr,
}
use mathlib.Core.Path.{subst}
use native.Mathlib.Nat.{add-div_right}
use kive.Rollout.Batches.{slice, batch_end, slice_rest, concat, split_loop, concat-split_loop}
use kive.Rollout.Hashes.{promote_allocation_state}
use kive.Rollout.Deploy.Batch.{Present, Updated, After, Batched, Updated-Present, run_batch_lem}
use kive.Rollout.Deploy.{DeployError, Allocations, Answers, run_batch, and_then_batches, batch_loop}

append-Unique_left : (s t : List Text) → Unique (s ++ t) → Unique s
unfolding has
append-Unique_left [] t u = tt
append-Unique_left (x ∷ s) t (new, u) = (ground (arith, has-append x s t), append-Unique_left s t u)

append-Unique_right : (s t : List Text) → Unique (s ++ t) → Unique t
append-Unique_right [] t u = u
append-Unique_right (x ∷ s) t (new, u) = append-Unique_right s t u

append-Unique_apart :
    (s t : List Text) (j : Text) → Unique (s ++ t) → has j s ≡ true → has j t ≡ false
unfolding has
append-Unique_apart [] t j u h = absurd (ground arith)
append-Unique_apart (x ∷ s) t j (new, u) h =
    ground (arith, append-Unique_apart s t j u, has-append j s t)

-- A deploy over `batches`, the first of index `k`. With no error it promoted every worker's allocation
-- and changed no other. An error is that of one batch, run once all before it were promoted, and the
-- batches after it were not taken up.
abbrev pub Ended :
    Answers → Bool → ℕ → List (List Text) → Allocations → Allocations × Option DeployError → Type 0
Ended answers force k batches rows (rows', none) =
    Updated promote_allocation_state (concat batches) rows rows'
Ended answers force k batches rows (rows', some e) =
    (before : List (List Text)) × (failing : List Text) × (later : List (List Text)) × (batches
      ≡ before ++ (failing ∷ later))
    × ((rows1 : Allocations) × Updated promote_allocation_state (concat before) rows rows1
        × (run_batch answers force (k + length before) failing rows1 ≡ (rows', some e)))
    × After (concat before) failing (some e) rows rows'

has-concat_split :
    (j : Text) (before : List (List Text)) (failing : List Text) (later : List (List Text))
    → has j (concat (before ++ (failing ∷ later)))
      ≡ (has j (concat before) || has j failing || has j (concat later))
unfolding has
has-concat_split j [] failing later = has-append j failing (concat later)
has-concat_split j (b ∷ before) failing later = ground (
  arith,
  has-append j b (concat before),
  has-append j b (concat (before ++ (failing ∷ later))),
  has-concat_split j before failing later,
)

-- One more batch before what a deploy did.
Ended-batch :
    (answers : Answers) (force : Bool) (k : ℕ) (batch : List Text) (rest : List (List Text))
    (rows rows1 : Allocations) (r : Allocations × Option DeployError)
    → Unique (batch ++ concat rest)
    → Updated promote_allocation_state batch rows rows1
    → Ended answers force (suc k) rest rows1 r
    → Ended answers force k (batch ∷ rest) rows r
Ended-batch answers force k batch rest rows rows1 (rows', none) u up ended = λ j. ground (
  arith,
  up j,
  ended j,
  has-append j batch (concat rest),
  append-Unique_apart batch (concat rest) j u,
)
Ended-batch answers force k batch rest rows rows1 (rows', some e) u up
      (before, failing, later, split, (rows2, up2, ran), after) =
    let shift : suc k + length before ≡ k + suc (length before) = omega arith in
    (
      batch ∷ before,
      failing,
      later,
      ap (λ x. batch ∷ x) split,
      (
        rows2,
        (λ j.
            let in_rest = ap (λ x. has j (concat x)) split in
            ground (
              arith,
              up j,
              up2 j,
              in_rest,
              has-append j batch (concat before),
              has-concat_split j before failing later,
              append-Unique_apart batch (concat rest) j u,
            )),
        subst (λ x. run_batch answers force x failing rows2 ≡ (rows', some e)) shift ran,
      ),
      λ j.
          let in_rest = ap (λ x. has j (concat x)) split in
          ground (
            arith,
            up j,
            after j,
            in_rest,
            has-append j batch (concat before),
            has-concat_split j before failing later,
            append-Unique_apart batch (concat rest) j u,
          ),
    )

Ended-first :
    (answers : Answers) (force : Bool) (k : ℕ) (batch : List Text) (rest : List (List Text))
    (rows : Allocations) (r : Allocations × Option DeployError)
    (next : Allocations → Allocations × Option DeployError)
    → Unique (batch ++ concat rest)
    → Batched batch rows r
    → run_batch answers force k batch rows ≡ r
    → ((rows1 : Allocations)
        → Updated promote_allocation_state batch rows rows1
        → Ended answers force (suc k) rest rows1 (next rows1))
    → Ended answers force k (batch ∷ rest) rows (and_then_batches r next)
Ended-first answers force k batch rest rows (rows1, none) next u b ran ended =
    Ended-batch answers force k batch rest rows rows1 (next rows1) u b (ended rows1 b)
Ended-first answers force k batch rest rows (rows1, some e) next u b ran ended =
    let here : k ≡ k + 0 = omega arith in
    (
      [],
      batch,
      rest,
      refl,
      (
        rows,
        (λ j. unfold has in refl),
        subst (λ x. run_batch answers force x batch rows ≡ (rows1, some e)) here ran,
      ),
      b,
    )

Present-right : (s t : List Text) (rows : Allocations) → Present (s ++ t) rows → Present t rows
Present-right s t rows p j h = p j (ground (arith, has-append j s t))

Present-left : (s t : List Text) (rows : Allocations) → Present (s ++ t) rows → Present s rows
Present-left s t rows p j h = p j (ground (arith, has-append j s t))

Ended-nothing :
    (answers : Answers) (force : Bool) (k : ℕ) (rows : Allocations)
    → Ended answers force k [] rows (rows, none)
unfolding has
Ended-nothing answers force k rows = λ j. refl

pub batch_loop-Ended :
    (answers : Answers) (force : Bool) (f : ℕ) (ordered : List Text) (size i : ℕ)
    (rows : Allocations)
    → 1 ≤ size
    → length ordered ≤ i + f
    → Unique (drop i ordered)
    → Present (drop i ordered) rows
    → Ended answers force
        (i / size)
        (split_loop f ordered size i)
        rows
        (batch_loop answers force f ordered size i rows)
unfolding batch_loop split_loop
batch_loop-Ended answers force zero ordered size i rows positive enough u p =
    Ended-nothing answers force (i / size) rows
batch_loop-Ended answers force (suc f) ordered size i rows positive enough u p =
    elim (Bool-cases (ltb i (length ordered))) [
      | inr done ↦ rw done (Ended-nothing answers force (i / size) rows)
      | inl more ↦
          let batch = slice ordered i (batch_end ordered size i) in
          let rest = split_loop f ordered size (i + size) in
          let left : concat rest ≡ drop (i + size) ordered =
            concat-split_loop f ordered size (i + size) positive (omega arith) in
          let cut : batch ++ concat rest ≡ drop i ordered =
            ap (λ x. batch ++ x) left ∙ slice_rest ordered size i in
          let unique : Unique (batch ++ concat rest) = subst (λ x. Unique x) (sym cut) u in
          let present : Present (batch ++ concat rest) rows =
            subst (λ x. Present x rows) (sym cut) p in
          let next = batch_loop answers force f ordered size (i + size) in
          let step : (i + size) / size ≡ suc (i / size) = omega (arith, add-div_right i positive) in
          rw more (
            Ended-first answers force (i / size) batch rest rows
              (run_batch answers force (i / size) batch rows) next unique
              (run_batch_lem answers force (i / size) batch rows
                (append-Unique_left batch (concat rest) unique)
                (Present-left batch (concat rest) rows present))
              refl
              (λ rows1 up.
                subst (λ k. Ended answers force k rest rows1 (next rows1)) step
                  (batch_loop-Ended answers force f ordered size (i + size) rows1 positive
                    (omega arith)
                    (subst (λ x. Unique x) left (append-Unique_right batch (concat rest) unique))
                    (Updated-Present promote_allocation_state batch (drop (i + size) ordered) rows
                      rows1 up
                      (subst (λ x. Present x rows) left
                        (Present-right batch (concat rest) rows present))))))
    ]
