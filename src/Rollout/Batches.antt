-- ===== src/Rollout/Batches.antt =====
-- hooks/batch.go and deploy/rollout.go: how an ordered list of workers is cut into batches. A size is
-- an `int`; a negative one behaves as 0, which every test here treats alike.
use kive.Prelude.{
  ℕ, zero, suc, ◌+◌, ◌-◌, ◌/◌, ◌≤◌, ◌<◌, ◌≡◌, refl, ◌&&◌, List, [], ◌∷◌, ◌++◌, arith, ltb, leb,
  ◌==◌, if◌then◌else◌, length, take, drop, take-append-drop, length-take, length-drop, nat_key,
  Bool-cases, ◌⊎◌, ℕ_discrete, inl, inr, ap, sym, ◌∙◌,
}
use mathlib.Core.List.{append-nil}
use native.Mathlib.Nat.{add-div_right, div-eq_of_lt}

unfoldable pub effective_batch_size : ℕ → ℕ → ℕ → ℕ
effective_batch_size requested total hard_cap =
    let n = if leb 1 requested then (if ltb total requested then total else requested) else total in
    if leb 1 hard_cap && ltb hard_cap n then hard_cap else n

unfoldable pub batch_count : ℕ → ℕ → ℕ
batch_count total batch_size =
    if total == 0
    then 0
    else (let size = if ltb batch_size 1 then total else batch_size in (total + size - 1) / size)

ceil_zero : (size : ℕ) → 1 ≤ size → (0 + size - 1) / size ≡ 0
ceil_zero size p = div-eq_of_lt {n = 0 + size - 1} (omega arith)

-- `(n + size - 1) / size`, one batch at a time.
ceil_step :
    (n size : ℕ) → 1 ≤ size → 1 ≤ n → (n + size - 1) / size ≡ suc ((n - size + size - 1) / size)
ceil_step n size p h =
    let e : n + size - 1 ≡ n - 1 + size = omega arith in
    elim (Bool-cases (ltb n size)) [
      | inl s ↦
          let z : n - size + size - 1 ≡ 0 + size - 1 = ground arith in
          rw (e, z, ceil_zero size p)
            (omega
              (arith, add-div_right (n - 1) p, div-eq_of_lt {n = n - 1} {m = size} (ground arith)))
      | inr s ↦
          let z : n - size + size - 1 ≡ n - 1 = ground arith in
          rw (e, z) (omega (arith, add-div_right (n - 1) p))
    ]

module _ {A : Type 0} where
  -- `items[start:end]`
  abbrev pub slice : List A → ℕ → ℕ → List A
  slice xs start end = take (end - start) (drop start xs)

  -- The loop `for i := 0; i < len; i += size`; the fuel counts its rounds.
  unfoldable pub split_loop : ℕ → List A → ℕ → ℕ → List (List A)
  split_loop zero xs size i = []
  split_loop (suc f) xs size i =
      let rest = split_loop f xs size (i + size) in
      let end = if ltb (length xs) (i + size) then length xs else i + size in
      if ltb i (length xs) then slice xs i end ∷ rest else []

  unfoldable pub split_worker_batches : List A → ℕ → List (List A)
  unfolding split_loop
  split_worker_batches [] batch_size = []
  split_worker_batches (x ∷ xs) batch_size =
      let ips = x ∷ xs in
      split_loop (length ips) ips (if ltb batch_size 1 then length ips else batch_size) 0

  abbrev pub concat : List (List A) → List A
  concat [] = []
  concat (xs ∷ xss) = xs ++ concat xss

  pub drop_all : (n : ℕ) (xs : List A) → length xs ≤ n → drop n xs ≡ []
  drop_all zero [] h = refl
  drop_all zero (x ∷ xs) h = absurd (omega arith)
  drop_all (suc n) [] h = refl
  drop_all (suc n) (x ∷ xs) h = drop_all n xs (omega arith)

  drop-nil : (n : ℕ) → drop {A = A} n [] ≡ []
  drop-nil zero = refl
  drop-nil (suc n) = refl

  drop-drop : (m n : ℕ) (xs : List A) → drop m (drop n xs) ≡ drop (n + m) xs
  drop-drop m zero xs = ground arith
  drop-drop m (suc n) [] = ground (arith, drop-nil m, drop-nil (suc n + m))
  drop-drop m (suc n) (x ∷ xs) =
      let e : suc n + m ≡ suc (n + m) = omega arith in rw e (drop-drop m n xs)

  take_all : (n : ℕ) (xs : List A) → length xs ≤ n → take n xs ≡ xs
  take_all zero [] h = refl
  take_all zero (x ∷ xs) h = absurd (omega arith)
  take_all (suc n) [] h = refl
  take_all (suc n) (x ∷ xs) h = ap (◌∷◌ x) (take_all n xs (omega arith))

  abbrev pub batch_end : List A → ℕ → ℕ → ℕ
  batch_end xs size i = if ltb (length xs) (i + size) then length xs else i + size

  pub slice_rest :
      (xs : List A) (size i : ℕ)
      → slice xs i (batch_end xs size i) ++ drop (i + size) xs ≡ drop i xs
  slice_rest xs size i = elim (Bool-cases (ltb (length xs) (i + size))) [
    | inl h ↦ ground (
      arith,
      take_all (length xs - i) (drop i xs),
      length-drop i xs,
      drop_all (i + size) xs,
      append-nil (drop i xs),
    )
    | inr h ↦ ground (arith, drop-drop size i xs, take-append-drop size (drop i xs))
  ]

  pub concat-split_loop :
      (f : ℕ) (xs : List A) (size i : ℕ)
      → 1 ≤ size
      → length xs ≤ i + f
      → concat (split_loop f xs size i) ≡ drop i xs
  unfolding split_loop
  concat-split_loop zero xs size i p h = sym (drop_all i xs (omega arith))
  concat-split_loop (suc f) xs size i p h =
      ground (arith, concat-split_loop f xs size (i + size), slice_rest xs size i, drop_all i xs)

  -- Every batch holds at least one worker, and at most `size`.
  abbrev pub Bounded : ℕ → List (List A) → Type 0
  Bounded size [] = Unit
  Bounded size (b ∷ bs) = (1 ≤ length b) × (length b ≤ size) × Bounded size bs

  length-slice :
      (xs : List A) (size i : ℕ)
      → 1 ≤ size
      → i < length xs
      → (1 ≤ length (slice xs i (batch_end xs size i)))
        × (length (slice xs i (batch_end xs size i)) ≤ size)
  length-slice xs size i p h =
      ground (arith, length-take (batch_end xs size i - i) (drop i xs), length-drop i xs)

  split_loop-Bounded :
      (f : ℕ) (xs : List A) (size i : ℕ) → 1 ≤ size → Bounded size (split_loop f xs size i)
  unfolding split_loop
  split_loop-Bounded zero xs size i p = tt
  split_loop-Bounded (suc f) xs size i p =
      ground (arith, split_loop-Bounded f xs size (i + size), length-slice xs size i p)

  length-split_loop :
      (f : ℕ) (xs : List A) (size i : ℕ)
      → 1 ≤ size
      → length xs ≤ i + f
      → length (split_loop f xs size i) ≡ (length xs - i + size - 1) / size
  unfolding split_loop
  length-split_loop zero xs size i p h =
      let z : length xs - i + size - 1 ≡ 0 + size - 1 = omega arith in rw (z, ceil_zero size p)
  length-split_loop (suc f) xs size i p h = elim (Bool-cases (ltb i (length xs))) [
    | inl more ↦
        let e : length xs - (i + size) ≡ length xs - i - size = omega arith in
        let rest = length-split_loop f xs size (i + size) p (ground arith) in
        let step = ceil_step (length xs - i) size p (ground arith) in
        rw more (ap suc (rest ∙ ap (λ (k : ℕ). (k + size - 1) / size) e) ∙ sym step)
    | inr done ↦
        let z : length xs - i + size - 1 ≡ 0 + size - 1 = ground arith in
        rw (done, z, ceil_zero size p)
  ]

  -- The batches, one after the other, are the ordered workers; each holds at least one worker and at
  -- most the batch size, or all of them where no batch size is set; and there are as many as
  -- `BatchCount` says.
  pub split_worker_batches_lem :
      (ips : List A) (batch_size : ℕ)
      → (concat (split_worker_batches ips batch_size) ≡ ips)
        × Bounded
            (if ltb batch_size 1 then length ips else batch_size)
            (split_worker_batches ips batch_size)
        × (length (split_worker_batches ips batch_size) ≡ batch_count (length ips) batch_size)
  unfolding split_worker_batches batch_count ℕ_discrete
  split_worker_batches_lem [] batch_size = (refl, tt, refl)
  split_worker_batches_lem (x ∷ xs) batch_size =
      let ips = x ∷ xs in
      let size = if ltb batch_size 1 then length ips else batch_size in
      let positive : 1 ≤ size = ground arith in
      (
        concat-split_loop (length ips) ips size 0 positive (omega arith),
        split_loop-Bounded (length ips) ips size 0 positive,
        ground (arith, length-split_loop (length ips) ips size 0 positive),
      )

-- A batch has at least one worker while there are any, never more than there are, and never more
-- than the hard cap or the request where these are set.
pub effective_batch_size_range :
    (requested total hard_cap : ℕ)
    → 1 ≤ total
    → (1 ≤ effective_batch_size requested total hard_cap)
      × (effective_batch_size requested total hard_cap ≤ total)
      × ((hard_cap ≡ 0) ⊎ (effective_batch_size requested total hard_cap ≤ hard_cap))
      × ((requested ≡ 0) ⊎ (effective_batch_size requested total hard_cap ≤ requested))
unfolding effective_batch_size
effective_batch_size_range requested total hard_cap h = ground arith
