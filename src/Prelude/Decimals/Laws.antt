-- ===== src/Prelude/Decimals/Laws.antt =====
-- Decimal texts and their values.
use Prim.Native.Nat.{ℕ, zero, suc, ◌+◌, ◌*◌, ◌-◌, ◌/◌, ◌%◌, ◌<◌}
use mathlib.Core.Path.{◌≡◌, refl}
use mathlib.Core.Logic.{inl, inr}
use mathlib.Core.Bool.{Bool, true, false, ◌&&◌}
use mathlib.Core.Option.{some}
use mathlib.Core.List.{[], ◌∷◌, ◌++◌}
use native.Mathlib.Omega.{arith}
use kive.Prelude.Tests.{Text, ltb, Bool-cases}
use kive.Prelude.Decimals.{is_digit, digits_value, digits_of, decimal}

digits_value-snoc :
    (n m d : ℕ) (s : Text)
    → digits_value n s ≡ some m
    → d < 10
    → digits_value n (s ++ ((b'0' + d) ∷ [])) ≡ some (m * 10 + d)
unfolding digits_value
digits_value-snoc n m d [] h small =
    let same : n ≡ m = ground arith in
    let digit : is_digit (b'0' + d) ≡ true = ground arith in
    let e : n * 10 + (b'0' + d - b'0') ≡ m * 10 + d = omega arith in rw (digit, e) refl
digits_value-snoc n m d (c ∷ s) h small = elim (Bool-cases (is_digit c)) [
  | inl digit ↦
      let below : digits_value (n * 10 + (c - b'0')) s ≡ some m = ground arith in
      rw digit (digits_value-snoc (n * 10 + (c - b'0')) m d s below small)
  | inr other ↦ absurd (ground arith)
]

quotient_less : (n f : ℕ) → ltb n 10 ≡ false → n < suc f → n / 10 < f
quotient_less n f large h = ground arith

remainder_small : (n : ℕ) → n % 10 < 10
remainder_small n = omega arith

quotient_remainder : (n : ℕ) → n / 10 * 10 + n % 10 ≡ n
quotient_remainder n = omega arith

digits_of-value : (f n : ℕ) → n < f → digits_value 0 (digits_of f n) ≡ some n
unfolding digits_of digits_value
digits_of-value zero n h = absurd (omega arith)
digits_of-value (suc f) n h = elim (Bool-cases (ltb n 10)) [
  | inl small ↦
      let digit : is_digit (b'0' + n) ≡ true = ground arith in
      let e : 0 * 10 + (b'0' + n - b'0') ≡ n = omega arith in rw (small, digit, e) refl
  | inr large ↦
      let ih = digits_of-value f (n / 10) (quotient_less n f large h) in
      rw
        (
          large,
          digits_value-snoc 0 (n / 10) (n % 10) (digits_of f (n / 10)) ih (remainder_small n),
          quotient_remainder n,
        )
        refl
]

pub decimal-value : (n : ℕ) → digits_value 0 (decimal n) ≡ some n
unfolding decimal
decimal-value n = digits_of-value (suc n) n (omega arith)

abbrev pub all_digits : Text → Bool
all_digits [] = true
all_digits (c ∷ s) = is_digit c && all_digits s

-- What has a value has digits only.
pub digits_value-digits : (n m : ℕ) (s : Text) → digits_value n s ≡ some m → all_digits s ≡ true
unfolding digits_value
digits_value-digits n m [] h = refl
digits_value-digits n m (c ∷ s) h = elim (Bool-cases (is_digit c)) [
  | inl digit ↦
      let below : digits_value (n * 10 + (c - b'0')) s ≡ some m = ground arith in
      rw (digit, digits_value-digits (n * 10 + (c - b'0')) m s below) refl
  | inr other ↦ absurd (ground arith)
]

pub decimal-cons : (n : ℕ) → (c : ℕ) × (s : Text) × (decimal n ≡ c ∷ s)
unfolding decimal digits_of
decimal-cons n = elim (Bool-cases (ltb n 10)) [
  | inl small ↦ (b'0' + n, [], rw small refl)
  | inr large ↦ snoc-cons (digits_of n (n / 10)) (b'0' + n % 10) (decimal n) (rw large refl)
]
  where
    snoc-cons :
        (s : Text) (d : ℕ) (t : Text) → t ≡ s ++ (d ∷ []) → (c : ℕ) × (s' : Text) × (t ≡ c ∷ s')
    snoc-cons [] d t e = (d, [], e)
    snoc-cons (c ∷ s) d t e = (c, s ++ (d ∷ []), e)
