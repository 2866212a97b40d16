-- ===== src/Versions/Digits.antt =====
-- Decimal digits in the text of a version: what trimming, splitting and cutting do to them.
use kive.Prelude.{
  ℕ, zero, suc, ◌+◌, ◌-◌, ◌*◌, ◌/◌, ◌%◌, ◌<◌, ◌≡◌, refl, ◌∙◌, Bool, true, false, not, ◌&&◌, none,
  some, List, [], ◌∷◌, ◌++◌, arith, Text, ◌==◌, ltb, is_space, trim_left, trim_right, split,
  nat_key, text_key, ℕ_discrete, Bool-cases, inl, inr,
}
use kive.Prelude.Decimals.{is_digit, digits_value, digits_of}
use kive.Versions.Parse.{cut_prerelease}

abbrev pub all_digits : Text → Bool
all_digits [] = true
all_digits (c ∷ s) = is_digit c && all_digits s

abbrev pub filled : Text → Bool
filled [] = false
filled (c ∷ s) = true

pub all_digits-append : (s t : Text) → all_digits (s ++ t) ≡ (all_digits s && all_digits t)
all_digits-append [] t = refl
all_digits-append (c ∷ s) t = ground (arith, all_digits-append s t)

pub filled-append : (s : Text) (c : ℕ) → filled (s ++ c ∷ []) ≡ true
filled-append [] c = refl
filled-append (x ∷ s) c = refl

pub digits_of_lem :
    (f n : ℕ) → n < f → (all_digits (digits_of f n) ≡ true) × (filled (digits_of f n) ≡ true)
unfolding digits_of
digits_of_lem zero n h = absurd (omega arith)
digits_of_lem (suc f) n h = elim (Bool-cases (ltb n 10)) [
  | inl small ↦ rw small (ground arith, refl)
  | inr large ↦
      let (digits, some_digit) = digits_of_lem f (n / 10) (ground arith) in
      rw large (
        ground (arith, all_digits-append (digits_of f (n / 10)) ((b'0' + n % 10) ∷ [])),
        filled-append (digits_of f (n / 10)) (b'0' + n % 10),
      )
]

pub digits_value-append :
    (acc m : ℕ) (s t : Text)
    → digits_value acc s ≡ some m
    → digits_value acc (s ++ t) ≡ digits_value m t
unfolding digits_value
digits_value-append acc m [] t e = ground arith
digits_value-append acc m (c ∷ s) t e =
    ground (arith, digits_value-append (acc * 10 + (c - b'0')) m s t)

pub digits_value-digits_of : (f n : ℕ) → n < f → digits_value 0 (digits_of f n) ≡ some n
unfolding digits_of digits_value
digits_value-digits_of zero n h = absurd (omega arith)
digits_value-digits_of (suc f) n h = elim (Bool-cases (ltb n 10)) [
  | inl small ↦ rw small (ground arith)
  | inr large ↦
      let before = digits_value-digits_of f (n / 10) (ground arith) in
      rw large (
        digits_value-append 0 (n / 10) (digits_of f (n / 10)) ((b'0' + n % 10) ∷ []) before
        ∙ ground arith)
]

pub trim_left_digits : (s : Text) → all_digits s ≡ true → trim_left s ≡ s
unfolding trim_left is_space
trim_left_digits [] h = refl
trim_left_digits (c ∷ s) h = ground arith

pub trim_right_digits : (s : Text) → all_digits s ≡ true → trim_right s ≡ s
unfolding trim_right is_space
trim_right_digits [] h = refl
trim_right_digits (c ∷ s) h = ground (arith, trim_right_digits s)

pub filled-append_right : (s t : Text) → filled t ≡ true → filled (s ++ t) ≡ true
filled-append_right [] t h = h
filled-append_right (c ∷ s) t h = refl

pub trim_right-cons :
    (c : ℕ) (s : Text) → trim_right s ≡ s → filled s ≡ true → trim_right (c ∷ s) ≡ c ∷ s
unfolding trim_right
trim_right-cons c [] e h = absurd (ground arith)
trim_right-cons c (x ∷ s) e h = rw e refl

-- What ends in a text that ends in no space.
pub trim_right-append :
    (s t : Text) → trim_right t ≡ t → filled t ≡ true → trim_right (s ++ t) ≡ s ++ t
trim_right-append [] t e h = e
trim_right-append (c ∷ s) t e h =
    trim_right-cons c (s ++ t) (trim_right-append s t e h) (filled-append_right s t h)

pub split-no_sep :
    (sep : ℕ) (s : Text) → all_digits s ≡ true → is_digit sep ≡ false → split sep s ≡ s ∷ []
unfolding split
split-no_sep sep [] h n = refl
split-no_sep sep (c ∷ s) h n =
    let other : (c == sep) ≡ false = ground arith in
    rw (split-no_sep sep s (ground arith) n, other) refl

pub split-append :
    (sep : ℕ) (s t : Text)
    → all_digits s ≡ true
    → is_digit sep ≡ false
    → (part : Text) → (parts : List Text) → split sep t ≡ part ∷ parts
    → split sep (s ++ (sep ∷ t)) ≡ s ∷ part ∷ parts
unfolding split ℕ_discrete
split-append sep [] t h n part parts e = rw e (ground arith)
split-append sep (c ∷ s) t h n part parts e =
    let other : (c == sep) ≡ false = ground arith in
    rw (split-append sep s t (ground arith) n part parts e, other) refl

-- Characters of a release: digits and dots.
abbrev pub no_dash : Text → Bool
no_dash [] = true
no_dash (c ∷ s) = not (c == b'-') && no_dash s

pub no_dash-append : (s t : Text) → no_dash (s ++ t) ≡ (no_dash s && no_dash t)
no_dash-append [] t = refl
no_dash-append (c ∷ s) t = ground (arith, no_dash-append s t)

pub no_dash_digits : (s : Text) → all_digits s ≡ true → no_dash s ≡ true
no_dash_digits [] h = refl
no_dash_digits (c ∷ s) h = ground (arith, no_dash_digits s)

pub cut_prerelease-none : (s : Text) → no_dash s ≡ true → cut_prerelease s ≡ (s, none)
unfolding cut_prerelease
cut_prerelease-none [] h = refl
cut_prerelease-none (c ∷ s) h =
    let other : (c == b'-') ≡ false = ground arith in
    rw (cut_prerelease-none s (ground arith), other) refl

pub cut_prerelease-some :
    (s t : Text) → no_dash s ≡ true → cut_prerelease (s ++ (b'-' ∷ t)) ≡ (s, some t)
unfolding cut_prerelease ℕ_discrete
cut_prerelease-some [] t h = refl
cut_prerelease-some (c ∷ s) t h =
    let other : (c == b'-') ≡ false = ground arith in
    rw (cut_prerelease-some s t (ground arith), other) refl
