-- ===== src/Conf/Lexing/Numbers.antt =====
-- conf/lexer.go: the numbers.
use kive.Prelude.{
  ℕ, ◌≤◌, ◌≡◌, refl, Bool, true, false, not, [], ◌∷◌, ◌++◌, arith, Text, ltb, nat_key, ◌==◌, inl,
  inr, ◌⊎◌, ℕ_discrete, Bool-cases,
}
use kive.Conf.{Library, Ascii, ok}
use kive.Conf.Lexer.{
  tok_number, skip_space_and_comments, scan_digits, with_fraction, fraction, whole, scan_number,
  next_token, next,
}
use kive.Conf.WellFormed.{all, IsFloat, are_digits, is_whole}
use kive.Conf.Lexing.{stops}
use mathlib.Core.List.{append_assoc}

module _ (lib : Library) where
  -- No digit follows, and no fraction.
  abbrev no_digit : Text → Bool
  no_digit [] = true
  no_digit (c ∷ s) = not (lib.is_digit c)

  scan_digits-all :
      (ds rest : Text)
      → all lib.is_digit ds ≡ true
      → no_digit rest ≡ true
      → scan_digits lib (ds ++ rest) ≡ (ds, rest)
  unfolding scan_digits
  scan_digits-all [] [] h st = refl
  scan_digits-all [] (c ∷ s) h st = let e : lib.is_digit c ≡ false = ground arith in rw e refl
  scan_digits-all (c ∷ ds) rest h st =
      let ih = scan_digits-all ds rest (ground arith) st in
      let e : lib.is_digit c ≡ true = ground arith in rw (ih, e) refl

  stops-no_digit : (rest : Text) → stops lib rest ≡ true → no_digit rest ≡ true
  stops-no_digit [] h = refl
  stops-no_digit (c ∷ s) h = ground arith

  fraction-none :
      (before rest : Text)
      → stops lib rest ≡ true
      → fraction lib before rest ≡ ok (tok_number before, rest)
  unfolding fraction
  fraction-none before [] h = refl
  fraction-none before (c ∷ s) h = let e : (c == b'.') ≡ false = ground arith in rw e refl

  fraction-some :
      (before after rest : Text)
      → are_digits lib after ≡ true
      → stops lib rest ≡ true
      → fraction lib before (b'.' ∷ (after ++ rest))
        ≡ ok (tok_number (before ++ (b'.' ∷ after)), rest)
  unfolding fraction with_fraction ℕ_discrete
  fraction-some before [] rest h st = absurd (ground arith)
  fraction-some before (d ∷ ds) rest h st =
      rw (scan_digits-all (d ∷ ds) rest h (stops-no_digit rest st)) refl

  whole_all :
      (sign ds rest : Text)
      → are_digits lib ds ≡ true
      → no_digit rest ≡ true
      → whole lib sign (scan_digits lib (ds ++ rest)) ≡ fraction lib (sign ++ ds) rest
  unfolding whole
  whole_all sign [] rest h st = absurd (ground arith)
  whole_all sign (d ∷ ds) rest h st = rw (scan_digits-all (d ∷ ds) rest h st) refl

module _ (lib : Library) (laws : Ascii lib) where
  digit_range : (c : ℕ) → lib.is_digit c ≡ true → ((48 ≤ c) × (c ≤ 57)) ⊎ (128 ≤ c)
  digit_range c h = elim (Bool-cases (ltb c 128)) [
    | inl small ↦ let e = laws.digit_of c (ground arith) in ground arith
    | inr large ↦ ground arith
  ]

  scan_number_whole :
      (text rest : Text)
      → is_whole lib text ≡ true
      → no_digit lib rest ≡ true
      → scan_number lib (text ++ rest) ≡ fraction lib text rest
  unfolding scan_number
  scan_number_whole [] rest h st = absurd (ground arith)
  scan_number_whole (c ∷ s) rest h st = elim (Bool-cases (c == b'-')) [
    | inl minus ↦
        let e : c ≡ b'-' = ground arith in
        let ds : are_digits lib s ≡ true = ground arith in
        rw (minus, e) (whole_all lib (b'-' ∷ []) s rest ds st)
    | inr digits ↦
        let ds : are_digits lib (c ∷ s) ≡ true = ground arith in
        rw digits (whole_all lib [] (c ∷ s) rest ds st)
  ]

  next_digit :
      (c : ℕ) (s : Text)
      → (c ≡ b'-') ⊎ (lib.is_digit c ≡ true)
      → next lib (c ∷ s) ≡ scan_number lib (c ∷ s)
  unfolding next next_token skip_space_and_comments ℕ_discrete
  next_digit c s (inl minus) = rw minus refl
  next_digit c s (inr digit) = let range = digit_range c digit in ground arith

  next_whole :
      (text rest : Text)
      → is_whole lib text ≡ true
      → next lib (text ++ rest) ≡ scan_number lib (text ++ rest)
  next_whole [] rest h = absurd (ground arith)
  next_whole (c ∷ s) rest h = elim (Bool-cases (c == b'-')) [
    | inl minus ↦ next_digit c (s ++ rest) (inl (ground arith))
    | inr digits ↦ next_digit c (s ++ rest) (inr (ground arith))
  ]

  pub next-number :
      (text rest : Text)
      → is_whole lib text ≡ true
      → stops lib rest ≡ true
      → next lib (text ++ rest) ≡ ok (tok_number text, rest)
  next-number text rest h st =
      rw (next_whole text rest h, scan_number_whole text rest h (stops-no_digit lib rest st))
        (fraction-none lib text rest st)

  pub next-float :
      (text rest : Text)
      → IsFloat lib text
      → stops lib rest ≡ true
      → next lib (text ++ rest) ≡ ok (tok_number text, rest)
  next-float text rest h st =
      let dot : lib.is_digit b'.' ≡ false = laws.digit_of b'.' (omega arith) in
      let tail = b'.' ∷ (h.after ++ rest) in
      let ends : no_digit lib tail ≡ true = rw dot refl in
      rw
        (
          h.parts,
          append_assoc h.before (b'.' ∷ h.after) rest,
          next_whole h.before tail h.before_whole,
          scan_number_whole h.before tail h.before_whole ends,
        )
        (fraction-some lib h.before h.after rest h.after_digits st)
