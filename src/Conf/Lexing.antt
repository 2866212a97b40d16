-- ===== src/Conf/Lexing.antt =====
-- conf/lexer.go: what the lexer reads in front of a text that is written like a token.
pub mod Numbers
use kive.Prelude.{
  ℕ, zero, suc, ◌+◌, ◌≤◌, ◌<◌, ◌≡◌, refl, sym, Bool, true, false, not, ◌&&◌, ◌||◌, Option, none,
  some, List, [], ◌∷◌, ◌++◌, arith, Text, codes, ltb, leb, has, nat_key, text_key, if◌then◌else◌,
  ◌==◌, inl, inr, ◌⊎◌, ℕ_discrete, list_discrete, Bool-cases,
}
use kive.Conf.{
  Library, Ascii, ascii_letter, ascii_digit, Result, ok, err, ◌>>=◌, rune_len, byte_len,
  max_ident_bytes, max_string_bytes,
}
use kive.Conf.Lexer.{
  Token, tok_true, tok_false, tok_ident, tok_string, tok_number, tok_at_version,
  skip_space_and_comments, push_char, push_limited, scan_string, string_token, is_ident_start,
  is_ident_part, scan_ident, ident_token, at_token, scan_digits, with_fraction, fraction, whole,
  scan_number, next_token, next,
}
use kive.Conf.Emit.{escape_string}
use kive.Conf.WellFormed.{all, IsIdent, are_digits, is_whole}

has_head : (c : ℕ) (s : Text) → has 0 (c ∷ s) ≡ false → ((c == 0) ≡ false) × (has 0 s ≡ false)
unfolding has ℕ_discrete
has_head c s h = ground arith

push_limited-ok :
    (n c c' : ℕ) (s rest : Text) (next : ℕ → Result (Text × Text))
    → c ≡ c'
    → ltb max_string_bytes (n + rune_len c) ≡ false
    → next (n + rune_len c) ≡ ok (s, rest)
    → push_limited n c' next ≡ ok (c ∷ s, rest)
push_limited-ok n c c' s rest next e room h = rw (sym e, room, h) refl

fits_head : (n r k limit : ℕ) → n + (r + k) ≤ limit → ltb limit (n + r) ≡ false
fits_head n r k limit h = ground arith

is_char : (c k : ℕ) → (c == k) ≡ true → c ≡ k
is_char c k h = ground arith

-- What is written in a string literal is read back, up to its closing quote.
pub scan_string-escape_string :
    (n : ℕ) (s rest : Text)
    → has 0 s ≡ false
    → n + byte_len s ≤ max_string_bytes
    → scan_string false n (escape_string s (b'"' ∷ rest)) ≡ ok (s, rest)
unfolding scan_string escape_string has ℕ_discrete
scan_string-escape_string n [] rest clean fits = refl
scan_string-escape_string n (c ∷ s) rest clean fits =
    let not_nul = has_head c s clean in
    let k : ℕ → Result (Text × Text) = λ m. scan_string false m (escape_string s (b'"' ∷ rest)) in
    let pushed : (c' : ℕ) → c ≡ c' → push_limited n c' k ≡ ok (c ∷ s, rest) = λ c' e.
      push_limited-ok n c c' s rest k e
        (fits_head n (rune_len c) (byte_len s) max_string_bytes fits)
        (scan_string-escape_string (n + rune_len c) s rest not_nul.1 (omega arith)) in
    elim (Bool-cases (c == b'"')) [
      | inl quote ↦ rw quote (pushed b'"' (is_char c b'"' quote))
      | inr a ↦ elim (Bool-cases (c == b'\\')) [
        | inl slash ↦ rw (a, slash) (pushed b'\\' (is_char c b'\\' slash))
        | inr b ↦ elim (Bool-cases (c == b'\n')) [
          | inl line ↦ rw (a, b, line) (pushed b'\n' (is_char c b'\n' line))
          | inr d ↦ elim (Bool-cases (c == b'\t')) [
            | inl tab ↦ rw (a, b, d, tab) (pushed b'\t' (is_char c b'\t' tab))
            | inr e ↦ elim (Bool-cases (c == b'\r')) [
              | inl return ↦ rw (a, b, d, e, return) (pushed b'\r' (is_char c b'\r' return))
              | inr f ↦ rw (a, b, d, e, f, not_nul.0, d, a, b) (pushed c refl)
            ]
          ]
        ]
      ]
    ]

module _ (lib : Library) where
  -- The characters that end a name or a number.
  abbrev pub stops : Text → Bool
  stops [] = true
  stops (c ∷ s) = not (is_ident_part lib c) && not (c == b'.')

  scan_ident-all :
      (n : ℕ) (name rest : Text)
      → all (is_ident_part lib) name ≡ true
      → n + byte_len name ≤ max_ident_bytes
      → stops rest ≡ true
      → scan_ident lib n (name ++ rest) ≡ ok (name, rest)
  unfolding scan_ident
  scan_ident-all n [] [] h fits st = refl
  scan_ident-all n [] (c ∷ s) h fits st =
      let e : is_ident_part lib c ≡ false = ground arith in rw e refl
  scan_ident-all n (c ∷ s) rest h fits st =
      let ih = scan_ident-all (n + rune_len c) s rest (ground arith) (omega arith) st in
      let part : is_ident_part lib c ≡ true = ground arith in
      let room : ltb max_ident_bytes (n + rune_len c) ≡ false = ground arith in
      rw (part, room, ih) refl

abbrev ltb_128 : ℕ → Bool
ltb_128 c = ltb c 128

zero_plus_le : (a b : ℕ) → a ≤ b → 0 + a ≤ b
zero_plus_le a b h = omega arith

false-true : false ≡ true → ⊥
false-true h = ground arith

module _ (lib : Library) (laws : Ascii lib) where
  start_range :
      (c : ℕ)
      → is_ident_start lib c ≡ true
      → (c ≡ 95) ⊎ (((65 ≤ c) × (c ≤ 90)) ⊎ (((97 ≤ c) × (c ≤ 122)) ⊎ (128 ≤ c)))
  start_range c h = elim (Bool-cases (ltb c 128)) [
    | inl small ↦ let e = laws.letter_of c (ground arith) in ground arith
    | inr large ↦ ground arith
  ]

  start_no_digit : (c : ℕ) → is_ident_start lib c ≡ true → lib.is_digit c ≡ false
  start_no_digit c h = elim (Bool-cases (lib.is_digit c)) [
    | inr other ↦ other
    | inl digit ↦
        let e = laws.no_digit_letter c digit in
        let score : lib.is_digit 95 ≡ false = laws.digit_of 95 (omega arith) in
        let is_score : c ≡ 95 = ground arith in rw is_score score
  ]

  next_start :
      (c : ℕ) (s : Text)
      → is_ident_start lib c ≡ true
      → next lib (c ∷ s) ≡ (scan_ident lib 0 (c ∷ s) >>= ident_token lib)
  unfolding next next_token skip_space_and_comments
  next_start c s h = let range = start_range c h in let digit = start_no_digit c h in ground arith

  part_letter : (c : ℕ) → c < 128 → ascii_letter c ≡ true → is_ident_part lib c ≡ true
  part_letter c small h = let e = laws.letter_of c small in ground arith

  start_letter : (c : ℕ) → c < 128 → ascii_letter c ≡ true → is_ident_start lib c ≡ true
  start_letter c small h = let e = laws.letter_of c small in ground arith

  -- Small letters are parts of a name.
  parts_letters :
      (s : Text)
      → all ascii_letter s ≡ true
      → all (ltb_128) s ≡ true
      → all (is_ident_part lib) s ≡ true
  parts_letters [] h h' = refl
  parts_letters (c ∷ s) h h' =
      let p = part_letter c (ground arith) (ground arith) in
      let ps = parts_letters s (ground arith) (ground arith) in ground arith

  pub next-ident :
      (name rest : Text)
      → IsIdent lib name
      → stops lib rest ≡ true
      → next lib (name ++ rest) ≡ ok (tok_ident name, rest)
  next-ident [] rest h st = absurd (false-true h.starts)
  next-ident (c ∷ s) rest h st =
      rw
        (
          next_start c (s ++ rest) h.starts,
          scan_ident-all lib 0 (c ∷ s) rest h.parts
              (zero_plus_le (byte_len (c ∷ s)) max_ident_bytes h.fits) st,
          h.is_not_true,
          h.is_not_false,
        )
        refl

  pub next-true :
      (rest : Text) → stops lib rest ≡ true → next lib (codes "true" ++ rest) ≡ ok (tok_true, rest)
  unfolding list_discrete ℕ_discrete
  next-true rest st =
      rw
        (
          next_start b't' (codes "rue" ++ rest) (start_letter b't' (omega arith) refl),
          scan_ident-all lib 0 (codes "true") rest (parts_letters (codes "true") refl refl)
              (omega arith) st,
        )
        refl

  pub next-false :
      (rest : Text)
      → stops lib rest ≡ true
      → next lib (codes "false" ++ rest) ≡ ok (tok_false, rest)
  unfolding list_discrete ℕ_discrete
  next-false rest st =
      rw
        (
          next_start b'f' (codes "alse" ++ rest) (start_letter b'f' (omega arith) refl),
          scan_ident-all lib 0 (codes "false") rest (parts_letters (codes "false") refl refl)
              (omega arith) st,
        )
        refl

  pub next-at_version :
      (rest : Text)
      → stops lib rest ≡ true
      → next lib (codes "@version" ++ rest) ≡ ok (tok_at_version, rest)
  unfolding list_discrete ℕ_discrete next next_token skip_space_and_comments
  next-at_version rest st =
      rw
        (scan_ident-all lib 0 (codes "version") rest (parts_letters (codes "version") refl refl)
          (omega arith) st)
        refl

  pub next-string :
      (s rest : Text)
      → has 0 s ≡ false
      → byte_len s ≤ max_string_bytes
      → next lib (b'"' ∷ escape_string s (b'"' ∷ rest)) ≡ ok (tok_string s, rest)
  unfolding next next_token skip_space_and_comments ℕ_discrete
  next-string s rest clean fits = rw (scan_string-escape_string 0 s rest clean (omega arith)) refl
