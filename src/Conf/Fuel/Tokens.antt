-- ===== src/Conf/Fuel/Tokens.antt =====
-- conf/lexer.go: how much of the text a token takes.
use kive.Prelude.{
  ℕ, suc, ◌+◌, ◌≤◌, ◌≡◌, refl, Bool, true, false, ◌||◌, [], ◌∷◌, ◌++◌, arith, Text, ltb, length,
  nat_key, text_key, Bool-cases, Option-cases, some, inl, inr, ◌==◌,
}
use kive.Conf.{
  Library, Error, out_of_fuel, Result, ok, err, ◌>>=◌, rune_len, max_ident_bytes, max_string_bytes,
}
use kive.Conf.Lexer.{
  Token, tok_eof, skip_space_and_comments, escape_of, push_char, push_limited, scan_string,
  is_ident_start, is_ident_part, scan_ident, ident_token, at_token, scan_digits, string_token,
  punctuation, with_fraction, fraction, whole, scan_number, next_token, next,
}

abbrev pub is_out_of_fuel : Error → Bool
is_out_of_fuel out_of_fuel = true
is_out_of_fuel e = false

-- An error is not the model's own, and a result measures at most `n`.
abbrev pub Sound : {A : Type 0} → (A → ℕ) → ℕ → Result A → Type 0
Sound m n (err e) = is_out_of_fuel e ≡ false
Sound m n (ok a) = m a ≤ n

pub Sound-bind :
    {A B : Type 0} (m : A → ℕ) (n : ℕ) (m' : B → ℕ) (n' : ℕ) (r : Result A) (k : A → Result B)
    → Sound m n r
    → ((a : A) → m a ≤ n → Sound m' n' (k a))
    → Sound m' n' (r >>= k)
Sound-bind m n m' n' (err e) k h next = h
Sound-bind m n m' n' (ok a) k h next = next a h

abbrev pub pending : Token → ℕ
pending tok_eof = 0
pending t = 1

abbrev rest_length : Text × Text → ℕ
rest_length (text, rest) = length rest

abbrev pub token_length : Token × Text → ℕ
token_length (t, rest) = pending t + length rest

length-skip : (comment : Bool) (s : Text) → length (skip_space_and_comments comment s) ≤ length s
unfolding skip_space_and_comments
length-skip true [] = omega arith
length-skip false [] = omega arith
length-skip true (c ∷ s) = ground (arith, length-skip true s, length-skip false s)
length-skip false (c ∷ s) = ground (arith, length-skip true s, length-skip false s)

push_char-Sound :
    (c n : ℕ) (r : Result (Text × Text))
    → Sound rest_length n r
    → Sound rest_length n (push_char c r)
push_char-Sound c n (err e) h = h
push_char-Sound c n (ok (text, rest)) h = h

escape_of-Sound : (e : ℕ) → Sound (λ c. 0) 0 (escape_of e)
escape_of-Sound e = ground arith

push_limited-Sound :
    (n c k : ℕ) (next : ℕ → Result (Text × Text))
    → ((m : ℕ) → Sound rest_length k (next m))
    → Sound rest_length k (push_limited n c next)
push_limited-Sound n c k next h = elim (Bool-cases (ltb max_string_bytes (n + rune_len c))) [
  | inl long ↦ rw long refl
  | inr fits ↦ rw fits (push_char-Sound c k (next (n + rune_len c)) (h (n + rune_len c)))
]

pub Sound-le : {A : Type 0} (m : A → ℕ) (n k : ℕ) (r : Result A) → n ≤ k → Sound m n r → Sound m k r
Sound-le m n k (err e) le h = h
Sound-le m n k (ok a) le h = omega arith

scan_string-Sound :
    (escaped : Bool) (n : ℕ) (s : Text) → Sound rest_length (length s) (scan_string escaped n s)
unfolding scan_string
scan_string-Sound true n [] = refl
scan_string-Sound true n (e ∷ s) =
    Sound-bind (λ c. 0) 0 rest_length (suc (length s)) (escape_of e)
      (λ c. push_limited n c (λ m. scan_string false m s)) (escape_of-Sound e)
      (λ c h.
        Sound-le rest_length (length s) (suc (length s))
          (push_limited n c (λ m. scan_string false m s)) (omega arith)
          (push_limited-Sound n c (length s) (λ m. scan_string false m s)
            (λ m. scan_string-Sound false m s)))
scan_string-Sound false n [] = refl
scan_string-Sound false n (c ∷ s) =
    let plain =
      push_limited-Sound n c (length s) (λ m. scan_string false m s)
        (λ m. scan_string-Sound false m s) in
    let longer = Sound-le rest_length (length s) (suc (length s)) in
    elim (Bool-cases (c == 0)) [
      | inl nul ↦ rw nul refl
      | inr a ↦ elim (Bool-cases (c == b'\n')) [
        | inl line ↦ rw (a, line) refl
        | inr b ↦ elim (Bool-cases (c == b'"')) [
          | inl quote ↦ rw (a, b, quote) (omega arith)
          | inr d ↦ elim (Bool-cases (c == b'\\')) [
            | inl slash ↦
                rw (a, b, d, slash)
                  (longer (scan_string true n s) (omega arith) (scan_string-Sound true n s))
            | inr e ↦
                rw (a, b, d, e)
                  (longer (push_limited n c (λ m. scan_string false m s)) (omega arith) plain)
          ]
        ]
      ]
    ]

module _ (lib : Library) where
  scan_ident-Sound : (n : ℕ) (s : Text) → Sound rest_length (length s) (scan_ident lib n s)
  unfolding scan_ident
  scan_ident-Sound n [] = omega arith
  scan_ident-Sound n (c ∷ s) =
      let m = n + rune_len c in
      elim (Bool-cases (is_ident_part lib c)) [
        | inr stop ↦ rw stop (omega arith)
        | inl part ↦ elim (Bool-cases (ltb max_ident_bytes m)) [
          | inl long ↦ rw (part, long) refl
          | inr fits ↦
              rw (part, fits)
                (Sound-le rest_length (length s) (suc (length s)) (push_char c (scan_ident lib m s))
                  (omega arith)
                  (push_char-Sound c (length s) (scan_ident lib m s) (scan_ident-Sound m s)))
        ]
      ]

  scan_ident-start :
      (c : ℕ) (s : Text)
      → is_ident_part lib c ≡ true
      → Sound rest_length (length s) (scan_ident lib 0 (c ∷ s))
  unfolding scan_ident
  scan_ident-start c s part = elim (Bool-cases (ltb max_ident_bytes (0 + rune_len c))) [
    | inl long ↦ rw (part, long) refl
    | inr fits ↦
        rw (part, fits)
          (push_char-Sound c (length s) (scan_ident lib (0 + rune_len c) s)
            (scan_ident-Sound (0 + rune_len c) s))
  ]

  length-scan_digits :
      (s : Text) → length (scan_digits lib s).0 + length (scan_digits lib s).1 ≡ length s
  unfolding scan_digits
  length-scan_digits [] = omega arith
  length-scan_digits (c ∷ s) = ground (arith, length-scan_digits s)

  with_fraction-Sound :
      (before : Text) (p : Text × Text) (n : ℕ)
      → length p.0 + length p.1 ≡ n
      → Sound token_length n (with_fraction lib before p)
  unfolding with_fraction
  with_fraction-Sound before ([], rest) n h = refl
  with_fraction-Sound before (d ∷ ds, rest) n h = omega arith

  fraction-Sound : (before s : Text) → Sound token_length (suc (length s)) (fraction lib before s)
  unfolding fraction
  fraction-Sound before [] = omega arith
  fraction-Sound before (c ∷ s) = elim (Bool-cases (c == b'.')) [
    | inl dot ↦ rw dot (
        Sound-le token_length (length s) (suc (suc (length s)))
          (with_fraction lib before (scan_digits lib s)) (omega arith)
          (with_fraction-Sound before (scan_digits lib s) (length s) (length-scan_digits s)))
    | inr plain ↦ rw plain (omega arith)
  ]

  whole-Sound :
      (sign : Text) (p : Text × Text) (n : ℕ)
      → length p.0 + length p.1 ≡ n
      → Sound token_length n (whole lib sign p)
  unfolding whole
  whole-Sound sign ([], rest) n h = refl
  whole-Sound sign (d ∷ ds, rest) n h =
      Sound-le token_length (suc (length rest)) n (fraction lib (sign ++ (d ∷ ds)) rest)
        (omega arith) (fraction-Sound (sign ++ (d ∷ ds)) rest)

  scan_number-Sound : (s : Text) → Sound token_length (length s) (scan_number lib s)
  unfolding scan_number
  scan_number-Sound [] = refl
  scan_number-Sound (c ∷ s) = elim (Bool-cases (c == b'-')) [
    | inl minus ↦ rw minus (
        Sound-le token_length (length s) (suc (length s))
          (whole lib (b'-' ∷ []) (scan_digits lib s)) (omega arith)
          (whole-Sound (b'-' ∷ []) (scan_digits lib s) (length s) (length-scan_digits s)))
    | inr digits ↦
        rw digits
          (whole-Sound [] (scan_digits lib (c ∷ s)) (suc (length s)) (length-scan_digits (c ∷ s)))
  ]

  ident_token-Sound :
      (p : Text × Text) (n : ℕ) → rest_length p ≤ n → Sound token_length (suc n) (ident_token lib p)
  ident_token-Sound (text, rest) n h = ground arith

  at_token-Sound :
      (p : Text × Text) (n : ℕ) → rest_length p ≤ n → Sound token_length (suc n) (at_token lib p)
  at_token-Sound (name, rest) n h = ground arith

  punctuation-pending : (c : ℕ) (t : Token) → punctuation c ≡ some t → pending t ≡ 1
  punctuation-pending c t e = ground arith

  string_token-Sound :
      (p : Text × Text) (n : ℕ) → rest_length p ≤ n → Sound token_length (suc n) (string_token p)
  string_token-Sound (text, rest) n h = omega arith

  next_token-Sound : (s : Text) → Sound token_length (length s) (next_token lib s)
  unfolding next_token
  next_token-Sound [] = omega arith
  next_token-Sound (c ∷ s) =
      let n = suc (length s) in
      elim (Bool-cases (c == 0)) [
        | inl nul ↦ rw nul refl
        | inr a ↦ elim (Option-cases (punctuation c)) [
          | inr (t, e) ↦ rw (a, e) (let one = punctuation-pending c t e in omega arith)
          | inl p ↦ elim (Bool-cases (c == b'@')) [
            | inl at ↦
                rw (a, p, at)
                  (Sound-bind rest_length (length s) token_length n (scan_ident lib 0 s)
                    (at_token lib) (scan_ident-Sound 0 s) (λ x h. at_token-Sound x (length s) h))
            | inr b ↦ elim (Bool-cases (c == b'"')) [
              | inl quote ↦
                  rw (a, p, b, quote)
                    (Sound-bind rest_length (length s) token_length n (scan_string false 0 s)
                      string_token (scan_string-Sound false 0 s)
                      (λ x h. string_token-Sound x (length s) h))
              | inr d ↦ elim (Bool-cases (c == b'-' || lib.is_digit c)) [
                | inl number ↦ rw (a, p, b, d, number) (scan_number-Sound (c ∷ s))
                | inr e ↦ elim (Bool-cases (is_ident_start lib c)) [
                  | inr bad ↦ rw (a, p, b, d, e, bad) refl
                  | inl start ↦
                      rw (a, p, b, d, e, start)
                        (Sound-bind rest_length (length s) token_length n (scan_ident lib 0 (c ∷ s))
                          (ident_token lib) (scan_ident-start c s (ground arith))
                          (λ x h. ident_token-Sound x (length s) h))
                ]
              ]
            ]
          ]
        ]
      ]

  pub next-Sound : (s : Text) → Sound token_length (length s) (next lib s)
  unfolding next
  next-Sound s =
      let skipped = skip_space_and_comments false s in
      Sound-le token_length (length skipped) (length s) (next_token lib skipped)
        (length-skip false s) (next_token-Sound skipped)
