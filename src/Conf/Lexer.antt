-- ===== src/Conf/Lexer.antt =====
-- conf/lexer.go: a token and what follows it.
use kive.Prelude.{
  ℕ, ◌+◌, Bool, true, false, not, ◌&&◌, ◌||◌, Option, none, some, [], ◌∷◌, ◌++◌, Text, codes, ◌==◌,
  ltb, if◌then◌else◌, nat_key, text_key,
}
use kive.Conf.{
  Library, null_byte, ident_limit, string_limit, unexpected_character, unknown_directive,
  expected_number, expected_fraction, unclosed_string, unterminated_escape, invalid_escape, Result,
  ok, err, ◌>>=◌, rune_len, max_ident_bytes, max_string_bytes,
}

pub data Token : Type 0 where
  tok_eof tok_true tok_false tok_lparen tok_rparen tok_lbrace tok_rbrace tok_comma : Token
  tok_semicolon tok_colon tok_at_version : Token
  tok_ident tok_string tok_number : Text → Token

abbrev pub is_space : ℕ → Bool
is_space c = c == b' ' || c == b'\t' || c == b'\r' || c == b'\n'

abbrev pub starts_with : ℕ → Text → Bool
starts_with c [] = false
starts_with c (d ∷ s) = d == c

-- The flag says that a comment is open; its newline ends it and is a space.
unfoldable pub skip_space_and_comments : Bool → Text → Text
skip_space_and_comments comment [] = []
skip_space_and_comments true (c ∷ s) =
    let inside = skip_space_and_comments true s in
    let outside = skip_space_and_comments false s in if c == b'\n' then outside else inside
skip_space_and_comments false (c ∷ s) =
    let inside = skip_space_and_comments true s in
    let outside = skip_space_and_comments false s in
    if is_space c
    then outside
    else if c == b'#' || (c == b'/' && starts_with b'/' s)
    then inside
    else c ∷ s

abbrev pub escape_of : ℕ → Result ℕ
escape_of e =
    if e == b'"' || e == b'\\' || e == b'/'
    then ok e
    else if e == b'n'
    then ok b'\n'
    else if e == b't'
    then ok b'\t'
    else if e == b'r'
    then ok b'\r'
    else err invalid_escape

abbrev pub push_char : ℕ → Result (Text × Text) → Result (Text × Text)
push_char c (ok (text, rest)) = ok (c ∷ text, rest)
push_char c (err e) = err e

-- A character of the string, and `n` bytes so far.
abbrev pub push_limited : ℕ → ℕ → (ℕ → Result (Text × Text)) → Result (Text × Text)
push_limited n c next =
    if ltb max_string_bytes (n + rune_len c)
    then err string_limit
    else push_char c (next (n + rune_len c))

-- The loop of `scanString`; the flag says that a backslash was read.
unfoldable pub scan_string : Bool → ℕ → Text → Result (Text × Text)
scan_string true n [] = err unterminated_escape
scan_string true n (e ∷ s) = escape_of e >>= λ c. push_limited n c (λ m. scan_string false m s)
scan_string false n [] = err unclosed_string
scan_string false n (c ∷ s) =
    if c == 0
    then err null_byte
    else if c == b'\n'
    then err unclosed_string
    else if c == b'"'
    then ok ([], s)
    else if c == b'\\'
    then scan_string true n s
    else push_limited n c (λ m. scan_string false m s)

abbrev pub string_token : Text × Text → Result (Token × Text)
string_token (text, rest) = ok (tok_string text, rest)

-- The tokens of one character.
abbrev pub punctuation : ℕ → Option Token
punctuation c =
    if c == b'('
    then some tok_lparen
    else if c == b')'
    then some tok_rparen
    else if c == b'{'
    then some tok_lbrace
    else if c == b'}'
    then some tok_rbrace
    else if c == b','
    then some tok_comma
    else if c == b';'
    then some tok_semicolon
    else if c == b':'
    then some tok_colon
    else none

module _ (lib : Library) where
  abbrev pub is_ident_start : ℕ → Bool
  is_ident_start c = c == b'_' || lib.is_letter c

  abbrev pub is_ident_part : ℕ → Bool
  is_ident_part c = c == b'_' || lib.is_letter c || lib.is_digit c

  -- The loop that `scanAt` and `scanIdent` share.
  unfoldable pub scan_ident : ℕ → Text → Result (Text × Text)
  scan_ident n [] = ok ([], [])
  scan_ident n (c ∷ s) =
      if not (is_ident_part c)
      then ok ([], c ∷ s)
      else if ltb max_ident_bytes (n + rune_len c)
      then err ident_limit
      else push_char c (scan_ident (n + rune_len c) s)

  abbrev pub ident_token : Text × Text → Result (Token × Text)
  ident_token (text, rest) =
      if text == codes "true"
      then ok (tok_true, rest)
      else if text == codes "false"
      then ok (tok_false, rest)
      else ok (tok_ident text, rest)

  abbrev pub at_token : Text × Text → Result (Token × Text)
  at_token (name, rest) =
      if not (name == codes "version") then err unknown_directive else ok (tok_at_version, rest)

  unfoldable pub scan_digits : Text → Text × Text
  scan_digits [] = ([], [])
  scan_digits (c ∷ s) =
      let (digits, rest) = scan_digits s in
      if lib.is_digit c then (c ∷ digits, rest) else ([], c ∷ s)

  -- `before` is what the builder holds after the whole digits.
  unfoldable pub with_fraction : Text → Text × Text → Result (Token × Text)
  with_fraction before ([], rest) = err expected_fraction
  with_fraction before (d ∷ ds, rest) = ok (tok_number (before ++ (b'.' ∷ d ∷ ds)), rest)

  unfoldable pub fraction : Text → Text → Result (Token × Text)
  fraction before [] = ok (tok_number before, [])
  fraction before (c ∷ s) =
      if c == b'.' then with_fraction before (scan_digits s) else ok (tok_number before, c ∷ s)

  unfoldable pub whole : Text → Text × Text → Result (Token × Text)
  whole sign ([], rest) = err expected_number
  whole sign (d ∷ ds, rest) = fraction (sign ++ (d ∷ ds)) rest

  unfoldable pub scan_number : Text → Result (Token × Text)
  scan_number [] = err expected_number
  scan_number (c ∷ s) =
      if c == b'-' then whole (b'-' ∷ []) (scan_digits s) else whole [] (scan_digits (c ∷ s))

  -- `next`, once the spaces and the comments are skipped.
  unfoldable pub next_token : Text → Result (Token × Text)
  next_token [] = ok (tok_eof, [])
  next_token (c ∷ s) = if c == 0 then err null_byte else elim (punctuation c) [
    | some t ↦ ok (t, s)
    | none ↦
        if c == b'@'
        then (scan_ident 0 s >>= at_token)
        else if c == b'"'
        then (scan_string false 0 s >>= string_token)
        else if c == b'-' || lib.is_digit c
        then scan_number (c ∷ s)
        else if is_ident_start c
        then (scan_ident 0 (c ∷ s) >>= ident_token)
        else err unexpected_character
  ]

  unfoldable pub next : Text → Result (Token × Text)
  next text = next_token (skip_space_and_comments false text)
