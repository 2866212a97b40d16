-- ===== src/Conf/RoundTrip.antt =====
-- conf/: the emitted text of a file, parsed.
pub mod Tokens
pub mod Statements
pub mod Characters
use kive.Prelude.{
  ℕ, zero, suc, ◌+◌, ◌≤◌, ◌<◌, ◌≡◌, ◌≢◌, ap, refl, sym, Bool, true, false, not, ◌&&◌, Option, none,
  some, List, [], ◌∷◌, arith, Text, ltb, leb, has, nat_key, text_key, if◌then◌else◌, ◌==◌, inl, inr,
  ◌⊎◌, ℕ_discrete, list_discrete, Bool-cases,
}
use kive.Prelude.Int.{pos}
use kive.Prelude.Decimals.{is_digit, digits_value, decimal}
use kive.Prelude.Decimals.Laws.{decimal-value, decimal-cons, digits_value-digits, all_digits}
use kive.Conf.{
  Library, Ascii, Error, out_of_fuel, Result, ok, err, ◌>>=◌, File, byte_len, max_source_bytes,
  max_statements,
}
use kive.Conf.Lexer.{Token, tok_eof, is_space}
use kive.Conf.Parser.{advance, version_number, parse_file, start, parse_fuel, parse}
use kive.Conf.State.{State, parse_int, int64_limit}
use kive.Conf.Emit.{emit_stmts, emit_version, finish_line, indent_of, emit}
use kive.Conf.WellFormed.{all, is_whole, AreStmts, sizes, toks_file}
use kive.Conf.Fuel.Tokens.{is_out_of_fuel, Sound}
use kive.Conf.Fuel.{parse-Sound}
use kive.Conf.Stream.{Gives, Gives-bind, Yields, Stands, advance-Stands, head_token, tail_tokens}
use mathlib.Core.Path.{subst, ◌∙◌}
use kive.Conf.Reading.Files.{Is, parse_file-Is}
use kive.Conf.RoundTrip.Statements.{emit_file-Yields}
use kive.Conf.RoundTrip.Characters.{Ends, Ends-Kept, Clean, Clean-Kept, emit_version-P}

-- A file that has a text: its names, literals, sizes, depths and version are the language's.
pub record IsFile (lib : Library) (f : File) : Type 0 where
  pub are_stmts : AreStmts lib 0 f.stmts
  pub few : sizes f.stmts ≤ max_statements
  pub version_fits : f.version < int64_limit

finish_line_done : (text : Text) → Ends (b'\n' ∷ text) → finish_line text ≡ text
unfolding list_discrete ℕ_discrete
finish_line_done [] h = refl
finish_line_done (c ∷ s) h = rw h refl

-- What is sound and gives a value unless its fuel ends, gives it.
decided : {A : Type 0} (a : A) (r : Result A) → Sound (λ x. 0) 0 r → Gives (λ x. x ≡ a) r → r ≡ ok a
decided a (err e) h g = absurd (ground arith)
decided a (ok x) h g = ap ok g

indent_of-blank :
    (indent : Text) → all is_space indent ≡ true → all is_space (indent_of indent) ≡ true
unfolding ℕ_discrete
indent_of-blank [] h = refl
indent_of-blank (c ∷ s) h = h

Clean-tail : (s : Text) → Clean (b'\n' ∷ s) → Clean s
unfolding has ℕ_discrete
Clean-tail s h = h

module _ (lib : Library) (laws : Ascii lib) where
  all_digits_whole : (s : Text) → all_digits s ≡ true → all lib.is_digit s ≡ true
  all_digits_whole [] h = refl
  all_digits_whole (c ∷ s) h =
      let e = laws.digit_of c (ground arith) in ground (arith, all_digits_whole s)

  decimal-whole : (n : ℕ) → is_whole lib (decimal n) ≡ true
  decimal-whole n =
      let (c, s, e) = decimal-cons n in
      rw e (whole c s (digits_value-digits 0 n (c ∷ s) (rw (sym e) (decimal-value n))))
    where
      whole : (c : ℕ) (s : Text) → all_digits (c ∷ s) ≡ true → is_whole lib (c ∷ s) ≡ true
      whole c s h = let d = all_digits_whole (c ∷ s) h in ground arith

  parse_int_digits :
      (n : ℕ) (s : Text)
      → digits_value 0 s ≡ some n
      → s ≢ []
      → n < int64_limit
      → parse_int s ≡ ok (pos n)
  unfolding parse_int
  parse_int_digits n [] e some_digit fits = absurd (some_digit refl)
  parse_int_digits n (c ∷ s) e some_digit fits =
      let digits = digits_value-digits 0 n (c ∷ s) e in
      let no_sign : (c == b'-') ≡ false = ground arith in
      let room : ltb n int64_limit ≡ true = ground arith in rw (no_sign, e, room) refl

  version_number-decimal :
      (n : ℕ) → n < int64_limit → (n ≡ 0) ⊎ (version_number lib (decimal n) ≡ some n)
  version_number-decimal zero h = inl refl
  version_number-decimal (suc n) h =
      let (c, s, e) = decimal-cons (suc n) in
      let i =
        parse_int_digits (suc n) (decimal (suc n)) (decimal-value (suc n))
          (rw e (λ p. ground arith)) h in
      inr (rw (i, version_number) refl)

  read-Is :
      (text : Text) (f : File) (fuel : ℕ)
      → IsFile lib f
      → Yields lib text (toks_file f)
      → Gives (Is lib laws f) (
          advance lib (start lib text) >>= λ st1.
          advance lib st1 >>= λ st2. parse_file lib fuel st2)
  read-Is text f fuel wf y =
      let ts = toks_file f in
      Gives-bind (Stands lib (tok_eof ∷ ts) 0) (Is lib laws f) (advance lib (start lib text))
        (λ st1. advance lib st1 >>= λ st2. parse_file lib fuel st2)
        (advance-Stands lib (start lib text) (tok_eof ∷ tok_eof ∷ ts) (refl, refl, y))
        (λ st1 (at1, es1).
          Gives-bind (Stands lib ts st1.stmts) (Is lib laws f) (advance lib st1)
            (parse_file lib fuel) (advance-Stands lib st1 (tok_eof ∷ ts) at1)
            (λ st2 (at2, es2).
              parse_file-Is lib laws fuel st2 f wf.are_stmts wf.few
                (version_number-decimal f.version wf.version_fits) at2 (es2 ∙ es1)))

  parse_of_tokens :
      (text : Text) (f : File)
      → IsFile lib f
      → Yields lib text (toks_file f)
      → has 0 text ≡ false
      → byte_len text ≤ max_source_bytes
      → Gives (Is lib laws f) (parse lib text)
  unfolding parse
  parse_of_tokens text f wf y clean short =
      let fits : ltb max_source_bytes (byte_len text) ≡ false = ground arith in
      rw (fits, clean) (read-Is text f (parse_fuel lib text) wf y)

  -- A file whose names, literals, sizes, depths and version are the language's and whose calls have no
  -- `;`, emitted with any indentation of blanks, is parsed back to the same file, when the text is no
  -- longer than a source may be. The classes of letters and digits are the usual ones on ASCII.
  pub parse-emit :
      (indent : Text) (f : File)
      → all is_space indent ≡ true
      → IsFile lib f
      → byte_len (emit indent f) ≤ max_source_bytes
      → parse lib (emit indent f) ≡ ok f
  unfolding emit
  parse-emit indent f blank wf short =
      let indent' = indent_of indent in
      let blank' = indent_of-blank indent blank in
      let w = decimal-whole f.version in
      let text = emit_version f.version (emit_stmts indent' f.stmts) in
      let ends =
        emit_version-P lib laws Ends Ends-Kept indent' blank' f.version f.stmts wf.are_stmts w in
      let clean =
        emit_version-P lib laws Clean Clean-Kept indent' blank' f.version f.stmts wf.are_stmts w in
      let same : emit indent f ≡ text = finish_line_done text ends in
      rw same (
        decided f (parse lib text) (parse-Sound lib text) (
          parse_of_tokens text f wf (emit_file-Yields lib laws indent' blank' f wf.are_stmts w)
            (Clean-tail text clean) (subst (λ t. byte_len t ≤ max_source_bytes) same short)))
