-- ===== src/Conf/Samples.antt =====
-- Runs of the configuration language.
use kive.Prelude.{
  ◌≤◌, ◌≢◌, inr, arith, ◌==◌, text_key, nat_key, ◌&&◌, Bool, false, true, ◌≡◌, refl, [], ◌∷◌, Text,
  codes, list_discrete, ℕ_discrete, has,
}
use kive.Prelude.Int.{negsuc}
use kive.Prelude.Decimals.{digits_value, digits_of, decimal}
use kive.Conf.{
  Library, Ascii, out_of_fuel, byte_len, max_ident_bytes, ascii_letter, ascii_digit, ok, err, File,
  string_lit, number_lit, bool_lit, call_value, no_values, value, block, call, no_stmts, stmt,
}
use kive.Conf.Lexer.{
  next, next_token, scan_ident, scan_string, scan_number, scan_digits, whole, fraction,
  skip_space_and_comments,
}
use kive.Conf.Parser.{
  parse, advance, parse_file, parse_stmt, parse_value, parse_number_lit, skip_semicolon,
  parse_stmts, parse_version,
}
use kive.Conf.State.{parse_int}
use kive.Conf.WellFormed.{all, IsIdent}
use kive.Conf.Lexer.{is_ident_start, is_ident_part}
use kive.Conf.Fuel.{parse_total}
use kive.Conf.RoundTrip.{IsFile, parse-emit}
use kive.Conf.Emit.{emit, emit_stmt, emit_stmts, emit_value, indentation, escape_string}

abbrev ascii : Library
ascii = record { is_letter = ascii_letter; is_digit = ascii_digit; parses_float = λ text. true }

abbrev web : File
web = record {
  version = 1;
  stmts =
      stmt
        (block (codes "job") (codes "web") (
          stmt
            (call (codes "port")
              (value
                (call_value (codes "fixed") (value (number_lit (codes "-8") (negsuc 7)) no_values))
                (value (bool_lit true) no_values))
              false)
            no_stmts))
        (stmt (call (codes "name") (value (string_lit (codes "a\"b\n")) no_values) false) no_stmts);
}

parse-emit-web : parse ascii (emit [] web) ≡ ok web
unfolding emit emit_stmt emit_stmts emit_value indentation escape_string parse advance parse_file
    parse_stmt parse_value parse_int parse_number_lit skip_semicolon parse_stmts parse_version next
    next_token scan_ident scan_string scan_number scan_digits skip_space_and_comments whole fraction
    list_discrete ℕ_discrete has digits_value digits_of decimal
parse-emit-web = refl

ascii_laws : Ascii ascii
ascii_laws = record {
  letter_of = λ c h. refl;
  digit_of = λ c h. refl;
  no_digit_letter = λ c h. ground arith;
}

abbrev named : Library → Text → Bool
named lib [] = false
named lib (c ∷ s) = is_ident_start lib c && is_ident_part lib c && all (is_ident_part lib) s

is_ident :
    (name : Text)
    → named ascii name ≡ true
    → byte_len name ≤ max_ident_bytes
    → (name == codes "true") ≡ false
    → (name == codes "false") ≡ false
    → IsIdent ascii name
is_ident [] h fits t f = absurd (ground arith)
is_ident (c ∷ s) h fits t f = record {
  starts = ground arith;
  parts = ground arith;
  fits = fits;
  is_not_true = t;
  is_not_false = f;
}

web-IsFile : IsFile ascii web
unfolding parse_int digits_value has ℕ_discrete list_discrete
web-IsFile = record {
  are_stmts = (
    (
      is_ident (codes "job") refl (omega arith) refl refl,
      inr (is_ident (codes "web") refl (omega arith) refl refl),
      omega arith,
      (
        (
          is_ident (codes "port") refl (omega arith) refl refl,
          refl,
          omega arith,
          omega arith,
          (
            (
              is_ident (codes "fixed") refl (omega arith) refl refl,
              omega arith,
              omega arith,
              ((refl, refl), tt),
            ),
            (tt, tt),
          ),
        ),
        tt,
      ),
    ),
    (
      (
        is_ident (codes "name") refl (omega arith) refl refl,
        refl,
        omega arith,
        omega arith,
        ((refl, omega arith), tt),
      ),
      tt,
    ),
  );
  few = omega arith;
  version_fits = omega arith;
}

parse-emit_example : parse ascii (emit [] web) ≡ ok web
unfolding emit emit_stmt emit_stmts emit_value indentation escape_string list_discrete ℕ_discrete
    digits_of decimal
parse-emit_example = parse-emit ascii ascii_laws [] web refl web-IsFile (omega arith)

parse_total_example : parse ascii (codes "job(") ≢ err out_of_fuel
parse_total_example = parse_total ascii (codes "job(")
