-- ===== src/Conf.antt =====
-- conf/: the language of the configuration files. This file has its trees (conf/ast.go), limits and
-- errors. A position and the words of a diagnostic are left out: an error is its kind.
pub mod Lexer
pub mod State
pub mod Parser
pub mod Emit
pub mod WellFormed
pub mod Stream
pub mod Lexing
pub mod Reading
pub mod RoundTrip
pub mod Fuel
mod Samples
use kive.Prelude.{
  ℕ, suc, ◌+◌, Bool, true, false, ◌≡◌, ◌<◌, ◌&&◌, ◌||◌, List, [], ◌∷◌, Text, leb, ltb, ◌==◌,
  nat_key, if◌then◌else◌,
}
use kive.Prelude.Int.{ℤ}

-- What the lexer asks of the packages `unicode` and `strconv`: the classes of letters and digits
-- beyond ASCII, and whether ParseFloat takes a text.
pub record Library : Type 0 where
  pub is_letter : ℕ → Bool
  pub is_digit : ℕ → Bool
  pub parses_float : Text → Bool

abbrev pub ascii_letter : ℕ → Bool
ascii_letter c = (leb b'A' c && leb c b'Z') || (leb b'a' c && leb c b'z')

abbrev pub ascii_digit : ℕ → Bool
ascii_digit c = leb b'0' c && leb c b'9'

-- Unicode's classes on ASCII.
pub record Ascii (lib : Library) : Type 0 where
  pub letter_of : (c : ℕ) → c < 128 → lib.is_letter c ≡ ascii_letter c
  pub digit_of : (c : ℕ) → c < 128 → lib.is_digit c ≡ ascii_digit c
  pub no_digit_letter : (c : ℕ) → lib.is_digit c ≡ true → lib.is_letter c ≡ false

abbrev pub max_source_bytes : ℕ
max_source_bytes = 1048576

abbrev pub max_nesting_depth : ℕ
max_nesting_depth = 32

abbrev pub max_statements : ℕ
max_statements = 100000

abbrev pub max_args : ℕ
max_args = 4096

abbrev pub max_string_bytes : ℕ
max_string_bytes = 65536

abbrev pub max_ident_bytes : ℕ
max_ident_bytes = 256

-- The last one is the model's: no text runs out of the parser's fuel.
pub data Error : Type 0 where
  source_limit null_byte ident_limit string_limit depth_limit statement_limit args_limit : Error
  unexpected_character unknown_directive expected_number expected_fraction : Error
  unclosed_string unterminated_escape invalid_escape invalid_number : Error
  expected_colon expected_version invalid_version expected_name expected_brace : Error
  expected_paren_or_brace unclosed_brace trailing_comma unclosed_paren expected_paren : Error
  expected_value out_of_fuel : Error

pub data Result (A : Type 0) : Type 0 where
  ok : A → Result A
  err : Error → Result A

infixl 5 ◌>>=◌
abbrev pub ◌>>=◌ : {A B : Type 0} → Result A → (A → Result B) → Result B
ok a >>= f = f a
err e >>= f = err e

-- `Value`; a whole number has its text and its value. What ParseFloat makes of a text is not looked at.
mutual
  pub data Value : Type 0 where
    string_lit : Text → Value
    number_lit : Text → ℤ → Value
    float_lit : Text → Value
    bool_lit : Bool → Value
    ident_lit : Text → Value
    call_value : Text → Values → Value

  pub data Values : Type 0 where
    no_values : Values
    value : Value → Values → Values

-- `Stmt`; an omitted `ID` is empty. The last field of a call is `TrailingSem`.
mutual
  pub data Stmt : Type 0 where
    block : Text → Text → Stmts → Stmt
    call : Text → Values → Bool → Stmt

  pub data Stmts : Type 0 where
    no_stmts : Stmts
    stmt : Stmt → Stmts → Stmts

-- `version` is 0 where it is omitted.
pub record File : Type 0 where
  pub version : ℕ
  pub stmts : Stmts

-- `utf8.RuneLen`
abbrev pub rune_len : ℕ → ℕ
rune_len c = if ltb c 0x80 then 1 else if ltb c 0x800 then 2 else if ltb c 0x10000 then 3 else 4

abbrev pub byte_len : Text → ℕ
byte_len [] = 0
byte_len (c ∷ s) = rune_len c + byte_len s
