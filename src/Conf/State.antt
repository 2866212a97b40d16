-- ===== src/Conf/State.antt =====
-- conf/parser.go: the parser's state, the tests on its tokens and whole numbers.
use kive.Prelude.{
  ℕ, zero, suc, ◌-◌, Bool, true, false, Option, none, some, [], ◌∷◌, Text, ◌==◌, ltb, leb,
  if◌then◌else◌, has, nat_key,
}
use kive.Prelude.Int.{ℤ, pos, negsuc}
use kive.Prelude.Decimals.{digits_value}
use kive.Conf.{invalid_number, Result, ok, err}
use kive.Conf.Lexer.{
  Token, tok_eof, tok_true, tok_false, tok_lparen, tok_rparen, tok_lbrace, tok_rbrace, tok_comma,
  tok_semicolon, tok_colon, tok_at_version, tok_ident, tok_string, tok_number,
}

pub record State : Type 0 where
  pub cur : Token
  pub peek : Token
  pub rest : Text
  pub stmts : ℕ

abbrev pub contains_dot : Text → Bool
contains_dot s = has b'.' s

abbrev pub int64_limit : ℕ
int64_limit = 9223372036854775808

abbrev pub positive_int : Option ℕ → Result ℤ
positive_int none = err invalid_number
positive_int (some n) = if ltb n int64_limit then ok (pos n) else err invalid_number

abbrev pub negative_int : Option ℕ → Result ℤ
negative_int none = err invalid_number
negative_int (some n) =
    if n == 0
    then ok (pos 0)
    else if leb n int64_limit
    then ok (negsuc (n - 1))
    else err invalid_number

abbrev pub digits_or_none : Text → Option ℕ
digits_or_none [] = none
digits_or_none (c ∷ s) = digits_value 0 (c ∷ s)

-- `strconv.ParseInt(text, 10, 64)`, of a text that the lexer made
unfoldable pub parse_int : Text → Result ℤ
parse_int [] = err invalid_number
parse_int (c ∷ s) =
    if c == b'-' then negative_int (digits_or_none s) else positive_int (digits_or_none (c ∷ s))

abbrev pub is_at_least_one : ℤ → Option ℕ
is_at_least_one (pos zero) = none
is_at_least_one (pos (suc n)) = some (suc n)
is_at_least_one (negsuc n) = none

abbrev pub is_semicolon : Token → Bool
is_semicolon tok_semicolon = true
is_semicolon t = false

abbrev pub is_lparen : Token → Bool
is_lparen tok_lparen = true
is_lparen t = false

abbrev pub is_rparen : Token → Bool
is_rparen tok_rparen = true
is_rparen t = false

abbrev pub is_lbrace : Token → Bool
is_lbrace tok_lbrace = true
is_lbrace t = false

abbrev pub is_rbrace : Token → Bool
is_rbrace tok_rbrace = true
is_rbrace t = false

abbrev pub is_comma : Token → Bool
is_comma tok_comma = true
is_comma t = false

abbrev pub is_colon : Token → Bool
is_colon tok_colon = true
is_colon t = false

abbrev pub is_eof : Token → Bool
is_eof tok_eof = true
is_eof t = false

abbrev pub is_at_version : Token → Bool
is_at_version tok_at_version = true
is_at_version t = false

abbrev pub ident_of : Token → Option Text
ident_of (tok_ident name) = some name
ident_of t = none

abbrev pub number_of : Token → Option Text
number_of (tok_number text) = some text
number_of t = none

-- The cases of `parseValue`.
pub data ValueStart : Type 0 where
  starts_string starts_number starts_ident : Text → ValueStart
  starts_bool : Bool → ValueStart
  starts_none : ValueStart

abbrev pub value_start : Token → ValueStart
value_start (tok_string text) = starts_string text
value_start (tok_number text) = starts_number text
value_start (tok_ident name) = starts_ident name
value_start tok_true = starts_bool true
value_start tok_false = starts_bool false
value_start t = starts_none
