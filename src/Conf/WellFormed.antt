-- ===== src/Conf/WellFormed.antt =====
-- The trees that the parser can make, which have a text, and the tokens of that text.
use kive.Prelude.{
  ℕ, zero, suc, ◌+◌, ◌≤◌, ◌≡◌, Bool, true, false, ◌&&◌, List, [], ◌∷◌, ◌++◌, Text, codes, ◌==◌,
  nat_key, text_key, has, ◌⊎◌, if◌then◌else◌,
}
use kive.Prelude.Decimals.{decimal}
use kive.Conf.{
  Library, ok, Value, string_lit, number_lit, float_lit, bool_lit, ident_lit, call_value, Values,
  no_values, value, Stmt, block, call, Stmts, no_stmts, stmt, File, byte_len, max_ident_bytes,
  max_string_bytes, max_nesting_depth, max_args,
}
use kive.Conf.Lexer.{
  Token, tok_true, tok_false, tok_lparen, tok_rparen, tok_lbrace, tok_rbrace, tok_comma, tok_colon,
  tok_at_version, tok_ident, tok_string, tok_number, is_ident_start, is_ident_part,
}
use kive.Conf.State.{parse_int}

abbrev pub all : (ℕ → Bool) → Text → Bool
all p [] = true
all p (c ∷ s) = p c && all p s

abbrev starts_with : (ℕ → Bool) → Text → Bool
starts_with p [] = false
starts_with p (c ∷ s) = p c

-- A name that the lexer reads as one identifier.
pub record IsIdent (lib : Library) (name : Text) : Type 0 where
  pub starts : starts_with (is_ident_start lib) name ≡ true
  pub parts : all (is_ident_part lib) name ≡ true
  pub fits : byte_len name ≤ max_ident_bytes
  pub is_not_true : (name == codes "true") ≡ false
  pub is_not_false : (name == codes "false") ≡ false

module _ (lib : Library) where
  -- One digit or more.
  abbrev pub are_digits : Text → Bool
  are_digits [] = false
  are_digits (c ∷ s) = lib.is_digit c && all lib.is_digit s

  -- Digits, with an optional sign before them.
  abbrev pub is_whole : Text → Bool
  is_whole [] = false
  is_whole (c ∷ s) = if c == b'-' then are_digits s else lib.is_digit c && all lib.is_digit s

-- A number with a fraction that ParseFloat takes.
pub record IsFloat (lib : Library) (text : Text) : Type 0 where
  pub before : Text
  pub after : Text
  pub parts : text ≡ before ++ (b'.' ∷ after)
  pub before_whole : is_whole lib before ≡ true
  pub after_digits : are_digits lib after ≡ true
  pub parses : lib.parses_float text ≡ true

abbrev pub count_values : Values → ℕ
count_values no_values = 0
count_values (value v vs) = suc (count_values vs)

module _ (lib : Library) where
  -- The values that have a text, inside so many calls and blocks.
  abbrev mutual
    pub IsValue : ℕ → Value → Type 0
    IsValue depth (string_lit s) = (has 0 s ≡ false) × (byte_len s ≤ max_string_bytes)
    IsValue depth (number_lit text i) = (is_whole lib text ≡ true) × (parse_int text ≡ ok i)
    IsValue depth (float_lit text) = IsFloat lib text
    IsValue depth (bool_lit b) = Unit
    IsValue depth (ident_lit name) = IsIdent lib name
    IsValue depth (call_value name args) =
        IsIdent lib name
        × (suc depth ≤ max_nesting_depth)
        × (count_values args ≤ max_args)
        × AreValues (suc depth) args

    pub AreValues : ℕ → Values → Type 0
    AreValues depth no_values = Unit
    AreValues depth (value v vs) = IsValue depth v × AreValues depth vs

  -- The statements that have a text.
  abbrev mutual
    pub IsStmt : ℕ → Stmt → Type 0
    IsStmt depth (block name id body) =
        IsIdent lib name
        × ((id ≡ []) ⊎ IsIdent lib id)
        × (suc depth ≤ max_nesting_depth)
        × AreStmts (suc depth) body
    IsStmt depth (call name args semicolon) =
        IsIdent lib name
        × (semicolon ≡ false)
        × (suc depth ≤ max_nesting_depth)
        × (count_values args ≤ max_args)
        × AreValues (suc depth) args

    pub AreStmts : ℕ → Stmts → Type 0
    AreStmts depth no_stmts = Unit
    AreStmts depth (stmt s body) = IsStmt depth s × AreStmts depth body

abbrev mutual
  pub size : Stmt → ℕ
  size (block name id body) = suc (sizes body)
  size (call name args semicolon) = 1

  -- The statements of a body, the inner ones included.
  pub sizes : Stmts → ℕ
  sizes no_stmts = 0
  sizes (stmt s body) = size s + sizes body

abbrev mutual
  pub toks_value : Value → List Token → List Token
  toks_value (string_lit s) ts = tok_string s ∷ ts
  toks_value (number_lit text i) ts = tok_number text ∷ ts
  toks_value (float_lit text) ts = tok_number text ∷ ts
  toks_value (bool_lit true) ts = tok_true ∷ ts
  toks_value (bool_lit false) ts = tok_false ∷ ts
  toks_value (ident_lit name) ts = tok_ident name ∷ ts
  toks_value (call_value name args) ts =
      tok_ident name ∷ tok_lparen ∷ toks_args args (tok_rparen ∷ ts)

  pub toks_args : Values → List Token → List Token
  toks_args no_values ts = ts
  toks_args (value v vs) ts = toks_value v (toks_more_args vs ts)

  pub toks_more_args : Values → List Token → List Token
  toks_more_args no_values ts = ts
  toks_more_args (value v vs) ts = tok_comma ∷ toks_value v (toks_more_args vs ts)

abbrev mutual
  pub toks_stmt : Stmt → List Token → List Token
  toks_stmt (block name [] body) ts = tok_ident name ∷ tok_lbrace ∷ toks_body body (tok_rbrace ∷ ts)
  toks_stmt (block name (c ∷ s) body) ts =
      tok_ident name ∷ tok_ident (c ∷ s) ∷ tok_lbrace ∷ toks_body body (tok_rbrace ∷ ts)
  toks_stmt (call name args semicolon) ts =
      tok_ident name ∷ tok_lparen ∷ toks_args args (tok_rparen ∷ ts)

  pub toks_body : Stmts → List Token → List Token
  toks_body no_stmts ts = ts
  toks_body (stmt s body) ts = toks_stmt s (toks_body body ts)

abbrev pub toks_version : ℕ → List Token → List Token
toks_version zero ts = ts
toks_version (suc n) ts = tok_at_version ∷ tok_colon ∷ tok_number (decimal (suc n)) ∷ ts

abbrev pub toks_file : File → List Token
toks_file f = toks_version f.version (toks_body f.stmts [])
