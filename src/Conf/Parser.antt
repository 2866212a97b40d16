-- ===== src/Conf/Parser.antt =====
-- conf/parser.go: the parser reads one token ahead, so an error of the lexer comes a token early. The
-- depth is an argument, since it is left as it was entered; the fuel counts the calls that are open.
use kive.Prelude.{
  ℕ, zero, suc, ◌+◌, ◌*◌, Bool, true, false, Option, none, some, [], Text, ltb, leb, if◌then◌else◌,
  has, nat_key, length,
}
use kive.Conf.{
  Library, source_limit, null_byte, depth_limit, statement_limit, args_limit, invalid_number,
  expected_colon, expected_version, invalid_version, expected_name, expected_brace,
  expected_paren_or_brace, unclosed_brace, trailing_comma, unclosed_paren, expected_paren,
  expected_value, out_of_fuel, Result, ok, err, ◌>>=◌, Value, string_lit, number_lit, float_lit,
  bool_lit, ident_lit, call_value, Values, no_values, value, Stmt, block, call, Stmts, no_stmts,
  stmt, File, byte_len, max_source_bytes, max_nesting_depth, max_statements, max_args,
}
use kive.Conf.Lexer.{Token, tok_eof, next}
use kive.Conf.State.{
  contains_dot, State, parse_int, is_at_least_one, is_semicolon, is_lparen, is_rparen, is_lbrace,
  is_rbrace, is_comma, is_colon, is_eof, is_at_version, ident_of, number_of, value_start,
  starts_string, starts_number, starts_ident, starts_bool, starts_none,
}

module _ (lib : Library) where
  abbrev pub load : State → Token × Text → State
  load st (t, rest) = record { cur = st.peek; peek = t; rest = rest; stmts = st.stmts }

  unfoldable pub advance : State → Result State
  advance st = next lib st.rest >>= λ p. ok (load st p)

  unfoldable pub parse_number_lit : Text → Result Value
  unfolding parse_int
  parse_number_lit text =
      if contains_dot text
      then (if lib.parses_float text then ok (float_lit text) else err invalid_number)
      else (parse_int text >>= λ i. ok (number_lit text i))

  -- An optional `;`, and whether there was one.
  unfoldable pub skip_semicolon : State → Result (Bool × State)
  unfolding advance
  skip_semicolon st =
      if is_semicolon st.cur then (advance st >>= λ st'. ok (true, st')) else ok (false, st)

  abbrev pub then_advance : {A : Type 0} → A → State → Result (A × State)
  then_advance a st = advance st >>= λ st'. ok (a, st')

  -- `enterDepth`
  abbrev pub enter : {A : Type 0} → ℕ → Result A → Result A
  enter depth r = if ltb max_nesting_depth (suc depth) then err depth_limit else r

  abbrev pub as_call : Text → Values × State → Result (Value × State)
  as_call name (args, st) = ok (call_value name args, st)

  abbrev pub close_args : Values × State → Result (Values × State)
  close_args (args, st) =
      if is_rparen st.cur
      then then_advance args st
      else if is_eof st.cur
      then err unclosed_paren
      else err expected_paren

  abbrev pub push_value : Value → Values × State → Result (Values × State)
  push_value v (vs, st) = ok (value v vs, st)

  -- What follows an argument; `more` reads the next ones.
  abbrev pub after_arg : (State → Result (Values × State)) → Value × State → Result (Values × State)
  after_arg more (v, st) =
      if is_comma st.cur
      then (advance st >>= λ st'.
          if is_rparen st'.cur then err trailing_comma else (more st' >>= push_value v))
      else ok (value v no_values, st)

  unfoldable mutual
    unfolding advance parse_number_lit

    pub parse_value : ℕ → ℕ → State → Result (Value × State)
    parse_value zero depth st = err out_of_fuel
    parse_value (suc f) depth st = elim (value_start st.cur) [
      | starts_string text ↦ then_advance (string_lit text) st
      | starts_number text ↦ parse_number_lit text >>= λ v. then_advance v st
      | starts_ident name ↦ advance st >>= parse_ident_value f depth name
      | starts_bool b ↦ then_advance (bool_lit b) st
      | starts_none ↦ err expected_value
    ]

    -- After the name of a value.
    pub parse_ident_value : ℕ → ℕ → Text → State → Result (Value × State)
    parse_ident_value zero depth name st = err out_of_fuel
    parse_ident_value (suc f) depth name st =
        let tail = parse_call_tail f depth st in
        if is_lparen st.cur then (tail >>= as_call name) else ok (ident_lit name, st)

    -- `parseCallTail` at its `(`, up to the `;` of a statement.
    pub parse_call_tail : ℕ → ℕ → State → Result (Values × State)
    parse_call_tail zero depth st = err out_of_fuel
    parse_call_tail (suc f) depth st =
        enter depth ((advance st >>= parse_args f (suc depth)) >>= close_args)

    -- The arguments, if there are any.
    pub parse_args : ℕ → ℕ → State → Result (Values × State)
    parse_args zero depth st = err out_of_fuel
    parse_args (suc f) depth st =
        let args = parse_more_args f depth 0 st in
        if is_rparen st.cur then ok (no_values, st) else args

    -- The loop over the arguments, of which there are `n` so far.
    pub parse_more_args : ℕ → ℕ → ℕ → State → Result (Values × State)
    parse_more_args zero depth n st = err out_of_fuel
    parse_more_args (suc f) depth n st =
        let arg = parse_value f depth st in
        if leb max_args n
        then err args_limit
        else (arg >>= after_arg (parse_more_args f depth (suc n)))

  -- `countStmt`
  abbrev pub count_stmt : State → State
  count_stmt st = record st { stmts = suc st.stmts }

  abbrev pub as_call_stmt : Text → Values × State → Result (Stmt × State)
  as_call_stmt name (args, st) =
      skip_semicolon st >>= λ q. let (semicolon, st') = q in ok (call name args semicolon, st')

  abbrev pub close_block : Text → Text → Stmts × State → Result (Stmt × State)
  close_block name id (body, st) = advance st >>= λ st1.
      skip_semicolon st1 >>= λ q. let (semicolon, st2) = q in ok (block name id body, st2)

  abbrev pub push_stmt : Stmt → Stmts × State → Result (Stmts × State)
  push_stmt s (body, st) = ok (stmt s body, st)

  abbrev pub after_stmt : (State → Result (Stmts × State)) → Stmt × State → Result (Stmts × State)
  after_stmt more (s, st) = more st >>= push_stmt s

  unfoldable mutual
    unfolding advance parse_value skip_semicolon

    pub parse_stmt : ℕ → ℕ → State → Result (Stmt × State)
    parse_stmt zero depth st = err out_of_fuel
    parse_stmt (suc f) depth st = elim (ident_of st.cur) [
      | none ↦ err expected_name
      | some name ↦
          if ltb max_statements (suc st.stmts)
          then err statement_limit
          else (advance (count_stmt st) >>= parse_stmt_tail f depth name)
    ]

    -- After the name of a statement.
    pub parse_stmt_tail : ℕ → ℕ → Text → State → Result (Stmt × State)
    parse_stmt_tail zero depth name st = err out_of_fuel
    parse_stmt_tail (suc f) depth name st =
        let plain = parse_block f depth name [] st in
        let tail = parse_call_tail f depth st in
        if is_lbrace st.cur then plain else elim (ident_of st.cur) [
          | some id ↦ advance st >>= λ st'.
              let named = parse_block f depth name id st' in
              if is_lbrace st'.cur then named else err expected_brace
          | none ↦
              if is_lparen st.cur then (tail >>= as_call_stmt name) else err expected_paren_or_brace
        ]

    -- At its `{`.
    pub parse_block : ℕ → ℕ → Text → Text → State → Result (Stmt × State)
    parse_block zero depth name id st = err out_of_fuel
    parse_block (suc f) depth name id st =
        enter depth ((advance st >>= parse_body f (suc depth)) >>= close_block name id)

    pub parse_body : ℕ → ℕ → State → Result (Stmts × State)
    parse_body zero depth st = err out_of_fuel
    parse_body (suc f) depth st =
        let first = parse_stmt f depth st in
        if is_rbrace st.cur
        then ok (no_stmts, st)
        else if is_eof st.cur
        then err unclosed_brace
        else (first >>= after_stmt (parse_body f depth))

  abbrev pub after_top : (State → Result Stmts) → Stmt × State → Result Stmts
  after_top more (s, st) = more st >>= λ body. ok (stmt s body)

  -- The loop of `parseFile`.
  unfoldable pub parse_stmts : ℕ → State → Result Stmts
  unfolding parse_stmt
  parse_stmts zero st = err out_of_fuel
  parse_stmts (suc f) st =
      let first = parse_stmt f 0 st in
      if is_eof st.cur then ok no_stmts else (first >>= after_top (parse_stmts f))

  abbrev pub version_number : Text → Option ℕ
  version_number text = elim (parse_int text) [ err e ↦ none | ok i ↦ is_at_least_one i ]

  abbrev pub end_version : ℕ → State → Result (ℕ × State)
  end_version n st =
      advance st >>= λ st1. skip_semicolon st1 >>= λ q. let (semicolon, st2) = q in ok (n, st2)

  abbrev pub at_number : State → Result (ℕ × State)
  at_number st = elim (number_of st.cur) [
    | none ↦ err expected_version
    | some text ↦ elim (version_number text) [
      | none ↦ err invalid_version
      | some n ↦ end_version n st
    ]
  ]

  -- At `@version`. A number with a fraction is none that Atoi takes.
  unfoldable pub parse_version : State → Result (ℕ × State)
  unfolding advance skip_semicolon parse_int
  parse_version st = advance st >>= λ st1.
      if is_colon st1.cur then (advance st1 >>= at_number) else err expected_colon

  abbrev pub file_of : ℕ → ℕ × State → Result File
  file_of f (version, st) =
      parse_stmts f st >>= λ body. ok (record { version = version; stmts = body })

  unfoldable pub parse_file : ℕ → State → Result File
  unfolding parse_version parse_stmts
  parse_file f st = (if is_at_version st.cur then parse_version st else ok (0, st)) >>= file_of f

  -- The state before the two calls of `advance` in `Parse`.
  abbrev pub start : Text → State
  start text = record { cur = tok_eof; peek = tok_eof; rest = text; stmts = 0 }

  abbrev pub parse_fuel : Text → ℕ
  parse_fuel text = 5 * length text + 20

  unfoldable pub parse : Text → Result File
  unfolding parse_file
  parse text =
      if ltb max_source_bytes (byte_len text)
      then err source_limit
      else if has 0 text
      then err null_byte
      else (advance (start text) >>= λ st1. advance st1 >>= λ st2. parse_file (parse_fuel text) st2)
