-- ===== src/Conf/Fuel.antt =====
-- conf/: the parser's fuel, counted in the tokens and characters that are left.
pub mod Tokens
pub mod Expressions
use kive.Prelude.{
  ℕ, zero, suc, ◌+◌, ◌*◌, ◌≤◌, ◌<◌, ◌≡◌, ◌≢◌, refl, Bool, true, false, not, ◌&&◌, Option, none,
  some, List, [], ◌∷◌, arith, Text, ltb, leb, if◌then◌else◌, length, has, nat_key, Bool-cases,
  Option-cases, inl, inr, ◌==◌,
}
use mathlib.Core.Path.{subst}
use kive.Conf.{
  Library, Error, trailing_comma, string_lit, bool_lit, out_of_fuel, expected_brace, expected_colon,
  source_limit, null_byte, Result, ok, err, ◌>>=◌, Value, Values, number_lit, value, call_value,
  Stmt, Stmts, block, call, stmt, File, max_source_bytes, byte_len, max_nesting_depth, max_args,
  max_statements,
}
use kive.Conf.Lexer.{Token, next}
use kive.Conf.Parser.{
  load, advance, parse_number_lit, skip_semicolon, then_advance, enter, as_call, close_args,
  push_value, after_arg, parse_value, parse_ident_value, parse_call_tail, parse_args,
  parse_more_args, count_stmt, as_call_stmt, close_block, push_stmt, after_stmt, parse_stmt,
  parse_stmt_tail, parse_block, parse_body, after_top, parse_stmts, version_number, end_version,
  at_number, parse_version, file_of, parse_file, start, parse_fuel, parse,
}
use kive.Conf.State.{
  State, ValueStart, starts_string, starts_number, starts_ident, starts_bool, starts_none,
  value_start, is_semicolon, is_lparen, is_rparen, is_lbrace, is_rbrace, is_comma, is_colon, is_eof,
  is_at_version, ident_of, number_of, parse_int, positive_int, negative_int, digits_or_none,
}
use kive.Conf.Fuel.Tokens.{
  Sound, Sound-bind, Sound-le, is_out_of_fuel, token_length, pending, next-Sound,
}
use kive.Conf.Fuel.Expressions.{
  left, left_after, one_less, parse_int-Sound, load-left, advance-Sound, then_advance-Sound,
  skip_semicolon-Sound, parse_number_lit-Sound, enter-Sound, as_call-Sound, one_less_of,
  left_after_of, value_start-pending, close_args-Sound, push_value-Sound, after_arg-Sound,
  parse_value_step, parse_value-Sound, parse_ident_value-Sound, parse_call_tail-Sound,
  parse_args-Sound, parse_more_args-Sound,
}

module _ (lib : Library) where
  as_call_stmt-Sound :
      (name : Text) (p : Values × State) (n : ℕ)
      → left_after p ≤ n
      → Sound left_after n (as_call_stmt lib name p)
  as_call_stmt-Sound name (args, st) n h =
      Sound-bind left_after (left st) left_after n (skip_semicolon lib st)
        (λ q. let (semicolon, st') = q in ok (call name args semicolon, st'))
        (skip_semicolon-Sound lib st) (λ q hq. omega arith)

  close_block-Sound :
      (name id : Text) (p : Stmts × State) (n : ℕ)
      → left_after p ≤ n
      → Sound left_after n (close_block lib name id p)
  close_block-Sound name id (body, st) n h =
      Sound-bind left (pending st.peek + length st.rest) left_after n (advance lib st)
        (λ st1.
          skip_semicolon lib st1 >>= λ q. let (semicolon, st2) = q in ok (block name id body, st2))
        (advance-Sound lib st)
        (λ st1 h1.
          Sound-bind left_after (left st1) left_after n (skip_semicolon lib st1)
            (λ q. let (semicolon, st2) = q in ok (block name id body, st2))
            (skip_semicolon-Sound lib st1) (λ q hq. omega arith))

  after_stmt-Sound :
      (more : State → Result (Stmts × State)) (p : Stmt × State) (n : ℕ)
      → one_less p ≤ n
      → ((st : State) → left st < n → Sound left_after (left st) (more st))
      → Sound left_after n (after_stmt lib more p)
  after_stmt-Sound more (s, st) n h rest =
      Sound-bind left_after (left st) left_after n (more st) (push_stmt lib s) (rest st h)
        (λ q hq. push_stmt-Sound q hq)
    where
      push_stmt-Sound :
          (q : Stmts × State) → left_after q ≤ left st → Sound left_after n (push_stmt lib s q)
      push_stmt-Sound (body, st') hq = omega arith

  ident_of-pending : (t : Token) (name : Text) → ident_of t ≡ some name → pending t ≡ 1
  ident_of-pending t name e = ground arith

  mutual
    unfolding parse_stmt

    parse_stmt-Sound :
        (f depth : ℕ) (st : State)
        → 5 * left st + 1 ≤ f
        → Sound one_less (left st) (parse_stmt lib f depth st)
    parse_stmt-Sound zero depth st h = absurd (omega arith)
    parse_stmt-Sound (suc f) depth st h = elim (Option-cases (ident_of st.cur)) [
      | inl other ↦ rw (other, Sound) refl
      | inr (name, e) ↦ elim (Bool-cases (ltb max_statements (suc st.stmts))) [
        | inl many ↦ rw (e, many, Sound) refl
        | inr few ↦
            let n = pending st.peek + length st.rest in
            let one = ident_of-pending st.cur name e in
            rw (e, few, Sound)
              (one_less_of lib
                (advance lib (count_stmt lib st) >>= parse_stmt_tail lib f depth name) n (left st)
                (omega arith)
                (Sound-bind left n left_after n (advance lib (count_stmt lib st))
                  (parse_stmt_tail lib f depth name) (advance-Sound lib (count_stmt lib st))
                  (λ st' h'.
                    Sound-le left_after (left st') n (parse_stmt_tail lib f depth name st') h'
                      (parse_stmt_tail-Sound f depth name st' (omega arith)))))
      ]
    ]

    parse_stmt_tail-Sound :
        (f depth : ℕ) (name : Text) (st : State)
        → 5 * left st + 4 ≤ f
        → Sound left_after (left st) (parse_stmt_tail lib f depth name st)
    parse_stmt_tail-Sound zero depth name st h = absurd (omega arith)
    parse_stmt_tail-Sound (suc f) depth name st h = elim (Bool-cases (is_lbrace st.cur)) [
      | inl plain ↦ rw plain (parse_block-Sound f depth name [] st (omega arith))
      | inr other ↦ elim (Option-cases (ident_of st.cur)) [
        | inr (id, e) ↦
            rw (other, e)
              (Sound-bind left (pending st.peek + length st.rest) left_after (left st)
                (advance lib st)
                (λ st'.
                  if is_lbrace st'.cur
                  then parse_block lib f depth name id st'
                  else err expected_brace)
                (advance-Sound lib st)
                (λ st' h'. elim (Bool-cases (is_lbrace st'.cur)) [
                  | inl brace ↦ rw brace (
                      Sound-le left_after (left st') (left st) (parse_block lib f depth name id st')
                        (omega arith) (parse_block-Sound f depth name id st' (omega arith)))
                  | inr none_there ↦ rw none_there refl
                ]))
        | inl e ↦ elim (Bool-cases (is_lparen st.cur)) [
          | inl paren ↦
              rw (other, e, paren)
                (Sound-bind one_less (left st) left_after (left st) (parse_call_tail lib f depth st)
                  (as_call_stmt lib name)
                  (parse_call_tail-Sound lib f depth st (ground arith) (omega arith))
                  (λ p hp. as_call_stmt-Sound name p (left st) (omega arith)))
          | inr none_there ↦ rw (other, e, none_there) refl
        ]
      ]
    ]

    parse_block-Sound :
        (f depth : ℕ) (name id : Text) (st : State)
        → 5 * left st + 3 ≤ f
        → Sound left_after (left st) (parse_block lib f depth name id st)
    parse_block-Sound zero depth name id st h = absurd (omega arith)
    parse_block-Sound (suc f) depth name id st h =
        let n = left st in
        enter-Sound lib left_after n depth
          ((advance lib st >>= parse_body lib f (suc depth)) >>= close_block lib name id)
          (Sound-bind left_after n left_after n (advance lib st >>= parse_body lib f (suc depth))
            (close_block lib name id)
            (Sound-bind left (pending st.peek + length st.rest) left_after n (advance lib st)
              (parse_body lib f (suc depth)) (advance-Sound lib st)
              (λ st' h'.
                Sound-le left_after (left st') n (parse_body lib f (suc depth) st') (omega arith)
                  (parse_body-Sound f (suc depth) st' (omega arith))))
            (λ p hp. close_block-Sound name id p n hp))

    parse_body-Sound :
        (f depth : ℕ) (st : State)
        → 5 * left st + 2 ≤ f
        → Sound left_after (left st) (parse_body lib f depth st)
    parse_body-Sound zero depth st h = absurd (omega arith)
    parse_body-Sound (suc f) depth st h = elim (Bool-cases (is_rbrace st.cur)) [
      | inl close ↦ rw close (omega arith)
      | inr open_still ↦ elim (Bool-cases (is_eof st.cur)) [
        | inl eof ↦ rw (open_still, eof) refl
        | inr more ↦
            rw (open_still, more)
              (Sound-bind one_less (left st) left_after (left st) (parse_stmt lib f depth st)
                (after_stmt lib (parse_body lib f depth))
                (parse_stmt-Sound f depth st (omega arith))
                (λ p hp.
                  after_stmt-Sound (parse_body lib f depth) p (left st) hp
                    (λ st' h'. parse_body-Sound f depth st' (omega arith))))
      ]
    ]

  after_top-Sound :
      (more : State → Result Stmts) (p : Stmt × State) (n : ℕ)
      → one_less p ≤ n
      → ((st : State) → left st < n → Sound (λ body. 0) 0 (more st))
      → Sound (λ body. 0) 0 (after_top lib more p)
  after_top-Sound more (s, st) n h rest =
      Sound-bind (λ body. 0) 0 (λ body. 0) 0 (more st) (λ body. ok (stmt s body)) (rest st h)
        (λ body hb. omega arith)

  parse_stmts-Sound :
      (f : ℕ) (st : State) → 5 * left st + 2 ≤ f → Sound (λ body. 0) 0 (parse_stmts lib f st)
  unfolding parse_stmts
  parse_stmts-Sound zero st h = absurd (omega arith)
  parse_stmts-Sound (suc f) st h = elim (Bool-cases (is_eof st.cur)) [
    | inl eof ↦ rw eof (omega arith)
    | inr more ↦ rw more (
        Sound-bind one_less (left st) (λ body. 0) 0 (parse_stmt lib f 0 st)
          (after_top lib (parse_stmts lib f)) (parse_stmt-Sound f 0 st (omega arith))
          (λ p hp.
            after_top-Sound (parse_stmts lib f) p (left st) hp
              (λ st' h'. parse_stmts-Sound f st' (omega arith))))
  ]

  end_version-Sound : (n : ℕ) (st : State) → Sound left_after (left st) (end_version lib n st)
  end_version-Sound n st =
      Sound-bind left (pending st.peek + length st.rest) left_after (left st) (advance lib st)
        (λ st1. skip_semicolon lib st1 >>= λ q. let (semicolon, st2) = q in ok (n, st2))
        (advance-Sound lib st)
        (λ st1 h1.
          Sound-bind left_after (left st1) left_after (left st) (skip_semicolon lib st1)
            (λ q. let (semicolon, st2) = q in ok (n, st2)) (skip_semicolon-Sound lib st1)
            (λ q hq. omega arith))

  at_number-Sound : (st : State) → Sound left_after (left st) (at_number lib st)
  at_number-Sound st = elim (Option-cases (number_of st.cur)) [
    | inl other ↦ rw (other, Sound) refl
    | inr (text, e) ↦ elim (Option-cases (version_number lib text)) [
      | inl bad ↦ rw (e, bad, Sound) refl
      | inr (n, e') ↦ rw (e, e', Sound) (end_version-Sound n st)
    ]
  ]

  parse_version-Sound : (st : State) → Sound left_after (left st) (parse_version lib st)
  unfolding parse_version
  parse_version-Sound st =
      Sound-bind left (pending st.peek + length st.rest) left_after (left st) (advance lib st)
        (λ st1.
          if is_colon st1.cur then (advance lib st1 >>= at_number lib) else err expected_colon)
        (advance-Sound lib st)
        (λ st1 h1. elim (Bool-cases (is_colon st1.cur)) [
          | inr other ↦ rw other refl
          | inl colon ↦ rw colon (
              Sound-bind left (pending st1.peek + length st1.rest) left_after (left st)
                (advance lib st1) (at_number lib) (advance-Sound lib st1)
                (λ st2 h2.
                  Sound-le left_after (left st2) (left st) (at_number lib st2) (omega arith)
                    (at_number-Sound st2)))
        ])

  file_of-Sound :
      (f : ℕ) (p : ℕ × State) → 5 * left_after p + 2 ≤ f → Sound (λ file. 0) 0 (file_of lib f p)
  file_of-Sound f (version, st) h =
      Sound-bind (λ body. 0) 0 (λ file. 0) 0 (parse_stmts lib f st)
        (λ body. ok (record { version = version; stmts = body })) (parse_stmts-Sound f st h)
        (λ body hb. omega arith)

  parse_file-Sound :
      (f : ℕ) (st : State) → 5 * left st + 2 ≤ f → Sound (λ file. 0) 0 (parse_file lib f st)
  unfolding parse_file
  parse_file-Sound f st h = elim (Bool-cases (is_at_version st.cur)) [
    | inl at ↦ rw at (
        Sound-bind left_after (left st) (λ file. 0) 0 (parse_version lib st) (file_of lib f)
          (parse_version-Sound st) (λ p hp. file_of-Sound f p (omega arith)))
    | inr none_there ↦ rw none_there (file_of-Sound f (0, st) h)
  ]

  pub parse-Sound : (text : Text) → Sound (λ file. 0) 0 (parse lib text)
  unfolding parse
  parse-Sound text = elim (Bool-cases (ltb max_source_bytes (byte_len text))) [
    | inl long ↦ rw long refl
    | inr short ↦ elim (Bool-cases (has 0 text)) [
      | inl nul ↦ rw (short, nul) refl
      | inr clean ↦
          rw (short, clean)
            (Sound-bind left (length text) (λ file. 0) 0 (advance lib (start lib text))
              (λ st1. advance lib st1 >>= λ st2. parse_file lib (parse_fuel lib text) st2)
              (Sound-le left (0 + length text) (length text) (advance lib (start lib text))
                (omega arith) (advance-Sound lib (start lib text)))
              (λ st1 h1.
                Sound-bind left (length text) (λ file. 0) 0 (advance lib st1)
                  (parse_file lib (parse_fuel lib text))
                  (Sound-le left (pending st1.peek + length st1.rest) (length text)
                    (advance lib st1) (omega arith) (advance-Sound lib st1))
                  (λ st2 h2. parse_file-Sound (parse_fuel lib text) st2 (omega arith))))
    ]
  ]

  -- The parser ends on every text: none uses up its fuel, five times the text's length and twenty more.
  pub parse_total : (text : Text) → parse lib text ≢ err out_of_fuel
  parse_total text e = let h = subst (Sound (λ file. 0) 0) e (parse-Sound text) in ground arith
