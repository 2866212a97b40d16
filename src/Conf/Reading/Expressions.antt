-- ===== src/Conf/Reading/Expressions.antt =====
-- conf/parser.go: the parser in front of the tokens of values.
use kive.Prelude.{
  ℕ, zero, suc, ◌+◌, ◌≤◌, ◌≡◌, refl, true, false, List, [], ◌∷◌, arith, Text, leb, has, nat_key,
  sym, ℕ_discrete,
}
use kive.Conf.{
  Library, Ascii, expected_value, ok, err, ◌>>=◌, Value, string_lit, number_lit, float_lit,
  bool_lit, ident_lit, call_value, Values, no_values, value, max_nesting_depth, max_args,
}
use kive.Conf.Lexer.{
  Token, tok_rparen, tok_lparen, tok_string, tok_number, tok_true, tok_false, tok_ident,
}
use kive.Prelude.Int.{ℤ}
use kive.Conf.Parser.{
  advance, parse_number_lit, then_advance, as_call, close_args, after_arg, parse_value,
  parse_ident_value, parse_call_tail, parse_args, parse_more_args,
}
use kive.Conf.State.{
  State, value_start, ValueStart, starts_string, starts_number, starts_ident, starts_bool,
  starts_none, is_lparen, is_rparen,
}
use kive.Conf.WellFormed.{
  all, is_whole, count_values, IsValue, AreValues, toks_value, toks_args, toks_more_args,
}
use kive.Conf.Stream.{head_token, Gives, Gives-bind, At, Leaves, Stands, advance-Stands}
use kive.Conf.Reading.{
  then_advance-Leaves, enter-Gives, parse_number_lit_whole, parse_number_lit_float, as_call-Leaves,
  close_args-Leaves, after_arg_last, toks_value-head, after_arg_comma,
}

module _ (lib : Library) (laws : Ascii lib) where
  digits_no_dot : (s : Text) → all lib.is_digit s ≡ true → has b'.' s ≡ false
  unfolding has ℕ_discrete
  digits_no_dot [] h = refl
  digits_no_dot (c ∷ s) h =
      let dot : lib.is_digit b'.' ≡ false = laws.digit_of b'.' (omega arith) in
      ground (arith, digits_no_dot s)

  whole_no_dot : (s : Text) → is_whole lib s ≡ true → has b'.' s ≡ false
  unfolding has ℕ_discrete
  whole_no_dot [] h = refl
  whole_no_dot (c ∷ []) h =
      let dot : lib.is_digit b'.' ≡ false = laws.digit_of b'.' (omega arith) in ground arith
  whole_no_dot (c ∷ d ∷ s) h =
      let dot : lib.is_digit b'.' ≡ false = laws.digit_of b'.' (omega arith) in
      ground (arith, digits_no_dot s)

  number-Leaves :
      (text : Text) (v : Value) (st : State) (ts : List Token)
      → parse_number_lit lib text ≡ ok v
      → At lib st (tok_number text ∷ ts)
      → Gives (Leaves lib v ts st.stmts) (parse_number_lit lib text >>= λ w. then_advance lib w st)
  number-Leaves text v st ts e at = rw e (then_advance-Leaves lib v st (tok_number text) ts at)

  parse_value_at :
      (f depth : ℕ) (st : State) (x : ValueStart)
      → value_start st.cur ≡ x
      → parse_value lib (suc f) depth st ≡ (elim x [
        | starts_string text ↦ then_advance lib (string_lit text) st
        | starts_number text ↦ parse_number_lit lib text >>= λ v. then_advance lib v st
        | starts_ident name ↦ advance lib st >>= parse_ident_value lib f depth name
        | starts_bool b ↦ then_advance lib (bool_lit b) st
        | starts_none ↦ err expected_value
      ])
  unfolding parse_value
  parse_value_at f depth st x e = rw (e, parse_value) refl

  number_lit_ok :
      (depth : ℕ) (text : Text) (i : ℤ)
      → IsValue lib depth (number_lit text i)
      → parse_number_lit lib text ≡ ok (number_lit text i)
  number_lit_ok depth text i (w, e) =
      rw (parse_number_lit_whole lib text (whole_no_dot text w), e) refl

  mutual
    unfolding parse_value

    parse_value-Leaves :
        (f depth : ℕ) (st : State) (v : Value) (ts : List Token)
        → IsValue lib depth v
        → is_lparen (head_token ts) ≡ false
        → At lib st (toks_value v ts)
        → Gives (Leaves lib v ts st.stmts) (parse_value lib f depth st)
    parse_value-Leaves zero depth st v ts wf h at = refl
    parse_value-Leaves (suc f) depth st (string_lit s) ts wf h at =
        rw (parse_value_at f depth st (starts_string s) (rw at.0 refl))
          (then_advance-Leaves lib (string_lit s) st (tok_string s) ts at)
    parse_value-Leaves (suc f) depth st (number_lit s i) ts wf h at =
        rw (parse_value_at f depth st (starts_number s) (rw at.0 refl))
          (number-Leaves s (number_lit s i) st ts (number_lit_ok depth s i wf) at)
    parse_value-Leaves (suc f) depth st (float_lit s) ts wf h at =
        rw (parse_value_at f depth st (starts_number s) (rw at.0 refl))
          (number-Leaves s (float_lit s) st ts (parse_number_lit_float lib s wf) at)
    parse_value-Leaves (suc f) depth st (bool_lit true) ts wf h at =
        rw (parse_value_at f depth st (starts_bool true) (rw at.0 refl))
          (then_advance-Leaves lib (bool_lit true) st tok_true ts at)
    parse_value-Leaves (suc f) depth st (bool_lit false) ts wf h at =
        rw (parse_value_at f depth st (starts_bool false) (rw at.0 refl))
          (then_advance-Leaves lib (bool_lit false) st tok_false ts at)
    parse_value-Leaves (suc f) depth st (ident_lit s) ts wf h at =
        rw (parse_value_at f depth st (starts_ident s) (rw at.0 refl)) (
          Gives-bind (Stands lib ts st.stmts) (Leaves lib (ident_lit s) ts st.stmts)
            (advance lib st) (parse_ident_value lib f depth s)
            (advance-Stands lib st (tok_ident s ∷ ts) at)
            (λ st' (at', es). rw (sym es) (parse_ident_value-bare f depth st' s ts h at')))
    parse_value-Leaves (suc f) depth st (call_value s args) ts (id, deep, few, wf) h at =
        let us = tok_lparen ∷ toks_args args (tok_rparen ∷ ts) in
        rw (parse_value_at f depth st (starts_ident s) (rw at.0 refl)) (
          Gives-bind (Stands lib us st.stmts) (Leaves lib (call_value s args) ts st.stmts)
            (advance lib st) (parse_ident_value lib f depth s)
            (advance-Stands lib st (tok_ident s ∷ us) at)
            (λ st' (at', es).
              rw (sym es) (parse_ident_value-call f depth st' s args ts deep few wf at')))

    parse_ident_value-bare :
        (f depth : ℕ) (st : State) (name : Text) (ts : List Token)
        → is_lparen (head_token ts) ≡ false
        → At lib st ts
        → Gives (Leaves lib (ident_lit name) ts st.stmts) (parse_ident_value lib f depth name st)
    parse_ident_value-bare zero depth st name ts h at = refl
    parse_ident_value-bare (suc f) depth st name ts h at =
        let bare : is_lparen st.cur ≡ false = rw at.0 h in rw bare (refl, at, refl)

    parse_ident_value-call :
        (f depth : ℕ) (st : State) (name : Text) (args : Values) (ts : List Token)
        → suc depth ≤ max_nesting_depth
        → count_values args ≤ max_args
        → AreValues lib (suc depth) args
        → At lib st (tok_lparen ∷ toks_args args (tok_rparen ∷ ts))
        → Gives
            (Leaves lib (call_value name args) ts st.stmts)
            (parse_ident_value lib f depth name st)
    parse_ident_value-call zero depth st name args ts deep few wf at = refl
    parse_ident_value-call (suc f) depth st name args ts deep few wf at =
        let paren : is_lparen st.cur ≡ true = rw at.0 refl in
        rw paren (
          Gives-bind (Leaves lib args ts st.stmts) (Leaves lib (call_value name args) ts st.stmts)
            (parse_call_tail lib f depth st) (as_call lib name)
            (parse_call_tail-Leaves f depth st args ts deep few wf at)
            (as_call-Leaves lib name args ts st.stmts))

    pub parse_call_tail-Leaves :
        (f depth : ℕ) (st : State) (args : Values) (ts : List Token)
        → suc depth ≤ max_nesting_depth
        → count_values args ≤ max_args
        → AreValues lib (suc depth) args
        → At lib st (tok_lparen ∷ toks_args args (tok_rparen ∷ ts))
        → Gives (Leaves lib args ts st.stmts) (parse_call_tail lib f depth st)
    parse_call_tail-Leaves zero depth st args ts deep few wf at = refl
    parse_call_tail-Leaves (suc f) depth st args ts deep few wf at =
        let us = toks_args args (tok_rparen ∷ ts) in
        enter-Gives lib (Leaves lib args ts st.stmts) depth
          ((advance lib st >>= parse_args lib f (suc depth)) >>= close_args lib) deep
          (Gives-bind (Leaves lib args (tok_rparen ∷ ts) st.stmts) (Leaves lib args ts st.stmts)
            (advance lib st >>= parse_args lib f (suc depth)) (close_args lib)
            (Gives-bind (Stands lib us st.stmts) (Leaves lib args (tok_rparen ∷ ts) st.stmts)
              (advance lib st) (parse_args lib f (suc depth))
              (advance-Stands lib st (tok_lparen ∷ us) at)
              (λ st' (at', es).
                rw (sym es) (parse_args-Leaves f (suc depth) st' args ts few wf at')))
            (close_args-Leaves lib args ts st.stmts))

    parse_args-Leaves :
        (f depth : ℕ) (st : State) (args : Values) (ts : List Token)
        → count_values args ≤ max_args
        → AreValues lib depth args
        → At lib st (toks_args args (tok_rparen ∷ ts))
        → Gives (Leaves lib args (tok_rparen ∷ ts) st.stmts) (parse_args lib f depth st)
    parse_args-Leaves zero depth st args ts few wf at = refl
    parse_args-Leaves (suc f) depth st no_values ts few wf at =
        let close : is_rparen st.cur ≡ true = rw at.0 refl in rw close (refl, at, refl)
    parse_args-Leaves (suc f) depth st (value v vs) ts few wf at =
        let arg : is_rparen st.cur ≡ false =
          rw at.0 (toks_value-head lib v (toks_more_args vs (tok_rparen ∷ ts))) in
        rw arg (parse_more_args-Leaves f depth 0 st v vs ts (omega arith) wf at)

    parse_more_args-Leaves :
        (f depth n : ℕ) (st : State) (v : Value) (vs : Values) (ts : List Token)
        → n + count_values (value v vs) ≤ max_args
        → AreValues lib depth (value v vs)
        → At lib st (toks_value v (toks_more_args vs (tok_rparen ∷ ts)))
        → Gives
            (Leaves lib (value v vs) (tok_rparen ∷ ts) st.stmts)
            (parse_more_args lib f depth n st)
    parse_more_args-Leaves zero depth n st v vs ts few wf at = refl
    parse_more_args-Leaves (suc f) depth n st v no_values ts few (wf, wfs) at =
        let room : leb max_args n ≡ false = ground arith in
        rw room (
          Gives-bind (Leaves lib v (tok_rparen ∷ ts) st.stmts)
            (Leaves lib (value v no_values) (tok_rparen ∷ ts) st.stmts) (parse_value lib f depth st)
            (after_arg lib (parse_more_args lib f depth (suc n)))
            (parse_value-Leaves f depth st v (tok_rparen ∷ ts) wf refl at)
            (after_arg_last lib (parse_more_args lib f depth (suc n)) v ts st.stmts))
    parse_more_args-Leaves (suc f) depth n st v (value w ws) ts few (wf, wfs) at =
        let room : leb max_args n ≡ false = ground arith in
        let us = toks_more_args (value w ws) (tok_rparen ∷ ts) in
        rw room (
          Gives-bind (Leaves lib v us st.stmts)
            (Leaves lib (value v (value w ws)) (tok_rparen ∷ ts) st.stmts)
            (parse_value lib f depth st) (after_arg lib (parse_more_args lib f depth (suc n)))
            (parse_value-Leaves f depth st v us wf refl at)
            (after_arg_comma lib (parse_more_args lib f depth (suc n)) v w ws ts st.stmts
              (λ st' at'.
                parse_more_args-Leaves f depth (suc n) st' w ws ts (omega arith) wfs at')))
