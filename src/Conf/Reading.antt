-- ===== src/Conf/Reading.antt =====
-- conf/parser.go: the parser in front of a tree's tokens.
pub mod Expressions
pub mod Statements
pub mod Files
use kive.Prelude.{
  ℕ, zero, suc, ◌+◌, ◌≤◌, ◌≡◌, refl, Bool, true, false, not, ◌&&◌, Option, none, some, List, [],
  ◌∷◌, ◌++◌, arith, Text, ltb, leb, has, nat_key, if◌then◌else◌, ◌==◌, inl, inr, sym, ℕ_discrete,
  ◌<◌,
}
use kive.Conf.{
  Library, Ascii, trailing_comma, expected_value, Result, ok, err, ◌>>=◌, Value, string_lit,
  number_lit, float_lit, bool_lit, ident_lit, call_value, Values, no_values, value,
  max_nesting_depth, max_args,
}
use kive.Conf.Lexer.{
  Token, tok_rparen, tok_lparen, tok_comma, tok_string, tok_number, tok_true, tok_false, tok_ident,
}
use kive.Prelude.Int.{ℤ}
use kive.Conf.Parser.{
  advance, parse_number_lit, then_advance, enter, as_call, close_args, push_value, after_arg,
  parse_value, parse_ident_value, parse_call_tail, parse_args, parse_more_args,
}
use kive.Conf.State.{
  State, value_start, ValueStart, starts_string, starts_number, starts_ident, starts_bool,
  starts_none, is_lparen, is_rparen, is_comma, parse_int,
}
use kive.Conf.WellFormed.{
  all, is_whole, are_digits, IsFloat, count_values, IsValue, AreValues, toks_value, toks_args,
  toks_more_args,
}
use kive.Conf.Stream.{
  head_token, tail_tokens, Gives, Gives-bind, At, Leaves, Stands, advance-Stands,
}

pub has-append-dot : (before after : Text) → has b'.' (before ++ (b'.' ∷ after)) ≡ true
unfolding has ℕ_discrete
has-append-dot [] after = refl
has-append-dot (c ∷ s) after = ground (arith, has-append-dot s after)

module _ (lib : Library) where
  pub then_advance-Leaves :
      {A : Type 0} (a : A) (st : State) (t : Token) (ts : List Token)
      → At lib st (t ∷ ts)
      → Gives (Leaves lib a ts st.stmts) (then_advance lib a st)
  then_advance-Leaves a st t ts at =
      Gives-bind (Stands lib ts st.stmts) (Leaves lib a ts st.stmts) (advance lib st)
        (λ st'. ok (a, st')) (advance-Stands lib st (t ∷ ts) at) (λ st' (at', e). (refl, at', e))

  pub enter-Gives :
      {A : Type 0} (P : A → Type 0) (depth : ℕ) (r : Result A)
      → suc depth ≤ max_nesting_depth
      → Gives P r
      → Gives P (enter lib depth r)
  enter-Gives P depth r h g =
      let e : ltb max_nesting_depth (suc depth) ≡ false = ground arith in rw e g

  pub parse_number_lit_whole :
      (text : Text)
      → has b'.' text ≡ false
      → parse_number_lit lib text ≡ (parse_int text >>= λ i. ok (number_lit text i))
  unfolding parse_number_lit
  parse_number_lit_whole text h = rw h refl

  pub parse_number_lit_float :
      (text : Text) → IsFloat lib text → parse_number_lit lib text ≡ ok (float_lit text)
  unfolding parse_number_lit
  parse_number_lit_float text h =
      let dot : has b'.' text ≡ true = rw h.parts (has-append-dot h.before h.after) in
      rw (dot, h.parses) refl

  pub as_call-Leaves :
      (name : Text) (args : Values) (ts : List Token) (n : ℕ) (p : Values × State)
      → Leaves lib args ts n p
      → Gives (Leaves lib (call_value name args) ts n) (as_call lib name p)
  as_call-Leaves name args ts n (args', st) (e, at, es) = (rw e refl, at, es)

  pub close_args-Leaves :
      (args : Values) (ts : List Token) (n : ℕ) (p : Values × State)
      → Leaves lib args (tok_rparen ∷ ts) n p
      → Gives (Leaves lib args ts n) (close_args lib p)
  close_args-Leaves args ts n (args', st) (e, at, es) =
      let close : is_rparen st.cur ≡ true = rw at.0 refl in
      rw (close, sym e, sym es) (then_advance-Leaves args' st tok_rparen ts at)

  pub after_arg_last :
      (more : State → Result (Values × State)) (v : Value) (ts : List Token) (n : ℕ)
      (p : Value × State)
      → Leaves lib v (tok_rparen ∷ ts) n p
      → Gives (Leaves lib (value v no_values) (tok_rparen ∷ ts) n) (after_arg lib more p)
  after_arg_last more v ts n (v', st) (e, at, es) =
      let last : is_comma st.cur ≡ false = rw at.0 refl in rw last (rw e refl, at, es)

  pub push_value-Leaves :
      (v : Value) (vs : Values) (ts : List Token) (n : ℕ) (p : Values × State)
      → Leaves lib vs ts n p
      → Gives (Leaves lib (value v vs) ts n) (push_value lib v p)
  push_value-Leaves v vs ts n (vs', st) (e, at, es) = (rw e refl, at, es)

  pub toks_value-head :
      (v : Value) (ts : List Token) → is_rparen (head_token (toks_value v ts)) ≡ false
  toks_value-head (string_lit s) ts = refl
  toks_value-head (number_lit s i) ts = refl
  toks_value-head (float_lit s) ts = refl
  toks_value-head (bool_lit true) ts = refl
  toks_value-head (bool_lit false) ts = refl
  toks_value-head (ident_lit s) ts = refl
  toks_value-head (call_value s args) ts = refl

  pub toks_more_args-head :
      (vs : Values) (ts : List Token)
      → is_lparen (head_token (toks_more_args vs (tok_rparen ∷ ts))) ≡ false
  toks_more_args-head no_values ts = refl
  toks_more_args-head (value v vs) ts = refl

  pub after_arg_comma :
      (more : State → Result (Values × State)) (v w : Value) (ws : Values) (ts : List Token) (n : ℕ)
      → ((st : State)
          → At lib st (toks_value w (toks_more_args ws (tok_rparen ∷ ts)))
          → Gives (Leaves lib (value w ws) (tok_rparen ∷ ts) st.stmts) (more st))
      → (p : Value × State) → Leaves lib v (toks_more_args (value w ws) (tok_rparen ∷ ts)) n p
      → Gives (Leaves lib (value v (value w ws)) (tok_rparen ∷ ts) n) (after_arg lib more p)
  after_arg_comma more v w ws ts n ih (v', st) (e, at, es) =
      let us = toks_value w (toks_more_args ws (tok_rparen ∷ ts)) in
      let comma : is_comma st.cur ≡ true = rw at.0 refl in
      rw (comma, sym e, sym es)
        (Gives-bind (Stands lib us st.stmts)
          (Leaves lib (value v' (value w ws)) (tok_rparen ∷ ts) st.stmts) (advance lib st)
          (λ st'.
            if is_rparen st'.cur then err trailing_comma else (more st' >>= push_value lib v'))
          (advance-Stands lib st (tok_comma ∷ us) at)
          (λ st' (at', es').
            let arg : is_rparen st'.cur ≡ false =
              rw at'.0 (toks_value-head w (toks_more_args ws (tok_rparen ∷ ts))) in
            rw (arg, sym es')
              (Gives-bind (Leaves lib (value w ws) (tok_rparen ∷ ts) st'.stmts)
                (Leaves lib (value v' (value w ws)) (tok_rparen ∷ ts) st'.stmts) (more st')
                (push_value lib v') (ih st' at')
                (λ q hq. push_value-Leaves v' (value w ws) (tok_rparen ∷ ts) st'.stmts q hq))))
