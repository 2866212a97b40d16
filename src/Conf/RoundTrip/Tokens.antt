-- ===== src/Conf/RoundTrip/Tokens.antt =====
-- conf/emit.go: the tokens of the emitted values.
use kive.Prelude.{
  ℕ, zero, suc, ◌≡◌, refl, Bool, true, false, not, ◌&&◌, List, ◌∷◌, arith, Text, ltb, nat_key,
  text_key, ◌==◌, ℕ_discrete,
}
use kive.Conf.{
  Library, Ascii, ascii_letter, ascii_digit, ok, Value, string_lit, number_lit, float_lit, bool_lit,
  ident_lit, call_value, Values, no_values, value,
}
use kive.Conf.Lexer.{
  Token, tok_lparen, tok_rparen, tok_lbrace, tok_rbrace, tok_comma, tok_colon, is_space,
  skip_space_and_comments, next_token, next,
}
use kive.Conf.Emit.{emit_value, emit_args, emit_more_args, indentation}
use kive.Conf.WellFormed.{all, IsValue, AreValues, toks_value, toks_args, toks_more_args}
use kive.Conf.Stream.{Yields, Yields-space, Yields-spaces}
use kive.Conf.Lexing.{stops, next-ident, next-true, next-false, next-string}
use kive.Conf.Lexing.Numbers.{next-number, next-float}

abbrev pub is_break : ℕ → Bool
is_break c =
    ltb c 128 && not (ascii_letter c) && not (ascii_digit c) && not (c == b'_') && not (c == b'.')

module _ (lib : Library) where
  pub next_lparen : (s : Text) → next lib (b'(' ∷ s) ≡ ok (tok_lparen, s)
  unfolding next next_token skip_space_and_comments ℕ_discrete
  next_lparen s = refl

  pub next_rparen : (s : Text) → next lib (b')' ∷ s) ≡ ok (tok_rparen, s)
  unfolding next next_token skip_space_and_comments ℕ_discrete
  next_rparen s = refl

  pub next_lbrace : (s : Text) → next lib (b'{' ∷ s) ≡ ok (tok_lbrace, s)
  unfolding next next_token skip_space_and_comments ℕ_discrete
  next_lbrace s = refl

  pub next_rbrace : (s : Text) → next lib (b'}' ∷ s) ≡ ok (tok_rbrace, s)
  unfolding next next_token skip_space_and_comments ℕ_discrete
  next_rbrace s = refl

  next_comma : (s : Text) → next lib (b',' ∷ s) ≡ ok (tok_comma, s)
  unfolding next next_token skip_space_and_comments ℕ_discrete
  next_comma s = refl

  pub next_colon : (s : Text) → next lib (b':' ∷ s) ≡ ok (tok_colon, s)
  unfolding next next_token skip_space_and_comments ℕ_discrete
  next_colon s = refl

  pub Yields-indentation :
      (indent : Text) (depth : ℕ) (s : Text) (ts : List Token)
      → all is_space indent ≡ true
      → Yields lib s ts
      → Yields lib (indentation indent depth s) ts
  unfolding indentation
  Yields-indentation indent zero s ts h y = y
  Yields-indentation indent (suc depth) s ts h y =
      Yields-spaces lib indent (indentation indent depth s) ts h
        (Yields-indentation indent depth s ts h y)

module _ (lib : Library) (laws : Ascii lib) where
  pub stops_break : (c : ℕ) (s : Text) → is_break c ≡ true → stops lib (c ∷ s) ≡ true
  stops_break c s h =
      let l = laws.letter_of c (ground arith) in
      let d = laws.digit_of c (ground arith) in ground arith

  emit_more_args-stops :
      (vs : Values) (rest : Text)
      → stops lib rest ≡ true
      → stops lib (emit_more_args vs rest) ≡ true
  unfolding emit_value ℕ_discrete
  emit_more_args-stops no_values rest h = h
  emit_more_args-stops (value v vs) rest h =
      stops_break b',' (b' ' ∷ emit_value v (emit_more_args vs rest)) refl

  mutual
    unfolding emit_value ℕ_discrete

    emit_value-Yields :
        (depth : ℕ) (v : Value) (rest : Text) (ts : List Token)
        → IsValue lib depth v
        → stops lib rest ≡ true
        → Yields lib rest ts
        → Yields lib (emit_value v rest) (toks_value v ts)
    emit_value-Yields depth (string_lit s) rest ts (clean, fits) st y =
        (rest, next-string lib laws s rest clean fits, y)
    emit_value-Yields depth (number_lit text i) rest ts (w, e) st y =
        (rest, next-number lib laws text rest w st, y)
    emit_value-Yields depth (float_lit text) rest ts wf st y =
        (rest, next-float lib laws text rest wf st, y)
    emit_value-Yields depth (bool_lit true) rest ts wf st y = (rest, next-true lib laws rest st, y)
    emit_value-Yields depth (bool_lit false) rest ts wf st y =
        (rest, next-false lib laws rest st, y)
    emit_value-Yields depth (ident_lit name) rest ts wf st y =
        (rest, next-ident lib laws name rest wf st, y)
    emit_value-Yields depth (call_value name args) rest ts (id, deep, few, wf) st y =
        let tail = emit_args args (b')' ∷ rest) in
        (
          b'(' ∷ tail,
          next-ident lib laws name (b'(' ∷ tail) id (stops_break b'(' tail refl),
          (
            tail,
            next_lparen lib tail,
            emit_args-Yields (suc depth) args (b')' ∷ rest) (tok_rparen ∷ ts) wf
                (stops_break b')' rest refl) (rest, next_rparen lib rest, y),
          ),
        )

    pub emit_args-Yields :
        (depth : ℕ) (args : Values) (rest : Text) (ts : List Token)
        → AreValues lib depth args
        → stops lib rest ≡ true
        → Yields lib rest ts
        → Yields lib (emit_args args rest) (toks_args args ts)
    emit_args-Yields depth no_values rest ts wf st y = y
    emit_args-Yields depth (value v vs) rest ts (wf, wfs) st y =
        emit_value-Yields depth v (emit_more_args vs rest) (toks_more_args vs ts) wf
          (emit_more_args-stops vs rest st) (emit_more_args-Yields depth vs rest ts wfs st y)

    emit_more_args-Yields :
        (depth : ℕ) (args : Values) (rest : Text) (ts : List Token)
        → AreValues lib depth args
        → stops lib rest ≡ true
        → Yields lib rest ts
        → Yields lib (emit_more_args args rest) (toks_more_args args ts)
    emit_more_args-Yields depth no_values rest ts wf st y = y
    emit_more_args-Yields depth (value v vs) rest ts (wf, wfs) st y =
        let tail = emit_value v (emit_more_args vs rest) in
        let us = toks_value v (toks_more_args vs ts) in
        (
          b' ' ∷ tail,
          next_comma lib (b' ' ∷ tail),
          Yields-space lib b' ' tail us refl (
              emit_value-Yields depth v (emit_more_args vs rest) (toks_more_args vs ts) wf
                (emit_more_args-stops vs rest st)
                (emit_more_args-Yields depth vs rest ts wfs st y)),
        )
