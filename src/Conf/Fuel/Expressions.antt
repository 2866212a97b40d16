-- ===== src/Conf/Fuel/Expressions.antt =====
-- conf/parser.go: the fuel of the values, and what the parts of the parser share.
use kive.Prelude.{
  ℕ, zero, suc, ◌+◌, ◌*◌, ◌≤◌, ◌<◌, ◌≡◌, ◌≢◌, refl, true, [], ◌∷◌, arith, Text, ltb, leb,
  if◌then◌else◌, length, has, nat_key, Bool-cases, Option-cases, inl, inr,
}
use kive.Conf.{
  Library, trailing_comma, string_lit, bool_lit, Result, ok, err, ◌>>=◌, Value, Values, number_lit,
  max_nesting_depth, max_args,
}
use kive.Conf.Lexer.{Token, next}
use kive.Conf.Parser.{
  load, advance, parse_number_lit, skip_semicolon, then_advance, enter, as_call, close_args,
  push_value, after_arg, parse_value, parse_ident_value, parse_call_tail, parse_args,
  parse_more_args,
}
use kive.Conf.State.{
  State, ValueStart, starts_string, starts_number, starts_ident, starts_bool, starts_none,
  value_start, is_semicolon, is_lparen, is_rparen, is_comma, parse_int, digits_or_none,
}
use kive.Conf.Fuel.Tokens.{Sound, Sound-bind, Sound-le, token_length, pending, next-Sound}

-- The tokens and the characters that are left.
abbrev pub left : State → ℕ
left st = pending st.cur + (pending st.peek + length st.rest)

abbrev pub left_after : {A : Type 0} → A × State → ℕ
left_after (a, st) = left st

abbrev pub one_less : {A : Type 0} → A × State → ℕ
one_less (a, st) = suc (left st)

pub parse_int-Sound : (text : Text) → Sound (λ i. 0) 0 (parse_int text)
unfolding parse_int
parse_int-Sound [] = refl
parse_int-Sound (c ∷ s) =
    ground (arith, Option-cases (digits_or_none s), Option-cases (digits_or_none (c ∷ s)))

module _ (lib : Library) where
  pub load-left :
      (st : State) (p : Token × Text)
      → token_length p ≤ length st.rest
      → left (load lib st p) ≤ pending st.peek + length st.rest
  load-left st (t, rest) h = omega arith

  -- A token that was taken is not there any more.
  pub advance-Sound : (st : State) → Sound left (pending st.peek + length st.rest) (advance lib st)
  unfolding advance
  advance-Sound st =
      Sound-bind token_length (length st.rest) left (pending st.peek + length st.rest)
        (next lib st.rest) (λ p. ok (load lib st p)) (next-Sound lib st.rest)
        (λ p h. load-left st p h)

  pub then_advance-Sound :
      {A : Type 0} (a : A) (st : State)
      → pending st.cur ≡ 1
      → Sound one_less (left st) (then_advance lib a st)
  then_advance-Sound a st one =
      Sound-bind left (pending st.peek + length st.rest) one_less (left st) (advance lib st)
        (λ st'. ok (a, st')) (advance-Sound st) (λ st' h. omega arith)

  pub skip_semicolon-Sound : (st : State) → Sound left_after (left st) (skip_semicolon lib st)
  unfolding skip_semicolon
  skip_semicolon-Sound st = elim (Bool-cases (is_semicolon st.cur)) [
    | inr other ↦ rw other (omega arith)
    | inl there ↦ rw there (
        Sound-bind left (pending st.peek + length st.rest) left_after (left st) (advance lib st)
          (λ st'. ok (true, st')) (advance-Sound st) (λ st' h. omega arith))
  ]

  pub parse_number_lit-Sound : (text : Text) → Sound (λ v. 0) 0 (parse_number_lit lib text)
  unfolding parse_number_lit
  parse_number_lit-Sound text = elim (Bool-cases (has b'.' text)) [
    | inl dot ↦ ground arith
    | inr whole ↦ rw whole (
        Sound-bind (λ i. 0) 0 (λ v. 0) 0 (parse_int text) (λ i. ok (number_lit text i))
          (parse_int-Sound text) (λ i h. omega arith))
  ]

  pub enter-Sound :
      {A : Type 0} (m : A → ℕ) (n depth : ℕ) (r : Result A)
      → Sound m n r
      → Sound m n (enter lib depth r)
  enter-Sound m n depth r h = elim (Bool-cases (ltb max_nesting_depth (suc depth))) [
    | inl deep ↦ rw deep refl
    | inr fine ↦ rw fine h
  ]

  pub as_call-Sound :
      (name : Text) (p : Values × State) (n : ℕ)
      → one_less p ≤ n
      → Sound one_less n (as_call lib name p)
  as_call-Sound name (args, st) n h = h

  pub one_less_of :
      {A : Type 0} (r : Result (A × State)) (n k : ℕ)
      → n < k
      → Sound left_after n r
      → Sound one_less k r
  one_less_of (err e) n k lt h = h
  one_less_of (ok (a, st)) n k lt h = omega arith

  pub left_after_of :
      {A : Type 0} (r : Result (A × State)) (n : ℕ) → Sound one_less n r → Sound left_after n r
  left_after_of (err e) n h = h
  left_after_of (ok (a, st)) n h = omega arith

  pub value_start-pending :
      (t : Token) (v : ValueStart) → value_start t ≡ v → v ≢ starts_none → pending t ≡ 1
  value_start-pending t v e some_value = ground arith

  pub close_args-Sound :
      (p : Values × State) (n : ℕ) → left_after p ≤ n → Sound left_after n (close_args lib p)
  close_args-Sound (args, st) n h = elim (Bool-cases (is_rparen st.cur)) [
    | inl close ↦ rw close (
        Sound-bind left (pending st.peek + length st.rest) left_after n (advance lib st)
          (λ st'. ok (args, st')) (advance-Sound st) (λ st' h'. omega arith))
    | inr other ↦ ground arith
  ]

  pub push_value-Sound :
      (v : Value) (p : Values × State) (n : ℕ)
      → one_less p ≤ n
      → Sound one_less n (push_value lib v p)
  push_value-Sound v (vs, st) n h = h

  pub after_arg-Sound :
      (f : ℕ) (more : State → Result (Values × State)) (p : Value × State) (n : ℕ)
      → one_less p ≤ n
      → 5 * n ≤ f + 4
      → ((st : State) → 5 * left st + 2 ≤ f → Sound one_less (left st) (more st))
      → Sound one_less n (after_arg lib more p)
  after_arg-Sound f more (v, st) n h enough next = elim (Bool-cases (is_comma st.cur)) [
    | inr last ↦ rw last h
    | inl comma ↦
        let one : pending st.cur ≡ 1 = ground arith in
        rw comma (
          Sound-bind left (pending st.peek + length st.rest) one_less n (advance lib st)
            (λ st'.
              if is_rparen st'.cur then err trailing_comma else (more st' >>= push_value lib v))
            (advance-Sound st)
            (λ st' h'. elim (Bool-cases (is_rparen st'.cur)) [
              | inl close ↦ rw close refl
              | inr arg ↦ rw arg (
                  Sound-bind one_less (left st') one_less n (more st') (push_value lib v)
                    (next st' (omega arith)) (λ q hq. push_value-Sound v q n (omega arith)))
            ]))
  ]

  pub parse_value_step :
      (f depth : ℕ) (st : State) (v : ValueStart)
      → value_start st.cur ≡ v
      → 5 * left st ≤ f
      → ((name : Text) (st' : State)
          → 5 * left st' + 2 ≤ f
          → Sound left_after (left st') (parse_ident_value lib f depth name st'))
      → Sound one_less (left st) (parse_value lib (suc f) depth st)
  unfolding parse_value
  parse_value_step f depth st starts_none e enough ident = rw (e, Sound) refl
  parse_value_step f depth st (starts_string text) e enough ident =
      rw (e, Sound)
        (then_advance-Sound (string_lit text) st (value_start-pending st.cur _ e (ground arith)))
  parse_value_step f depth st (starts_bool b) e enough ident =
      rw (e, Sound)
        (then_advance-Sound (bool_lit b) st (value_start-pending st.cur _ e (ground arith)))
  parse_value_step f depth st (starts_number text) e enough ident =
      rw (e, Sound)
        (Sound-bind (λ v. 0) 0 one_less (left st) (parse_number_lit lib text)
          (λ v. then_advance lib v st) (parse_number_lit-Sound text)
          (λ v h. then_advance-Sound v st (value_start-pending st.cur _ e (ground arith))))
  parse_value_step f depth st (starts_ident name) e enough ident =
      let one = value_start-pending st.cur _ e (ground arith) in
      rw (e, Sound)
        (Sound-bind left (pending st.peek + length st.rest) one_less (left st) (advance lib st)
          (parse_ident_value lib f depth name) (advance-Sound st)
          (λ st' h.
            one_less_of (parse_ident_value lib f depth name st') (left st') (left st) (omega arith)
              (ident name st' (omega arith))))

  mutual
    unfolding parse_value

    pub parse_value-Sound :
        (f depth : ℕ) (st : State)
        → 5 * left st + 1 ≤ f
        → Sound one_less (left st) (parse_value lib f depth st)
    parse_value-Sound zero depth st h = absurd (omega arith)
    parse_value-Sound (suc f) depth st h =
        parse_value_step f depth st (value_start st.cur) refl (omega arith)
          (λ name st' h'. parse_ident_value-Sound f depth name st' h')

    pub parse_ident_value-Sound :
        (f depth : ℕ) (name : Text) (st : State)
        → 5 * left st + 2 ≤ f
        → Sound left_after (left st) (parse_ident_value lib f depth name st)
    parse_ident_value-Sound zero depth name st h = absurd (omega arith)
    parse_ident_value-Sound (suc f) depth name st h = elim (Bool-cases (is_lparen st.cur)) [
      | inr bare ↦ rw bare (omega arith)
      | inl paren ↦ rw paren (
          left_after_of (parse_call_tail lib f depth st >>= as_call lib name) (left st) (
            Sound-bind one_less (left st) one_less (left st) (parse_call_tail lib f depth st)
              (as_call lib name) (parse_call_tail-Sound f depth st (ground arith) (omega arith))
              (λ p hp. as_call-Sound name p (left st) hp)))
    ]

    pub parse_call_tail-Sound :
        (f depth : ℕ) (st : State)
        → pending st.cur ≡ 1
        → 5 * left st + 1 ≤ f
        → Sound one_less (left st) (parse_call_tail lib f depth st)
    parse_call_tail-Sound zero depth st one h = absurd (omega arith)
    parse_call_tail-Sound (suc f) depth st one h =
        let n = pending st.peek + length st.rest in
        enter-Sound one_less (left st) depth
          ((advance lib st >>= parse_args lib f (suc depth)) >>= close_args lib)
          (one_less_of ((advance lib st >>= parse_args lib f (suc depth)) >>= close_args lib) n
            (left st) (omega arith)
            (Sound-bind left_after n left_after n (advance lib st >>= parse_args lib f (suc depth))
              (close_args lib)
              (Sound-bind left n left_after n (advance lib st) (parse_args lib f (suc depth))
                (advance-Sound st)
                (λ st' h'.
                  Sound-le left_after (left st') n (parse_args lib f (suc depth) st') h'
                    (parse_args-Sound f (suc depth) st' (omega arith))))
              (λ p hp. close_args-Sound p n hp)))

    pub parse_args-Sound :
        (f depth : ℕ) (st : State)
        → 5 * left st + 3 ≤ f
        → Sound left_after (left st) (parse_args lib f depth st)
    parse_args-Sound zero depth st h = absurd (omega arith)
    parse_args-Sound (suc f) depth st h = elim (Bool-cases (is_rparen st.cur)) [
      | inl close ↦ rw close (omega arith)
      | inr some_arg ↦ rw some_arg (
          left_after_of (parse_more_args lib f depth 0 st) (left st)
            (parse_more_args-Sound f depth 0 st (omega arith)))
    ]

    pub parse_more_args-Sound :
        (f depth n : ℕ) (st : State)
        → 5 * left st + 2 ≤ f
        → Sound one_less (left st) (parse_more_args lib f depth n st)
    parse_more_args-Sound zero depth n st h = absurd (omega arith)
    parse_more_args-Sound (suc f) depth n st h = elim (Bool-cases (leb max_args n)) [
      | inl many ↦ rw many refl
      | inr few ↦ rw few (
          Sound-bind one_less (left st) one_less (left st) (parse_value lib f depth st)
            (after_arg lib (parse_more_args lib f depth (suc n)))
            (parse_value-Sound f depth st (omega arith))
            (λ p hp.
              after_arg-Sound f (parse_more_args lib f depth (suc n)) p (left st) hp (omega arith)
                (λ st' h'. parse_more_args-Sound f depth (suc n) st' h')))
    ]
