-- ===== src/Conf/Stream.antt =====
-- conf/: the tokens that a text holds, one call of the lexer after another, and the parser's state in
-- front of them.
use kive.Prelude.{ℕ, arith, ◌≡◌, refl, ◌∙◌, true, List, [], ◌∷◌, ◌++◌, Text}
use kive.Conf.{Library, Result, ok, err, ◌>>=◌}
use kive.Conf.Lexer.{Token, tok_eof, is_space, next, next_token, skip_space_and_comments}
use kive.Conf.Parser.{advance}
use kive.Conf.State.{State}
use kive.Conf.Fuel.Tokens.{is_out_of_fuel}
use kive.Conf.WellFormed.{all}

abbrev pub head_token : List Token → Token
head_token [] = tok_eof
head_token (t ∷ ts) = t

abbrev pub tail_tokens : List Token → List Token
tail_tokens [] = []
tail_tokens (t ∷ ts) = ts

-- The result has the property, unless the fuel of the model ends first.
abbrev pub Gives : {A : Type 0} → (A → Type 0) → Result A → Type 0
Gives P (err e) = is_out_of_fuel e ≡ true
Gives P (ok a) = P a

pub Gives-bind :
    {A B : Type 0} (P : A → Type 0) (Q : B → Type 0) (r : Result A) (k : A → Result B)
    → Gives P r
    → ((a : A) → P a → Gives Q (k a))
    → Gives Q (r >>= k)
Gives-bind P Q (err e) k h then_gives = h
Gives-bind P Q (ok a) k h then_gives = then_gives a h

module _ (lib : Library) where
  -- The text has these tokens, and no other.
  abbrev pub Yields : Text → List Token → Type 0
  Yields s [] = next lib s ≡ ok (tok_eof, [])
  Yields s (t ∷ ts) = (s' : Text) × (next lib s ≡ ok (t, s')) × Yields s' ts

  pub Yields-nil : Yields [] []
  unfolding next next_token skip_space_and_comments
  Yields-nil = refl

  pub Yields-same :
      (s s' : Text) (ts : List Token) → next lib s ≡ next lib s' → Yields s' ts → Yields s ts
  Yields-same s s' [] e y = e ∙ y
  Yields-same s s' (t ∷ ts) e (s2, e2, y) = (s2, e ∙ e2, y)

  next-Yields :
      (s : Text) (ts : List Token)
      → Yields s ts
      → (s' : Text) × (next lib s ≡ ok (head_token ts, s')) × Yields s' (tail_tokens ts)
  next-Yields s [] y = ([], y, Yields-nil)
  next-Yields s (t ∷ ts) y = y

  -- The current token, the next one and the rest.
  abbrev pub At : State → List Token → Type 0
  At st ts =
      (st.cur ≡ head_token ts)
      × (st.peek ≡ head_token (tail_tokens ts))
      × Yields st.rest (tail_tokens (tail_tokens ts))

  -- After a part of the parser: its result, the tokens that are left and the statements counted.
  abbrev pub Leaves : {A : Type 0} → A → List Token → ℕ → A × State → Type 0
  Leaves a ts n (a', st) = (a' ≡ a) × At st ts × (st.stmts ≡ n)

  -- After a token was taken.
  abbrev pub Stands : List Token → ℕ → State → Type 0
  Stands ts n st = At st ts × (st.stmts ≡ n)

  pub advance-Stands :
      (st : State) (ts : List Token)
      → At st ts
      → Gives (Stands (tail_tokens ts) st.stmts) (advance lib st)
  unfolding advance
  advance-Stands st ts (e, e', y) =
      let (s', e2, y') = next-Yields st.rest (tail_tokens (tail_tokens ts)) y in
      rw e2 ((e', refl, y'), refl)

  next_space : (c : ℕ) (s : Text) → is_space c ≡ true → next lib (c ∷ s) ≡ next lib s
  unfolding next skip_space_and_comments
  next_space c s h = rw h

  pub Yields-space :
      (c : ℕ) (s : Text) (ts : List Token) → is_space c ≡ true → Yields s ts → Yields (c ∷ s) ts
  Yields-space c s ts h y = Yields-same (c ∷ s) s ts (next_space c s h) y

  pub Yields-spaces :
      (blank s : Text) (ts : List Token)
      → all is_space blank ≡ true
      → Yields s ts
      → Yields (blank ++ s) ts
  Yields-spaces [] s ts h y = y
  Yields-spaces (c ∷ blank) s ts h y =
      Yields-space c (blank ++ s) ts (ground arith) (Yields-spaces blank s ts (ground arith) y)
