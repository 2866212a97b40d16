-- ===== src/Conf/RoundTrip/Characters.antt =====
-- conf/emit.go: the characters of the emitted text, and its end.
use kive.Prelude.{
  ℕ, zero, suc, ◌≡◌, refl, Bool, true, false, not, ◌&&◌, [], ◌∷◌, ◌++◌, arith, Text, codes, has,
  nat_key, text_key, ◌==◌, inl, inr, ℕ_discrete, list_discrete, Bool-cases,
}
use mathlib.Core.List.{append_assoc}
use kive.Prelude.Decimals.{decimal}
use kive.Conf.{
  Library, Ascii, Value, string_lit, number_lit, float_lit, bool_lit, ident_lit, call_value, Values,
  no_values, value, Stmt, block, call, Stmts, no_stmts, stmt,
}
use kive.Conf.Lexer.{is_space, is_ident_part}
use kive.Conf.Emit.{
  escape_string, emit_value, emit_args, emit_more_args, indentation, emit_stmt, emit_body, is_block,
  starts_with_block, emit_stmts, emit_version, ends_with_newline,
}
use kive.Conf.WellFormed.{
  all, are_digits, is_whole, IsFloat, IsValue, AreValues, IsIdent, IsStmt, AreStmts,
}

-- A property of a line's end that characters before it keep.
pub record Kept (P : Text → Type 0) : Type 0 where
  pub last : P (b'\n' ∷ [])
  pub cons : (c : ℕ) (s : Text) → (c == 0) ≡ false → P s → P (c ∷ s)

abbrev nonzero : ℕ → Bool
nonzero c = not (c == 0)

module _ (P : Text → Type 0) (kept : Kept P) where
  append-P : (t s : Text) → all nonzero t ≡ true → P s → P (t ++ s)
  append-P [] s h p = p
  append-P (c ∷ t) s h p = kept.cons c (t ++ s) (ground arith) (append-P t s (ground arith) p)

  escape_string-P : (s rest : Text) → has 0 s ≡ false → P rest → P (escape_string s rest)
  unfolding escape_string has ℕ_discrete
  escape_string-P [] rest h p = p
  escape_string-P (c ∷ s) rest h p =
      let not_nul : (c == 0) ≡ false = ground arith in
      let after = escape_string s rest in
      let q = escape_string-P s rest (ground arith) p in
      let escaped : (e : ℕ) → (e == 0) ≡ false → P (b'\\' ∷ e ∷ after) =
        λ e h'. kept.cons b'\\' (e ∷ after) refl (kept.cons e after h' q) in
      elim (Bool-cases (c == b'"')) [
        | inl x ↦ rw x (escaped b'"' refl)
        | inr x ↦ elim (Bool-cases (c == b'\\')) [
          | inl y ↦ rw (x, y) (escaped b'\\' refl)
          | inr y ↦ elim (Bool-cases (c == b'\n')) [
            | inl z ↦ rw (x, y, z) (escaped b'n' refl)
            | inr z ↦ elim (Bool-cases (c == b'\t')) [
              | inl u ↦ rw (x, y, z, u) (escaped b't' refl)
              | inr u ↦ elim (Bool-cases (c == b'\r')) [
                | inl v ↦ rw (x, y, z, u, v) (escaped b'r' refl)
                | inr v ↦ rw (x, y, z, u, v) (kept.cons c after not_nul q)
              ]
            ]
          ]
        ]
      ]

  indentation-P :
      (indent : Text) (depth : ℕ) (s : Text)
      → all nonzero indent ≡ true
      → P s
      → P (indentation indent depth s)
  unfolding indentation
  indentation-P indent zero s h p = p
  indentation-P indent (suc depth) s h p =
      append-P indent (indentation indent depth s) h (indentation-P indent depth s h p)

spaces-nonzero : (s : Text) → all is_space s ≡ true → all nonzero s ≡ true
spaces-nonzero [] h = refl
spaces-nonzero (c ∷ s) h = ground (arith, spaces-nonzero s)

all-append : (p : ℕ → Bool) (s t : Text) → all p s ≡ true → all p t ≡ true → all p (s ++ t) ≡ true
all-append p [] t h h' = h'
all-append p (c ∷ s) t h h' = ground (arith, all-append p s t)

module _ (lib : Library) (laws : Ascii lib) where
  part-nonzero : (c : ℕ) → is_ident_part lib c ≡ true → nonzero c ≡ true
  part-nonzero c h = elim (Bool-cases (c == 0)) [
    | inr other ↦ rw other refl
    | inl zero_char ↦
        let l = laws.letter_of 0 (omega arith) in
        let d = laws.digit_of 0 (omega arith) in
        let e : c ≡ 0 = ground arith in absurd (nothing c e l d h)
  ]
    where
      nothing :
          (c : ℕ)
          → c ≡ 0
          → lib.is_letter 0 ≡ false
          → lib.is_digit 0 ≡ false
          → is_ident_part lib c ≡ true
          → ⊥
      nothing c e l d h = ground arith

  digits-nonzero : (s : Text) → all lib.is_digit s ≡ true → all nonzero s ≡ true
  digits-nonzero [] h = refl
  digits-nonzero (c ∷ s) h = ground (arith, digits-nonzero s, part-nonzero c)

  parts-nonzero : (s : Text) → all (is_ident_part lib) s ≡ true → all nonzero s ≡ true
  parts-nonzero [] h = refl
  parts-nonzero (c ∷ s) h = ground (arith, parts-nonzero s, part-nonzero c)

  whole-nonzero : (s : Text) → is_whole lib s ≡ true → all nonzero s ≡ true
  whole-nonzero [] h = refl
  whole-nonzero (c ∷ []) h = ground (arith, part-nonzero c)
  whole-nonzero (c ∷ d ∷ s) h = ground (arith, part-nonzero c, part-nonzero d, digits-nonzero s)

  float-nonzero : (s : Text) → IsFloat lib s → all nonzero s ≡ true
  unfolding ℕ_discrete
  float-nonzero s h =
      let before = whole-nonzero h.before h.before_whole in
      let after = digits-nonzero h.after (digits_all h.after h.after_digits) in
      rw h.parts (all-append nonzero h.before (b'.' ∷ h.after) before (rw after refl))
    where
      digits_all : (s : Text) → are_digits lib s ≡ true → all lib.is_digit s ≡ true
      digits_all [] h = refl
      digits_all (c ∷ s) h = h

module _ (lib : Library) (laws : Ascii lib) (P : Text → Type 0) (kept : Kept P) where
  name-P : (name s : Text) → IsIdent lib name → P s → P (name ++ s)
  name-P name s h p = append-P P kept name s (parts-nonzero lib laws name h.parts) p

  mutual
    unfolding emit_value ℕ_discrete

    emit_value-P :
        (depth : ℕ) (v : Value) (rest : Text) → IsValue lib depth v → P rest → P (emit_value v rest)
    emit_value-P depth (string_lit s) rest (clean, fits) p =
        kept.cons b'"' (escape_string s (b'"' ∷ rest)) refl
          (escape_string-P P kept s (b'"' ∷ rest) clean (kept.cons b'"' rest refl p))
    emit_value-P depth (number_lit text i) rest (w, e) p =
        append-P P kept text rest (whole-nonzero lib laws text w) p
    emit_value-P depth (float_lit text) rest wf p =
        append-P P kept text rest (float-nonzero lib laws text wf) p
    emit_value-P depth (bool_lit true) rest wf p = append-P P kept (codes "true") rest refl p
    emit_value-P depth (bool_lit false) rest wf p = append-P P kept (codes "false") rest refl p
    emit_value-P depth (ident_lit name) rest wf p = name-P name rest wf p
    emit_value-P depth (call_value name args) rest (id, deep, few, wf) p =
        name-P name (b'(' ∷ emit_args args (b')' ∷ rest)) id (
          kept.cons b'(' (emit_args args (b')' ∷ rest)) refl
            (emit_args-P (suc depth) args (b')' ∷ rest) wf (kept.cons b')' rest refl p)))

    emit_args-P :
        (depth : ℕ) (args : Values) (rest : Text)
        → AreValues lib depth args
        → P rest
        → P (emit_args args rest)
    emit_args-P depth no_values rest wf p = p
    emit_args-P depth (value v vs) rest (wf, wfs) p =
        emit_value-P depth v (emit_more_args vs rest) wf (emit_more_args-P depth vs rest wfs p)

    emit_more_args-P :
        (depth : ℕ) (args : Values) (rest : Text)
        → AreValues lib depth args
        → P rest
        → P (emit_more_args args rest)
    emit_more_args-P depth no_values rest wf p = p
    emit_more_args-P depth (value v vs) rest (wf, wfs) p =
        let tail = emit_value v (emit_more_args vs rest) in
        kept.cons b',' (b' ' ∷ tail) refl (
          kept.cons b' ' tail refl (
            emit_value-P depth v (emit_more_args vs rest) wf
              (emit_more_args-P depth vs rest wfs p)))

  module _ (indent : Text) (blank : all is_space indent ≡ true) where
    indented : (depth : ℕ) (s : Text) → P s → P (indentation indent depth s)
    indented depth s p = indentation-P P kept indent depth s (spaces-nonzero indent blank) p

    close-P :
        (depth : ℕ) (rest : Text)
        → P (b'\n' ∷ rest)
        → P (indentation indent depth (b'}' ∷ b'\n' ∷ rest))
    unfolding ℕ_discrete
    close-P depth rest p =
        indented depth (b'}' ∷ b'\n' ∷ rest) (kept.cons b'}' (b'\n' ∷ rest) refl p)

    line-P : (s : Text) → P s → P (b'\n' ∷ s)
    unfolding ℕ_discrete
    line-P s p = kept.cons b'\n' s refl p

    mutual
      unfolding emit_stmt list_discrete ℕ_discrete

      emit_stmt-P :
          (depth n : ℕ) (s : Stmt) (rest : Text)
          → IsStmt lib n s
          → P (b'\n' ∷ rest)
          → P (emit_stmt indent depth s rest)
      emit_stmt-P depth n (block name [] body) rest (id, no_id, deep, wf) p =
          let inside =
            emit_body indent (suc depth) body (indentation indent depth (b'}' ∷ b'\n' ∷ rest)) in
          indented depth (name ++ (codes " {\n" ++ inside)) (
            name-P name (codes " {\n" ++ inside) id (
              append-P P kept (codes " {\n") inside refl (
                emit_body-P (suc depth) (suc n) body
                  (indentation indent depth (b'}' ∷ b'\n' ∷ rest)) wf (close-P depth rest p))))
      emit_stmt-P depth n (block name (c ∷ s) body) rest (id, inl empty, deep, wf) p =
          absurd (ground arith)
      emit_stmt-P depth n (block name (c ∷ s) body) rest (id, inr id', deep, wf) p =
          let inside =
            emit_body indent (suc depth) body (indentation indent depth (b'}' ∷ b'\n' ∷ rest)) in
          let named = (c ∷ s) ++ (codes " {\n" ++ inside) in
          rw (append_assoc s (codes " {\n") inside) (
            indented depth (name ++ (b' ' ∷ named)) (
              name-P name (b' ' ∷ named) id (
                kept.cons b' ' named refl (
                  name-P (c ∷ s) (codes " {\n" ++ inside) id' (
                    append-P P kept (codes " {\n") inside refl (
                      emit_body-P (suc depth) (suc n) body
                        (indentation indent depth (b'}' ∷ b'\n' ∷ rest)) wf
                        (close-P depth rest p)))))))
      emit_stmt-P depth n (call name args semicolon) rest (id, no_semicolon, deep, few, wf) p =
          let tail = b')' ∷ b'\n' ∷ rest in
          indented depth (name ++ (b'(' ∷ emit_args args tail)) (
            name-P name (b'(' ∷ emit_args args tail) id (
              kept.cons b'(' (emit_args args tail) refl
                (emit_args-P (suc n) args tail wf (kept.cons b')' (b'\n' ∷ rest) refl p))))

      emit_body-P :
          (depth n : ℕ) (body : Stmts) (rest : Text)
          → AreStmts lib n body
          → P rest
          → P (emit_body indent depth body rest)
      emit_body-P depth n no_stmts rest wf p = p
      emit_body-P depth n (stmt s body) rest (wf, wfs) p =
          emit_stmt-P depth n s (emit_body indent depth body rest) wf
            (line-P (emit_body indent depth body rest) (emit_body-P depth n body rest wfs p))

    -- A newline and the statements.
    emit_stmts-P : (body : Stmts) → AreStmts lib 0 body → P (b'\n' ∷ emit_stmts indent body)
    unfolding emit_stmts
    emit_stmts-P no_stmts wf = kept.last
    emit_stmts-P (stmt s body) (wf, wfs) =
        let p = emit_stmts-P body wfs in
        elim (Bool-cases (is_block indent s && starts_with_block indent body)) [
          | inl both ↦ rw both (
              line-P (emit_stmt indent 0 s (b'\n' ∷ emit_stmts indent body)) (
                emit_stmt-P 0 0 s (b'\n' ∷ emit_stmts indent body) wf
                  (line-P (b'\n' ∷ emit_stmts indent body) p)))
          | inr other ↦ rw other (
              line-P (emit_stmt indent 0 s (emit_stmts indent body))
                (emit_stmt-P 0 0 s (emit_stmts indent body) wf p))
        ]

    pub emit_version-P :
        (n : ℕ) (body : Stmts)
        → AreStmts lib 0 body
        → is_whole lib (decimal n) ≡ true
        → P (b'\n' ∷ emit_version n (emit_stmts indent body))
    unfolding ℕ_discrete
    emit_version-P zero body wf w = emit_stmts-P body wf
    emit_version-P (suc n) body wf w =
        let tail = b'\n' ∷ b'\n' ∷ emit_stmts indent body in
        line-P (codes "@version: " ++ (decimal (suc n) ++ tail)) (
          append-P P kept (codes "@version: ") (decimal (suc n) ++ tail) refl (
            append-P P kept (decimal (suc n)) tail (whole-nonzero lib laws (decimal (suc n)) w)
              (line-P (b'\n' ∷ emit_stmts indent body) (emit_stmts-P body wf))))

-- The two properties.
abbrev pub Ends : Text → Type 0
Ends s = ends_with_newline s ≡ true

pub Ends-Kept : Kept Ends
unfolding ℕ_discrete
Ends-Kept = record { last = refl; cons = ends }
  where
    ends : (c : ℕ) (s : Text) → (c == 0) ≡ false → Ends s → Ends (c ∷ s)
    ends c [] h e = absurd (ground arith)
    ends c (d ∷ s) h e = e

abbrev pub Clean : Text → Type 0
Clean s = has 0 s ≡ false

pub Clean-Kept : Kept Clean
unfolding has ℕ_discrete
Clean-Kept = record { last = refl; cons = λ c s h e. clean c s h e }
  where
    clean : (c : ℕ) (s : Text) → (c == 0) ≡ false → Clean s → Clean (c ∷ s)
    clean c s h e = ground arith
