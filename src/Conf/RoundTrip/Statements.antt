-- ===== src/Conf/RoundTrip/Statements.antt =====
-- conf/emit.go: the tokens of the emitted statements and of a file.
use kive.Prelude.{
  ℕ, zero, suc, ◌≡◌, refl, true, ◌&&◌, List, [], ◌∷◌, ◌++◌, arith, Text, codes, nat_key, text_key,
  inl, inr, ℕ_discrete, list_discrete, Bool-cases,
}
use mathlib.Core.List.{append_assoc}
use kive.Prelude.Decimals.{decimal}
use kive.Conf.{Library, Ascii, Stmt, block, call, Stmts, no_stmts, stmt, File}
use kive.Conf.Lexer.{
  Token, tok_lparen, tok_rparen, tok_lbrace, tok_rbrace, tok_ident, tok_number, is_space,
}
use kive.Conf.Emit.{
  emit_args, indentation, emit_stmt, emit_body, is_block, starts_with_block, emit_stmts,
  emit_version,
}
use kive.Conf.WellFormed.{
  all, is_whole, IsIdent, IsStmt, AreStmts, toks_args, toks_stmt, toks_body, toks_version,
  toks_file,
}
use kive.Conf.Stream.{Yields, Yields-nil, Yields-space}
use kive.Conf.Lexing.{next-ident, next-at_version}
use kive.Conf.Lexing.Numbers.{next-number}
use kive.Conf.RoundTrip.Tokens.{
  is_break, next_lparen, next_rparen, next_lbrace, next_rbrace, next_colon, Yields-indentation,
  stops_break, emit_args-Yields,
}

module _ (lib : Library) (laws : Ascii lib) (indent : Text)
    (blank : all is_space indent ≡ true) where
  emit_name-Yields :
      (name : Text) (c : ℕ) (rest : Text) (ts : List Token)
      → IsIdent lib name
      → is_break c ≡ true
      → Yields lib (c ∷ rest) ts
      → Yields lib (name ++ (c ∷ rest)) (tok_ident name ∷ ts)
  emit_name-Yields name c rest ts id h y =
      (c ∷ rest, next-ident lib laws name (c ∷ rest) id (stops_break lib laws c rest h), y)

  -- ` {` and a new line
  brace-Yields :
      (rest : Text) (ts : List Token)
      → Yields lib rest ts
      → Yields lib (codes " {\n" ++ rest) (tok_lbrace ∷ ts)
  unfolding ℕ_discrete
  brace-Yields rest ts y =
      let line = b'\n' ∷ rest in
      let brace : Yields lib (b'{' ∷ line) (tok_lbrace ∷ ts) =
        (line, next_lbrace lib line, Yields-space lib b'\n' rest ts refl y) in
      Yields-space lib b' ' (b'{' ∷ line) (tok_lbrace ∷ ts) refl brace

  -- The closing brace of a block.
  close-Yields :
      (depth : ℕ) (rest : Text) (ts : List Token)
      → Yields lib rest ts
      → Yields lib (indentation indent depth (b'}' ∷ b'\n' ∷ rest)) (tok_rbrace ∷ ts)
  unfolding ℕ_discrete
  close-Yields depth rest ts y =
      let close : Yields lib (b'}' ∷ b'\n' ∷ rest) (tok_rbrace ∷ ts) =
        (b'\n' ∷ rest, next_rbrace lib (b'\n' ∷ rest), Yields-space lib b'\n' rest ts refl y) in
      Yields-indentation lib indent depth (b'}' ∷ b'\n' ∷ rest) (tok_rbrace ∷ ts) blank close

  mutual
    unfolding emit_stmt list_discrete ℕ_discrete

    emit_stmt-Yields :
        (depth n : ℕ) (s : Stmt) (rest : Text) (ts : List Token)
        → IsStmt lib n s
        → Yields lib rest ts
        → Yields lib (emit_stmt indent depth s rest) (toks_stmt s ts)
    emit_stmt-Yields depth n (block name [] body) rest ts (id, no_id, deep, wf) y =
        let close = indentation indent depth (b'}' ∷ b'\n' ∷ rest) in
        let inside = emit_body indent (suc depth) body close in
        let us = toks_body body (tok_rbrace ∷ ts) in
        Yields-indentation lib indent depth (name ++ (codes " {\n" ++ inside))
          (tok_ident name ∷ tok_lbrace ∷ us) blank
          (emit_name-Yields name b' ' (b'{' ∷ b'\n' ∷ inside) (tok_lbrace ∷ us) id refl (
            brace-Yields inside us (
              emit_body-Yields (suc depth) (suc n) body close (tok_rbrace ∷ ts) wf
                (close-Yields depth rest ts y))))
    emit_stmt-Yields depth n (block name (c ∷ s) body) rest ts (id, inl empty, deep, wf) y =
        absurd (ground arith)
    emit_stmt-Yields depth n (block name (c ∷ s) body) rest ts (id, inr id', deep, wf) y =
        let close = indentation indent depth (b'}' ∷ b'\n' ∷ rest) in
        let inside = emit_body indent (suc depth) body close in
        let us = toks_body body (tok_rbrace ∷ ts) in
        let named = (c ∷ s) ++ (codes " {\n" ++ inside) in
        rw (append_assoc s (codes " {\n") inside) (
          Yields-indentation lib indent depth (name ++ (b' ' ∷ named))
            (tok_ident name ∷ tok_ident (c ∷ s) ∷ tok_lbrace ∷ us) blank
            (emit_name-Yields name b' ' named (tok_ident (c ∷ s) ∷ tok_lbrace ∷ us) id refl (
              Yields-space lib b' ' named (tok_ident (c ∷ s) ∷ tok_lbrace ∷ us) refl (
                emit_name-Yields (c ∷ s) b' ' (b'{' ∷ b'\n' ∷ inside) (tok_lbrace ∷ us) id' refl (
                  brace-Yields inside us (
                    emit_body-Yields (suc depth) (suc n) body close (tok_rbrace ∷ ts) wf
                      (close-Yields depth rest ts y)))))))
    emit_stmt-Yields depth n (call name args semicolon) rest ts (id, no_semicolon, deep, few, wf)
          y =
        let tail = emit_args args (b')' ∷ b'\n' ∷ rest) in
        let us = toks_args args (tok_rparen ∷ ts) in
        Yields-indentation lib indent depth (name ++ (b'(' ∷ tail))
          (tok_ident name ∷ tok_lparen ∷ us) blank
          (emit_name-Yields name b'(' tail (tok_lparen ∷ us) id refl (
            tail,
            next_lparen lib tail,
            emit_args-Yields lib laws (suc n) args (b')' ∷ b'\n' ∷ rest) (tok_rparen ∷ ts) wf
                (stops_break lib laws b')' (b'\n' ∷ rest) refl)
                (
                  b'\n' ∷ rest,
                  next_rparen lib (b'\n' ∷ rest),
                  Yields-space lib b'\n' rest ts refl y,
                ),
          ))

    emit_body-Yields :
        (depth n : ℕ) (body : Stmts) (rest : Text) (ts : List Token)
        → AreStmts lib n body
        → Yields lib rest ts
        → Yields lib (emit_body indent depth body rest) (toks_body body ts)
    emit_body-Yields depth n no_stmts rest ts wf y = y
    emit_body-Yields depth n (stmt s body) rest ts (wf, wfs) y =
        emit_stmt-Yields depth n s (emit_body indent depth body rest) (toks_body body ts) wf
          (emit_body-Yields depth n body rest ts wfs y)

  emit_stmts-Yields :
      (body : Stmts) → AreStmts lib 0 body → Yields lib (emit_stmts indent body) (toks_body body [])
  unfolding emit_stmts ℕ_discrete
  emit_stmts-Yields no_stmts wf = Yields-nil lib
  emit_stmts-Yields (stmt s body) (wf, wfs) =
      let y = emit_stmts-Yields body wfs in
      let us = toks_body body [] in
      elim (Bool-cases (is_block indent s && starts_with_block indent body)) [
        | inl both ↦ rw both (
            emit_stmt-Yields 0 0 s (b'\n' ∷ emit_stmts indent body) us wf
              (Yields-space lib b'\n' (emit_stmts indent body) us refl y))
        | inr other ↦ rw other (emit_stmt-Yields 0 0 s (emit_stmts indent body) us wf y)
      ]

  pub emit_file-Yields :
      (f : File)
      → AreStmts lib 0 f.stmts
      → is_whole lib (decimal f.version) ≡ true
      → Yields lib (emit_version f.version (emit_stmts indent f.stmts)) (toks_file f)
  unfolding ℕ_discrete
  emit_file-Yields f wf w = emit_version-Yields f.version f.stmts wf w
    where
      emit_version-Yields :
          (n : ℕ) (body : Stmts)
          → AreStmts lib 0 body
          → is_whole lib (decimal n) ≡ true
          → Yields lib
              (emit_version n (emit_stmts indent body))
              (toks_version n (toks_body body []))
      emit_version-Yields zero body wf w = emit_stmts-Yields body wf
      emit_version-Yields (suc n) body wf w =
          let text = emit_stmts indent body in
          let us = toks_body body [] in
          let number = decimal (suc n) in
          let tail = b'\n' ∷ b'\n' ∷ text in
          let blank_lines =
            Yields-space lib b'\n' (b'\n' ∷ text) us refl
              (Yields-space lib b'\n' text us refl (emit_stmts-Yields body wf)) in
          let after : Yields lib (number ++ tail) (tok_number number ∷ us) = (
            tail,
            next-number lib laws number tail w (stops_break lib laws b'\n' (b'\n' ∷ text) refl),
            blank_lines,
          ) in
          (
            b':' ∷ b' ' ∷ (number ++ tail),
            next-at_version lib laws (b':' ∷ b' ' ∷ (number ++ tail))
                (stops_break lib laws b':' (b' ' ∷ (number ++ tail)) refl),
            (
              b' ' ∷ (number ++ tail),
              next_colon lib (b' ' ∷ (number ++ tail)),
              Yields-space lib b' ' (number ++ tail) (tok_number number ∷ us) refl after,
            ),
          )
