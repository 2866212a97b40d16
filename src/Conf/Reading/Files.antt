-- ===== src/Conf/Reading/Files.antt =====
-- conf/parser.go: the parser in front of the tokens of a file.
use kive.Prelude.{
  ℕ, zero, suc, ◌+◌, ◌≤◌, ◌≡◌, refl, sym, true, false, some, List, [], ◌∷◌, arith, Text,
  if◌then◌else◌, inl, inr, nat_key, ◌⊎◌,
}
use kive.Prelude.Decimals.{decimal}
use kive.Conf.{
  Library, Ascii, expected_colon, Result, ok, err, ◌>>=◌, Stmt, block, call, Stmts, no_stmts, stmt,
  File, max_statements,
}
use kive.Conf.Lexer.{Token, tok_colon, tok_at_version, tok_number}
use kive.Conf.Parser.{
  advance, skip_semicolon, parse_stmt, after_top, parse_stmts, version_number, at_number,
  parse_version, file_of, parse_file,
}
use kive.Conf.State.{State, is_semicolon, is_colon, is_eof, is_at_version, number_of}
use kive.Conf.WellFormed.{AreStmts, size, sizes, toks_body, toks_version, toks_file}
use kive.Conf.Stream.{head_token, Gives, Gives-bind, At, Leaves, Stands, advance-Stands}
use kive.Conf.Reading.Statements.{
  toks_stmt-head, toks_body-head, skip_semicolon_none, parse_stmt-Leaves,
}

toks_body-at : (body : Stmts) → is_at_version (head_token (toks_body body [])) ≡ false
toks_body-at no_stmts = refl
toks_body-at (stmt (block name [] body) rest) = refl
toks_body-at (stmt (block name (c ∷ s) body) rest) = refl
toks_body-at (stmt (call name args semicolon) rest) = refl

module _ (lib : Library) (laws : Ascii lib) where
  -- The value of a result, when the part of the parser says no more.
  abbrev pub Is : {A : Type 0} → A → A → Type 0
  Is a a' = a' ≡ a

  after_top-Is :
      (more : State → Result Stmts) (s : Stmt) (body : Stmts) (us : List Token) (n : ℕ)
      → ((st : State) → At lib st us → st.stmts ≡ n → Gives (Is body) (more st))
      → (p : Stmt × State) → Leaves lib s us n p
      → Gives (Is (stmt s body)) (after_top lib more p)
  after_top-Is more s body us n ih (s', st) (e, at, es) = rw (sym e) (
      Gives-bind (Is body) (Is (stmt s' body)) (more st) (λ body'. ok (stmt s' body')) (ih st at es)
        (λ body' e'. rw e' refl))

  parse_stmts-Is :
      (f : ℕ) (st : State) (body : Stmts) (n : ℕ)
      → AreStmts lib 0 body
      → st.stmts ≡ n
      → n + sizes body ≤ max_statements
      → At lib st (toks_body body [])
      → Gives (Is body) (parse_stmts lib f st)
  unfolding parse_stmts
  parse_stmts-Is zero st body n wf en few at = refl
  parse_stmts-Is (suc f) st no_stmts n wf en few at =
      let eof : is_eof st.cur ≡ true = rw at.0 refl in rw eof refl
  parse_stmts-Is (suc f) st (stmt s body) n (wf, wfs) en few at =
      let us = toks_body body [] in
      let more : is_eof st.cur ≡ false = rw at.0 (toks_stmt-head s us).1 in
      rw more (
        Gives-bind (Leaves lib s us (st.stmts + size s)) (Is (stmt s body)) (parse_stmt lib f 0 st)
          (after_top lib (parse_stmts lib f))
          (parse_stmt-Leaves lib laws f 0 st s us wf (omega arith) (toks_body-head body [] refl) at)
          (after_top-Is (parse_stmts lib f) s body us (st.stmts + size s) (λ st' at' es.
            parse_stmts-Is f st' body (n + size s) wfs (omega arith) (omega arith) at')))

  at_number-Leaves :
      (st : State) (text : Text) (n : ℕ) (ts : List Token)
      → version_number lib text ≡ some n
      → is_semicolon (head_token ts) ≡ false
      → At lib st (tok_number text ∷ ts)
      → Gives (Leaves lib n ts st.stmts) (at_number lib st)
  at_number-Leaves st text n ts ev h at =
      let e : number_of st.cur ≡ some text = rw at.0 refl in
      rw (e, ev, Gives)
        (Gives-bind (Stands lib ts st.stmts) (Leaves lib n ts st.stmts) (advance lib st)
          (λ st1. skip_semicolon lib st1 >>= λ q. let (semicolon, st2) = q in ok (n, st2))
          (advance-Stands lib st (tok_number text ∷ ts) at)
          (λ st1 (at1, es1). rw (skip_semicolon_none lib st1 (rw at1.0 h)) (refl, at1, es1)))

  parse_version-Leaves :
      (st : State) (text : Text) (n : ℕ) (ts : List Token)
      → version_number lib text ≡ some n
      → is_semicolon (head_token ts) ≡ false
      → At lib st (tok_at_version ∷ tok_colon ∷ tok_number text ∷ ts)
      → Gives (Leaves lib n ts st.stmts) (parse_version lib st)
  unfolding parse_version
  parse_version-Leaves st text n ts ev h at =
      let us = tok_number text ∷ ts in
      Gives-bind (Stands lib (tok_colon ∷ us) st.stmts) (Leaves lib n ts st.stmts) (advance lib st)
        (λ st1.
          if is_colon st1.cur then (advance lib st1 >>= at_number lib) else err expected_colon)
        (advance-Stands lib st (tok_at_version ∷ tok_colon ∷ us) at)
        (λ st1 (at1, es1).
          let colon : is_colon st1.cur ≡ true = rw at1.0 refl in
          rw (colon, sym es1)
            (Gives-bind (Stands lib us st1.stmts) (Leaves lib n ts st1.stmts) (advance lib st1)
              (at_number lib) (advance-Stands lib st1 (tok_colon ∷ us) at1)
              (λ st2 (at2, es2). rw (sym es2) (at_number-Leaves st2 text n ts ev h at2))))

  file_of-Is :
      (f n : ℕ) (body : Stmts)
      → AreStmts lib 0 body
      → sizes body ≤ max_statements
      → (p : ℕ × State) → Leaves lib n (toks_body body []) 0 p
      → Gives (Is (record { version = n; stmts = body })) (file_of lib f p)
  file_of-Is f n body wf few (n', st) (e, at, es) = rw (sym e) (
      Gives-bind (Is body) (Is (record { version = n'; stmts = body })) (parse_stmts lib f st)
        (λ body'. ok (record { version = n'; stmts = body' }))
        (parse_stmts-Is f st body 0 wf es (omega arith) at) (λ body' e'. rw e' refl))

  parse_file_parts :
      (fuel : ℕ) (st : State) (n : ℕ) (body : Stmts)
      → AreStmts lib 0 body
      → sizes body ≤ max_statements
      → (n ≡ 0) ⊎ (version_number lib (decimal n) ≡ some n)
      → At lib st (toks_version n (toks_body body []))
      → st.stmts ≡ 0
      → Gives (Is (record { version = n; stmts = body })) (parse_file lib fuel st)
  unfolding parse_file
  parse_file_parts fuel st zero body wf few ev at es =
      let other : is_at_version st.cur ≡ false = rw at.0 (toks_body-at body) in
      rw other (file_of-Is fuel 0 body wf few (0, st) (refl, at, es))
  parse_file_parts fuel st (suc n) body wf few (inl none_there) at es = absurd (omega arith)
  parse_file_parts fuel st (suc n) body wf few (inr ev) at es =
      let there : is_at_version st.cur ≡ true = rw at.0 refl in
      let us = toks_body body [] in
      rw there (
        Gives-bind (Leaves lib (suc n) us st.stmts) (Is (record { version = suc n; stmts = body }))
          (parse_version lib st) (file_of lib fuel)
          (parse_version-Leaves st (decimal (suc n)) (suc n) us ev (toks_body-head body [] refl) at)
          (rw es (file_of-Is fuel (suc n) body wf few)))

  pub parse_file-Is :
      (fuel : ℕ) (st : State) (f : File)
      → AreStmts lib 0 f.stmts
      → sizes f.stmts ≤ max_statements
      → (f.version ≡ 0) ⊎ (version_number lib (decimal f.version) ≡ some f.version)
      → At lib st (toks_file f)
      → st.stmts ≡ 0
      → Gives (Is f) (parse_file lib fuel st)
  parse_file-Is fuel st f = parse_file_parts fuel st f.version f.stmts
