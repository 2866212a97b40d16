-- ===== src/Conf/Reading/Statements.antt =====
-- conf/parser.go: the parser in front of the tokens of statements.
use kive.Prelude.{
  ℕ, zero, suc, ◌+◌, ◌≤◌, ◌≡◌, refl, sym, ◌∙◌, true, false, none, some, List, [], ◌∷◌, arith, Text,
  ltb, if◌then◌else◌, nat_key,
}
use kive.Conf.{
  Library, Ascii, expected_brace, Result, ok, err, ◌>>=◌, Values, Stmt, block, call, Stmts,
  no_stmts, stmt, max_nesting_depth, max_args, max_statements,
}
use kive.Conf.Lexer.{Token, tok_lparen, tok_rparen, tok_lbrace, tok_rbrace, tok_ident}
use kive.Conf.Parser.{
  advance, skip_semicolon, parse_call_tail, count_stmt, as_call_stmt, close_block, push_stmt,
  after_stmt, parse_stmt, parse_stmt_tail, parse_block, parse_body,
}
use kive.Conf.State.{State, is_semicolon, is_lparen, is_lbrace, is_rbrace, is_eof, ident_of}
use kive.Conf.WellFormed.{
  count_values, AreValues, IsStmt, AreStmts, size, sizes, toks_args, toks_stmt, toks_body,
}
use kive.Conf.Stream.{head_token, Gives, Gives-bind, At, Leaves, Stands, advance-Stands}
use kive.Conf.Reading.{enter-Gives}
use kive.Conf.Reading.Expressions.{parse_call_tail-Leaves}

pub toks_stmt-head :
    (s : Stmt) (ts : List Token)
    → (is_rbrace (head_token (toks_stmt s ts)) ≡ false)
      × (is_eof (head_token (toks_stmt s ts)) ≡ false)
      × (is_semicolon (head_token (toks_stmt s ts)) ≡ false)
toks_stmt-head (block name [] body) ts = (refl, refl, refl)
toks_stmt-head (block name (c ∷ s) body) ts = (refl, refl, refl)
toks_stmt-head (call name args semicolon) ts = (refl, refl, refl)

pub toks_body-head :
    (body : Stmts) (ts : List Token)
    → is_semicolon (head_token ts) ≡ false
    → is_semicolon (head_token (toks_body body ts)) ≡ false
toks_body-head no_stmts ts h = h
toks_body-head (stmt s body) ts h = (toks_stmt-head s (toks_body body ts)).2

module _ (lib : Library) where
  pub skip_semicolon_none :
      (st : State) → is_semicolon st.cur ≡ false → skip_semicolon lib st ≡ ok (false, st)
  unfolding skip_semicolon
  skip_semicolon_none st h = rw h refl

  as_call_stmt-Leaves :
      (name : Text) (args : Values) (ts : List Token) (n k : ℕ)
      → is_semicolon (head_token ts) ≡ false
      → n ≡ k
      → (p : Values × State) → Leaves lib args ts n p
      → Gives (Leaves lib (call name args false) ts k) (as_call_stmt lib name p)
  as_call_stmt-Leaves name args ts n k h ek (args', st) (e, at, es) =
      rw (skip_semicolon_none st (rw at.0 h)) (rw e refl, at, es ∙ ek)

  close_block-Leaves :
      (name id : Text) (body : Stmts) (ts : List Token) (n k : ℕ)
      → is_semicolon (head_token ts) ≡ false
      → n ≡ k
      → (p : Stmts × State) → Leaves lib body (tok_rbrace ∷ ts) n p
      → Gives (Leaves lib (block name id body) ts k) (close_block lib name id p)
  close_block-Leaves name id body ts n k h ek (body', st) (e, at, es) =
      Gives-bind (Stands lib ts st.stmts) (Leaves lib (block name id body) ts k) (advance lib st)
        (λ st1.
          skip_semicolon lib st1 >>= λ q. let (semicolon, st2) = q in ok (block name id body', st2))
        (advance-Stands lib st (tok_rbrace ∷ ts) at)
        (λ st1 (at1, es1).
          rw (skip_semicolon_none st1 (rw at1.0 h)) (rw e refl, at1, es1 ∙ es ∙ ek))

  push_stmt-Leaves :
      (s : Stmt) (body : Stmts) (ts : List Token) (n : ℕ) (p : Stmts × State)
      → Leaves lib body ts n p
      → Gives (Leaves lib (stmt s body) ts n) (push_stmt lib s p)
  push_stmt-Leaves s body ts n (body', st) (e, at, es) = (rw e refl, at, es)

  after_stmt-Leaves :
      (more : State → Result (Stmts × State)) (s : Stmt) (body : Stmts) (us ts : List Token)
      (n k : ℕ)
      → ((st : State) → At lib st us → st.stmts ≡ n → Gives (Leaves lib body ts k) (more st))
      → (p : Stmt × State) → Leaves lib s us n p
      → Gives (Leaves lib (stmt s body) ts k) (after_stmt lib more p)
  after_stmt-Leaves more s body us ts n k ih (s', st) (e, at, es) = rw (sym e) (
      Gives-bind (Leaves lib body ts k) (Leaves lib (stmt s' body) ts k) (more st)
        (push_stmt lib s') (ih st at es) (push_stmt-Leaves s' body ts k))

module _ (lib : Library) (laws : Ascii lib) where
  mutual
    unfolding parse_stmt

    pub parse_stmt-Leaves :
        (f depth : ℕ) (st : State) (s : Stmt) (ts : List Token)
        → IsStmt lib depth s
        → st.stmts + size s ≤ max_statements
        → is_semicolon (head_token ts) ≡ false
        → At lib st (toks_stmt s ts)
        → Gives (Leaves lib s ts (st.stmts + size s)) (parse_stmt lib f depth st)
    parse_stmt-Leaves zero depth st s ts wf few h at = refl
    parse_stmt-Leaves (suc f) depth st (block name [] body) ts (id, no_id, deep, wf) few h at =
        let e : ident_of st.cur ≡ some name = rw at.0 refl in
        let room : ltb max_statements (suc st.stmts) ≡ false = ground arith in
        let us = tok_lbrace ∷ toks_body body (tok_rbrace ∷ ts) in
        rw (e, room, Gives)
          (Gives-bind (Stands lib us (suc st.stmts))
            (Leaves lib (block name [] body) ts (st.stmts + suc (sizes body)))
            (advance lib (count_stmt lib st)) (parse_stmt_tail lib f depth name)
            (advance-Stands lib (count_stmt lib st) (tok_ident name ∷ us) at)
            (λ st' (at', es).
              parse_stmt_tail-plain f depth st' name body ts (st.stmts + suc (sizes body)) deep wf
                (omega arith) (omega arith) h at'))
    parse_stmt-Leaves (suc f) depth st (block name (c ∷ s) body) ts (id, is_id, deep, wf) few h at =
        let e : ident_of st.cur ≡ some name = rw at.0 refl in
        let room : ltb max_statements (suc st.stmts) ≡ false = ground arith in
        let us = tok_ident (c ∷ s) ∷ tok_lbrace ∷ toks_body body (tok_rbrace ∷ ts) in
        rw (e, room, Gives)
          (Gives-bind (Stands lib us (suc st.stmts))
            (Leaves lib (block name (c ∷ s) body) ts (st.stmts + suc (sizes body)))
            (advance lib (count_stmt lib st)) (parse_stmt_tail lib f depth name)
            (advance-Stands lib (count_stmt lib st) (tok_ident name ∷ us) at)
            (λ st' (at', es).
              parse_stmt_tail-named f depth st' name (c ∷ s) body ts (st.stmts + suc (sizes body))
                deep wf (omega arith) (omega arith) h at'))
    parse_stmt-Leaves (suc f) depth st (call name args true) ts (id, written, deep, few_args, wf)
          few h at =
        absurd (ground arith)
    parse_stmt-Leaves (suc f) depth st (call name args false) ts
          (id, none_there, deep, few_args, wf) few h at =
        let e : ident_of st.cur ≡ some name = rw at.0 refl in
        let room : ltb max_statements (suc st.stmts) ≡ false = ground arith in
        let us = tok_lparen ∷ toks_args args (tok_rparen ∷ ts) in
        rw (e, room, Gives)
          (Gives-bind (Stands lib us (suc st.stmts))
            (Leaves lib (call name args false) ts (st.stmts + 1)) (advance lib (count_stmt lib st))
            (parse_stmt_tail lib f depth name)
            (advance-Stands lib (count_stmt lib st) (tok_ident name ∷ us) at)
            (λ st' (at', es).
              parse_stmt_tail-call f depth st' name args ts (st.stmts + 1) deep few_args wf
                (omega arith) h at'))

    parse_stmt_tail-plain :
        (f depth : ℕ) (st : State) (name : Text) (body : Stmts) (ts : List Token) (n : ℕ)
        → suc depth ≤ max_nesting_depth
        → AreStmts lib (suc depth) body
        → st.stmts + sizes body ≡ n
        → n ≤ max_statements
        → is_semicolon (head_token ts) ≡ false
        → At lib st (tok_lbrace ∷ toks_body body (tok_rbrace ∷ ts))
        → Gives (Leaves lib (block name [] body) ts n) (parse_stmt_tail lib f depth name st)
    parse_stmt_tail-plain zero depth st name body ts n deep wf en few h at = refl
    parse_stmt_tail-plain (suc f) depth st name body ts n deep wf en few h at =
        let brace : is_lbrace st.cur ≡ true = rw at.0 refl in
        rw brace (parse_block-Leaves f depth st name [] body ts n deep wf en few h at)

    parse_stmt_tail-named :
        (f depth : ℕ) (st : State) (name id : Text) (body : Stmts) (ts : List Token) (n : ℕ)
        → suc depth ≤ max_nesting_depth
        → AreStmts lib (suc depth) body
        → st.stmts + sizes body ≡ n
        → n ≤ max_statements
        → is_semicolon (head_token ts) ≡ false
        → At lib st (tok_ident id ∷ tok_lbrace ∷ toks_body body (tok_rbrace ∷ ts))
        → Gives (Leaves lib (block name id body) ts n) (parse_stmt_tail lib f depth name st)
    parse_stmt_tail-named zero depth st name id body ts n deep wf en few h at = refl
    parse_stmt_tail-named (suc f) depth st name id body ts n deep wf en few h at =
        let us = tok_lbrace ∷ toks_body body (tok_rbrace ∷ ts) in
        let other : is_lbrace st.cur ≡ false = rw at.0 refl in
        let e : ident_of st.cur ≡ some id = rw at.0 refl in
        rw (other, e)
          (Gives-bind (Stands lib us st.stmts) (Leaves lib (block name id body) ts n)
            (advance lib st)
            (λ st'.
              if is_lbrace st'.cur then parse_block lib f depth name id st' else err expected_brace)
            (advance-Stands lib st (tok_ident id ∷ us) at)
            (λ st' (at', es).
              let brace : is_lbrace st'.cur ≡ true = rw at'.0 refl in
              rw brace
                (parse_block-Leaves f depth st' name id body ts n deep wf (rw es en) few h at')))

    parse_stmt_tail-call :
        (f depth : ℕ) (st : State) (name : Text) (args : Values) (ts : List Token) (n : ℕ)
        → suc depth ≤ max_nesting_depth
        → count_values args ≤ max_args
        → AreValues lib (suc depth) args
        → st.stmts ≡ n
        → is_semicolon (head_token ts) ≡ false
        → At lib st (tok_lparen ∷ toks_args args (tok_rparen ∷ ts))
        → Gives (Leaves lib (call name args false) ts n) (parse_stmt_tail lib f depth name st)
    parse_stmt_tail-call zero depth st name args ts n deep few wf en h at = refl
    parse_stmt_tail-call (suc f) depth st name args ts n deep few wf en h at =
        let other : is_lbrace st.cur ≡ false = rw at.0 refl in
        let e : ident_of st.cur ≡ none = rw at.0 refl in
        let paren : is_lparen st.cur ≡ true = rw at.0 refl in
        rw (other, e, paren)
          (Gives-bind (Leaves lib args ts st.stmts) (Leaves lib (call name args false) ts n)
            (parse_call_tail lib f depth st) (as_call_stmt lib name)
            (parse_call_tail-Leaves lib laws f depth st args ts deep few wf at)
            (as_call_stmt-Leaves lib name args ts st.stmts n h en))

    parse_block-Leaves :
        (f depth : ℕ) (st : State) (name id : Text) (body : Stmts) (ts : List Token) (n : ℕ)
        → suc depth ≤ max_nesting_depth
        → AreStmts lib (suc depth) body
        → st.stmts + sizes body ≡ n
        → n ≤ max_statements
        → is_semicolon (head_token ts) ≡ false
        → At lib st (tok_lbrace ∷ toks_body body (tok_rbrace ∷ ts))
        → Gives (Leaves lib (block name id body) ts n) (parse_block lib f depth name id st)
    parse_block-Leaves zero depth st name id body ts n deep wf en few h at = refl
    parse_block-Leaves (suc f) depth st name id body ts n deep wf en few h at =
        let us = toks_body body (tok_rbrace ∷ ts) in
        enter-Gives lib (Leaves lib (block name id body) ts n) depth
          ((advance lib st >>= parse_body lib f (suc depth)) >>= close_block lib name id) deep
          (Gives-bind (Leaves lib body (tok_rbrace ∷ ts) n) (Leaves lib (block name id body) ts n)
            (advance lib st >>= parse_body lib f (suc depth)) (close_block lib name id)
            (Gives-bind (Stands lib us st.stmts) (Leaves lib body (tok_rbrace ∷ ts) n)
              (advance lib st) (parse_body lib f (suc depth))
              (advance-Stands lib st (tok_lbrace ∷ us) at)
              (λ st' (at', es).
                parse_body-Leaves f (suc depth) st' body ts n wf (rw es en) few at'))
            (close_block-Leaves lib name id body ts n n h refl))

    parse_body-Leaves :
        (f depth : ℕ) (st : State) (body : Stmts) (ts : List Token) (n : ℕ)
        → AreStmts lib depth body
        → st.stmts + sizes body ≡ n
        → n ≤ max_statements
        → At lib st (toks_body body (tok_rbrace ∷ ts))
        → Gives (Leaves lib body (tok_rbrace ∷ ts) n) (parse_body lib f depth st)
    parse_body-Leaves zero depth st body ts n wf en few at = refl
    parse_body-Leaves (suc f) depth st no_stmts ts n wf en few at =
        let close : is_rbrace st.cur ≡ true = rw at.0 refl in rw close (refl, at, omega arith)
    parse_body-Leaves (suc f) depth st (stmt s body) ts n (wf, wfs) en few at =
        let us = toks_body body (tok_rbrace ∷ ts) in
        let starts = toks_stmt-head s us in
        let inside : is_rbrace st.cur ≡ false = rw at.0 starts.0 in
        let more : is_eof st.cur ≡ false = rw at.0 starts.1 in
        rw (inside, more)
          (Gives-bind (Leaves lib s us (st.stmts + size s))
            (Leaves lib (stmt s body) (tok_rbrace ∷ ts) n) (parse_stmt lib f depth st)
            (after_stmt lib (parse_body lib f depth))
            (parse_stmt-Leaves f depth st s us wf (omega arith)
              (toks_body-head body (tok_rbrace ∷ ts) refl) at)
            (after_stmt-Leaves lib (parse_body lib f depth) s body us (tok_rbrace ∷ ts)
              (st.stmts + size s) n
              (λ st' at' es. parse_body-Leaves f depth st' body ts n wfs (omega arith) few at')))
