-- ===== src/Conf/Emit.antt =====
-- conf/emit.go: the text of a file. Each function takes what is written after it, `rest`.
use kive.Prelude.{
  ℕ, zero, suc, Bool, true, false, not, ◌&&◌, [], ◌∷◌, ◌++◌, Text, codes, ◌==◌, if◌then◌else◌,
  nat_key, text_key,
}
use kive.Prelude.Decimals.{decimal}
use kive.Conf.{
  Value, string_lit, number_lit, float_lit, bool_lit, ident_lit, call_value, Values, no_values,
  value, Stmt, block, call, Stmts, no_stmts, stmt, File,
}

-- `escapeString`
unfoldable pub escape_string : Text → Text → Text
escape_string [] rest = rest
escape_string (c ∷ s) rest =
    let after = escape_string s rest in
    if c == b'"'
    then b'\\' ∷ b'"' ∷ after
    else if c == b'\\'
    then b'\\' ∷ b'\\' ∷ after
    else if c == b'\n'
    then b'\\' ∷ b'n' ∷ after
    else if c == b'\t'
    then b'\\' ∷ b't' ∷ after
    else if c == b'\r'
    then b'\\' ∷ b'r' ∷ after
    else c ∷ after

unfoldable mutual
  unfolding escape_string

  pub emit_value : Value → Text → Text
  emit_value (string_lit s) rest = b'"' ∷ escape_string s (b'"' ∷ rest)
  emit_value (number_lit text i) rest = text ++ rest
  emit_value (float_lit text) rest = text ++ rest
  emit_value (bool_lit true) rest = codes "true" ++ rest
  emit_value (bool_lit false) rest = codes "false" ++ rest
  emit_value (ident_lit name) rest = name ++ rest
  emit_value (call_value name args) rest = name ++ (b'(' ∷ emit_args args (b')' ∷ rest))

  pub emit_args : Values → Text → Text
  emit_args no_values rest = rest
  emit_args (value v vs) rest = emit_value v (emit_more_args vs rest)

  -- The arguments after the first.
  pub emit_more_args : Values → Text → Text
  emit_more_args no_values rest = rest
  emit_more_args (value v vs) rest = b',' ∷ b' ' ∷ emit_value v (emit_more_args vs rest)

-- `strings.Repeat(indent, depth)`
unfoldable pub indentation : Text → ℕ → Text → Text
indentation indent zero rest = rest
indentation indent (suc depth) rest = indent ++ indentation indent depth rest

-- An empty `Indent` is two spaces.
abbrev pub indent_of : Text → Text
indent_of [] = codes "  "
indent_of (c ∷ s) = c ∷ s

module _ (indent : Text) where
  unfoldable mutual
    unfolding emit_value indentation

    pub emit_stmt : ℕ → Stmt → Text → Text
    emit_stmt depth (block name id body) rest = indentation indent depth (
        name
        ++ ((if not (id == []) then b' ' ∷ (id ++ codes " {\n") else codes " {\n")
            ++ emit_body (suc depth) body (indentation indent depth (b'}' ∷ b'\n' ∷ rest))))
    emit_stmt depth (call name args semicolon) rest =
        indentation indent depth (name ++ (b'(' ∷ emit_args args (b')' ∷ b'\n' ∷ rest)))

    pub emit_body : ℕ → Stmts → Text → Text
    emit_body depth no_stmts rest = rest
    emit_body depth (stmt s body) rest = emit_stmt depth s (emit_body depth body rest)

  abbrev pub is_block : Stmt → Bool
  is_block (block name id body) = true
  is_block (call name args semicolon) = false

  abbrev pub starts_with_block : Stmts → Bool
  starts_with_block no_stmts = false
  starts_with_block (stmt s body) = is_block s

  -- A blank line stands between two blocks.
  unfoldable pub emit_stmts : Stmts → Text
  unfolding emit_stmt
  emit_stmts no_stmts = []
  emit_stmts (stmt s body) =
      emit_stmt zero s
        (if is_block s && starts_with_block body then b'\n' ∷ emit_stmts body else emit_stmts body)

abbrev pub ends_with_newline : Text → Bool
ends_with_newline [] = false
ends_with_newline (c ∷ []) = c == b'\n'
ends_with_newline (c ∷ d ∷ s) = ends_with_newline (d ∷ s)

abbrev pub finish_line : Text → Text
finish_line s = if not (s == []) && not (ends_with_newline s) then s ++ b'\n' ∷ [] else s

abbrev pub emit_version : ℕ → Text → Text
emit_version zero rest = rest
emit_version (suc n) rest = codes "@version: " ++ (decimal (suc n) ++ (b'\n' ∷ b'\n' ∷ rest))

-- `Emit` with the option `Indent`
unfoldable pub emit : Text → File → Text
unfolding emit_stmts
emit indent f = finish_line (emit_version f.version (emit_stmts (indent_of indent) f.stmts))
