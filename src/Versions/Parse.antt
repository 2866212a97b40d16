-- ===== src/Versions/Parse.antt =====
-- workspace/version.go and version_specifier.go: the text form of versions and specifiers. The
-- errors of strconv.Atoi are those of its documentation: no digits, another character, or a number
-- of 2 ^ 63 or more. (No segment has a `-`, since the text is cut there first.)
use kive.Prelude.{
  ℕ, suc, ◌+◌, Bool, true, false, ◌&&◌, Option, none, some, List, [], ◌∷◌, Text, codes, ◌==◌, ltb,
  leb, if◌then◌else◌, trim_space, strip_prefix, split, text_key, nat_key, length,
}
use kive.Prelude.Decimals.{unsigned_value}
use kive.Versions.{Version, VersionSpecifier, SpecifierOp, eq, gte, lte, gt, lt, compat}

pub data VersionError : Type 0 where
  version_empty version_not_allowed empty_prerelease too_many_parts empty_segment invalid_segment :
      VersionError
  empty_specifier missing_version empty_set min_above_max : VersionError

pub data Parsed (A : Type 0) : Type 0 where
  parsed : A → Parsed A
  refused : VersionError → Parsed A

-- The simple case folding of a letter of `unknown`; U+212A is the Kelvin sign.
abbrev fold_case : ℕ → ℕ
fold_case c = if leb b'A' c && leb c b'Z' then c + 32 else if c == 0x212a then b'k' else c

-- `strings.EqualFold(raw, word)` for a word of lower-case letters
unfoldable pub equal_fold : Text → Text → Bool
equal_fold [] [] = true
equal_fold [] (w ∷ word) = false
equal_fold (c ∷ s) [] = false
equal_fold (c ∷ s) (w ∷ word) = fold_case c == w && equal_fold s word

abbrev pub trim_prefix : Text → Text → Text
trim_prefix p s = elim (strip_prefix p s) [ none ↦ s | some rest ↦ rest ]

unfoldable pub trim_v : Text → Text
trim_v raw = trim_prefix (codes "V") (trim_prefix (codes "v") raw)

-- What stands before the first `-`, and after it if there is one.
unfoldable pub cut_prerelease : Text → Text × Option Text
cut_prerelease [] = ([], none)
cut_prerelease (c ∷ s) =
    let (before, after) = cut_prerelease s in
    if c == b'-' then ([], some s) else (c ∷ before, after)

-- `strconv.Atoi`, of a text without a minus sign
unfoldable pub atoi : Text → Option ℕ
atoi [] = none
atoi (c ∷ s) = if c == b'+' then unsigned_value s else unsigned_value (c ∷ s)

unfoldable pub parse_segment : Text → Parsed ℕ
unfolding atoi
parse_segment part =
    if trim_space part == []
    then refused empty_segment
    else elim (atoi (trim_space part)) [ none ↦ refused invalid_segment | some n ↦ parsed n ]

abbrev pub bind_parsed : {A B : Type 0} → Parsed A → (A → Parsed B) → Parsed B
bind_parsed (parsed a) f = f a
bind_parsed (refused e) f = refused e

unfoldable pub parse_segments : List Text → Parsed (List ℕ)
unfolding parse_segment
parse_segments [] = parsed []
parse_segments (part ∷ parts) =
    bind_parsed (parse_segment part)
      (λ n. bind_parsed (parse_segments parts) (λ ns. parsed (n ∷ ns)))

-- `numbers` has three places, which start as 0.
abbrev pub version_of : List ℕ → Text → Version
version_of [] pre = record { major = 0; minor = 0; patch = 0; prerelease = pre }
version_of (a ∷ []) pre = record { major = a; minor = 0; patch = 0; prerelease = pre }
version_of (a ∷ b ∷ []) pre = record { major = a; minor = b; patch = 0; prerelease = pre }
version_of (a ∷ b ∷ c ∷ more) pre = record { major = a; minor = b; patch = c; prerelease = pre }

unfoldable pub parse_release : Text → Text → Parsed Version
unfolding parse_segments
parse_release raw pre =
    let parts = split b'.' raw in
    if ltb 3 (length parts)
    then refused too_many_parts
    else bind_parsed (parse_segments parts) (λ ns. parsed (version_of ns pre))

-- The part of `ParseVersion` after the `-` was looked for.
abbrev pub parse_cut : Text × Option Text → Parsed Version
parse_cut (before, none) = parse_release before []
parse_cut (before, some after) =
    if trim_space after == []
    then refused empty_prerelease
    else parse_release before (trim_space after)

unfoldable pub parse_version : Text → Parsed Version
unfolding parse_release cut_prerelease trim_v
parse_version text =
    let raw = trim_space text in
    if raw == []
    then refused version_empty
    else if equal_fold raw (codes "unknown")
    then refused version_not_allowed
    else parse_cut (cut_prerelease (trim_v raw))

-- `Manifest.JobVersionParsed`, of the manifest's version
unfoldable pub job_version_parsed : Text → Parsed Version
unfolding parse_version
job_version_parsed version =
    if trim_space version == []
    then parsed (version_of [] [])
    else parse_version (trim_space version)

filled_parts : List Text → ℕ
filled_parts [] = 0
filled_parts (part ∷ parts) =
    let rest = filled_parts parts in if trim_space part == [] then rest else suc rest

unfoldable pub count_release_segments : Text → ℕ
unfolding filled_parts
count_release_segments raw =
    let (before, after) = cut_prerelease (trim_v (trim_space raw)) in
    let count = filled_parts (split b'.' before) in if count == 0 then 3 else count

abbrev op_text : SpecifierOp → Text
op_text compat = codes "~="
op_text gte = codes ">="
op_text lte = codes "<="
op_text eq = codes "=="
op_text gt = codes ">"
op_text lt = codes "<"

abbrev is_compat : SpecifierOp → Bool
is_compat compat = true
is_compat op = false

parse_after_op : SpecifierOp → Text → Parsed VersionSpecifier
parse_after_op op after =
    let version_raw = trim_space after in
    if version_raw == []
    then refused missing_version
    else bind_parsed (parse_version version_raw) (λ version. parsed (record {
      op = op;
      version = version;
      compat_segments = if is_compat op then count_release_segments version_raw else 0;
    }))

-- The loop over `ops`, and what follows it.
try_ops : List SpecifierOp → Text → Parsed VersionSpecifier
unfolding parse_after_op
try_ops [] raw =
    bind_parsed (parse_version raw)
      (λ version. parsed (record { op = eq; version = version; compat_segments = 0 }))
try_ops (op ∷ ops) raw = elim (strip_prefix (op_text op) raw) [
  | none ↦ try_ops ops raw
  | some after ↦ parse_after_op op after
]

unfoldable pub parse_version_specifier : Text → Parsed VersionSpecifier
unfolding try_ops
parse_version_specifier text =
    let raw = trim_space text in
    if raw == []
    then refused empty_specifier
    else try_ops (compat ∷ gte ∷ lte ∷ eq ∷ gt ∷ lt ∷ []) raw

parse_specifiers : List Text → Parsed (List VersionSpecifier)
parse_specifiers [] = parsed []
parse_specifiers (part ∷ parts) =
    bind_parsed (parse_version_specifier part)
      (λ s. bind_parsed (parse_specifiers parts) (λ set. parsed (s ∷ set)))

unfoldable pub parse_version_specifier_set : Text → Parsed (List VersionSpecifier)
unfolding parse_specifiers
parse_version_specifier_set text =
    let raw = trim_space text in
    if raw == [] then refused empty_set else parse_specifiers (split b',' raw)

unfoldable pub parse_backward_compatibility_from : List Text → Parsed (List (List VersionSpecifier))
parse_backward_compatibility_from [] = parsed []
parse_backward_compatibility_from (entry ∷ entries) =
    bind_parsed (parse_version_specifier_set entry)
      (λ set. bind_parsed (parse_backward_compatibility_from entries) (λ spec. parsed (set ∷ spec)))
