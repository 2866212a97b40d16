-- ===== src/Versions/Print.antt =====
-- workspace/version.go: the text of a version, and its way back.
use kive.Prelude.{
  ℕ, suc, ◌<◌, ◌≡◌, refl, sym, ◌∙◌, ap, Bool, true, false, not, some, [], ◌∷◌, ◌++◌, arith, Text,
  codes, ◌==◌, ltb, if◌then◌else◌, is_space, trim_left, trim_right, trim_space, trim_right_idem,
  strip_prefix, split, nat_key, text_key, list_discrete, Bool-cases, inl, inr,
}
use kive.Prelude.Decimals.{is_digit, digits_value, in_int64, unsigned_value, digits_of, decimal}
use kive.Versions.{Version}
use kive.Versions.Parse.{
  parsed, parse_version, parse_cut, parse_release, parse_segments, parse_segment, atoi,
  cut_prerelease, trim_v, equal_fold,
}
use kive.Versions.Digits.{
  all_digits, filled, digits_of_lem, digits_value-digits_of, trim_left_digits, trim_right_digits,
  filled-append_right, trim_right-cons, trim_right-append, split-no_sep, split-append, no_dash,
  no_dash-append, no_dash_digits, cut_prerelease-none, cut_prerelease-some,
}

abbrev pub release_text : Version → Text
release_text v = decimal v.major ++ (b'.' ∷ (decimal v.minor ++ (b'.' ∷ decimal v.patch)))

-- `Version.String`
unfoldable pub version_text : Version → Text
version_text v =
    if not (v.prerelease == []) then release_text v ++ (b'-' ∷ v.prerelease) else release_text v

abbrev starts_with_digit : Text → Bool
starts_with_digit [] = false
starts_with_digit (c ∷ s) = is_digit c

trim_v-digit : (s : Text) → starts_with_digit s ≡ true → trim_v s ≡ s
unfolding trim_v strip_prefix
trim_v-digit [] h = refl
trim_v-digit (c ∷ s) h = ground arith

equal_fold-digit : (s : Text) → starts_with_digit s ≡ true → equal_fold s (codes "unknown") ≡ false
unfolding equal_fold
equal_fold-digit [] h = refl
equal_fold-digit (c ∷ s) h = ground arith

trim_left-digit : (s : Text) → starts_with_digit s ≡ true → trim_left s ≡ s
unfolding trim_left is_space
trim_left-digit [] h = refl
trim_left-digit (c ∷ s) h = ground arith

atoi-digits :
    (s : Text) → all_digits s ≡ true → filled s ≡ true → atoi s ≡ in_int64 (digits_value 0 s)
unfolding atoi unsigned_value
atoi-digits [] h f = absurd (ground arith)
atoi-digits (c ∷ s) h f = let other : (c == b'+') ≡ false = ground arith in rw other refl

parse_segment-decimal : (n : ℕ) → n < 9223372036854775808 → parse_segment (decimal n) ≡ parsed n
unfolding parse_segment decimal trim_space
parse_segment-decimal n small =
    let (digits, some_digit) = digits_of_lem (suc n) n (omega arith) in
    let s = digits_of (suc n) n in
    let left = trim_left_digits s digits in
    let right = trim_right_digits s digits in
    let not_nil : (s == []) ≡ false = ground arith in
    let in_range : ltb n 9223372036854775808 ≡ true = ground arith in
    rw
      (
        left,
        right,
        not_nil,
        atoi-digits s digits some_digit,
        digits_value-digits_of (suc n) n (omega arith),
        in_range,
      )
      refl

-- A text that is not empty and ends in no space.
abbrev Kept : Text → Type 0
Kept t = (trim_right t ≡ t) × (filled t ≡ true)

cons-Kept : (c : ℕ) (s : Text) → Kept s → Kept (c ∷ s)
cons-Kept c s (e, f) = (trim_right-cons c s e f, refl)

append-Kept : (s t : Text) → Kept t → Kept (s ++ t)
append-Kept s t (e, f) = (trim_right-append s t e f, filled-append_right s t f)

digits-Kept : (s : Text) → all_digits s ≡ true → filled s ≡ true → Kept s
digits-Kept s h f = (trim_right_digits s h, f)

starts_with_digit-append :
    (s t : Text) → all_digits s ≡ true → filled s ≡ true → starts_with_digit (s ++ t) ≡ true
starts_with_digit-append [] t h f = absurd (ground arith)
starts_with_digit-append (c ∷ s) t h f = ground arith

decimal_lem : (n : ℕ) → (all_digits (decimal n) ≡ true) × (filled (decimal n) ≡ true)
unfolding decimal
decimal_lem n = digits_of_lem (suc n) n (omega arith)

release_text-Kept : (v : Version) → Kept (release_text v)
release_text-Kept v =
    let (dc, fc) = decimal_lem v.patch in
    append-Kept (decimal v.major) (b'.' ∷ (decimal v.minor ++ (b'.' ∷ decimal v.patch))) (
      cons-Kept b'.' (decimal v.minor ++ (b'.' ∷ decimal v.patch)) (
        append-Kept (decimal v.minor) (b'.' ∷ decimal v.patch)
          (cons-Kept b'.' (decimal v.patch) (digits-Kept (decimal v.patch) dc fc))))

release_text-no_dash : (v : Version) → no_dash (release_text v) ≡ true
release_text-no_dash v = ground (
  arith,
  decimal_lem v.major,
  decimal_lem v.minor,
  decimal_lem v.patch,
  no_dash_digits (decimal v.major),
  no_dash_digits (decimal v.minor),
  no_dash_digits (decimal v.patch),
  no_dash-append (decimal v.major) (b'.' ∷ (decimal v.minor ++ (b'.' ∷ decimal v.patch))),
  no_dash-append (decimal v.minor) (b'.' ∷ decimal v.patch),
)

split-release_text :
    (v : Version)
    → split b'.' (release_text v) ≡ decimal v.major ∷ decimal v.minor ∷ decimal v.patch ∷ []
split-release_text v =
    let (da, fa) = decimal_lem v.major in
    let (db, fb) = decimal_lem v.minor in
    let (dc, fc) = decimal_lem v.patch in
    let last = split-no_sep b'.' (decimal v.patch) dc (ground arith) in
    let middle =
      split-append b'.' (decimal v.minor) (decimal v.patch) db (ground arith) (decimal v.patch) []
        last in
    split-append b'.' (decimal v.major) (decimal v.minor ++ (b'.' ∷ decimal v.patch)) da
      (ground arith) (decimal v.minor) (decimal v.patch ∷ []) middle

-- The numbers of the version are an `int`'s.
abbrev pub InRange : Version → Type 0
InRange v =
    (v.major < 9223372036854775808)
    × (v.minor < 9223372036854775808)
    × (v.patch < 9223372036854775808)

parse_release-release_text :
    (v : Version) → InRange v → parse_release (release_text v) v.prerelease ≡ parsed v
unfolding parse_release parse_segments
parse_release-release_text v (ra, rb, rc) =
    rw
      (
        split-release_text v,
        parse_segment-decimal v.major ra,
        parse_segment-decimal v.minor rb,
        parse_segment-decimal v.patch rc,
      )
      refl

starts_with_digit-more :
    (s t : Text) → starts_with_digit s ≡ true → starts_with_digit (s ++ t) ≡ true
starts_with_digit-more [] t h = absurd (ground arith)
starts_with_digit-more (c ∷ s) t h = h

release_text-digit : (v : Version) → starts_with_digit (release_text v) ≡ true
release_text-digit v =
    let (da, fa) = decimal_lem v.major in
    starts_with_digit-append (decimal v.major)
      (b'.' ∷ (decimal v.minor ++ (b'.' ∷ decimal v.patch))) da fa

-- The text without its spaces, neither empty nor `unknown`, without a leading `v`.
parse_version-trimmed :
    (s : Text)
    → starts_with_digit s ≡ true
    → Kept s
    → parse_version s ≡ parse_cut (cut_prerelease s)
unfolding parse_version trim_space
parse_version-trimmed s digit (kept, some_char) =
    let not_nil : (s == []) ≡ false = ground arith in
    rw (trim_left-digit s digit, kept, not_nil, equal_fold-digit s digit, trim_v-digit s digit) refl

parse_release_only :
    (v : Version) → InRange v → v.prerelease ≡ [] → parse_version (release_text v) ≡ parsed v
parse_release_only v range nil =
    parse_version-trimmed (release_text v) (release_text-digit v) (release_text-Kept v)
    ∙ ap parse_cut (cut_prerelease-none (release_text v) (release_text-no_dash v))
    ∙ ap (λ x. parse_release (release_text v) x) (sym nil)
    ∙ parse_release-release_text v range

filled_lem : (s : Text) → (s == []) ≡ false → filled s ≡ true
unfolding list_discrete
filled_lem [] h = ground arith
filled_lem (c ∷ s) h = refl

prerelease-Kept : (pre : Text) → trim_space pre ≡ pre → (pre == []) ≡ false → Kept pre
unfolding trim_space
prerelease-Kept pre trimmed some_char = (
  ap trim_right (sym trimmed) ∙ trim_right_idem (trim_left pre) ∙ trimmed,
  filled_lem pre some_char,
)

parse_cut-some :
    (r pre : Text)
    → trim_space pre ≡ pre
    → (pre == []) ≡ false
    → parse_cut (r, some pre) ≡ parse_release r pre
parse_cut-some r pre trimmed some_char = rw (trimmed, some_char) refl

parse_with_prerelease :
    (v : Version)
    → InRange v
    → trim_space v.prerelease ≡ v.prerelease
    → (v.prerelease == []) ≡ false
    → parse_version (release_text v ++ (b'-' ∷ v.prerelease)) ≡ parsed v
parse_with_prerelease v range trimmed some_char =
    let tail = b'-' ∷ v.prerelease in
    parse_version-trimmed (release_text v ++ tail)
      (starts_with_digit-more (release_text v) tail (release_text-digit v))
      (append-Kept (release_text v) tail
        (cons-Kept b'-' v.prerelease (prerelease-Kept v.prerelease trimmed some_char)))
    ∙ ap parse_cut (cut_prerelease-some (release_text v) v.prerelease (release_text-no_dash v))
    ∙ parse_cut-some (release_text v) v.prerelease trimmed some_char
    ∙ parse_release-release_text v range

-- Parsing the text of a version gives the version back, for numbers that an `int` holds and a
-- prerelease without spaces at its ends.
pub parse_version-version_text :
    (v : Version)
    → InRange v
    → trim_space v.prerelease ≡ v.prerelease
    → parse_version (version_text v) ≡ parsed v
unfolding version_text
parse_version-version_text v range trimmed = elim (Bool-cases (v.prerelease == [])) [
  | inl nil ↦ rw nil (parse_release_only v range (ground arith))
  | inr some_char ↦ rw some_char (parse_with_prerelease v range trimmed some_char)
]
