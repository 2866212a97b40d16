-- ===== src/Versions.antt =====
-- workspace/version.go, version_specifier.go and the bounds of demands.go: a job's version and the
-- constraints on it. The numbers of a version are not negative: `ParseVersion` refuses such.
pub mod Order
pub mod Specifiers
pub mod Parse
pub mod Digits
pub mod Print
mod Samples
use kive.Prelude.{
  ℕ, zero, suc, ◌+◌, ◌*◌, ◌-◌, ◌/◌, ◌%◌, Bool, true, false, not, ◌&&◌, ◌||◌, Option, none, some,
  List, [], ◌∷◌, ◌++◌, Text, codes, ◌==◌, ltb, leb, if◌then◌else◌, trim_space, strip_prefix, split,
  text_key, nat_key, length,
}

pub record Version : Type 0 where
  pub major : ℕ
  pub minor : ℕ
  pub patch : ℕ
  pub prerelease : Text

-- The result of `Compare`: -1, 0 and 1.
pub data Comparison : Type 0 where
  less same greater : Comparison

abbrev pub compare_nat : ℕ → ℕ → Comparison
compare_nat a b = if ltb a b then less else if ltb b a then greater else same

-- Go's `<` and `>` on strings. (The order of valid UTF-8 is that of the code points.)
unfoldable pub compare_text : Text → Text → Comparison
compare_text [] [] = same
compare_text [] (y ∷ t) = less
compare_text (x ∷ s) [] = greater
compare_text (x ∷ s) (y ∷ t) =
    let rest = compare_text s t in if ltb x y then less else if ltb y x then greater else rest

abbrev pub and_then : Comparison → Comparison → Comparison
and_then less next = less
and_then greater next = greater
and_then same next = next

unfoldable pub compare_prerelease : Text → Text → Comparison
unfolding compare_text
compare_prerelease v o =
    let v_pre = not (v == []) in
    let o_pre = not (o == []) in
    if v_pre && not o_pre
    then less
    else if not v_pre && o_pre
    then greater
    else if v_pre && o_pre
    then compare_text v o
    else same

unfoldable pub compare_version : Version → Version → Comparison
unfolding compare_prerelease
compare_version v o = and_then (compare_nat v.major o.major) (
    and_then (compare_nat v.minor o.minor)
      (and_then (compare_nat v.patch o.patch) (compare_prerelease v.prerelease o.prerelease)))

pub data SpecifierOp : Type 0 where
  eq gte lte gt lt compat : SpecifierOp

pub record VersionSpecifier : Type 0 where
  pub op : SpecifierOp
  pub version : Version
  pub compat_segments : ℕ

abbrev pub is_less : Comparison → Bool
is_less less = true
is_less c = false

abbrev pub is_greater : Comparison → Bool
is_greater greater = true
is_greater c = false

abbrev pub is_same : Comparison → Bool
is_same same = true
is_same c = false

abbrev pub release : ℕ → ℕ → ℕ → Version
release major minor patch = record { major = major; minor = minor; patch = patch; prerelease = [] }

abbrev pub upper_bound : Version → ℕ → Version
upper_bound anchor segments =
    if segments == 1
    then release (suc anchor.major) 0 0
    else release anchor.major (suc anchor.minor) 0

unfoldable pub compatible_release_satisfied : Version → Version → ℕ → Bool
unfolding compare_version
compatible_release_satisfied version anchor segments =
    if is_less (compare_version version anchor)
    then false
    else is_less (compare_version version (upper_bound anchor segments))

unfoldable pub satisfies : VersionSpecifier → Version → Bool
unfolding compare_version compatible_release_satisfied
satisfies s version = elim s.op [
  | eq ↦ is_same (compare_version version s.version)
  | gte ↦ not (is_less (compare_version version s.version))
  | lte ↦ not (is_greater (compare_version version s.version))
  | gt ↦ is_greater (compare_version version s.version)
  | lt ↦ is_less (compare_version version s.version)
  | compat ↦ compatible_release_satisfied version s.version s.compat_segments
]

-- `VersionSpecifierSet.Satisfies`: all of them.
unfoldable pub set_satisfies : List VersionSpecifier → Version → Bool
set_satisfies [] version = true
set_satisfies (s ∷ set) version =
    let rest = set_satisfies set version in if not (satisfies s version) then false else rest

-- `BackwardCompatibilitySpec.Satisfies`: any of them.
unfoldable pub spec_satisfies : List (List VersionSpecifier) → Version → Bool
spec_satisfies [] version = false
spec_satisfies (set ∷ spec) version =
    let rest = spec_satisfies spec version in if set_satisfies set version then true else rest

pub record VersionConstraint : Type 0 where
  pub min_version : Option Version
  pub max_version : Option Version

pub data Mismatch : Type 0 where
  below_min above_max : Mismatch

-- `none` is a version that meets the bounds.
unfoldable pub constraint_satisfies : VersionConstraint → Version → Option Mismatch
constraint_satisfies c upstream =
    let low : Bool = elim c.min_version [
      | none ↦ false
      | some v ↦ is_less (compare_version upstream v)
    ] in
    let high : Bool = elim c.max_version [
      | none ↦ false
      | some v ↦ is_greater (compare_version upstream v)
    ] in
    if low then some below_min else if high then some above_max else none
