-- ===== src/Prelude/Texts.antt =====
-- Go's `strings` package over texts as lists of code points (valid UTF-8).
use Prim.Native.Nat.{ℕ}
use mathlib.Core.Path.{◌≡◌, refl}
use mathlib.Core.Bool.{Bool, false, ◌&&◌, ◌||◌}
use mathlib.Core.Option.{Option, none, some}
use mathlib.Core.List.{List, [], ◌∷◌, ◌++◌}
use native.Mathlib.Omega.{arith}
use kive.Prelude.Tests.{Text, leb, ◌==◌, if◌then◌else◌, nat_key}

-- `unicode.IsSpace`.
unfoldable pub is_space : ℕ → Bool
is_space c =
    (leb 9 c && leb c 13)
    || c == 32
    || c == 0x85
    || c == 0xa0
    || c == 0x1680
    || (leb 0x2000 c && leb c 0x200a)
    || c == 0x2028
    || c == 0x2029
    || c == 0x202f
    || c == 0x205f
    || c == 0x3000

unfoldable pub trim_left : Text → Text
trim_left [] = []
trim_left (c ∷ s) = let rest = trim_left s in if is_space c then rest else c ∷ s

unfoldable pub trim_right : Text → Text
trim_right [] = []
trim_right (c ∷ s) = elim (trim_right s) [
  | [] ↦ if is_space c then [] else c ∷ []
  | x ∷ xs ↦ c ∷ x ∷ xs
]

-- `strings.TrimSpace`
unfoldable pub trim_space : Text → Text
unfolding trim_left trim_right is_space
trim_space s = trim_right (trim_left s)

-- The first character, if there is one, is no space.
abbrev LeftTrimmed : Text → Type 0
LeftTrimmed [] = Unit
LeftTrimmed (c ∷ s) = is_space c ≡ false

trim_left-LeftTrimmed : (s : Text) → LeftTrimmed (trim_left s)
unfolding trim_left
trim_left-LeftTrimmed [] = tt
trim_left-LeftTrimmed (c ∷ s) = ground (arith, trim_left-LeftTrimmed s)

trim_left_of_LeftTrimmed : (s : Text) → LeftTrimmed s → trim_left s ≡ s
unfolding trim_left
trim_left_of_LeftTrimmed [] h = refl
trim_left_of_LeftTrimmed (c ∷ s) h = rw h

trim_right-LeftTrimmed : (s : Text) → LeftTrimmed s → LeftTrimmed (trim_right s)
unfolding trim_right
trim_right-LeftTrimmed [] h = tt
trim_right-LeftTrimmed (c ∷ s) h = ground arith

pub trim_right_idem : (s : Text) → trim_right (trim_right s) ≡ trim_right s
unfolding trim_right
trim_right_idem [] = refl
trim_right_idem (c ∷ s) = ground (arith, trim_right_idem s)

pub trim_space_idem : (s : Text) → trim_space (trim_space s) ≡ trim_space s
unfolding trim_space
trim_space_idem s =
    let h = trim_right-LeftTrimmed (trim_left s) (trim_left-LeftTrimmed s) in
    rw (trim_left_of_LeftTrimmed (trim_right (trim_left s)) h) (trim_right_idem (trim_left s))

-- `strings.HasPrefix`, and what follows the prefix.
unfoldable pub strip_prefix : Text → Text → Option Text
strip_prefix [] s = some s
strip_prefix (p ∷ ps) [] = none
strip_prefix (p ∷ ps) (c ∷ s) = let rest = strip_prefix ps s in if p == c then rest else none

-- `strings.Split(s, sep)` for a separator of one character.
unfoldable pub split : ℕ → Text → List Text
split sep [] = [] ∷ []
split sep (c ∷ s) = elim (split sep s) [
  | [] ↦ []
  | part ∷ parts ↦ if c == sep then [] ∷ part ∷ parts else (c ∷ part) ∷ parts
]

-- `strings.Join(parts, sep)`
unfoldable pub join : Text → List Text → Text
join sep [] = []
join sep (part ∷ []) = part
join sep (part ∷ next ∷ parts) = part ++ sep ++ join sep (next ∷ parts)
