-- ===== src/Prelude/Tests.antt =====
-- Tests into Bool: orders on numbers, equality of keys, the conditional, and case splits.
use Prim.Native.Nat.{ℕ, compare, Ordering}
use mathlib.Core.Path.{◌≡◌, refl}
use mathlib.Core.Logic.{◌↔◌, ◌⊎◌, inl, inr}
use mathlib.Core.Bool.{Bool, true, false}
use mathlib.Core.Option.{Option, none, some}
use mathlib.Core.List.{List, [], ◌∷◌}
use Prim.Native.Char.{code}
use Prim.Native.String.{String}
use native.Mathlib.Omega.{arith}
use native.Mathlib.Decide.{ℕ_discrete}

abbrev pub ltb : ℕ → ℕ → Bool
ltb a b = elim (compare a b) [ Ordering.lt ↦ true | _ ↦ false ]

abbrev pub leb : ℕ → ℕ → Bool
leb a b = elim (compare a b) [ Ordering.gt ↦ false | _ ↦ true ]

infix 1 if◌then◌else◌
abbrev pub if◌then◌else◌ {ℓ} : {A : Type ℓ} → Bool → A → A → A
if true then x else y = x
if false then x else y = y

pub Bool-cases : (b : Bool) → (b ≡ true) ⊎ (b ≡ false)
Bool-cases true = inl refl
Bool-cases false = inr refl

pub Option-cases {ℓ} : {A : Type ℓ} (o : Option A) → (o ≡ none) ⊎ ((a : A) × (o ≡ some a))
Option-cases none = inl refl
Option-cases (some a) = inr (a, refl)

-- A type whose values are compared: the keys of maps, the members of sets.
pub record Key (A : Type 0) : Type 0 where
  pub dec : Discrete A

abbrev pub to_bool : {P : Type 0} → Dec P → Bool
to_bool (yes p) = true
to_bool (no n) = false

infix 50 ◌==◌
abbrev pub ◌==◌ : {A : Type 0} ⦃k : Key A⦄ → A → A → Bool
◌==◌ ⦃k⦄ a b = to_bool (k.dec a b)

unfoldable pub list_discrete : Discrete (List ℕ)
unfolding ℕ_discrete
list_discrete = hlevel ℕ_discrete

instance abbrev pub nat_key : Key ℕ
nat_key = record { dec = ℕ_discrete }

-- Texts are lists of code points.
instance abbrev pub text_key : Key (List ℕ)
text_key = record { dec = list_discrete }

pub ==_iff : {A : Type 0} ⦃k : Key A⦄ (a b : A) → ((a == b) ≡ true) ↔ (a ≡ b)
==_iff a b = ground arith

abbrev pub Text : Type 0
Text = List ℕ

-- The code points of a literal.
abbrev pub codes : String → Text
codes String.[] = []
codes (String.◌∷◌ c s) = code c ∷ codes s
