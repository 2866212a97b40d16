-- ===== src/Versions/Specifiers.antt =====
-- workspace/version_specifier.go: what a specifier means for a version.
use kive.Prelude.{
  ℕ, suc, ◌≤◌, ◌<◌, ◌≡◌, ◌≢◌, true, none, some, [], ◌∷◌, arith, Text, text_key, nat_key, ◌↔◌, ◌⊎◌,
}
use kive.Versions.{
  Version, compat, gte, lt, lte, compare_version, compare_prerelease, compatible_release_satisfied,
  satisfies, set_satisfies, constraint_satisfies, release, upper_bound,
}

-- `~=` is the pair of `>=` and `<` with the bound above.
pub compatible_range :
    (anchor version : Version) (segments : ℕ)
    → satisfies (record { op = compat; version = anchor; compat_segments = segments }) version
      ≡ set_satisfies
          (record { op = gte; version = anchor; compat_segments = 0 }
            ∷ record { op = lt; version = upper_bound anchor segments; compat_segments = 0 }
            ∷ [])
          version
unfolding satisfies set_satisfies compatible_release_satisfied
compatible_range anchor version segments = ground arith

-- For release versions, `~=` with one segment fixes the major number and with any other count of
-- segments the major and the minor number; the rest is at least the specifier's.
pub compatible_release_iff :
    (a b c x y z segments : ℕ)
    → (satisfies
          (record { op = compat; version = release a b c; compat_segments = segments })
          (release x y z)
        ≡ true)
      ↔ ((x ≡ a) × ((b < y) ⊎ ((b ≡ y) × (c ≤ z))) × ((segments ≡ 1) ⊎ (y ≡ b)))
unfolding satisfies compatible_release_satisfied compare_version compare_prerelease
compatible_release_iff a b c x y z segments = ground arith

-- A prerelease of the next minor version still satisfies `~=` with three segments.
pub next_minor_prerelease_is_compatible :
    (a b c : ℕ) (pre : Text)
    → pre ≢ []
    → satisfies
        (record { op = compat; version = release a b c; compat_segments = 3 })
        (record { major = a; minor = suc b; patch = 0; prerelease = pre })
      ≡ true
unfolding satisfies compatible_release_satisfied compare_version compare_prerelease
next_minor_prerelease_is_compatible a b c pre filled = ground arith

-- The bounds of a demand hold exactly when the version satisfies `>=` the lower and `<=` the upper.
pub constraint_satisfies_iff :
    (low high v : Version)
    → (constraint_satisfies (record { min_version = some low; max_version = some high }) v ≡ none)
      ↔ (set_satisfies
            (record { op = gte; version = low; compat_segments = 0 }
              ∷ record { op = lte; version = high; compat_segments = 0 }
              ∷ [])
            v
          ≡ true)
unfolding satisfies set_satisfies constraint_satisfies
constraint_satisfies_iff low high v = ground arith
