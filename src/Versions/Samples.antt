-- ===== src/Versions/Samples.antt =====
-- Runs of versions and specifiers.
use kive.Prelude.{
  ℕ, ◌≤◌, ◌<◌, ◌≡◌, ◌≢◌, refl, true, [], arith, codes, ◌↔◌, ◌⊎◌, list_discrete, ℕ_discrete,
  trim_space, strip_prefix, split,
}
use kive.Versions.{Version, compat, less, same, compare_version, satisfies, release}
use kive.Versions.Order.{compare_version_total, opposite}
use kive.Versions.Specifiers.{compatible_release_iff, next_minor_prerelease_is_compatible}
use kive.Versions.Parse.{
  parsed, parse_version, parse_release, parse_segments, parse_segment, atoi, cut_prerelease, trim_v,
  equal_fold,
}
use kive.Versions.Print.{version_text, parse_version-version_text}
use kive.Prelude.Decimals.{unsigned_value, digits_value}

abbrev beta : Version
beta = record { major = 1; minor = 2; patch = 0; prerelease = codes "beta" }

parse_beta : parse_version (codes " v1.2-beta") ≡ parsed beta
unfolding parse_version parse_release parse_segments parse_segment atoi cut_prerelease trim_v
    equal_fold trim_space list_discrete split strip_prefix ℕ_discrete unsigned_value digits_value
parse_beta = refl

compare_version_total_example :
    (compare_version (release 1 2 0) beta ≡ opposite (compare_version beta (release 1 2 0)))
    × ((compare_version beta (release 1 2 0) ≡ same) ↔ (beta ≡ release 1 2 0))
    × ((compare_version beta (release 1 2 0) ≡ less)
        → (compare_version (release 1 2 0) (release 2 0 0) ≡ less)
        → compare_version beta (release 2 0 0) ≡ less)
compare_version_total_example = compare_version_total beta (release 1 2 0) (release 2 0 0)

compatible_release_iff_example :
    (satisfies
        (record { op = compat; version = release 2 1 0; compat_segments = 2 })
        (release 2 5 0)
      ≡ true)
    ↔ ((◌≡◌ {A = ℕ} 2 2)
        × ((1 < 5) ⊎ ((◌≡◌ {A = ℕ} 1 5) × (0 ≤ 0)))
        × ((◌≡◌ {A = ℕ} 2 1) ⊎ (◌≡◌ {A = ℕ} 5 1)))
compatible_release_iff_example = compatible_release_iff 2 1 0 2 5 0 2

filled_rc : codes "rc1" ≢ []
filled_rc = ground arith

next_minor_prerelease_is_compatible_example :
    satisfies
      (record { op = compat; version = release 2 1 0; compat_segments = 3 })
      (record { major = 2; minor = 2; patch = 0; prerelease = codes "rc1" })
    ≡ true
next_minor_prerelease_is_compatible_example =
    next_minor_prerelease_is_compatible 2 1 0 (codes "rc1") filled_rc

beta_trimmed : trim_space beta.prerelease ≡ beta.prerelease
unfolding trim_space ℕ_discrete
beta_trimmed = refl

parse_version-version_text_example : parse_version (version_text beta) ≡ parsed beta
parse_version-version_text_example =
    parse_version-version_text beta (omega arith, omega arith, omega arith) beta_trimmed
