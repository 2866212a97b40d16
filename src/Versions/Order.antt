-- ===== src/Versions/Order.antt =====
-- workspace/version.go: the order of versions.
use kive.Prelude.{◌≡◌, refl, [], ◌∷◌, arith, Text, text_key, ◌↔◌, sym}
use kive.Versions.{
  Version, Comparison, less, same, greater, compare_text, compare_prerelease, compare_version,
}

abbrev pub opposite : Comparison → Comparison
opposite less = greater
opposite same = same
opposite greater = less

compare_text_swap : (s t : Text) → compare_text t s ≡ opposite (compare_text s t)
unfolding compare_text
compare_text_swap [] [] = refl
compare_text_swap [] (y ∷ t) = refl
compare_text_swap (x ∷ s) [] = refl
compare_text_swap (x ∷ s) (y ∷ t) = ground (arith, compare_text_swap s t)

compare_prerelease_swap : (s t : Text) → compare_prerelease t s ≡ opposite (compare_prerelease s t)
unfolding compare_prerelease
compare_prerelease_swap s t = ground (arith, compare_text_swap s t)

-- Comparing the other way round gives the opposite.
pub compare_version_swap : (v o : Version) → compare_version o v ≡ opposite (compare_version v o)
unfolding compare_version
compare_version_swap v o = ground (arith, compare_prerelease_swap v.prerelease o.prerelease)

compare_text_same : (s t : Text) → compare_text s t ≡ same → s ≡ t
unfolding compare_text
compare_text_same [] [] e = refl
compare_text_same [] (y ∷ t) e = absurd (ground arith)
compare_text_same (x ∷ s) [] e = absurd (ground arith)
compare_text_same (x ∷ s) (y ∷ t) e = ground (arith, compare_text_same s t)

compare_text_self : (s : Text) → compare_text s s ≡ same
unfolding compare_text
compare_text_self [] = refl
compare_text_self (x ∷ s) = ground (arith, compare_text_self s)

compare_text_trans :
    (s t u : Text) → compare_text s t ≡ less → compare_text t u ≡ less → compare_text s u ≡ less
unfolding compare_text
compare_text_trans [] [] u e f = absurd (ground arith)
compare_text_trans [] (y ∷ t) [] e f = absurd (ground arith)
compare_text_trans [] (y ∷ t) (z ∷ u) e f = refl
compare_text_trans (x ∷ s) [] u e f = absurd (ground arith)
compare_text_trans (x ∷ s) (y ∷ t) [] e f = absurd (ground arith)
compare_text_trans (x ∷ s) (y ∷ t) (z ∷ u) e f = ground (arith, compare_text_trans s t u)

compare_prerelease_trans :
    (s t u : Text)
    → compare_prerelease s t ≡ less
    → compare_prerelease t u ≡ less
    → compare_prerelease s u ≡ less
unfolding compare_prerelease
compare_prerelease_trans s t u e f = ground (arith, compare_text_trans s t u)

compare_prerelease_same : (s t : Text) → compare_prerelease s t ≡ same → s ≡ t
unfolding compare_prerelease
compare_prerelease_same s t e = ground (arith, compare_text_same s t)

compare_version_trans :
    (u v w : Version)
    → compare_version u v ≡ less
    → compare_version v w ≡ less
    → compare_version u w ≡ less
unfolding compare_version
compare_version_trans u v w e f = ground (
  arith,
  compare_prerelease_trans u.prerelease v.prerelease w.prerelease,
  compare_prerelease_same u.prerelease v.prerelease,
  compare_prerelease_same v.prerelease w.prerelease,
)

compare_prerelease_self : (s : Text) → compare_prerelease s s ≡ same
unfolding compare_prerelease
compare_prerelease_self s = ground (arith, compare_text_self s)

compare_version_same : (v o : Version) → compare_version v o ≡ same → v ≡ o
unfolding compare_version
compare_version_same v o e = ground (arith, compare_prerelease_same v.prerelease o.prerelease)

compare_version_self : (v : Version) → compare_version v v ≡ same
unfolding compare_version
compare_version_self v = ground (arith, compare_prerelease_self v.prerelease)

-- Versions are totally ordered: of two versions the one is less exactly when the other is greater,
-- only equal versions compare the same, and less is transitive. Prereleases count: versions that
-- differ in them only do not compare the same.
pub compare_version_total :
    (u v w : Version)
    → (compare_version v u ≡ opposite (compare_version u v))
      × ((compare_version u v ≡ same) ↔ (u ≡ v))
      × ((compare_version u v ≡ less) → (compare_version v w ≡ less) → compare_version u w ≡ less)
compare_version_total u v w = (
  compare_version_swap u v,
  (compare_version_same u v, λ e. rw (sym e) (compare_version_self u)),
  compare_version_trans u v w,
)
