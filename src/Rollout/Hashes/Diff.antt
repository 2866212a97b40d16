-- ===== src/Rollout/Hashes/Diff.antt =====
-- data/file_manifest.go: the paths in which two manifests differ.
use kive.Prelude.{
  ◌≡◌, refl, Bool, true, false, not, ◌&&◌, Option, none, some, [], ◌∷◌, arith, Text, ◌==◌, get, has,
  has-append, Distinct, text_key, ◌↔◌, ◌≢◌,
}
use kive.Rollout.Hashes.{FileManifest, listed, changed_paths, deleted_paths, diff_file_manifests}

-- The path has a digest that `previous` does not have for it.
abbrev is_changed : FileManifest → Option Text → Text → Bool
is_changed previous none path = false
is_changed previous (some d) path = elim (get path previous) [ none ↦ true | some e ↦ not (e == d) ]

has-changed_paths :
    (previous m : FileManifest) (path : Text)
    → Distinct m
    → has path (changed_paths previous m) ≡ is_changed previous (get path m) path
unfolding changed_paths has get
has-changed_paths previous [] path u = refl
has-changed_paths previous ((p, digest) ∷ m) path u =
    ground (arith, has-changed_paths previous m path, has-changed_paths previous m p)

has-deleted_paths :
    (m current : FileManifest) (path : Text)
    → has path (deleted_paths m current) ≡ (listed m path && not (listed current path))
unfolding deleted_paths has get
has-deleted_paths [] current path = refl
has-deleted_paths ((p, digest) ∷ m) current path = ground (arith, has-deleted_paths m current path)

-- A path is in the difference of two manifests exactly when they do not say the same of it.
pub diff_file_manifests_iff :
    (previous current : FileManifest) (path : Text)
    → Distinct current
    → (has path (diff_file_manifests previous current) ≡ true)
      ↔ (get path previous ≢ get path current)
unfolding diff_file_manifests
diff_file_manifests_iff previous current path u = ground (
  arith,
  has-append path (changed_paths previous current) (deleted_paths previous current),
  has-changed_paths previous current path u,
  has-deleted_paths previous current path,
)
