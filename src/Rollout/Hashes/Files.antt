-- ===== src/Rollout/Hashes/Files.antt =====
-- The digests of data/hash_allocation.go: a promotion makes the running files the planned ones.
use kive.Prelude.{
  ◌≡◌, refl, Bool, true, not, Option, none, some, List, [], ◌∷◌, arith, Text, ◌==◌, if◌then◌else◌,
  text_key, get, Distinct, Option-cases, ◌∙◌,
}
use kive.Rollout.Hashes.{
  Allocation, FileRow, FileManifest, coalesce, listed, stage_file, stage_files, unstage_missing,
  upsert_pending_files, update_rows, delete_orphans, manifest_of, has_applied, is_orphan,
  promote_allocation_state, update_allocation_plan, applied_manifest,
}

abbrev Rows : Type 0
Rows = List (Text × FileRow)

abbrev applied_of : Option FileRow → Option Text
applied_of none = none
applied_of (some r) = r.applied

get-stage_file :
    (path digest j : Text) (rows : Rows)
    → get j (stage_file path digest rows) ≡ (
        if path == j
        then some (record { pending = some digest; applied = applied_of (get path rows) })
        else get j rows)
unfolding stage_file get
get-stage_file path digest j [] = ground arith
get-stage_file path digest j ((q, r) ∷ rows) = ground (arith, get-stage_file path digest j rows)

get-stage_files :
    (m : FileManifest) (rows : Rows) (j : Text)
    → Distinct m
    → get j (stage_files m rows) ≡ elim (get j m) [
      | none ↦ get j rows
      | some d ↦ some (record { pending = some d; applied = applied_of (get j rows) })
    ]
unfolding stage_files get
get-stage_files [] rows j u = refl
get-stage_files ((path, digest) ∷ m) rows j u =
    ground
      (arith, get-stage_files m (stage_file path digest rows) j, get-stage_file path digest j rows)

get-unstage_missing :
    (m : FileManifest) (rows : Rows) (j : Text)
    → Distinct rows
    → get j (unstage_missing m rows) ≡ elim (get j rows) [
      | none ↦ none
      | some r ↦
          if listed m j
          then some r
          else if has_applied r
          then some (record r { pending = none })
          else none
    ]
unfolding unstage_missing get
get-unstage_missing m [] j u = refl
get-unstage_missing m ((path, r) ∷ rows) j u =
    ground (arith, get-unstage_missing m rows j, get-unstage_missing m rows path)

pending_of-upsert :
    (m : FileManifest) (rows : Rows) (j : Text)
    → Distinct m
    → Distinct rows
    → elim (get j (upsert_pending_files m rows)) [ none ↦ none | some r ↦ r.pending ] ≡ get j m
unfolding upsert_pending_files
pending_of-upsert m rows j u v =
    ground (arith, get-stage_files m (unstage_missing m rows) j u, get-unstage_missing m rows j v)

get-update_rows :
    (f : FileRow → FileRow) (rows : Rows) (j : Text)
    → get j (update_rows f rows) ≡ elim (get j rows) [ none ↦ none | some r ↦ some (f r) ]
unfolding get
get-update_rows f [] j = refl
get-update_rows f ((path, r) ∷ rows) j = ground (arith, get-update_rows f rows j)

update_rows-Distinct :
    (f : FileRow → FileRow) (rows : Rows) → Distinct rows → Distinct (update_rows f rows)
update_rows-Distinct f [] u = tt
update_rows-Distinct f ((path, r) ∷ rows) u =
    ground (arith, update_rows-Distinct f rows, get-update_rows f rows path)

get-delete_orphans :
    (rows : Rows) (j : Text)
    → Distinct rows
    → get j (delete_orphans rows)
      ≡ elim (get j rows) [ none ↦ none | some r ↦ if is_orphan r then none else some r ]
unfolding delete_orphans get
get-delete_orphans [] j u = refl
get-delete_orphans ((path, r) ∷ rows) j u =
    ground (arith, get-delete_orphans rows j, get-delete_orphans rows path)

delete_orphans-Distinct : (rows : Rows) → Distinct rows → Distinct (delete_orphans rows)
unfolding delete_orphans
delete_orphans-Distinct [] u = tt
delete_orphans-Distinct ((path, r) ∷ rows) u =
    ground (arith, delete_orphans-Distinct rows, get-delete_orphans rows path)

get-manifest_of :
    (column : FileRow → Option Text) (rows : Rows) (j : Text)
    → Distinct rows
    → get j (manifest_of column rows) ≡ elim (get j rows) [ none ↦ none | some r ↦ column r ]
unfolding get
get-manifest_of column [] j u = refl
get-manifest_of column ((path, r) ∷ rows) j u = ground (
  arith,
  Option-cases (column r),
  get-manifest_of column rows j,
  get-manifest_of column rows path,
)

stage_file-Distinct :
    (path digest : Text) (rows : Rows) → Distinct rows → Distinct (stage_file path digest rows)
unfolding stage_file get
stage_file-Distinct path digest [] u = (refl, tt)
stage_file-Distinct path digest ((q, r) ∷ rows) u =
    ground (arith, stage_file-Distinct path digest rows, get-stage_file path digest q rows)

stage_files-Distinct :
    (m : FileManifest) (rows : Rows) → Distinct rows → Distinct (stage_files m rows)
unfolding stage_files
stage_files-Distinct [] rows u = u
stage_files-Distinct ((path, digest) ∷ m) rows u =
    stage_files-Distinct m (stage_file path digest rows) (stage_file-Distinct path digest rows u)

unstage_missing-Distinct :
    (m : FileManifest) (rows : Rows) → Distinct rows → Distinct (unstage_missing m rows)
unfolding unstage_missing
unstage_missing-Distinct m [] u = tt
unstage_missing-Distinct m ((path, r) ∷ rows) u =
    ground (arith, unstage_missing-Distinct m rows, get-unstage_missing m rows path)

upsert-Distinct :
    (m : FileManifest) (rows : Rows) → Distinct rows → Distinct (upsert_pending_files m rows)
unfolding upsert_pending_files
upsert-Distinct m rows u =
    stage_files-Distinct m (unstage_missing m rows) (unstage_missing-Distinct m rows u)

promoted_files :
    (m : FileManifest) (rows : Rows) (path : Text)
    → Distinct m
    → Distinct rows
    → get path (
        manifest_of
          (λ r. r.applied)
          (delete_orphans
            (update_rows (λ r. record r { applied = r.pending }) (upsert_pending_files m rows))))
      ≡ get path m
promoted_files m rows path u v =
    let staged = upsert_pending_files m rows in
    let distinct =
      update_rows-Distinct (λ r. record r { applied = r.pending }) staged
        (upsert-Distinct m rows v) in
    let updated = update_rows (λ r. record r { applied = r.pending }) staged in
    get-manifest_of (λ r. r.applied) (delete_orphans updated) path
      (delete_orphans-Distinct updated distinct)
    ∙ ground (
      arith,
      get-delete_orphans updated path distinct,
      get-update_rows (λ r. record r { applied = r.pending }) staged path,
      pending_of-upsert m rows path u v,
    )

-- The plan's hash is not the one that is staged already.
abbrev pub needs_staging : Text → Allocation → Bool
needs_staging hash a = elim a.hashes [
  | none ↦ true
  | some h ↦ not (coalesce h.pending_hash [] == hash)
]

-- Promoting an allocation for which a plan has just staged a new hash leaves as its running files
-- exactly the planned ones, path by path; files that the plan no longer has are gone.
pub applied_manifest-promote :
    (hash : Text) (m : FileManifest) (a : Allocation) (path : Text)
    → Distinct m
    → Distinct a.files
    → needs_staging hash a ≡ true
    → get path (applied_manifest (promote_allocation_state (update_allocation_plan hash m a)))
      ≡ get path m
unfolding applied_manifest promote_allocation_state update_allocation_plan
applied_manifest-promote hash m a path u v new = ground (arith, promoted_files m a.files path u v)
