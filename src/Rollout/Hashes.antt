-- ===== src/Rollout/Hashes.antt =====
-- data/hash_allocation.go, data/file_manifest.go and the predicates of data/job.go: what is recorded
-- of one allocation, the staged (pending) content and the running (applied) content. A text is a
-- column's value and `none` its NULL.
pub mod Files
pub mod Diff
pub mod Cycle
mod Samples
use kive.Prelude.{
  ℕ, ◌≡◌, Bool, true, false, not, ◌&&◌, ◌||◌, Option, none, some, List, [], ◌∷◌, ◌++◌, Text, codes,
  ◌==◌, if◌then◌else◌, get, has, trim_space, text_key,
}

abbrev pub default_version : Text
default_version = codes "0.0.0"

abbrev pub health_failed : Text
health_failed = codes "__kive_health_failed__"

abbrev pub FileManifest : Type 0
FileManifest = List (Text × Text)

-- A row of `allocation_file_hashes`, under its path.
pub record FileRow : Type 0 where
  pub pending : Option Text
  pub applied : Option Text

-- A row of `allocation_hashes`.
pub record HashRow : Type 0 where
  pub pending_hash : Option Text
  pub applied_hash : Option Text
  pub applied_version : Option Text

-- An allocation that is not removed; `version` and `disabled` are columns of `allocations`.
pub record Allocation : Type 0 where
  pub version : Option Text
  pub disabled : Bool
  pub hashes : Option HashRow
  pub files : List (Text × FileRow)

abbrev pub coalesce : Option Text → Text → Text
coalesce none d = d
coalesce (some v) d = v

-- `INSERT … ON CONFLICT DO UPDATE`: the applied digest of an existing row stays.
unfoldable pub stage_file : Text → Text → List (Text × FileRow) → List (Text × FileRow)
stage_file path digest [] = (path, record { pending = some digest; applied = none }) ∷ []
stage_file path digest ((q, r) ∷ rows) =
    if q == path
    then (q, record r { pending = some digest }) ∷ rows
    else (q, r) ∷ stage_file path digest rows

unfoldable pub stage_files : FileManifest → List (Text × FileRow) → List (Text × FileRow)
stage_files [] rows = rows
stage_files ((path, digest) ∷ m) rows = stage_files m (stage_file path digest rows)

abbrev has_applied : FileRow → Bool
has_applied r = elim r.applied [ none ↦ false | some d ↦ true ]

abbrev pub listed : FileManifest → Text → Bool
listed m path = elim (get path m) [ none ↦ false | some d ↦ true ]

-- The last loop of `upsertAllocationPendingFiles`, over the rows from before.
unfoldable pub unstage_missing : FileManifest → List (Text × FileRow) → List (Text × FileRow)
unstage_missing m [] = []
unstage_missing m ((path, r) ∷ rows) =
    let rest = unstage_missing m rows in
    if listed m path
    then (path, r) ∷ rest
    else if has_applied r
    then (path, record r { pending = none }) ∷ rest
    else rest

unfoldable pub upsert_pending_files : FileManifest → List (Text × FileRow) → List (Text × FileRow)
upsert_pending_files m rows = stage_files m (unstage_missing m rows)

unfoldable pub update_allocation_plan : Text → FileManifest → Allocation → Allocation
update_allocation_plan hash m a = elim a.hashes [
  | none ↦ record a {
    hashes = some (record {
      pending_hash = some hash;
      applied_hash = none;
      applied_version = some default_version;
    });
    files = upsert_pending_files m a.files;
  }
  | some h ↦ if coalesce h.pending_hash [] == hash then a else record a {
    hashes = some (record h { pending_hash = some hash });
    files = upsert_pending_files m a.files;
  }
]

abbrev is_orphan : FileRow → Bool
is_orphan r = elim r.pending [ none ↦ not (has_applied r) | some d ↦ false ]

unfoldable pub delete_orphans : List (Text × FileRow) → List (Text × FileRow)
delete_orphans [] = []
delete_orphans ((path, r) ∷ rows) =
    let rest = delete_orphans rows in if is_orphan r then rest else (path, r) ∷ rest

abbrev pub update_rows : (FileRow → FileRow) → List (Text × FileRow) → List (Text × FileRow)
update_rows f [] = []
update_rows f ((path, r) ∷ rows) = (path, f r) ∷ update_rows f rows

abbrev with_hashes : (HashRow → HashRow) → Allocation → Allocation
with_hashes f a = record a { hashes = elim a.hashes [ none ↦ none | some h ↦ some (f h) ] }

unfoldable pub promote_allocation_state : Allocation → Allocation
promote_allocation_state a =
    let a' : Allocation =
      with_hashes
        (λ h. record h {
          applied_hash = h.pending_hash;
          applied_version = some (coalesce a.version default_version);
        })
        a in
    record a' {
      files = delete_orphans (update_rows (λ r. record r { applied = r.pending }) a.files);
    }

unfoldable pub mark_allocation_health_failed : Allocation → Allocation
mark_allocation_health_failed = with_hashes (λ h. record h { applied_hash = some health_failed })

unfoldable pub clear_applied_files : Allocation → Allocation
clear_applied_files a = record a {
  files = delete_orphans (update_rows (λ r. record r { applied = none }) a.files);
}

unfoldable pub mark_allocation_start_pending : Allocation → Allocation
unfolding clear_applied_files
mark_allocation_start_pending a =
    clear_applied_files (with_hashes (λ h. record h { applied_hash = none }) a)

unfoldable pub clear_allocation_live_state : Allocation → Allocation
unfolding clear_applied_files
clear_allocation_live_state a =
    clear_applied_files
      (with_hashes (λ h. record h { applied_hash = none; applied_version = none }) a)

unfoldable pub remove_allocation_hash : Allocation → Allocation
remove_allocation_hash a = record a { hashes = none; files = [] }

-- The WHERE clauses of `GetNewAllocations`, `GetUpdatedNonRemovedAllocations` and
-- `GetVersionPendingNonRemovedAllocations`; the first leaves disabled allocations out.
unfoldable pub is_new : Allocation → Bool
is_new a = elim a.hashes [
  | none ↦ false
  | some h ↦ elim h.applied_hash [ none ↦ not a.disabled | some d ↦ false ]
]

abbrev sql_ne : Option Text → Option Text → Bool
sql_ne (some x) (some y) = not (x == y)
sql_ne x y = false

unfoldable pub is_updated : Allocation → Bool
is_updated a = elim a.hashes [ none ↦ false | some h ↦ sql_ne h.applied_hash h.pending_hash ]

unfoldable pub is_version_pending : Allocation → Bool
is_version_pending a = not (
    coalesce (elim a.hashes [ none ↦ none | some h ↦ h.applied_version ]) default_version
    == coalesce a.version default_version)

-- `allocationLiveSQL`
unfoldable pub is_live : Allocation → Bool
is_live a = elim a.hashes [
  | none ↦ false
  | some h ↦
      not (coalesce h.applied_hash [] == []) && not (coalesce h.applied_hash [] == health_failed)
]

-- What `JobNeedsRollout` asks of each allocation of the job, the disabled ones too.
unfoldable pub needs_rollout : Allocation → Bool
unfolding is_new is_updated is_version_pending
needs_rollout a = elim a.hashes [
  | none ↦ true
  | some h ↦ is_new a || is_updated a || is_version_pending a
]

abbrev manifest_of : (FileRow → Option Text) → List (Text × FileRow) → FileManifest
manifest_of column [] = []
manifest_of column ((path, r) ∷ rows) =
    let rest = manifest_of column rows in
    elim (column r) [ none ↦ rest | some d ↦ (path, d) ∷ rest ]

unfoldable pub pending_manifest : Allocation → FileManifest
pending_manifest a = manifest_of (λ r. r.pending) a.files

unfoldable pub applied_manifest : Allocation → FileManifest
applied_manifest a = manifest_of (λ r. r.applied) a.files

-- The first loop of `DiffFileManifests`: what is new or changed in the second manifest.
changed_paths : FileManifest → FileManifest → List Text
changed_paths previous [] = []
changed_paths previous ((path, digest) ∷ m) =
    let rest = changed_paths previous m in
    elim (get path previous) [
      | none ↦ path ∷ rest
      | some d ↦ if d == digest then rest else path ∷ rest
    ]

deleted_paths : FileManifest → FileManifest → List Text
deleted_paths [] current = []
deleted_paths ((path, digest) ∷ m) current =
    let rest = deleted_paths m current in if listed current path then rest else path ∷ rest

-- The paths before they are sorted. A path of the second list is never in the first, so `seen`
-- holds none of them.
unfoldable pub diff_file_manifests : FileManifest → FileManifest → List Text
unfolding changed_paths deleted_paths
diff_file_manifests previous current =
    changed_paths previous current ++ deleted_paths previous current
