-- ===== src/Ports/Sync.antt =====
-- build/build_ports.go: the ports of one job.
use kive.Prelude.{
  ℕ, ◌≡◌, refl, true, false, not, ◌&&◌, none, some, List, [], ◌∷◌, ◌++◌, arith, Text, ◌==◌,
  if◌then◌else◌, get, put, has, delete, get-put, has-delete, Distinct, text_key, nat_key,
  Bool-cases, Option-cases, ◌⊎◌, inl, inr, Unique, sym, ◌∙◌,
}
use mathlib.Core.Path.{subst}
use mathlib.Core.List.{append_assoc, append-nil}
use kive.Ports.{
  PortAllocator, Result, ok, err, ManifestPorts, ManifestPortBinding, PortRow, assigned, free_ports,
  keep_ports, names, release_removed, resolve, sync_loop, sync_ports, without_job, port_row,
}
use kive.Ports.Claim.{Consistent, Used, Named, Gives, Promise, put_ports-Named}
use kive.Ports.Assign.{resolve-Promise}

get-keep_ports :
    (keep : List Text) (n : Text) (ports : List (Text × ℕ))
    → get n (keep_ports keep ports) ≡ (if has n keep then get n ports else none)
unfolding get
get-keep_ports keep n [] = ground arith
get-keep_ports keep n ((name, port) ∷ ports) = ground (arith, get-keep_ports keep n ports)

keep_ports-Distinct :
    (keep : List Text) (ports : List (Text × ℕ)) → Distinct ports → Distinct (keep_ports keep ports)
keep_ports-Distinct keep [] d = tt
keep_ports-Distinct keep ((name, port) ∷ ports) d =
    ground (arith, keep_ports-Distinct keep ports, get-keep_ports keep name ports)

-- A number that was freed belonged to a port that is not kept.
free_ports_cases :
    (keep : List Text) (ports : List (Text × ℕ)) (used : List ℕ) (p : ℕ)
    → Distinct ports
    → has p used ≡ true
    → (has p (free_ports keep ports used) ≡ true)
      ⊎ ((n : Text) × (get n ports ≡ some p) × (has n keep ≡ false))
unfolding get
free_ports_cases keep [] used p d h = inl h
free_ports_cases keep ((name, port) ∷ ports) used p (new, d) h = elim (Bool-cases (has name keep)) [
  | inl kept ↦ elim (free_ports_cases keep ports used p d h) [
    | inl i ↦ inl (rw kept i)
    | inr (n, e, gone) ↦ inr (n, ground arith, gone)
  ]
  | inr gone ↦ elim (Bool-cases (port == p)) [
    | inl same ↦ inr (name, ground arith, gone)
    | inr other ↦
        elim (free_ports_cases keep ports (delete port used) p d
          (ground (arith, has-delete port p used))) [
            | inl i ↦ inl (rw gone i)
            | inr (n, e, g) ↦ inr (n, ground arith, g)
          ]
  ]
]

assigned-release_removed :
    (a : PortAllocator) (job : Text) (keep : List Text) (j n : Text)
    → assigned (release_removed a job keep) j n
      ≡ (if (job == j) && not (has n keep) then none else assigned a j n)
unfolding release_removed get
assigned-release_removed a job keep j n = elim (Option-cases (get job a.existing)) [
  | inl e ↦ ground arith
  | inr (prev, e) ↦
      ground (arith, get-put job j (keep_ports keep prev) a.existing, get-keep_ports keep n prev)
]

release_nothing :
    (a : PortAllocator) (job : Text) (keep : List Text)
    → get job a.existing ≡ none
    → release_removed a job keep ≡ a
unfolding release_removed
release_nothing a job keep e = ground arith

release_some :
    (a : PortAllocator) (job : Text) (keep : List Text) (prev : List (Text × ℕ))
    → get job a.existing ≡ some prev
    → release_removed a job keep ≡ record a {
      existing = put job (keep_ports keep prev) a.existing;
      used_numbers = free_ports keep prev a.used_numbers;
    }
unfolding release_removed
release_some a job keep prev e = ground arith

release_removed-Used :
    (a : PortAllocator) (job : Text) (keep : List Text)
    → Consistent a
    → Used (release_removed a job keep)
release_removed-Used a job keep (used, inj, named) j n p e =
    elim (Option-cases (get job a.existing)) [
      | inl e' ↦ ground (arith, release_nothing a job keep e', used j n p)
      | inr (prev, at) ↦
          let was : assigned a j n ≡ some p =
            ground (arith, assigned-release_removed a job keep j n) in
          let distinct : Distinct prev = ground (arith, named job) in
          elim (free_ports_cases keep prev a.used_numbers p distinct (used j n p was)) [
            | inl i ↦ ground (arith, release_some a job keep prev at)
            | inr (m, f, gone) ↦
                ground (arith, assigned-release_removed a job keep j n, inj j n job m p was)
          ]
    ]

release_removed-Consistent :
    (a : PortAllocator) (job : Text) (keep : List Text)
    → Consistent a
    → Consistent (release_removed a job keep)
release_removed-Consistent a job keep (used, inj, named) = (
  release_removed-Used a job keep (used, inj, named),
  (λ j n j' n' p e e'.
      inj j n j' n' p (ground (arith, assigned-release_removed a job keep j n))
        (ground (arith, assigned-release_removed a job keep j' n'))),
  elim (Option-cases (get job a.existing)) [
    | inl e ↦ subst (λ x. Named x) (sym (release_nothing a job keep e)) named
    | inr (prev, e) ↦
        subst (λ x. Named x) (sym (release_some a job keep prev e))
          (put_ports-Named a (free_ports keep prev a.used_numbers) job (keep_ports keep prev)
            (keep_ports-Distinct keep prev (ground (arith, named job))) named)
  ],
)

-- The new rows, one for each port of the manifest, in order, with the assigned number.
abbrev pub Rows : PortAllocator → Text → Text → ManifestPorts → List PortRow → Type 0
Rows a id job [] [] = Unit
Rows a id job [] (r ∷ rows) = ⊥
Rows a id job ((name, b) ∷ ports) [] = ⊥
Rows a id job ((name, b) ∷ ports) (r ∷ rows) =
    (assigned a job name ≡ some r.port) × (r ≡ port_row id name b r.port) × Rows a id job ports rows

-- What is left alone by the assignment of the ports of one job.
abbrev pub Keeps : PortAllocator → Text → List Text → PortAllocator → Type 0
Keeps a job keep a' =
    (j n : Text) → ((job == j) && has n keep) ≡ false → assigned a' j n ≡ assigned a j n

abbrev Looped :
    PortAllocator
    → Text
    → Text
    → ManifestPorts
    → List PortRow
    → Result (List PortRow × PortAllocator)
    → Type 0
Looped a id job ports rows (err e) = Unit
Looped a id job ports rows (ok (rows', a')) =
    Consistent a'
    × Keeps a job (names ports) a'
    × ((new : List PortRow) × (rows' ≡ rows ++ new) × Rows a' id job ports new)

cons-Looped :
    (a a' : PortAllocator) (id job name : Text) (b : ManifestPortBinding) (port : ℕ)
    (ports : ManifestPorts) (rows : List PortRow) (r : Result (List PortRow × PortAllocator))
    → has name (names ports) ≡ false
    → Gives a job name port a'
    → Looped a' id job ports (rows ++ port_row id name b port ∷ []) r
    → Looped a id job ((name, b) ∷ ports) rows r
unfolding has
cons-Looped a a' id job name b port ports rows (err e) new gives h = tt
cons-Looped a a' id job name b port ports rows (ok (rows', a'')) new (gives, range)
      (c, keeps, (more, e, rest)) =
    (
      c,
      (λ j n other. ground (arith, keeps j n, gives j n)),
      (
        port_row id name b port ∷ more,
        e ∙ append_assoc rows (port_row id name b port ∷ []) more,
        (ground (arith, keeps job name, gives job name), refl, rest),
      ),
    )

sync_step :
    (id job name : Text) (b : ManifestPortBinding) (ports : ManifestPorts) (rows : List PortRow)
    (a : PortAllocator) (r : Result (ℕ × PortAllocator))
    → has name (names ports) ≡ false
    → Promise a job name r
    → ((rows' : List PortRow) (a' : PortAllocator)
        → Consistent a'
        → Looped a' id job ports rows' (sync_loop id job ports rows' a'))
    → Looped a id job ((name, b) ∷ ports) rows (elim r [
      | err e ↦ err e
      | ok (port, a') ↦ sync_loop id job ports (rows ++ port_row id name b port ∷ []) a'
    ])
sync_step id job name b ports rows a (err e) new h next = tt
sync_step id job name b ports rows a (ok (port, a')) new (c, gives) next =
    let rows' = rows ++ port_row id name b port ∷ [] in
    cons-Looped a a' id job name b port ports rows (sync_loop id job ports rows' a') new gives
      (next rows' a' c)

sync_loop-Looped :
    (id job : Text) (ports : ManifestPorts) (rows : List PortRow) (a : PortAllocator)
    → Unique (names ports)
    → Consistent a
    → Looped a id job ports rows (sync_loop id job ports rows a)
unfolding sync_loop
sync_loop-Looped id job [] rows a u c = (c, (λ j n h. refl), ([], sym (append-nil rows), tt))
sync_loop-Looped id job ((name, b) ∷ ports) rows a (new, u) c =
    sync_step id job name b ports rows a (resolve a job name b) new (resolve-Promise a job name b c)
      (λ rows' a' c'. sync_loop-Looped id job ports rows' a' u c')

-- What the build of one job leaves of its ports.
abbrev pub Synced :
    PortAllocator
    → Text
    → Text
    → ManifestPorts
    → List PortRow
    → Result (List PortRow × PortAllocator)
    → Type 0
Synced a id job ports rows (err e) = Unit
Synced a id job ports rows (ok (rows', a')) =
    Consistent a'
    × ((j n : Text) → (job == j) ≡ false → assigned a' j n ≡ assigned a j n)
    × ((n : Text) → has n (names ports) ≡ false → assigned a' job n ≡ none)
    × ((new : List PortRow) × (rows' ≡ without_job id rows ++ new) × Rows a' id job ports new)

Synced-of_Looped :
    (a : PortAllocator) (id job : Text) (ports : ManifestPorts) (rows : List PortRow)
    (r : Result (List PortRow × PortAllocator))
    → Looped (release_removed a job (names ports)) id job ports (without_job id rows) r
    → Synced a id job ports rows r
Synced-of_Looped a id job ports rows (err e) h = tt
Synced-of_Looped a id job ports rows (ok (rows', a')) (c, keeps, new) =
    let was = assigned-release_removed a job (names ports) in
    (
      c,
      (λ j n other. ground (arith, keeps j n, was j n)),
      (λ n gone. ground (arith, keeps job n, was job n)),
      new,
    )

-- Building the ports of a job, where it succeeds, keeps the allocator consistent, so no two ports of
-- all jobs share a number; it changes no other job's ports, drops the job's ports that the manifest
-- no longer names, and leaves in the table the other jobs' rows and one row for each port of the
-- manifest, with the number that is assigned to it.
pub sync_ports-Synced :
    (id job : Text) (ports : ManifestPorts) (rows : List PortRow) (a : PortAllocator)
    → Unique (names ports)
    → Consistent a
    → Synced a id job ports rows (sync_ports id job ports rows a)
unfolding sync_ports
sync_ports-Synced id job ports rows a u c =
    let b = release_removed a job (names ports) in
    Synced-of_Looped a id job ports rows (sync_loop id job ports (without_job id rows) b) (
      sync_loop-Looped id job ports (without_job id rows) b u
        (release_removed-Consistent a job (names ports) c))
