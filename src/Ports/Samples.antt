-- ===== src/Ports/Samples.antt =====
-- Runs of the port allocator.
use kive.Prelude.{
  ℕ, ◌≡◌, ◌≢◌, refl, true, none, some, [], ◌∷◌, arith, Text, codes, ◌==◌, get, has, Unique,
  list_discrete, ℕ_discrete, text_key, trim_space, strip_prefix, Bool-cases, inl, inr, Distinct,
}
use kive.Ports.{
  PortAllocator, PortAssignments, PortRange, ManifestPorts, names, new_port_allocator,
  assign_provisioned, resolve, sync_ports, validate_job_port_key, validate_port_key,
}
use kive.Ports.Claim.{Promise, Injective, Named}
use kive.Ports.Assign.{resolve-Promise}
use kive.Ports.Provision.{Provisioned, assign_provisioned_lem}
use kive.Ports.Sync.{Synced, sync_ports-Synced}
use kive.Ports.Start.{new_port_allocator-Consistent}

abbrev web : Text
web = codes "web"

abbrev web_http : Text
web_http = codes "web_http"

abbrev range : PortRange
range = record { low = 30000; high = 30009 }

abbrev existing : PortAssignments
existing = (codes "db", (codes "db_sql", 30000) ∷ []) ∷ (web, (codes "web_old", 9500) ∷ []) ∷ []

abbrev start : PortAllocator
start = new_port_allocator existing range

abbrev manifest : ManifestPorts
manifest =
    (web_http, record { fixed = none; protocol = codes "http"; exposure = [] })
    ∷ (codes "web_metrics", record { fixed = some 9100; protocol = []; exposure = [] })
    ∷ []

abbrev two_jobs : Text → Text → ℕ → Text → Text → ℕ → PortAssignments
two_jobs a m p b n q = (a, (m, p) ∷ []) ∷ (b, (n, q) ∷ []) ∷ []

two_jobs-Injective :
    (a m b n : Text) (p q : ℕ) → p ≢ q → Injective (new_port_allocator (two_jobs a m p b n q) range)
unfolding new_port_allocator get
two_jobs-Injective a m b n p q other j x j' x' r e e' = ground arith

two_jobs-Named :
    (a m b n : Text) (p q : ℕ) → Named (new_port_allocator (two_jobs a m p b n q) range)
unfolding new_port_allocator get
two_jobs-Named a m b n p q j = elim (Bool-cases (a == j)) [
  | inl e ↦ rw (e, Distinct) (refl, tt)
  | inr e ↦ elim (Bool-cases (b == j)) [
    | inl e' ↦ rw (e, e', Distinct) (refl, tt)
    | inr e' ↦ rw (e, e', Distinct) tt
  ]
]

start-Injective : Injective start
start-Injective =
    two_jobs-Injective (codes "db") (codes "db_sql") web (codes "web_old") 30000 9500 (omega arith)

start-Named : Named start
start-Named = two_jobs-Named (codes "db") (codes "db_sql") web (codes "web_old") 30000 9500

names-Unique : Unique (names manifest)
unfolding has list_discrete
names-Unique = (refl, (refl, tt))

resolve-Promise_example :
    Promise start web web_http
      (resolve start web web_http (record { fixed = some 8080; protocol = []; exposure = [] }))
resolve-Promise_example =
    resolve-Promise start web web_http (record { fixed = some 8080; protocol = []; exposure = [] })
      (new_port_allocator-Consistent existing range start-Injective start-Named)

well_formed : validate_job_port_key web web_http ≡ true
unfolding validate_job_port_key validate_port_key trim_space strip_prefix ℕ_discrete
well_formed = refl

assign_provisioned_lem_example :
    Provisioned start web web_http (assign_provisioned start web web_http)
assign_provisioned_lem_example = assign_provisioned_lem start web web_http well_formed

sync_ports-Synced_example :
    Synced start (codes "id") web manifest [] (sync_ports (codes "id") web manifest [] start)
sync_ports-Synced_example =
    sync_ports-Synced (codes "id") web manifest [] start names-Unique
      (new_port_allocator-Consistent existing range start-Injective start-Named)
