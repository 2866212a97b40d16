-- ===== src/Ports.antt =====
-- build/build_ports.go with the checks of workspace/ports.go and bucket/port_range.go: how a build
-- gives the jobs their port numbers. A number is a natural one; the model has no manifest with a
-- negative fixed port.
pub mod Claim
pub mod Assign
pub mod Provision
pub mod Sync
pub mod Start
mod Samples
use kive.Prelude.{
  ℕ, zero, suc, ◌+◌, ◌-◌, Bool, true, false, not, ◌&&◌, ◌||◌, Option, none, some, List, [], ◌∷◌,
  ◌++◌, Text, codes, ◌==◌, leb, ltb, if◌then◌else◌, get, put, has, insert, delete, trim_space,
  strip_prefix, text_key, nat_key, length,
}

pub data PortError : Type 0 where
  port_collision port_range_exhausted port_key_format : PortError

pub data Result (A : Type 0) : Type 0 where
  ok : A → Result A
  err : PortError → Result A

pub record PortRange : Type 0 where
  pub low : ℕ
  pub high : ℕ

abbrev pub contains : PortRange → ℕ → Bool
contains r port = leb r.low port && leb port r.high

-- `PortAssignments`: the ports of each job.
abbrev pub PortAssignments : Type 0
PortAssignments = List (Text × List (Text × ℕ))

pub record PortAllocator : Type 0 where
  pub range : PortRange
  pub existing : PortAssignments
  pub used_numbers : List ℕ

abbrev pub ports_of : Text → PortAssignments → List (Text × ℕ)
ports_of job m = elim (get job m) [ none ↦ [] | some ports ↦ ports ]

-- `a.existing[jobName][portName]`
abbrev pub assigned : PortAllocator → Text → Text → Option ℕ
assigned a job name = get name (ports_of job a.existing)

abbrev pub use_ports : List (Text × ℕ) → List ℕ → List ℕ
use_ports [] used = used
use_ports ((name, port) ∷ ports) used = use_ports ports (insert port used)

abbrev pub use_assignments : PortAssignments → List ℕ → List ℕ
use_assignments [] used = used
use_assignments ((job, ports) ∷ m) used = use_assignments m (use_ports ports used)

unfoldable pub new_port_allocator : PortAssignments → PortRange → PortAllocator
new_port_allocator existing range = record {
  range = range;
  existing = existing;
  used_numbers = use_assignments existing [];
}

unfoldable pub claim_port : PortAllocator → Text → Text → ℕ → Result PortAllocator
claim_port a job name port =
    let mark : PortAllocator = record a { used_numbers = insert port a.used_numbers } in
    if elim (assigned a job name) [ none ↦ false | some prev ↦ prev == port ]
    then ok mark
    else if has port a.used_numbers
    then err port_collision
    else ok
        (record mark { existing = put job (put name port (ports_of job a.existing)) a.existing })

unfoldable pub release_assigned_number : PortAllocator → Text → Text → PortAllocator
release_assigned_number a job name = elim (assigned a job name) [
  | none ↦ a
  | some prev ↦ record a { used_numbers = delete prev a.used_numbers }
]

abbrev is_lower : ℕ → Bool
is_lower c = leb b'a' c && leb c b'z'

abbrev is_key_char : ℕ → Bool
is_key_char c = is_lower c || (leb b'0' c && leb c b'9') || c == b'_'

abbrev all_key_chars : Text → Bool
all_key_chars [] = true
all_key_chars (c ∷ s) = is_key_char c && all_key_chars s

-- `^[a-z][a-z0-9_]*$`
abbrev matches_key_pattern : Text → Bool
matches_key_pattern [] = false
matches_key_pattern (c ∷ s) = is_lower c && all_key_chars s

unfoldable pub validate_port_key : Text → Bool
validate_port_key name = matches_key_pattern (trim_space name)

unfoldable pub validate_job_port_key : Text → Text → Bool
unfolding validate_port_key
validate_job_port_key job name =
    validate_port_key name
    && elim (strip_prefix (job ++ codes "_") name) [ none ↦ false | some s ↦ true ]

abbrev pub with_port : ℕ → Result PortAllocator → Result (ℕ × PortAllocator)
with_port port (ok a) = ok (port, a)
with_port port (err e) = err e

-- `for port := a.range_.Min; port <= a.range_.Max; port++`; the fuel counts the ports left.
unfoldable pub provision_loop : ℕ → PortAllocator → Text → Text → ℕ → Result (ℕ × PortAllocator)
provision_loop zero a job name port = err port_range_exhausted
provision_loop (suc f) a job name port =
    let rest = provision_loop f a job name (suc port) in
    if has port a.used_numbers then rest else with_port port (claim_port a job name port)

abbrev pub provision : PortAllocator → Text → Text → Result (ℕ × PortAllocator)
provision a job name = provision_loop (suc a.range.high - a.range.low) a job name a.range.low

unfoldable pub assign_provisioned : PortAllocator → Text → Text → Result (ℕ × PortAllocator)
assign_provisioned a job name =
    if not (validate_job_port_key job name)
    then err port_key_format
    else elim (assigned a job name) [
      | none ↦ provision a job name
      | some prev ↦
          if contains a.range prev
          then ok (prev, record a { used_numbers = insert prev a.used_numbers })
          else provision (release_assigned_number a job name) job name
    ]

unfoldable pub assign_fixed : PortAllocator → Text → Text → ℕ → Result (ℕ × PortAllocator)
assign_fixed a job name port =
    if not (validate_job_port_key job name)
    then err port_key_format
    else elim (assigned a job name) [
      | none ↦ with_port port (claim_port a job name port)
      | some prev ↦ with_port port (
          claim_port (if prev == port then a else release_assigned_number a job name) job name port)
    ]

pub record ManifestPortBinding : Type 0 where
  pub fixed : Option ℕ
  pub protocol : Text
  pub exposure : Text

unfoldable pub resolve :
    PortAllocator → Text → Text → ManifestPortBinding → Result (ℕ × PortAllocator)
resolve a job name b = elim b.fixed [
  | none ↦ assign_provisioned a job name
  | some port ↦ assign_fixed a job name port
]

-- The loop of `releaseRemoved`: the numbers still used, and the ports still there.
abbrev pub free_ports : List Text → List (Text × ℕ) → List ℕ → List ℕ
free_ports keep [] used = used
free_ports keep ((name, port) ∷ ports) used =
    free_ports keep ports (if has name keep then used else delete port used)

abbrev pub keep_ports : List Text → List (Text × ℕ) → List (Text × ℕ)
keep_ports keep [] = []
keep_ports keep ((name, port) ∷ ports) =
    let rest = keep_ports keep ports in if has name keep then (name, port) ∷ rest else rest

unfoldable pub release_removed : PortAllocator → Text → List Text → PortAllocator
release_removed a job keep = elim (get job a.existing) [
  | none ↦ a
  | some prev ↦ record a {
    existing = put job (keep_ports keep prev) a.existing;
    used_numbers = free_ports keep prev a.used_numbers;
  }
]

-- A row of `job_ports`.
pub record PortRow : Type 0 where
  pub job_id : Text
  pub name : Text
  pub port : ℕ
  pub protocol : Text
  pub exposure : Text

abbrev or_default : Text → Text → Text
or_default s d = if s == [] then d else s

abbrev without_job : Text → List PortRow → List PortRow
without_job id [] = []
without_job id (r ∷ rows) =
    let rest = without_job id rows in if r.job_id == id then rest else r ∷ rest

-- The manifest's ports, in the order of `Names`.
abbrev pub ManifestPorts : Type 0
ManifestPorts = List (Text × ManifestPortBinding)

abbrev pub names : ManifestPorts → List Text
names [] = []
names ((name, b) ∷ ports) = name ∷ names ports

abbrev pub port_row : Text → Text → ManifestPortBinding → ℕ → PortRow
port_row id name b port = record {
  job_id = id;
  name = name;
  port = port;
  protocol = or_default b.protocol (codes "tcp");
  exposure = or_default b.exposure (codes "cluster");
}

unfoldable pub sync_loop :
    Text
    → Text
    → ManifestPorts
    → List PortRow
    → PortAllocator
    → Result (List PortRow × PortAllocator)
sync_loop id job [] rows a = ok (rows, a)
sync_loop id job ((name, b) ∷ ports) rows a = elim (resolve a job name b) [
  | err e ↦ err e
  | ok (port, a') ↦ sync_loop id job ports (rows ++ port_row id name b port ∷ []) a'
]

-- The database takes every statement here.
unfoldable pub sync_ports :
    Text
    → Text
    → ManifestPorts
    → List PortRow
    → PortAllocator
    → Result (List PortRow × PortAllocator)
unfolding sync_loop release_removed
sync_ports id job ports rows a =
    sync_loop id job ports (without_job id rows) (release_removed a job (names ports))
