-- ===== src/Ports/Claim.antt =====
-- build/build_ports.go: the invariant of the allocator, and the claim of a number.
use kive.Prelude.{
  ℕ, ◌≡◌, ◌≢◌, refl, true, false, ◌&&◌, some, List, arith, Text, ◌==◌, if◌then◌else◌, put, has,
  insert, get-put, has-insert, sym, Distinct, put-Distinct, text_key, nat_key, Bool-cases, ◌⊎◌, inl,
  inr,
}
use mathlib.Core.Path.{subst}
use kive.Ports.{
  PortAllocator, PortAssignments, Result, ok, err, port_collision, assigned, ports_of, claim_port,
  with_port,
}

-- Every assigned number but those of one port name is in the set of used numbers.
abbrev pub UsedBut : PortAllocator → Text → Text → Type 0
UsedBut a job name =
    (j n : Text) (p : ℕ)
    → assigned a j n ≡ some p
    → ((j == job) && (n == name)) ≡ false
    → has p a.used_numbers ≡ true

-- Every assigned number is in the set of used numbers.
abbrev pub Used : PortAllocator → Type 0
Used a = (j n : Text) (p : ℕ) → assigned a j n ≡ some p → has p a.used_numbers ≡ true

-- No two ports have the same number.
abbrev pub Injective : PortAllocator → Type 0
Injective a =
    (j n j' n' : Text) (p : ℕ)
    → assigned a j n ≡ some p
    → assigned a j' n' ≡ some p
    → ((j == j') && (n == n')) ≡ true

-- No job has a port name twice.
abbrev pub Named : PortAllocator → Type 0
Named a = (j : Text) → Distinct (ports_of j a.existing)

abbrev pub Consistent : PortAllocator → Type 0
Consistent a = Used a × Injective a × Named a

-- What a successful assignment of one port leaves.
abbrev pub Gives : PortAllocator → Text → Text → ℕ → PortAllocator → Type 0
Gives a job name port a' =
    ((j n : Text)
      → assigned a' j n ≡ (if (job == j) && (name == n) then some port else assigned a j n))
    × (a'.range ≡ a.range)

abbrev pub with_assigned :
    (a : PortAllocator) (used : List ℕ) (job name : Text) (port : ℕ) → PortAllocator
with_assigned a used job name port = record a {
  existing = put job (put name port (ports_of job a.existing)) a.existing;
  used_numbers = used;
}

pub assigned-with_assigned :
    (a : PortAllocator) (used : List ℕ) (job name : Text) (port : ℕ) (j n : Text)
    → assigned (with_assigned a used job name port) j n
      ≡ (if (job == j) && (name == n) then some port else assigned a j n)
assigned-with_assigned a used job name port j n = ground (
  arith,
  get-put job j (put name port (ports_of job a.existing)) a.existing,
  get-put name n port (ports_of job a.existing),
)

pub ports_of-put :
    (job j : Text) (ports : List (Text × ℕ)) (m : PortAssignments)
    → ports_of j (put job ports m) ≡ (if job == j then ports else ports_of j m)
ports_of-put job j ports m = ground (arith, get-put job j ports m)

pub put_ports-Named :
    (a : PortAllocator) (used : List ℕ) (job : Text) (ports : List (Text × ℕ))
    → Distinct ports
    → Named a
    → Named (record a { existing = put job ports a.existing; used_numbers = used })
put_ports-Named a used job ports distinct named j = elim (Bool-cases (job == j)) [
  | inl same ↦
      let e : ports_of j (put job ports a.existing) ≡ ports =
        ground (arith, ports_of-put job j ports a.existing) in
      subst (λ x. Distinct x) (sym e) distinct
  | inr other ↦
      let e : ports_of j (put job ports a.existing) ≡ ports_of j a.existing =
        ground (arith, ports_of-put job j ports a.existing) in
      subst (λ x. Distinct x) (sym e) (named j)
]

pub with_assigned-Named :
    (a : PortAllocator) (used : List ℕ) (job name : Text) (port : ℕ)
    → Named a
    → Named (with_assigned a used job name port)
with_assigned-Named a used job name port named =
    put_ports-Named a used job (put name port (ports_of job a.existing))
      (put-Distinct name port (ports_of job a.existing) (named job)) named

-- The claim of a number that is not used, or that the port has already.
pub claim_port_cases :
    (a : PortAllocator) (job name : Text) (port : ℕ)
    → ((assigned a job name ≡ some port)
        × (claim_port a job name port
            ≡ ok (record a { used_numbers = insert port a.used_numbers })))
      ⊎ ((assigned a job name ≢ some port)
          × (has port a.used_numbers ≡ true)
          × (claim_port a job name port ≡ err port_collision))
      ⊎ ((assigned a job name ≢ some port)
          × (has port a.used_numbers ≡ false)
          × (claim_port a job name port
              ≡ ok (with_assigned a (insert port a.used_numbers) job name port)))
unfolding claim_port
claim_port_cases a job name port = ground arith

pub reuse-Consistent :
    (a : PortAllocator) (port : ℕ)
    → Consistent a
    → Consistent (record a { used_numbers = insert port a.used_numbers })
reuse-Consistent a port (used, inj, named) =
    (λ j n p e. ground (arith, has-insert port p a.used_numbers, used j n p e), inj, named)

-- A number nobody but the port itself can have goes to the port.
pub give-Consistent :
    (a : PortAllocator) (job name : Text) (port : ℕ)
    → UsedBut a job name
    → Injective a
    → Named a
    → has port a.used_numbers ≡ false
    → Consistent (with_assigned a (insert port a.used_numbers) job name port)
give-Consistent a job name port used inj named free =
    let b : PortAllocator = with_assigned a (insert port a.used_numbers) job name port in
    let look = assigned-with_assigned a (insert port a.used_numbers) job name port in
    (
      λ j n p e. ground (arith, look j n, has-insert port p a.used_numbers, used j n p),
      λ j n j' n' p e e'.
          ground (arith, look j n, look j' n', used j n p, used j' n' p, inj j n j' n' p),
      with_assigned-Named a (insert port a.used_numbers) job name port named,
    )

-- What an assignment of one port promises, whichever way it goes.
abbrev pub Promise : PortAllocator → Text → Text → Result (ℕ × PortAllocator) → Type 0
Promise a job name (err e) = Unit
Promise a job name (ok (port, a')) = Consistent a' × Gives a job name port a'

pub claim_free :
    (a : PortAllocator) (job name : Text) (port : ℕ)
    → UsedBut a job name
    → Injective a
    → Named a
    → has port a.used_numbers ≡ false
    → assigned a job name ≢ some port
    → Promise a job name (with_port port (claim_port a job name port))
claim_free a job name port used inj named free new = elim (claim_port_cases a job name port) [
  | inl (same, e) ↦ absurd (new same)
  | inr (inl (other, taken, e)) ↦ absurd (ground arith)
  | inr (inr (other, f, e)) ↦ rw e (
    give-Consistent a job name port used inj named free,
    (assigned-with_assigned a (insert port a.used_numbers) job name port, refl),
  )
]
