-- ===== src/Ports/Start.antt =====
-- build/build_ports.go: the allocator that a build starts with.
use kive.Prelude.{
  ℕ, ◌≡◌, true, some, List, [], ◌∷◌, arith, Text, get, has, insert, has-insert, text_key, nat_key,
}
use kive.Ports.{
  PortAssignments, PortRange, ports_of, new_port_allocator, use_ports, use_assignments,
}
use kive.Ports.Claim.{Consistent, Injective, Named}

has-use_ports_kept :
    (ports : List (Text × ℕ)) (used : List ℕ) (p : ℕ)
    → has p used ≡ true
    → has p (use_ports ports used) ≡ true
has-use_ports_kept [] used p h = h
has-use_ports_kept ((name, port) ∷ ports) used p h =
    has-use_ports_kept ports (insert port used) p (ground (arith, has-insert port p used))

has-use_ports :
    (ports : List (Text × ℕ)) (used : List ℕ) (n : Text) (p : ℕ)
    → get n ports ≡ some p
    → has p (use_ports ports used) ≡ true
unfolding get
has-use_ports [] used n p e = ground arith
has-use_ports ((name, port) ∷ ports) used n p e = ground (
  arith,
  has-use_ports ports (insert port used) n p,
  has-insert port p used,
  has-use_ports_kept ports (insert port used) p,
)

has-use_assignments_kept :
    (m : PortAssignments) (used : List ℕ) (p : ℕ)
    → has p used ≡ true
    → has p (use_assignments m used) ≡ true
has-use_assignments_kept [] used p h = h
has-use_assignments_kept ((job, ports) ∷ m) used p h =
    has-use_assignments_kept m (use_ports ports used) p (has-use_ports_kept ports used p h)

has-use_assignments :
    (m : PortAssignments) (used : List ℕ) (j n : Text) (p : ℕ)
    → get n (ports_of j m) ≡ some p
    → has p (use_assignments m used) ≡ true
unfolding get
has-use_assignments [] used j n p e = ground arith
has-use_assignments ((job, ports) ∷ m) used j n p e = ground (
  arith,
  has-use_assignments m (use_ports ports used) j n p,
  has-use_ports ports used n p,
  has-use_assignments_kept m (use_ports ports used) p,
)

-- A build that finds a number for no two ports in the table starts with a consistent allocator.
pub new_port_allocator-Consistent :
    (existing : PortAssignments) (range : PortRange)
    → Injective (new_port_allocator existing range)
    → Named (new_port_allocator existing range)
    → Consistent (new_port_allocator existing range)
unfolding new_port_allocator
new_port_allocator-Consistent existing range inj named =
    ((λ j n p e. has-use_assignments existing [] j n p e), inj, named)
