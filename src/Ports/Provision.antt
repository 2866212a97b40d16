-- ===== src/Ports/Provision.antt =====
-- build/build_ports.go: which number a provisioned port gets.
use kive.Prelude.{
  ℕ, suc, ◌-◌, ◌≤◌, ◌<◌, ◌≡◌, refl, true, false, some, List, arith, Text, has, delete, has-delete,
  text_key, nat_key, Bool-cases, Option-cases, ◌⊎◌, inl, inr,
}
use kive.Ports.{
  PortAllocator, Result, ok, err, port_range_exhausted, assigned, contains, claim_port, provision,
  with_port, assign_provisioned, validate_job_port_key,
}
use kive.Ports.Claim.{claim_port_cases}
use kive.Ports.Assign.{provision_loop_cases, release_assigned_number_lem}

-- What became of a request for a provisioned port.
abbrev pub Provisioned : PortAllocator → Text → Text → Result (ℕ × PortAllocator) → Type 0
Provisioned a job name (err e) =
    (e ≡ port_range_exhausted)
    × ((p : ℕ) → contains a.range p ≡ true → has p a.used_numbers ≡ true)
    × ((q : ℕ) → assigned a job name ≡ some q → contains a.range q ≡ false)
Provisioned a job name (ok (p, a')) =
    (contains a.range p ≡ true)
    × ((assigned a job name ≡ some p)
        ⊎ ((has p a.used_numbers ≡ false)
            × ((q : ℕ) → a.range.low ≤ q → q < p → has q a.used_numbers ≡ true)
            × ((q : ℕ) → assigned a job name ≡ some q → contains a.range q ≡ false)))

claim_new-Provisioned :
    (a : PortAllocator) (left : List ℕ) (job name : Text) (p : ℕ)
    → ((q : ℕ) → contains a.range q ≡ true → has q left ≡ has q a.used_numbers)
    → ((q : ℕ) → assigned a job name ≡ some q → contains a.range q ≡ false)
    → contains a.range p ≡ true
    → has p left ≡ false
    → ((q : ℕ) → a.range.low ≤ q → q < p → has q left ≡ true)
    → Provisioned a job name
        (with_port p (claim_port (record a { used_numbers = left }) job name p))
claim_new-Provisioned a left job name p same new inside free below =
    elim (claim_port_cases (record a { used_numbers = left }) job name p) [
      | inl (has_it, e) ↦ absurd (ground (arith, new p has_it))
      | inr (inl (other, taken, e)) ↦ absurd (ground arith)
      | inr (inr (other, f, e)) ↦
          rw e
            (inside, inr (ground (arith, same p), (λ q l h. ground (arith, same q, below q)), new))
    ]

provision-Provisioned :
    (a : PortAllocator) (left : List ℕ) (job name : Text)
    → ((q : ℕ) → contains a.range q ≡ true → has q left ≡ has q a.used_numbers)
    → ((q : ℕ) → assigned a job name ≡ some q → contains a.range q ≡ false)
    → Provisioned a job name (provision (record a { used_numbers = left }) job name)
provision-Provisioned a left job name same new =
    let b : PortAllocator = record a { used_numbers = left } in
    elim (provision_loop_cases (suc a.range.high - a.range.low) b job name a.range.low) [
      | inl (e, all) ↦ rw e (refl, (λ p inside. ground (arith, same p, all p)), new)
      | inr (p, l, h, free, below, e) ↦
          rw e (claim_new-Provisioned a left job name p same new (ground arith) free below)
    ]

-- A provisioned port with a well-formed name keeps its number when that lies in the range; else it
-- gets the lowest number of the range that is not used. The only error is that the range is exhausted:
-- then every number of it is used, and the port has no number in it.
pub assign_provisioned_lem :
    (a : PortAllocator) (job name : Text)
    → validate_job_port_key job name ≡ true
    → Provisioned a job name (assign_provisioned a job name)
unfolding assign_provisioned
assign_provisioned_lem a job name good = elim (Option-cases (assigned a job name)) [
  | inl e ↦
      rw (good, e) (provision-Provisioned a a.used_numbers job name (λ q i. refl) (ground arith))
  | inr (prev, e) ↦ elim (Bool-cases (contains a.range prev)) [
    | inl inside ↦ rw (good, e, inside) (inside, inl e)
    | inr outside ↦
        rw (good, e, outside, release_assigned_number_lem a job name prev e)
          (provision-Provisioned a (delete prev a.used_numbers) job name
            (λ q i. ground (arith, has-delete prev q a.used_numbers)) (ground arith))
  ]
]
