-- ===== src/Ports/Assign.antt =====
-- build/build_ports.go: the assignment of one port.
use kive.Prelude.{
  ℕ, zero, suc, ◌+◌, ◌-◌, ◌≤◌, ◌<◌, ◌≡◌, ◌≢◌, refl, true, false, some, List, arith, Text, ◌==◌, has,
  delete, has-delete, text_key, nat_key, Bool-cases, Option-cases, ◌⊎◌, inl, inr,
}
use kive.Ports.{
  PortAllocator, Result, ok, err, port_range_exhausted, assigned, contains, claim_port,
  release_assigned_number, provision_loop, provision, with_port, assign_provisioned, assign_fixed,
  resolve, validate_job_port_key, ManifestPortBinding,
}
use kive.Ports.Claim.{
  UsedBut, Injective, Named, Consistent, claim_port_cases, reuse-Consistent, Promise, claim_free,
}

-- The first number from `port` on that is not used, if there is one in the range.
pub provision_loop_cases :
    (f : ℕ) (a : PortAllocator) (job name : Text) (port : ℕ)
    → ((provision_loop f a job name port ≡ err port_range_exhausted)
        × ((p : ℕ) → port ≤ p → p < port + f → has p a.used_numbers ≡ true))
      ⊎ ((p : ℕ) × (port ≤ p)
          × (p < port + f)
          × (has p a.used_numbers ≡ false)
          × ((q : ℕ) → port ≤ q → q < p → has q a.used_numbers ≡ true)
          × (provision_loop f a job name port ≡ with_port p (claim_port a job name p)))
unfolding provision_loop
provision_loop_cases zero a job name port = inl (refl, λ p l h. absurd (omega arith))
provision_loop_cases (suc f) a job name port = elim (Bool-cases (has port a.used_numbers)) [
  | inr free ↦
      inr (port, omega arith, omega arith, free, (λ q l h. absurd (omega arith)), rw free refl)
  | inl taken ↦ elim (provision_loop_cases f a job name (suc port)) [
    | inl (e, all) ↦ inl (
      rw taken e,
      λ p l h. elim (Bool-cases (port == p)) [
        | inl same ↦ ground arith
        | inr other ↦ ground (arith, all p)
      ],
    )
    | inr (p, l, h, free, below, e) ↦ inr (
      p,
      omega arith,
      omega arith,
      free,
      (λ q l' h'. elim (Bool-cases (port == q)) [
        | inl same ↦ ground arith
        | inr other ↦ ground (arith, below q)
      ]),
      rw taken e,
    )
  ]
]

provision-Promise :
    (a : PortAllocator) (job name : Text)
    → UsedBut a job name
    → Injective a
    → Named a
    → ((p : ℕ) → contains a.range p ≡ true → assigned a job name ≢ some p)
    → Promise a job name (provision a job name)
provision-Promise a job name used inj named new =
    let fuel = suc a.range.high - a.range.low in
    elim (provision_loop_cases fuel a job name a.range.low) [
      | inl (e, all) ↦ rw e tt
      | inr (p, l, h, free, below, e) ↦
          rw e (claim_free a job name p used inj named free (new p (ground arith)))
    ]

released_UsedBut :
    (a : PortAllocator) (job name : Text) (prev : ℕ)
    → Consistent a
    → assigned a job name ≡ some prev
    → UsedBut (record a { used_numbers = delete prev a.used_numbers }) job name
released_UsedBut a job name prev (used, inj, named) e j n p at other =
    ground (arith, has-delete prev p a.used_numbers, used j n p at, inj j n job name p at)

-- The promise is about the assignments alone.
Promise-used :
    (a : PortAllocator) (used : List ℕ) (job name : Text) (r : Result (ℕ × PortAllocator))
    → Promise (record a { used_numbers = used }) job name r
    → Promise a job name r
Promise-used a used job name (err e) h = tt
Promise-used a used job name (ok (port, a')) h = h

pub release_assigned_number_lem :
    (a : PortAllocator) (job name : Text) (prev : ℕ)
    → assigned a job name ≡ some prev
    → release_assigned_number a job name ≡ record a { used_numbers = delete prev a.used_numbers }
unfolding release_assigned_number
release_assigned_number_lem a job name prev e = ground arith

pub assign_provisioned-Promise :
    (a : PortAllocator) (job name : Text)
    → Consistent a
    → Promise a job name (assign_provisioned a job name)
unfolding assign_provisioned
assign_provisioned-Promise a job name (used, inj, named) =
    elim (Bool-cases (validate_job_port_key job name)) [
      | inr bad ↦ rw bad tt
      | inl good ↦ elim (Option-cases (assigned a job name)) [
        | inl e ↦
            rw (good, e)
              (provision-Promise a job name (λ j n p at other. used j n p at) inj named
                (ground arith))
        | inr (prev, e) ↦ elim (Bool-cases (contains a.range prev)) [
          | inl inside ↦
              rw (good, e, inside)
                (
                  reuse-Consistent a prev (used, inj, named),
                  ((λ j n. ground (arith, inj j n job name prev)), refl),
                )
          | inr outside ↦
              let left = delete prev a.used_numbers in
              rw (good, e, outside, release_assigned_number_lem a job name prev e)
                (Promise-used a left job name
                  (provision (record a { used_numbers = left }) job name)
                  (provision-Promise (record a { used_numbers = left }) job name
                    (released_UsedBut a job name prev (used, inj, named) e) inj named
                    (ground arith)))
        ]
      ]
    ]

claim-Promise :
    (a : PortAllocator) (job name : Text) (port : ℕ)
    → UsedBut a job name
    → Injective a
    → Named a
    → assigned a job name ≢ some port
    → Promise a job name (with_port port (claim_port a job name port))
claim-Promise a job name port used inj named other = elim (claim_port_cases a job name port) [
  | inl (same, e) ↦ absurd (other same)
  | inr (inl (o, taken, e)) ↦ rw e tt
  | inr (inr (o, free, e)) ↦ claim_free a job name port used inj named free other
]

claim_again-Promise :
    (a : PortAllocator) (job name : Text) (port : ℕ)
    → Consistent a
    → assigned a job name ≡ some port
    → Promise a job name (with_port port (claim_port a job name port))
claim_again-Promise a job name port (used, inj, named) same =
    elim (claim_port_cases a job name port) [
      | inl (s, e) ↦ rw e (
        reuse-Consistent a port (used, inj, named),
        ((λ j n. ground (arith, inj j n job name port)), refl),
      )
      | inr (inl (other, taken, e)) ↦ absurd (other same)
      | inr (inr (other, free, e)) ↦ absurd (other same)
    ]

pub assign_fixed-Promise :
    (a : PortAllocator) (job name : Text) (port : ℕ)
    → Consistent a
    → Promise a job name (assign_fixed a job name port)
unfolding assign_fixed
assign_fixed-Promise a job name port (used, inj, named) =
    elim (Bool-cases (validate_job_port_key job name)) [
      | inr bad ↦ rw bad tt
      | inl good ↦ elim (Option-cases (assigned a job name)) [
        | inl e ↦
            rw (good, e)
              (claim-Promise a job name port (λ j n p at other. used j n p at) inj named
                (ground arith))
        | inr (prev, e) ↦ elim (Bool-cases (prev == port)) [
          | inl same ↦
              rw (good, e, same)
                (claim_again-Promise a job name port (used, inj, named) (ground arith))
          | inr other ↦
              let left = delete prev a.used_numbers in
              rw (good, e, other, release_assigned_number_lem a job name prev e)
                (Promise-used a left job name
                  (with_port port (claim_port (record a { used_numbers = left }) job name port))
                  (claim-Promise (record a { used_numbers = left }) job name port
                    (released_UsedBut a job name prev (used, inj, named) e) inj named
                    (ground arith)))
        ]
      ]
    ]

-- Assigning a port keeps the allocator consistent: every assigned number is in the set of used
-- numbers, no two ports have the same number, and no job has a name twice. It gives the port the
-- number that it returns, and changes no other port's.
pub resolve-Promise :
    (a : PortAllocator) (job name : Text) (b : ManifestPortBinding)
    → Consistent a
    → Promise a job name (resolve a job name b)
unfolding resolve
resolve-Promise a job name b c = elim (Option-cases b.fixed) [
  | inl e ↦ rw e (assign_provisioned-Promise a job name c)
  | inr (port, e) ↦ rw e (assign_fixed-Promise a job name port c)
]
