-- ===== src/Semaphore/Steps.antt =====
-- The coordinator of hooks/runtime_semaphore.go over any interleaving of its methods.
use kive.Prelude.{
  ℕ, ◌≤◌, ◌≡◌, ◌≢◌, refl, Bool, true, false, none, some, List, [], ◌∷◌, arith, Text, length, get,
  has, insert, delete, get-put, text_key, nat_key, ◌↔◌, ◌⊎◌, inl, inr, Option-cases, has-delete,
  length-delete, length-insert,
}
use kive.Prelude.Int.{ℤ}
use kive.Semaphore.{
  Waiter, JobSemaphore, Coordinator, new_coordinator, register_in, register_wait, acquire,
  acquire_capacity, cancel_wait, release, grant, grant_next_waiter, without_channel, max_capacity,
}
use kive.Semaphore.Scope.{IsValid, register_in-IsValid, grant_next_waiter-IsValid, cancel-IsValid}

-- Every semaphore of the session is valid.
abbrev pub IsSafe : Coordinator → Type 0
IsSafe c = (key : Text) (sem : JobSemaphore) → get key c.semaphores ≡ some sem → IsValid sem

acquire_capacity_range :
    (c : ℤ) (n : ℕ) → acquire_capacity c ≡ some n → (1 ≤ n) × (n ≤ max_capacity)
unfolding acquire_capacity
acquire_capacity_range c n h = ground arith

fresh-IsValid :
    (n : ℕ)
    → 1 ≤ n
    → n ≤ max_capacity
    → IsValid (record { capacity = n; holders = []; waiters = [] })
fresh-IsValid n p b = record {
  positive = p;
  bounded = b;
  unique = tt;
  fits = omega arith;
  busy = inl refl;
}

register_wait-IsSafe :
    (c : Coordinator) (key id : Text) (n : ℕ)
    → 1 ≤ n
    → n ≤ max_capacity
    → IsSafe c
    → IsSafe (register_wait c key id n).0
unfolding register_wait
register_wait-IsSafe c key id n p b s j sem h = elim (Option-cases (get key c.semaphores)) [
  | inl e ↦ ground (
    arith,
    s j sem,
    get-put key j
        (register_in (record { capacity = n; holders = []; waiters = [] }) id c.next_channel).0
        c.semaphores,
    fresh-IsValid n,
    register_in-IsValid (record { capacity = n; holders = []; waiters = [] }) id c.next_channel,
  )
  | inr (old, e) ↦ ground (
    arith,
    s j sem,
    s key old,
    get-put key j (register_in old id c.next_channel).0 c.semaphores,
    register_in-IsValid old id c.next_channel,
  )
]

acquire-IsSafe :
    (c : Coordinator) (key id : Text) (capacity : ℤ)
    → IsSafe c
    → IsSafe (acquire c key id capacity).0
unfolding acquire
acquire-IsSafe c key id capacity s j sem h = elim (Option-cases (acquire_capacity capacity)) [
  | inl e ↦ ground (arith, s j sem)
  | inr (n, e) ↦
      let (low, high) = acquire_capacity_range capacity n e in
      register_wait-IsSafe c key id n low high s j sem (rw (e, acquire) at h)
]

cancel_wait-IsSafe :
    (c : Coordinator) (key : Text) (channel : ℕ) → IsSafe c → IsSafe (cancel_wait c key channel)
unfolding cancel_wait
cancel_wait-IsSafe c key channel s j sem h = elim (Option-cases (get key c.semaphores)) [
  | inl e ↦ ground (arith, s j sem)
  | inr (old, e) ↦ ground (
    arith,
    s j sem,
    s key old,
    cancel-IsValid old channel,
    get-put key j (record old { waiters = without_channel channel old.waiters }) c.semaphores,
  )
]

release-IsSafe : (c : Coordinator) (key id : Text) → IsSafe c → IsSafe (release c key id).0
unfolding release
release-IsSafe c key id s j sem h = elim (Option-cases (get key c.semaphores)) [
  | inl e ↦ ground (arith, s j sem)
  | inr (old, e) ↦ ground (
    arith,
    s j sem,
    s key old,
    grant_next_waiter-IsValid old id,
    get-put key j (grant_next_waiter (record old { holders = delete id old.holders })).0
        c.semaphores,
  )
]

-- One call of any client. A timed-out `acquire` is its own step, `cancels`.
pub data Call : Type 0 where
  acquires : Text → Text → ℤ → Call
  cancels : Text → ℕ → Call
  releases : Text → Text → Call

unfoldable pub step : Coordinator → Call → Coordinator
step c (acquires key id capacity) = (acquire c key id capacity).0
step c (cancels key channel) = cancel_wait c key channel
step c (releases key id) = (release c key id).0

unfoldable pub run : Coordinator → List Call → Coordinator
unfolding step
run c [] = c
run c (call ∷ calls) = run (step c call) calls

step-IsSafe : (c : Coordinator) (call : Call) → IsSafe c → IsSafe (step c call)
unfolding step
step-IsSafe c (acquires key id capacity) = acquire-IsSafe c key id capacity
step-IsSafe c (cancels key channel) = cancel_wait-IsSafe c key channel
step-IsSafe c (releases key id) = release-IsSafe c key id

run-IsSafe_from : (c : Coordinator) (calls : List Call) → IsSafe c → IsSafe (run c calls)
unfolding run
run-IsSafe_from c [] s = s
run-IsSafe_from c (call ∷ calls) s = run-IsSafe_from (step c call) calls (step-IsSafe c call s)

-- After any sequence of acquires, cancelled waits and releases in a new session, every semaphore
-- has a capacity from 1 to 64, at most that many holders, none of them twice, and allocations wait
-- only while all slots are taken.
pub run-IsSafe : (calls : List Call) → IsSafe (run new_coordinator calls)
run-IsSafe calls = run-IsSafe_from new_coordinator calls λ key sem h. absurd (unfold get in (cc))

abbrev pub call_scope : Call → Text
call_scope (acquires key id capacity) = key
call_scope (cancels key channel) = key
call_scope (releases key id) = key

register_wait_elsewhere :
    (c : Coordinator) (j key id : Text) (n : ℕ)
    → j ≢ key
    → get key (register_wait c j id n).0.semaphores ≡ get key c.semaphores
unfolding register_wait
register_wait_elsewhere c j key id n h = elim (Option-cases (get j c.semaphores)) [
  | inl e ↦ ground (
    arith,
    get-put j key
        (register_in (record { capacity = n; holders = []; waiters = [] }) id c.next_channel).0
        c.semaphores,
  )
  | inr (old, e) ↦ ground (arith, get-put j key (register_in old id c.next_channel).0 c.semaphores)
]

-- A call about one scope leaves the semaphores of the other scopes as they are.
pub step_elsewhere :
    (c : Coordinator) (call : Call) (key : Text)
    → call_scope call ≢ key
    → get key (step c call).semaphores ≡ get key c.semaphores
unfolding step acquire cancel_wait release
step_elsewhere c (acquires j id capacity) key h = elim (Option-cases (acquire_capacity capacity)) [
  | inl e ↦ ground arith
  | inr (n, e) ↦ ground (arith, register_wait_elsewhere c j key id n h)
]
step_elsewhere c (cancels j channel) key h = elim (Option-cases (get j c.semaphores)) [
  | inl e ↦ ground arith
  | inr (old, e) ↦ ground (
    arith,
    get-put j key (record old { waiters = without_channel channel old.waiters }) c.semaphores,
  )
]
step_elsewhere c (releases j id) key h = elim (Option-cases (get j c.semaphores)) [
  | inl e ↦ ground arith
  | inr (old, e) ↦ ground (
    arith,
    get-put j key (grant_next_waiter (record old { holders = delete id old.holders })).0
        c.semaphores,
  )
]

-- Whether an allocation holds the semaphore of a scope.
abbrev pub holds : Coordinator → Text → Text → Bool
holds c key id = elim (get key c.semaphores) [ none ↦ false | some sem ↦ has id sem.holders ]

-- `release` succeeds exactly when the allocation holds the semaphore, and one that fails changes
-- nothing.
pub release_iff :
    (c : Coordinator) (key id : Text)
    → (((release c key id).1 ≡ none) ↔ (holds c key id ≡ true))
      × (((release c key id).1 ≡ none) ⊎ ((release c key id).0 ≡ c))
unfolding release
release_iff c key id = ground arith

grant_full :
    (capacity : ℕ) (holders : List Text) (ws : List Waiter)
    → length holders ≡ capacity
    → grant capacity holders ws
      ≡ (record { capacity = capacity; holders = holders; waiters = ws }, [])
unfolding grant
grant_full capacity holders [] h = refl
grant_full capacity holders (w ∷ ws) h = ground arith

-- In a valid semaphore, taking one holder out lets exactly the first waiter in.
grant_one :
    (sem : JobSemaphore) (id : Text) (w : Waiter) (ws : List Waiter)
    → IsValid sem
    → has id sem.holders ≡ true
    → has w.allocation_id sem.holders ≡ false
    → sem.waiters ≡ w ∷ ws
    → grant_next_waiter (record sem { holders = delete id sem.holders }) ≡ (
      record {
        capacity = sem.capacity;
        holders = insert w.allocation_id (delete id sem.holders);
        waiters = ws;
      },
      w.notify ∷ [],
    )
unfolding grant_next_waiter grant
grant_one sem id w ws v held new waits =
    let full = v.busy in
    ground (
      arith,
      full,
      length-delete id sem.holders v.unique held,
      has-delete id w.allocation_id sem.holders,
      length-insert w.allocation_id (delete id sem.holders),
      grant_full sem.capacity (insert w.allocation_id (delete id sem.holders)) ws,
    )

-- A release by a holder while allocations wait hands the slot to the one that has waited longest,
-- provided that it does not hold already: it replaces the releaser among the holders, its channel
-- is closed, and the rest of the queue is unchanged.
pub release-hands_over :
    (c : Coordinator) (key id : Text) (sem : JobSemaphore) (w : Waiter) (ws : List Waiter)
    → IsSafe c
    → get key c.semaphores ≡ some sem
    → has id sem.holders ≡ true
    → has w.allocation_id sem.holders ≡ false
    → sem.waiters ≡ w ∷ ws
    → (get key (release c key id).0.semaphores
        ≡ some (record {
          capacity = sem.capacity;
          holders = insert w.allocation_id (delete id sem.holders);
          waiters = ws;
        }))
      × ((release c key id).0.closed ≡ w.notify ∷ c.closed)
unfolding release
release-hands_over c key id sem w ws s e held new waits =
    let one = grant_one sem id w ws (s key sem e) held new waits in
    ground (
      arith,
      one,
      get-put key key (grant_next_waiter (record sem { holders = delete id sem.holders })).0
          c.semaphores,
    )
