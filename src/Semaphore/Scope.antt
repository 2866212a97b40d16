-- ===== src/Semaphore/Scope.antt =====
-- One semaphore of hooks/runtime_semaphore.go: its invariant, and what each operation does to it.
use kive.Prelude.{
  ℕ, ◌≤◌, ◌≡◌, ◌⊎◌, inl, refl, true, List, [], ◌∷◌, ◌++◌, map, arith, Text, length, has, insert,
  delete, Unique, insert-Unique, has-insert, delete-Unique, length-insert, length-delete-le,
  text_key, nat_key,
}
use kive.Semaphore.{
  Waiter, JobSemaphore, register_in, without_channel, grant, grant_next_waiter, max_capacity,
}

-- The capacity is in range, no allocation holds twice, holders fit, and nobody waits for a free slot.
pub record IsValid (sem : JobSemaphore) : Type 0 where
  pub positive : 1 ≤ sem.capacity
  pub bounded : sem.capacity ≤ max_capacity
  pub unique : Unique sem.holders
  pub fits : length sem.holders ≤ sem.capacity
  pub busy : (sem.waiters ≡ []) ⊎ (length sem.holders ≡ sem.capacity)

pub register_in-IsValid :
    (sem : JobSemaphore) (id : Text) (channel : ℕ)
    → IsValid sem
    → IsValid (register_in sem id channel).0
unfolding register_in
register_in-IsValid sem id channel v =
    ground (arith, insert-Unique id sem.holders, length-insert id sem.holders)

pub grant-IsValid :
    (capacity : ℕ) (holders : List Text) (ws : List Waiter)
    → 1 ≤ capacity
    → capacity ≤ max_capacity
    → Unique holders
    → length holders ≤ capacity
    → IsValid (grant capacity holders ws).0
unfolding grant
grant-IsValid capacity holders [] p b u f = record {
  positive = p;
  bounded = b;
  unique = u;
  fits = f;
  busy = inl refl;
}
grant-IsValid capacity holders (w ∷ ws) p b u f = ground (
  arith,
  grant-IsValid capacity (insert w.allocation_id holders) ws,
  insert-Unique w.allocation_id holders,
  length-insert w.allocation_id holders,
)

-- A waiter is taken only while there is room, so the queue loses a prefix, in order.
pub grant-waiters :
    (capacity : ℕ) (holders : List Text) (ws : List Waiter)
    → map (λ w. w.notify) ws
      ≡ (grant capacity holders ws).1 ++ map (λ w. w.notify) (grant capacity holders ws).0.waiters
unfolding grant
grant-waiters capacity holders [] = refl
grant-waiters capacity holders (w ∷ ws) =
    ground (arith, grant-waiters capacity (insert w.allocation_id holders) ws)

pub capacity-grant :
    (capacity : ℕ) (holders : List Text) (ws : List Waiter)
    → (grant capacity holders ws).0.capacity ≡ capacity
unfolding grant
capacity-grant capacity holders [] = refl
capacity-grant capacity holders (w ∷ ws) =
    ground (arith, capacity-grant capacity (insert w.allocation_id holders) ws)

-- Who held before still holds.
pub has-grant :
    (id : Text) (capacity : ℕ) (holders : List Text) (ws : List Waiter)
    → has id holders ≡ true
    → has id (grant capacity holders ws).0.holders ≡ true
unfolding grant
has-grant id capacity holders [] h = h
has-grant id capacity holders (w ∷ ws) h = ground (
  arith,
  has-grant id capacity (insert w.allocation_id holders) ws,
  has-insert w.allocation_id id holders,
)

pub grant_next_waiter-IsValid :
    (sem : JobSemaphore) (id : Text)
    → IsValid sem
    → IsValid (grant_next_waiter (record sem { holders = delete id sem.holders })).0
unfolding grant_next_waiter
grant_next_waiter-IsValid sem id v =
    grant-IsValid sem.capacity (delete id sem.holders) sem.waiters v.positive v.bounded
      (delete-Unique id sem.holders v.unique)
      (omega (arith, length-delete-le id sem.holders, v.fits))

without_channel-nil : (channel : ℕ) (ws : List Waiter) → ws ≡ [] → without_channel channel ws ≡ []
unfolding without_channel
without_channel-nil channel [] h = refl
without_channel-nil channel (w ∷ ws) h = absurd (cc)

pub cancel-IsValid :
    (sem : JobSemaphore) (channel : ℕ)
    → IsValid sem
    → IsValid (record sem { waiters = without_channel channel sem.waiters })
cancel-IsValid sem channel v = ground (arith, without_channel-nil channel sem.waiters)
