-- ===== src/Semaphore/Channels.antt =====
-- hooks/runtime_semaphore.go: the channels of the waiters, and an `acquire` that ends while it is
-- granted.
use kive.Prelude.{
  ℕ, suc, ◌≤◌, ◌<◌, ◌≡◌, refl, true, false, none, some, List, [], ◌∷◌, ◌++◌, arith, Text, get, has,
  insert, delete, get-put, has-insert, text_key, nat_key, ◌==◌, Option-cases, Bool-cases, inl, inr,
}
use kive.Prelude.Int.{ℤ}
use mathlib.Core.Path.{subst}
use kive.Semaphore.{
  Waiter, JobSemaphore, Coordinator, Registered, refused, acquired, waiting, store_registered,
  context_done, new_coordinator, register_in, register_wait, acquire, acquire_capacity, cancel_wait,
  release, grant, grant_next_waiter, without_channel, channels_after, finish_acquire, notified,
  timed_out,
}
use kive.Semaphore.Steps.{
  Call, acquires, cancels, releases, step, run, holds, run-IsSafe, release-hands_over,
}

abbrev pub channels : List Waiter → List ℕ
channels [] = []
channels (w ∷ ws) = w.notify ∷ channels ws

-- The waiters have channels of their own, all handed out before.
abbrev Numbered : ℕ → List Waiter → Type 0
Numbered n [] = Unit
Numbered n (w ∷ ws) = (w.notify < n) × (has w.notify (channels ws) ≡ false) × Numbered n ws

Numbered-le : (m n : ℕ) (ws : List Waiter) → m ≤ n → Numbered m ws → Numbered n ws
Numbered-le m n [] h d = tt
Numbered-le m n (w ∷ ws) h (old, new, d) = (omega arith, new, Numbered-le m n ws h d)

has-channels_later :
    (n : ℕ) (w : Waiter) (ws : List Waiter) (id : Text)
    → w.notify < n
    → has w.notify (channels ws) ≡ false
    → has w.notify (channels (ws ++ (record { allocation_id = id; notify = n }) ∷ [])) ≡ false
unfolding has
has-channels_later n w [] id old new = ground arith
has-channels_later n w (v ∷ ws) id old new = ground (arith, has-channels_later n w ws id old)

append-Numbered :
    (n : ℕ) (ws : List Waiter) (id : Text)
    → Numbered n ws
    → Numbered (suc n) (ws ++ (record { allocation_id = id; notify = n }) ∷ [])
unfolding has
append-Numbered n [] id d = (omega arith, refl, tt)
append-Numbered n (w ∷ ws) id (old, new, d) =
    (omega arith, has-channels_later n w ws id old new, append-Numbered n ws id d)

register_in-Numbered :
    (sem : JobSemaphore) (id : Text) (n : ℕ)
    → Numbered n sem.waiters
    → Numbered (channels_after n (register_in sem id n).1) (register_in sem id n).0.waiters
unfolding register_in
register_in-Numbered sem id n d = ground (arith, append-Numbered n sem.waiters id)

has-without_channel :
    (x channel : ℕ) (ws : List Waiter)
    → has x (channels ws) ≡ false
    → has x (channels (without_channel channel ws)) ≡ false
unfolding has without_channel
has-without_channel x channel [] h = refl
has-without_channel x channel (w ∷ ws) h = ground (arith, has-without_channel x channel ws)

without_channel-Numbered :
    (n channel : ℕ) (ws : List Waiter) → Numbered n ws → Numbered n (without_channel channel ws)
unfolding without_channel
without_channel-Numbered n channel [] d = tt
without_channel-Numbered n channel (w ∷ ws) (old, new, d) =
    ground
      (arith, without_channel-Numbered n channel ws d, has-without_channel w.notify channel ws new)

-- Without its channel in the queue, a cancelled wait removes no waiter.
without_channel_absent :
    (channel : ℕ) (ws : List Waiter)
    → has channel (channels ws) ≡ false
    → without_channel channel ws ≡ ws
unfolding has without_channel
without_channel_absent channel [] h = refl
without_channel_absent channel (w ∷ ws) h = ground (arith, without_channel_absent channel ws)

grant-Numbered :
    (n capacity : ℕ) (holders : List Text) (ws : List Waiter)
    → Numbered n ws
    → Numbered n (grant capacity holders ws).0.waiters
unfolding grant
grant-Numbered n capacity holders [] d = tt
grant-Numbered n capacity holders (w ∷ ws) (old, new, d) =
    ground (arith, grant-Numbered n capacity (insert w.allocation_id holders) ws d)

abbrev AreNumbered : Coordinator → Type 0
AreNumbered c =
    (key : Text) (sem : JobSemaphore)
    → get key c.semaphores ≡ some sem
    → Numbered c.next_channel sem.waiters

channels_after-le : (n : ℕ) (r : Registered) → n ≤ channels_after n r
channels_after-le n (refused e) = omega arith
channels_after-le n acquired = omega arith
channels_after-le n (waiting m) = omega arith

store-AreNumbered :
    (c : Coordinator) (key id : Text) (sem : JobSemaphore)
    → AreNumbered c
    → Numbered c.next_channel sem.waiters
    → AreNumbered (store_registered c key (register_in sem id c.next_channel)).0
store-AreNumbered c key id sem s d j found h =
    let n = c.next_channel in
    let (stored, r) = register_in sem id n in
    let grown = channels_after-le n r in
    ground (
      arith,
      get-put key j stored c.semaphores,
      register_in-Numbered sem id n d,
      Numbered-le n (channels_after n r) found.waiters grown,
      s j found,
    )

register_wait-AreNumbered :
    (c : Coordinator) (key id : Text) (n : ℕ)
    → AreNumbered c
    → AreNumbered (register_wait c key id n).0
unfolding register_wait
register_wait-AreNumbered c key id n s = elim (Option-cases (get key c.semaphores)) [
  | inl e ↦
      rw (e, register_wait)
        (store-AreNumbered c key id (record { capacity = n; holders = []; waiters = [] }) s tt)
  | inr (old, e) ↦ elim (Bool-cases (old.capacity == n)) [
    | inl fits ↦ rw (e, fits, register_wait) (store-AreNumbered c key id old s (s key old e))
    | inr other ↦ rw (e, other, register_wait) s
  ]
]

acquire-AreNumbered :
    (c : Coordinator) (key id : Text) (capacity : ℤ)
    → AreNumbered c
    → AreNumbered (acquire c key id capacity).0
unfolding acquire
acquire-AreNumbered c key id capacity s = elim (Option-cases (acquire_capacity capacity)) [
  | inl e ↦ rw (e, acquire) s
  | inr (n, e) ↦ rw (e, acquire) (register_wait-AreNumbered c key id n s)
]

cancel_wait-AreNumbered :
    (c : Coordinator) (key : Text) (channel : ℕ)
    → AreNumbered c
    → AreNumbered (cancel_wait c key channel)
unfolding cancel_wait
cancel_wait-AreNumbered c key channel s j sem h = elim (Option-cases (get key c.semaphores)) [
  | inl e ↦ ground (arith, s j sem)
  | inr (old, e) ↦ ground (
    arith,
    s j sem,
    s key old,
    without_channel-Numbered c.next_channel channel old.waiters,
    get-put key j (record old { waiters = without_channel channel old.waiters }) c.semaphores,
  )
]

release-AreNumbered :
    (c : Coordinator) (key id : Text) → AreNumbered c → AreNumbered (release c key id).0
unfolding release grant_next_waiter
release-AreNumbered c key id s j sem h = elim (Option-cases (get key c.semaphores)) [
  | inl e ↦ ground (arith, s j sem)
  | inr (old, e) ↦ ground (
    arith,
    s j sem,
    s key old,
    grant-Numbered c.next_channel old.capacity (delete id old.holders) old.waiters,
    get-put key j (grant old.capacity (delete id old.holders) old.waiters).0 c.semaphores,
  )
]

run-AreNumbered : (c : Coordinator) (calls : List Call) → AreNumbered c → AreNumbered (run c calls)
unfolding run step
run-AreNumbered c [] s = s
run-AreNumbered c (acquires key id capacity ∷ calls) s =
    run-AreNumbered (acquire c key id capacity).0 calls (acquire-AreNumbered c key id capacity s)
run-AreNumbered c (cancels key channel ∷ calls) s =
    run-AreNumbered (cancel_wait c key channel) calls (cancel_wait-AreNumbered c key channel s)
run-AreNumbered c (releases key id ∷ calls) s =
    run-AreNumbered (release c key id).0 calls (release-AreNumbered c key id s)

-- In a session after any calls, a holder releases while an allocation that does not hold waits first
-- in the queue. The select of that one's `acquire` may then take the notification, which changes
-- nothing. It may as well take the end of the context: then it reports the context's error, although
-- its cancellation removes no waiter and the allocation is a holder.
pub cancel_after_grant_keeps_holder :
    (calls : List Call) (key id : Text) (sem : JobSemaphore) (w : Waiter) (ws : List Waiter)
    → get key (run new_coordinator calls).semaphores ≡ some sem
    → has id sem.holders ≡ true
    → has w.allocation_id sem.holders ≡ false
    → sem.waiters ≡ w ∷ ws
    → (finish_acquire (release (run new_coordinator calls) key id).0 key w.notify notified
        ≡ some ((release (run new_coordinator calls) key id).0, none))
      × ((c : Coordinator) × (finish_acquire
              (release (run new_coordinator calls) key id).0
              key
              w.notify
              timed_out
            ≡ some (c, some context_done))
          × (get key c.semaphores
              ≡ get key (release (run new_coordinator calls) key id).0.semaphores)
          × (holds c key w.allocation_id ≡ true))
unfolding finish_acquire cancel_wait has
cancel_after_grant_keeps_holder calls key id sem w ws e held new waits =
    let before : Coordinator = run new_coordinator calls in
    let numbered =
      run-AreNumbered new_coordinator calls (λ j s h. absurd (unfold get in (cc))) key sem e in
    let (old, absent, rest) = subst (λ x. Numbered before.next_channel x) waits numbered in
    let (handed, closed) =
      release-hands_over before key id sem w ws (run-IsSafe calls) e held new waits in
    let after : JobSemaphore = record {
      capacity = sem.capacity;
      holders = insert w.allocation_id (delete id sem.holders);
      waiters = ws;
    } in
    let c' : Coordinator = (release before key id).0 in
    (
      ground arith,
      (
        cancel_wait c' key w.notify,
        refl,
        ground (
          arith,
          without_channel_absent w.notify ws absent,
          get-put key key (record after { waiters = without_channel w.notify ws }) c'.semaphores,
        ),
        ground (
          arith,
          get-put key key (record after { waiters = without_channel w.notify ws }) c'.semaphores,
          has-insert w.allocation_id w.allocation_id (delete id sem.holders),
        ),
      ),
    )
