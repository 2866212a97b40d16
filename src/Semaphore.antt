-- ===== src/Semaphore.antt =====
-- hooks/runtime_semaphore.go: the semaphores of one command-runtime API session. Each method that
-- holds the coordinator's mutex is one step. A channel is a number that is handed out once.
pub mod Scope
pub mod Steps
pub mod Channels
mod Samples
use kive.Prelude.{
  ℕ, suc, ◌+◌, ◌-◌, ◌≡◌, Bool, true, false, not, Option, none, some, List, [], ◌∷◌, ◌++◌, Text,
  codes, ltb, ◌==◌, if◌then◌else◌, length, get, put, has, insert, delete, nat_key, text_key,
}
use kive.Prelude.Int.{ℤ, pos, ltb_ℤ, pos_part}

abbrev pub default_capacity : ℕ
default_capacity = 1

abbrev pub max_capacity : ℕ
max_capacity = 64

pub record Waiter : Type 0 where
  pub allocation_id : Text
  pub notify : ℕ

pub record JobSemaphore : Type 0 where
  pub capacity : ℕ
  pub holders : List Text
  pub waiters : List Waiter

pub record Coordinator : Type 0 where
  pub semaphores : List (Text × JobSemaphore)
  pub next_channel : ℕ
  pub closed : List ℕ

abbrev pub new_coordinator : Coordinator
new_coordinator = record { semaphores = []; next_channel = 0; closed = [] }

pub data Error : Type 0 where
  exceeds_maximum capacity_mismatch semaphore_not_held not_a_holder context_done : Error

-- What `registerWait` returns: an error, a nil channel, or the channel of a new waiter.
pub data Registered : Type 0 where
  refused : Error → Registered
  acquired : Registered
  waiting : ℕ → Registered

-- The guards at the head of `acquire`, before it takes the mutex.
unfoldable pub acquire_capacity : ℤ → Option ℕ
acquire_capacity c =
    let capacity = if ltb_ℤ c (pos 1) then default_capacity else pos_part c in
    if ltb max_capacity capacity then none else some capacity

-- One semaphore, once found or created with the capacity that was asked for.
unfoldable pub register_in : JobSemaphore → Text → ℕ → JobSemaphore × Registered
register_in sem id channel =
    if has id sem.holders
    then (sem, acquired)
    else if ltb (length sem.holders) sem.capacity
    then (record sem { holders = insert id sem.holders }, acquired)
    else (
      record sem {
        waiters = sem.waiters ++ (record { allocation_id = id; notify = channel }) ∷ [];
      },
      waiting channel,
    )

abbrev fresh_semaphore : ℕ → JobSemaphore
fresh_semaphore capacity = record { capacity = capacity; holders = []; waiters = [] }

-- `sem.waiters = append(…)` allocates the next channel; the other branches allocate none.
abbrev pub channels_after : ℕ → Registered → ℕ
channels_after n (waiting _) = suc n
channels_after n _ = n

abbrev pub store_registered :
    Coordinator → Text → JobSemaphore × Registered → Coordinator × Registered
store_registered c key (sem, r) = (
  record c {
    semaphores = put key sem c.semaphores;
    next_channel = channels_after c.next_channel r;
  },
  r,
)

unfoldable pub register_wait : Coordinator → Text → Text → ℕ → Coordinator × Registered
register_wait c key id capacity = elim (get key c.semaphores) [
  | none ↦ store_registered c key (register_in (fresh_semaphore capacity) id c.next_channel)
  | some sem ↦
      if not (sem.capacity == capacity)
      then (c, refused capacity_mismatch)
      else store_registered c key (register_in sem id c.next_channel)
]

-- `acquire` up to its select.
unfoldable pub acquire : Coordinator → Text → Text → ℤ → Coordinator × Registered
acquire c key id capacity = elim (acquire_capacity capacity) [
  | none ↦ (c, refused exceeds_maximum)
  | some n ↦ register_wait c key id n
]

unfoldable pub without_channel : ℕ → List Waiter → List Waiter
without_channel channel [] = []
without_channel channel (w ∷ ws) =
    let rest = without_channel channel ws in if w.notify == channel then rest else w ∷ rest

unfoldable pub cancel_wait : Coordinator → Text → ℕ → Coordinator
cancel_wait c key channel = elim (get key c.semaphores) [
  | none ↦ c
  | some sem ↦ record c {
    semaphores =
        put key (record sem { waiters = without_channel channel sem.waiters }) c.semaphores;
  }
]

-- The branch that the select of `acquire` takes: any that is ready.
pub data Wake : Type 0 where
  notified timed_out : Wake

-- The select of `acquire`, for a wait on a channel. `none` is a branch that is not ready: a receive
-- from a channel that is not closed. The context may be done at any time.
unfoldable pub finish_acquire : Coordinator → Text → ℕ → Wake → Option (Coordinator × Option Error)
unfolding cancel_wait
finish_acquire c key channel notified = if has channel c.closed then some (c, none) else none
finish_acquire c key channel timed_out = some (cancel_wait c key channel, some context_done)

-- The loop of `grantNextWaiterLocked`: each round takes one waiter off the queue. The channels that
-- it closes come back beside the semaphore.
unfoldable pub grant : ℕ → List Text → List Waiter → JobSemaphore × List ℕ
grant capacity holders [] = (record { capacity = capacity; holders = holders; waiters = [] }, [])
grant capacity holders (w ∷ ws) =
    let (sem, closed) = grant capacity (insert w.allocation_id holders) ws in
    if ltb (length holders) capacity
    then (sem, w.notify ∷ closed)
    else (record { capacity = capacity; holders = holders; waiters = w ∷ ws }, [])

unfoldable pub grant_next_waiter : JobSemaphore → JobSemaphore × List ℕ
unfolding grant
grant_next_waiter sem = grant sem.capacity sem.holders sem.waiters

abbrev store_released : Coordinator → Text → JobSemaphore × List ℕ → Coordinator
store_released c key (sem, closed) = record c {
  semaphores = put key sem c.semaphores;
  closed = closed ++ c.closed;
}

unfoldable pub release : Coordinator → Text → Text → Coordinator × Option Error
release c key id = elim (get key c.semaphores) [
  | none ↦ (c, some semaphore_not_held)
  | some sem ↦ if not (has id sem.holders) then (c, some not_a_holder) else (
    store_released c key (grant_next_waiter (record sem { holders = delete id sem.holders })),
    none,
  )
]

pub record Status : Type 0 where
  pub capacity : ℕ
  pub holders : List Text
  pub waiting : ℕ
  pub available : ℕ

unfoldable pub status : Coordinator → Text → Option Status
status c key = elim (get key c.semaphores) [
  | none ↦ none
  | some sem ↦ some (record {
    capacity = sem.capacity;
    holders = sem.holders;
    waiting = length sem.waiters;
    available = sem.capacity - length sem.holders;
  })
]

slash : Text
slash = codes "/"

-- `fmt.Sprintf("%s/%s/%s", …)`
unfoldable pub semaphore_scope_key : Text → Text → Text → Text
unfolding slash
semaphore_scope_key job event name = job ++ slash ++ event ++ slash ++ name

-- Seconds; `time.Duration` multiplies the request by 10⁹, which wraps for huge requests only.
unfoldable pub normalize_acquire_timeout : ℤ → ℕ
normalize_acquire_timeout seconds =
    if ltb_ℤ (pos 0) seconds
    then (if ltb 3600 (pos_part seconds) then 3600 else pos_part seconds)
    else 600
