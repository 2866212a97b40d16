-- ===== src/Lib.antt =====
-- kive, an agentless workload orchestrator: its core logic, as a library of checked definitions.
--
-- A build reads a workspace, gives the jobs their ports and stages the content of each allocation; a
-- deploy takes up the allocations that need it, in an order and in batches, and records what runs;
-- hooks and templates share a store of keys and values and semaphores.
--
-- Semaphore: hooks/runtime_semaphore.go. A Coordinator maps a scope to the holders and the waiting
--   queue of its semaphore; acquire, cancel_wait, release and status are the coordinator's methods.
--   acquire stops at its select, which is finish_acquire: the branch it takes is a parameter, and the
--   notification is ready only when the channel is closed. Semaphore/Steps takes any sequence of calls,
--   Semaphore/Channels the waiters' channels, Semaphore/Scope one semaphore. A wait is a channel
--   number; time and goroutines are the choice of the next step.
-- Kv: kv/store.go, entry.go, expiry.go and persist.go. A Store maps a namespace to its entries; the
--   methods put_value, delete_key, get_key, purge_namespace and expire_stale_entries change one entry
--   each or all of a namespace. Kv/Table has the rows of the table key_value, written by
--   persist_to_transaction and read by load_from_transaction; whether an INSERT fails is a parameter.
-- Ports: build/build_ports.go, the checks of workspace/ports.go and bucket/port_range.go. A
--   PortAllocator has the assigned and the used numbers; resolve assigns one port, sync_ports those of
--   a job. The loop over the range has as fuel the number of ports in it.
-- Rollout: rollout/order.go (Rollout/Order), hooks/batch.go and effectiveBatchSize of deploy/rollout.go
--   (Rollout/Batches; the fuel of the loop is the number of workers, and a batch has at least one),
--   data/hash_allocation.go with the predicates of data/job.go and data/allocation_version.go that
--   choose what a deploy takes up (Rollout/Hashes). Rollout/Order reads rollout_order from Kv.
--   Rollout/Deploy is the loop of rolloutStartBatches and rolloutRestartBatches (deploy/rollout.go) with
--   promoteThenHealth (deploy/hashes.go): it takes the resolved order, a batch at a time, and promotes
--   or marks each worker's allocation. The answers of workers, hooks and health checks and the
--   cancellation of a batch are the parameter Answers, those of the queries before the loop, errors
--   included, the parameter Settings. The fuel is the number of workers. Rollout/Deploy/Batch is about
--   one batch, Progress about the loop, Outcome and Restart about a whole start or restart.
-- Versions: workspace/version.go and version_specifier.go, with the bounds of workspace/demands.go.
-- Windows: schedule/schedule.go, the part that says which instants a recurrence allows and which windows
--   pass the validation. Windows/Calendar is the Gregorian calendar that it takes from the standard
--   library; the local date and minute of an instant are given, and midnight of each day exists.
-- Conf: conf/. Conf.antt has the trees of ast.go and the limits, Conf/Lexer, Conf/Parser and Conf/Emit
--   the functions of lexer.go, parser.go and emit.go. The parser is one token ahead of the lexer, so its
--   State is two tokens and the text that is left; the depth is an argument. What unicode.IsLetter,
--   unicode.IsDigit and strconv.ParseFloat answer is the parameter Library, with their answers on ASCII
--   as the laws Ascii. The fuel counts the open calls of the parser; five times the length of the text
--   and twenty is enough, since a token takes a character. Conf/Stream is what tokens a text holds,
--   Conf/Lexing, Conf/Reading and Conf/RoundTrip read an emitted text back, Conf/Fuel is the fuel.
-- Demands: build/build_deployment_sequence.go. Demands.antt loads the demands of hooks and searches them
--   for a circle, Demands/Query is the recursive query that numbers the jobs. The fuel of the search is
--   its depth, one more than the jobs; that of the query is its rounds, for which two more than the jobs
--   in a row of demands are enough. A NULL in a row is an empty text.
--
-- A text is the list of its code points, of valid UTF-8. A Go map is an association list, and a loop
-- over it takes the list's order. A version counter, a port or a date does not wrap around. A
-- statement of SQL is its effect on the rows it names; the database takes it unless a definition says
-- otherwise.
--
-- Not modelled: processes, ssh, rsync, HTTP and files; cryptography; the printing of reports; the
-- queries that only read; the manifests, and of a configuration file the positions, the words of a
-- diagnostic and the typed getters; the decision which changed path asks
-- for which action; the check of hook demands against versions; the history of deploys and what it pins.
pub mod Prelude
pub mod Semaphore
pub mod Kv
pub mod Ports
pub mod Rollout
pub mod Versions
pub mod Windows
pub mod Conf
pub mod Demands
