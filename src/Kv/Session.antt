-- ===== src/Kv/Session.antt =====
-- kv/session.go: one command loads the store from the table, works on it and persists it.
use kive.Prelude.{
  ◌≡◌, refl, Bool, true, false, none, some, List, [], ◌∷◌, ◌++◌, arith, Text, ◌==◌, text_key,
  nat_key, Option-cases, Bool-cases, inl, inr, ◌∙◌, get, put, get-put, Distinct, put-Distinct,
  map_values, map_values-Distinct, get-map_values,
}
use kive.Prelude.Int.{ℤ}
use kive.Kv.{
  Entry, Namespace, Store, find, namespace_map, store_entry, put_value, delete_key, purge_namespace,
  expire_stale_entries, new_store, expire_entry, purge_entry, tombstone,
}
use kive.Kv.Table.{
  Row, Table, row_entry, load_rows, load_from_transaction, persist_entry, persist_keys,
  persist_to_transaction, and_then_namespaces, entry_row, max_version,
}
use kive.Kv.Reload.{stored, stored_unchanged, find-load_from_transaction}
use kive.Kv.Sync.{Op, puts, deletes, purges, expires, apply}
use kive.Kv.Persist.{
  SyncedAt, IsSynced, apply-IsSynced, settle, settled, Same, Same-trans, SyncedAt-Same, Persisted,
  persist_keys-Persisted,
}

-- One map for each namespace, one entry for each key: what Go's maps give for nothing.
abbrev pub IsWellFormed : Store → Type 0
IsWellFormed [] = Unit
IsWellFormed ((ns, m) ∷ s) = (get ns s ≡ none) × Distinct m × IsWellFormed s

put-IsWellFormed :
    (ns : Text) (m : Namespace) (s : Store)
    → Distinct m
    → IsWellFormed s
    → IsWellFormed (put ns m s)
unfolding put get
put-IsWellFormed ns m [] d w = (refl, d, tt)
put-IsWellFormed ns m ((n, m') ∷ s) d w = ground (arith, put-IsWellFormed ns m s, get-put ns n m s)

get-Distinct :
    (ns : Text) (m : Namespace) (s : Store) → IsWellFormed s → get ns s ≡ some m → Distinct m
unfolding get
get-Distinct ns m [] w h = absurd (cc)
get-Distinct ns m ((n, m') ∷ s) w h = ground (arith, get-Distinct ns m s)

store_entry-IsWellFormed :
    (s : Store) (ns key : Text) (e : Entry) → IsWellFormed s → IsWellFormed (store_entry s ns key e)
unfolding store_entry namespace_map
store_entry-IsWellFormed s ns key e w = elim (Option-cases (get ns s)) [
  | inl h ↦
      rw (h, namespace_map) (put-IsWellFormed ns (put key e []) s (put-Distinct key e [] tt) w)
  | inr (m, h) ↦
      rw (h, namespace_map)
        (put-IsWellFormed ns (put key e m) s (put-Distinct key e m (get-Distinct ns m s w h)) w)
]

map_values-IsWellFormed :
    (f : Entry → Entry) (s : Store) → IsWellFormed s → IsWellFormed (map_values (map_values f) s)
unfolding map_values
map_values-IsWellFormed f [] w = tt
map_values-IsWellFormed f ((ns, m) ∷ s) w = ground (
  arith,
  map_values-IsWellFormed f s,
  map_values-Distinct f m,
  get-map_values (map_values f) ns s,
)

delete_key-IsWellFormed :
    (s : Store) (ns key : Text) → IsWellFormed s → IsWellFormed (delete_key s ns key).0
unfolding delete_key
delete_key-IsWellFormed s ns key w = elim (Option-cases (get ns s)) [
  | inl h ↦ rw (h, delete_key) w
  | inr (m, h) ↦ elim (Option-cases (get key m)) [
    | inl g ↦ rw (h, delete_key, g) w
    | inr (e, g) ↦
        rw (h, delete_key, g)
          (put-IsWellFormed ns (put key (tombstone e) m) s
            (put-Distinct key (tombstone e) m (get-Distinct ns m s w h)) w)
  ]
]

purge_namespace-IsWellFormed :
    (s : Store) (ns : Text) → IsWellFormed s → IsWellFormed (purge_namespace s ns)
unfolding purge_namespace
purge_namespace-IsWellFormed s ns w = elim (Option-cases (get ns s)) [
  | inl h ↦ rw (h, purge_namespace) w
  | inr (m, h) ↦
      rw (h, purge_namespace)
        (put-IsWellFormed ns (map_values purge_entry m) s
          (map_values-Distinct purge_entry m (get-Distinct ns m s w h)) w)
]

apply-IsWellFormed : (s : Store) (op : Op) → IsWellFormed s → IsWellFormed (apply s op)
unfolding apply
apply-IsWellFormed s (puts ns key value ttl trim) w =
    unfold put_value in store_entry-IsWellFormed s ns key _ w
apply-IsWellFormed s (deletes ns key) w = delete_key-IsWellFormed s ns key w
apply-IsWellFormed s (purges ns) w = purge_namespace-IsWellFormed s ns w
apply-IsWellFormed s (expires now) w =
    unfold expire_stale_entries in map_values-IsWellFormed (expire_entry now) s w

load_rows-IsWellFormed :
    (all rows : Table) (s : Store) → IsWellFormed s → IsWellFormed (load_rows all rows s)
unfolding load_rows
load_rows-IsWellFormed all [] s w = w
load_rows-IsWellFormed all (r ∷ rows) s w =
    elim (Bool-cases (r.version == max_version r.namespace r.key all)) [
      | inl h ↦ rw h (
          load_rows-IsWellFormed all rows _
            (store_entry-IsWellFormed s r.namespace r.key (row_entry r) w))
      | inr h ↦ rw h (load_rows-IsWellFormed all rows s w)
    ]

load-IsSynced : (rows : Table) → IsSynced rows (load_from_transaction rows)
load-IsSynced rows ns key =
    rw find-load_from_transaction (elim (Option-cases (stored rows ns key)) [
      | inl h ↦ rw h h
      | inr (e, h) ↦ rw h (λ c. absurd (cc (stored_unchanged rows ns key e h)), λ _. h)
    ])

and_then_namespaces_done :
    (ns : Text) (p : Namespace × Table × Bool) (s : Store) (next : Table → Store × Table × Bool)
    → (and_then_namespaces ns p s next).2 ≡ true
    → (p.2 ≡ true)
      × ((next p.1).2 ≡ true)
      × ((and_then_namespaces ns p s next).0 ≡ (ns, p.0) ∷ (next p.1).0)
      × ((and_then_namespaces ns p s next).1 ≡ (next p.1).1)
and_then_namespaces_done ns (m, rows, false) s next h = absurd (cc)
and_then_namespaces_done ns (m, rows, true) s next h = (refl, h, refl, refl)

module _ (accepts : Row → Bool) (created_at : ℤ) where
  -- What a successful persist does to the store and to the table.
  record PersistedStore (s : Store) (rows : Table) (s' : Store) (rows' : Table) : Type 0 where
    entries : (n k : Text) → find s' n k ≡ settled created_at (find s n k)
    written :
        (n k : Text) (e : Entry)
        → find s n k ≡ some e
        → stored rows' n k ≡ some (settle created_at e)
    others : (n k : Text) → find s n k ≡ none → Same rows rows' n k

  abbrev EntriesSynced : Table → Store → Type 0
  EntriesSynced rows s = (n k : Text) (e : Entry) → find s n k ≡ some e → SyncedAt rows n k (some e)

  PersistedStore-cons :
      (ns : Text) (m m' : Namespace) (s s' : Store) (rows middle rows' : Table)
      → get ns s ≡ none
      → Persisted accepts created_at ns m rows m' middle
      → PersistedStore s middle s' rows'
      → PersistedStore ((ns, m) ∷ s) rows ((ns, m') ∷ s') rows'
  unfolding find get
  PersistedStore-cons ns m m' s s' rows middle rows' new here rest = record {
    entries = λ n k. ground (arith, here.entries k, rest.entries n k);
    written = λ n k e z. elim (text_key.dec n ns) [
      | yes p ↦
          ground (arith, p, here.written k e, (rest.others ns k (unfold find in rw (new, find))).0)
      | no away ↦ ground (arith, rest.written n k e)
    ];
    others = λ n k z. elim (text_key.dec n ns) [
      | yes p ↦
          let absent : get k m ≡ none = ground arith in
          Same-trans accepts created_at rows middle rows' n k (here.others n k (λ _. absent))
            (rest.others n k (ground arith))
      | no away ↦
          Same-trans accepts created_at rows middle rows' n k
            (here.others n k (λ p. absurd (away p))) (rest.others n k (ground arith))
    ];
  }

  EntriesSynced-tail :
      (ns : Text) (m m' : Namespace) (s : Store) (rows middle : Table)
      → get ns s ≡ none
      → Persisted accepts created_at ns m rows m' middle
      → EntriesSynced rows ((ns, m) ∷ s)
      → EntriesSynced middle s
  unfolding find get
  EntriesSynced-tail ns m m' s rows middle new here h n k e z = elim (text_key.dec n ns) [
    | yes p ↦ absurd (ground arith)
    | no away ↦
        SyncedAt-Same accepts created_at rows middle n k e (here.others n k (λ p. absurd (away p)))
          (h n k e (ground arith))
  ]

  persist-PersistedStore :
      (s : Store) (rows : Table)
      → IsWellFormed s
      → EntriesSynced rows s
      → (persist_to_transaction accepts created_at s rows).2 ≡ true
      → PersistedStore s rows
          (persist_to_transaction accepts created_at s rows).0
          (persist_to_transaction accepts created_at s rows).1
  unfolding persist_to_transaction
  persist-PersistedStore [] rows w h done = record {
    entries = λ n k. unfold find get in refl;
    written = λ n k e z. absurd (unfold find get in (cc));
    others = λ n k z. (refl, refl);
  }
  persist-PersistedStore ((ns, m) ∷ s) rows w h done =
      let p = persist_keys accepts created_at ns m rows in
      let next = persist_to_transaction accepts created_at s in
      let (done1, done2, eq0, eq1) = and_then_namespaces_done ns p s next done in
      let here =
        persist_keys-Persisted accepts created_at ns m rows w.1
          (λ k e z. h ns k e (unfold find get in (ground arith))) done1 in
      let rest =
        persist-PersistedStore s p.1 w.2 (EntriesSynced-tail ns m p.0 s rows p.1 w.0 here h)
          done2 in
      rw (eq0, eq1)
        (PersistedStore-cons ns m p.0 s (next p.1).0 rows p.1 (next p.1).1 w.0 here rest)

  -- A persist that reports no error leaves a table from which a load finds, for every key, exactly
  -- the entry that the persist left in memory: the entry from before, with its mark cleared and its
  -- time set if it was marked as changed.
  pub persist-load :
      (s : Store) (rows : Table)
      → IsWellFormed s
      → IsSynced rows s
      → (persist_to_transaction accepts created_at s rows).2 ≡ true
      → (n k : Text)
      → (find (load_from_transaction (persist_to_transaction accepts created_at s rows).1) n k
          ≡ find (persist_to_transaction accepts created_at s rows).0 n k)
        × (find (persist_to_transaction accepts created_at s rows).0 n k
            ≡ settled created_at (find s n k))
  persist-load s rows w h done n k =
      let p = persist_to_transaction accepts created_at s rows in
      let all = persist-PersistedStore s rows w (λ n k e z. rw z at (h n k)) done in
      (
        rw find-load_from_transaction (elim (Option-cases (find s n k)) [
          | inl z ↦ ground (arith, all.entries n k, all.others n k z, rw z at (h n k))
          | inr (e, z) ↦ ground (arith, all.entries n k, all.written n k e z)
        ]),
        all.entries n k,
      )

  persist_keys_total :
      (ns : Text) (m : Namespace) (rows : Table)
      → ((r : Row) → accepts r ≡ true)
      → (persist_keys accepts created_at ns m rows).2 ≡ true
  unfolding persist_keys persist_entry
  persist_keys_total ns [] rows a = refl
  persist_keys_total ns ((key, e) ∷ m) rows a =
      let row = entry_row created_at ns key e in
      ground
        (arith, a row, persist_keys_total ns m rows a, persist_keys_total ns m (rows ++ row ∷ []) a)

  -- While the database takes every INSERT, a persist reports no error.
  pub persist_total :
      (s : Store) (rows : Table)
      → ((r : Row) → accepts r ≡ true)
      → (persist_to_transaction accepts created_at s rows).2 ≡ true
  unfolding persist_to_transaction
  persist_total [] rows a = refl
  persist_total ((ns, m) ∷ s) rows a =
      let p = persist_keys accepts created_at ns m rows in
      ground (arith, persist_keys_total ns m rows a, persist_total s p.1 a)

-- The operations of one command, in order.
unfoldable pub run : Store → List Op → Store
run s [] = s
run s (op ∷ ops) = run (apply s op) ops

run_invariants :
    (rows : Table) (s : Store) (ops : List Op)
    → IsWellFormed s
    → IsSynced rows s
    → IsWellFormed (run s ops) × IsSynced rows (run s ops)
unfolding run
run_invariants rows s [] w h = (w, h)
run_invariants rows s (op ∷ ops) w h =
    run_invariants rows (apply s op) ops (apply-IsWellFormed s op w) (apply-IsSynced rows s op h)

-- A command that loads the store from any table, does any operations and persists without an error
-- leaves a table from which the next command loads, for every key, the entry that this one had, with
-- its mark cleared and its time set if it was marked as changed.
pub session-reload :
    (accepts : Row → Bool) (created_at : ℤ) (rows : Table) (ops : List Op) (n k : Text)
    → (persist_to_transaction accepts created_at (run (load_from_transaction rows) ops) rows).2
      ≡ true
    → find
        (load_from_transaction
          (persist_to_transaction accepts created_at (run (load_from_transaction rows) ops) rows).1)
        n
        k
      ≡ settled created_at (find (run (load_from_transaction rows) ops) n k)
session-reload accepts created_at rows ops n k done =
    let empty : IsWellFormed (load_from_transaction rows) =
      unfold load_from_transaction in load_rows-IsWellFormed rows rows new_store tt in
    let (w, h) = run_invariants rows (load_from_transaction rows) ops empty (load-IsSynced rows) in
    let both =
      persist-load accepts created_at (run (load_from_transaction rows) ops) rows w h done n k in
    both.0 ∙ both.1
