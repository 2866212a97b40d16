-- ===== src/Kv/Table.antt =====
-- kv/persist.go and kv/purge.go: the table `key_value`, and the store's way to it and back. A row is
-- never changed in place. `accepts` stands for the database: whether it takes an INSERT.
use kive.Prelude.{
  ℕ, Bool, true, false, ◌&&◌, List, [], ◌∷◌, ◌++◌, Text, ◌==◌, ltb, if◌then◌else◌, nat_key,
  text_key,
}
use kive.Prelude.Int.{ℤ}
use kive.Kv.{Entry, Namespace, Store, new_store, store_entry}

pub record Row : Type 0 where
  pub key : Text
  pub value : Text
  pub namespace : Text
  pub version : ℕ
  pub ttl : ℤ
  pub created_date : ℤ
  pub deleted : ℕ

abbrev pub Table : Type 0
Table = List Row

unfoldable pub is_for : Text → Text → Row → Bool
is_for ns key r = r.namespace == ns && r.key == key

abbrev pub larger : ℕ → ℕ → ℕ
larger a b = if ltb a b then b else a

-- `SELECT MAX(version) … WHERE namespace = … AND key = …`, 0 where there is no such row.
unfoldable pub max_version : Text → Text → Table → ℕ
max_version ns key [] = 0
max_version ns key (r ∷ rows) =
    let rest = max_version ns key rows in if is_for ns key r then larger r.version rest else rest

unfoldable pub row_entry : Row → Entry
row_entry r = record {
  value = r.value;
  version = r.version;
  ttl = r.ttl;
  deleted = r.deleted;
  changed = false;
  last_modified_time = r.created_date;
}

-- `loadLatestEntriesQuery` over `all`, and the loop over its rows.
unfoldable pub load_rows : Table → Table → Store → Store
load_rows all [] s = s
load_rows all (r ∷ rows) s = load_rows all rows (
    if r.version == max_version r.namespace r.key all
    then store_entry s r.namespace r.key (row_entry r)
    else s)

unfoldable pub load_from_transaction : Table → Store
unfolding load_rows
load_from_transaction rows = load_rows rows rows new_store

unfoldable pub entry_row : ℤ → Text → Text → Entry → Row
entry_row created_at ns key e = record {
  key = key;
  value = e.value;
  namespace = ns;
  version = e.version;
  ttl = e.ttl;
  created_date = created_at;
  deleted = e.deleted;
}

-- A failed INSERT ends the loop: what follows stays as it is.
abbrev pub and_then_entries :
    Text
    → Entry × Table × Bool
    → Namespace
    → (Table → Namespace × Table × Bool)
    → Namespace × Table × Bool
and_then_entries key (e, rows, false) m next = ((key, e) ∷ m, rows, false)
and_then_entries key (e, rows, true) m next =
    let (m', rows', done) = next rows in ((key, e) ∷ m', rows', done)

abbrev pub and_then_namespaces :
    Text → Namespace × Table × Bool → Store → (Table → Store × Table × Bool) → Store × Table × Bool
and_then_namespaces ns (m, rows, false) s next = ((ns, m) ∷ s, rows, false)
and_then_namespaces ns (m, rows, true) s next =
    let (s', rows', done) = next rows in ((ns, m) ∷ s', rows', done)

module _ (accepts : Row → Bool) (created_at : ℤ) where
  -- One entry: its new state, the new table, and whether the INSERT went through.
  unfoldable pub persist_entry : Text → Text → Entry → Table → Entry × Table × Bool
  persist_entry ns key e rows =
      if e.changed
      then (if accepts (entry_row created_at ns key e)
          then (
            record e { changed = false; last_modified_time = created_at },
            rows ++ entry_row created_at ns key e ∷ [],
            true,
          )
          else (e, rows, false))
      else (e, rows, true)

  unfoldable pub persist_keys : Text → Namespace → Table → Namespace × Table × Bool
  persist_keys ns [] rows = ([], rows, true)
  persist_keys ns ((key, e) ∷ m) rows =
      and_then_entries key (persist_entry ns key e rows) m (persist_keys ns m)

  -- `PersistToTransaction`: the store, the table, and false for the error of a failed INSERT.
  unfoldable pub persist_to_transaction : Store → Table → Store × Table × Bool
  persist_to_transaction [] rows = ([], rows, true)
  persist_to_transaction ((ns, m) ∷ s) rows =
      and_then_namespaces ns (persist_keys ns m rows) s (persist_to_transaction s)
