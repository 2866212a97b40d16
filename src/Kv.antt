-- ===== src/Kv.antt =====
-- kv/entry.go, kv/store.go, kv/expiry.go: the in-memory key-value store of one command.
pub mod Table
pub mod Lookup
pub mod Sync
pub mod Reload
pub mod Persist
pub mod Session
mod Samples
use kive.Prelude.{
  ℕ, suc, ◌≡◌, Bool, true, false, not, ◌&&◌, ◌||◌, Option, none, some, List, [], ◌∷◌, Text, ◌==◌,
  if◌then◌else◌, get, put, map_values, trim_space, nat_key, text_key,
}
use kive.Prelude.Int.{ℤ, pos, leb_ℤ, ltb_ℤ, ◌+ℤ◌, int_key}

pub record Entry : Type 0 where
  pub value : Text
  pub version : ℕ
  pub ttl : ℤ
  pub deleted : ℕ
  pub changed : Bool
  pub last_modified_time : ℤ

abbrev pub Namespace : Type 0
Namespace = List (Text × Entry)

abbrev pub Store : Type 0
Store = List (Text × Namespace)

abbrev pub new_store : Store
new_store = []

pub data Error : Type 0 where
  not_found namespace_not_found : Error

-- `s.namespaces[ns][key]`
unfoldable pub find : Store → Text → Text → Option Entry
find s ns key = elim (get ns s) [ none ↦ none | some m ↦ get key m ]

-- `s.namespaceMap(ns)`, whose empty map is stored by the `put` of the caller.
unfoldable pub namespace_map : Store → Text → Namespace
namespace_map s ns = elim (get ns s) [ none ↦ [] | some m ↦ m ]

unfoldable pub store_entry : Store → Text → Text → Entry → Store
store_entry s ns key e = put ns (put key e (namespace_map s ns)) s

unfoldable pub new_entry : Text → ℤ → Entry
new_entry value ttl = record {
  value = value;
  version = 1;
  ttl = ttl;
  deleted = 0;
  changed = true;
  last_modified_time = pos 0;
}

-- The two branches of `putValue` for an entry that exists.
unfoldable pub update_entry : Entry → Text → ℤ → Entry
update_entry e value ttl =
    if e.deleted == 1
    then record e { value = value; ttl = ttl; deleted = 0; version = suc e.version; changed = true }
    else if not (e.ttl == ttl) || not (e.value == value)
    then record e { value = value; ttl = ttl; version = suc e.version; changed = true }
    else e

unfoldable pub put_value : Store → Text → Text → Text → ℤ → Bool → Store
put_value s ns key raw ttl trim =
    let value = if trim then trim_space raw else raw in
    store_entry s ns key (elim (get key (namespace_map s ns)) [
      | none ↦ new_entry value ttl
      | some e ↦ update_entry e value ttl
    ])

unfoldable pub put_key : Store → Text → Text → Text → ℤ → Store
unfolding put_value
put_key s ns key value ttl = put_value s ns key value ttl true

-- Mark an entry deleted: the body that `Delete`, `PurgeNamespace` and the expiry share.
unfoldable pub tombstone : Entry → Entry
tombstone e = record e { deleted = 1; changed = true; version = suc e.version }

unfoldable pub delete_key : Store → Text → Text → Store × Option Error
delete_key s ns key = elim (get ns s) [
  | none ↦ (s, some namespace_not_found)
  | some m ↦ elim (get key m) [
    | none ↦ (s, some not_found)
    | some e ↦ (put ns (put key (tombstone e) m) s, none)
  ]
]

abbrev live_entry : Option Entry → Option Entry
live_entry none = none
live_entry (some e) = if e.deleted == 1 then none else some e

-- `Get`; `none` is `ErrNotFound`.
unfoldable pub get_key : Store → Text → Text → Option Entry
get_key s ns key = elim (get ns s) [ none ↦ none | some m ↦ live_entry (get key m) ]

live_keys : Namespace → List Text
live_keys [] = []
live_keys ((k, e) ∷ m) = let rest = live_keys m in if e.deleted == 1 then rest else k ∷ rest

unfoldable pub get_keys : Store → Text → List Text
unfolding live_keys
get_keys s ns = elim (get ns s) [ none ↦ [] | some m ↦ live_keys m ]

unfoldable pub purge_entry : Entry → Entry
purge_entry e = if e.deleted == 1 then e else tombstone e

unfoldable pub purge_namespace : Store → Text → Store
purge_namespace s ns = elim (get ns s) [ none ↦ s | some m ↦ put ns (map_values purge_entry m) s ]

any_changed : Namespace → Bool
any_changed [] = false
any_changed ((k, e) ∷ m) = e.changed || any_changed m

unfoldable pub has_pending_changes : Store → Bool
unfolding any_changed
has_pending_changes [] = false
has_pending_changes ((ns, m) ∷ s) = any_changed m || has_pending_changes s

-- kv/expiry.go; `now` is `now.Unix()`.
unfoldable pub entry_expired : Entry → ℤ → Bool
entry_expired e now =
    if e.deleted == 1 || leb_ℤ e.ttl (pos 0)
    then false
    else leb_ℤ (e.last_modified_time +ℤ e.ttl) now

unfoldable pub expire_entry : ℤ → Entry → Entry
expire_entry now e =
    if e.deleted == 1 || e.changed || leb_ℤ e.ttl (pos 0)
    then e
    else if ltb_ℤ now (e.last_modified_time +ℤ e.ttl)
    then e
    else tombstone e

unfoldable pub expire_stale_entries : ℤ → Store → Store
expire_stale_entries now s = map_values (map_values (expire_entry now)) s
