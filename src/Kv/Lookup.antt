-- ===== src/Kv/Lookup.antt =====
-- kv/store.go as its clients see it: what `Get` returns after each operation.
use kive.Prelude.{
  ◌≡◌, ◌≢◌, ◌↔◌, refl, Bool, true, ◌&&◌, Option, none, some, [], arith, Text, ◌==◌, if◌then◌else◌,
  get, put, map_values, trim_space, nat_key, text_key, get-put, get-map_values, Option-cases, ◌⊎◌,
  inl, inr, ℕ_discrete,
}
use kive.Prelude.Int.{ℤ, int_key}
use kive.Kv.{
  Entry, Store, find, namespace_map, store_entry, new_entry, update_entry, put_value, put_key,
  tombstone, delete_key, get_key, live_entry, purge_entry, purge_namespace, expire_entry,
  expire_stale_entries,
}

pub find-store_entry :
    (s : Store) (ns key : Text) (e : Entry) (n k : Text)
    → find (store_entry s ns key e) n k ≡ (if ns == n && key == k then some e else find s n k)
unfolding find store_entry namespace_map get
find-store_entry s ns key e n k = elim (Option-cases (get ns s)) [
  | inl h ↦ ground (arith, get-put ns n (put key e []) s, get-put key k e [])
  | inr (m, h) ↦ ground (arith, get-put ns n (put key e m) s, get-put key k e m)
]

get-namespace_map : (s : Store) (ns key : Text) → get key (namespace_map s ns) ≡ find s ns key
unfolding namespace_map find get
get-namespace_map s ns key = ground arith

-- What `putValue` leaves in the store: one entry, computed from the one that was there.
abbrev pub put_entry : Option Entry → Text → ℤ → Entry
put_entry none value ttl = new_entry value ttl
put_entry (some e) value ttl = update_entry e value ttl

pub find-put_value :
    (s : Store) (ns key raw : Text) (ttl : ℤ) (trim : Bool) (n k : Text)
    → find (put_value s ns key raw ttl trim) n k ≡ (
        if ns == n && key == k
        then some (put_entry (find s ns key) (if trim then trim_space raw else raw) ttl)
        else find s n k)
unfolding put_value
find-put_value s ns key raw ttl trim n k =
    let value = if trim then trim_space raw else raw in
    elim (Option-cases (find s ns key)) [
      | inl e ↦
          ground
            (arith, find-store_entry s ns key (new_entry value ttl) n k, get-namespace_map s ns key)
      | inr (old, e) ↦ ground (
        arith,
        find-store_entry s ns key (update_entry old value ttl) n k,
        get-namespace_map s ns key,
      )
    ]

pub find-delete_key :
    (s : Store) (ns key n k : Text)
    → find (delete_key s ns key).0 n k ≡ (
        if ns == n && key == k
        then (elim (find s ns key) [ none ↦ none | some e ↦ some (tombstone e) ])
        else find s n k)
unfolding delete_key find
find-delete_key s ns key n k = elim (Option-cases (get ns s)) [
  | inl h ↦ ground arith
  | inr (m, h) ↦ elim (Option-cases (get key m)) [
    | inl h' ↦ ground arith
    | inr (e, h') ↦
        ground (arith, get-put ns n (put key (tombstone e) m) s, get-put key k (tombstone e) m)
  ]
]

pub find-purge_namespace :
    (s : Store) (ns n k : Text)
    → find (purge_namespace s ns) n k ≡ (
        if ns == n
        then (elim (find s n k) [ none ↦ none | some e ↦ some (purge_entry e) ])
        else find s n k)
unfolding purge_namespace find
find-purge_namespace s ns n k = elim (Option-cases (get ns s)) [
  | inl h ↦ ground arith
  | inr (m, h) ↦
      ground (arith, get-put ns n (map_values purge_entry m) s, get-map_values purge_entry k m)
]

pub find-expire_stale_entries :
    (now : ℤ) (s : Store) (n k : Text)
    → find (expire_stale_entries now s) n k
      ≡ (elim (find s n k) [ none ↦ none | some e ↦ some (expire_entry now e) ])
unfolding expire_stale_entries find
find-expire_stale_entries now s n k = elim (Option-cases (get n s)) [
  | inl h ↦ ground (arith, get-map_values (map_values (expire_entry now)) n s)
  | inr (m, h) ↦ ground (
    arith,
    get-map_values (map_values (expire_entry now)) n s,
    get-map_values (expire_entry now) k m,
  )
]

get_key-find : (s : Store) (ns key : Text) → get_key s ns key ≡ live_entry (find s ns key)
unfolding get_key find
get_key-find s ns key = ground arith

put_entry_facts :
    (o : Option Entry) (value : Text) (ttl : ℤ)
    → ((put_entry o value ttl).value ≡ value)
      × ((put_entry o value ttl).ttl ≡ ttl)
      × (live_entry (some (put_entry o value ttl)) ≡ some (put_entry o value ttl))
unfolding new_entry update_entry ℕ_discrete
put_entry_facts none value ttl = (refl, refl, refl)
put_entry_facts (some e) value ttl = ground arith

-- After `Put`, `Get` of that key returns an entry with the trimmed value and the TTL, whether the key
-- was absent, deleted or present; `Get` of any other key returns what it returned before.
pub get_key-put_key :
    (s : Store) (ns key value : Text) (ttl : ℤ) (n k : Text)
    → (get_key (put_key s ns key value ttl) n k ≡ (
        if ns == n && key == k
        then some (put_entry (find s ns key) (trim_space value) ttl)
        else get_key s n k))
      × ((put_entry (find s ns key) (trim_space value) ttl).value ≡ trim_space value)
      × ((put_entry (find s ns key) (trim_space value) ttl).ttl ≡ ttl)
unfolding put_key
get_key-put_key s ns key value ttl n k =
    let (v, t, live) = put_entry_facts (find s ns key) (trim_space value) ttl in
    (
      ground (
        arith,
        live,
        get_key-find s n k,
        get_key-find (put_value s ns key value ttl true) n k,
        find-put_value s ns key value ttl true n k,
      ),
      v,
      t,
    )

get_key-tombstone :
    (o : Option Entry) → live_entry (elim o [ none ↦ none | some e ↦ some (tombstone e) ]) ≡ none
unfolding tombstone ℕ_discrete
get_key-tombstone none = refl
get_key-tombstone (some e) = refl

-- `Delete` fails exactly for a key that was never put, and then the store is unchanged; after it
-- `Get` of the key fails, and `Get` of any other key returns what it returned before.
pub get_key-delete_key :
    (s : Store) (ns key n k : Text)
    → (((delete_key s ns key).1 ≢ none) ↔ (find s ns key ≡ none))
      × (((delete_key s ns key).1 ≡ none) ⊎ ((delete_key s ns key).0 ≡ s))
      × (get_key (delete_key s ns key).0 n k
          ≡ (if ns == n && key == k then none else get_key s n k))
get_key-delete_key s ns key n k = (
  unfold delete_key find in ground arith,
  unfold delete_key in ground arith,
  ground (
    arith,
    get_key-find s n k,
    get_key-find (delete_key s ns key).0 n k,
    find-delete_key s ns key n k,
    get_key-tombstone (find s ns key),
  ),
)

put_entry_twice :
    (o : Option Entry) (value : Text) (ttl : ℤ)
    → put_entry (some (put_entry o value ttl)) value ttl ≡ put_entry o value ttl
unfolding new_entry update_entry ℕ_discrete
put_entry_twice none value ttl = ground arith
put_entry_twice (some e) value ttl = ground arith

-- Putting the value and TTL that were just put changes no entry: no version is added.
pub put_key_twice :
    (s : Store) (ns key value : Text) (ttl : ℤ) (n k : Text)
    → find (put_key (put_key s ns key value ttl) ns key value ttl) n k
      ≡ find (put_key s ns key value ttl) n k
unfolding put_key
put_key_twice s ns key value ttl n k =
    let once = put_value s ns key value ttl true in
    ground (
      arith,
      find-put_value once ns key value ttl true n k,
      find-put_value s ns key value ttl true ns key,
      find-put_value s ns key value ttl true n k,
      put_entry_twice (find s ns key) (trim_space value) ttl,
    )
