-- ===== src/Kv/Sync.antt =====
-- The versions of kv/store.go against the rows of kv/persist.go: an entry that is not marked as
-- changed is what the table holds, and one that is marked has a version above every row of its key.
use kive.Prelude.{
  suc, ◌≡◌, refl, Bool, true, false, ◌&&◌, Option, none, some, arith, Text, ◌==◌, if◌then◌else◌,
  trim_space, nat_key, text_key, Bool-cases, ◌⊎◌, inl, inr,
}
use kive.Prelude.Int.{ℤ, int_key}
use kive.Kv.{
  Entry, Store, find, put_value, delete_key, purge_namespace, expire_stale_entries, new_entry,
  update_entry, tombstone, purge_entry, expire_entry,
}
use kive.Kv.Lookup.{
  put_entry, find-put_value, find-delete_key, find-purge_namespace, find-expire_stale_entries,
}

-- What a client may do to a store between a load and a persist.
pub data Op : Type 0 where
  puts : Text → Text → Text → ℤ → Bool → Op
  deletes : Text → Text → Op
  purges : Text → Op
  expires : ℤ → Op

unfoldable pub apply : Store → Op → Store
apply s (puts ns key value ttl trim) = put_value s ns key value ttl trim
apply s (deletes ns key) = (delete_key s ns key).0
apply s (purges ns) = purge_namespace s ns
apply s (expires now) = expire_stale_entries now s

-- An entry stays as it is, or its version grows by one and it is marked as changed. A new entry
-- has version 1 and is marked; none is dropped.
abbrev pub Evolves : Option Entry → Option Entry → Type 0
Evolves none none = Unit
Evolves none (some e) = (e.version ≡ 1) × (e.changed ≡ true)
Evolves (some e) none = ⊥
Evolves (some e) (some e') = (e' ≡ e) ⊎ ((e'.version ≡ suc e.version) × (e'.changed ≡ true))

Evolves-refl : (o : Option Entry) → Evolves o o
Evolves-refl none = tt
Evolves-refl (some e) = inl refl

put_entry-Evolves :
    (o : Option Entry) (value : Text) (ttl : ℤ) → Evolves o (some (put_entry o value ttl))
unfolding new_entry update_entry
put_entry-Evolves none value ttl = (refl, refl)
put_entry-Evolves (some e) value ttl = ground arith

tombstone-Evolves :
    (o : Option Entry) → Evolves o (elim o [ none ↦ none | some e ↦ some (tombstone e) ])
unfolding tombstone
tombstone-Evolves none = tt
tombstone-Evolves (some e) = inr (refl, refl)

purge_entry-Evolves :
    (o : Option Entry) → Evolves o (elim o [ none ↦ none | some e ↦ some (purge_entry e) ])
unfolding purge_entry tombstone
purge_entry-Evolves none = tt
purge_entry-Evolves (some e) = ground arith

expire_entry-Evolves :
    (now : ℤ) (o : Option Entry)
    → Evolves o (elim o [ none ↦ none | some e ↦ some (expire_entry now e) ])
unfolding expire_entry tombstone
expire_entry-Evolves now none = tt
expire_entry-Evolves now (some e) = ground arith

Evolves-if :
    (b : Bool) (o p q : Option Entry) → Evolves o p → Evolves o q → Evolves o (if b then p else q)
Evolves-if true o p q h k = h
Evolves-if false o p q h k = k

Evolves-at :
    (s : Store) (n k ns key : Text) (f : Option Entry → Option Entry)
    → ((o : Option Entry) → Evolves o (f o))
    → Evolves (find s ns key) (if n == ns && k == key then f (find s n k) else find s ns key)
Evolves-at s n k ns key f h = elim (Bool-cases (n == ns && k == key)) [
  | inl e ↦
      let p : n ≡ ns = ground arith in
      let q : k ≡ key = ground arith in rw (e, p, q) (h (find s ns key))
  | inr e ↦ rw e (Evolves-refl (find s ns key))
]

-- Every operation gives an entry a new version exactly when it changes anything of it, adds one to
-- the version then, and marks the entry as changed; no entry is lost.
pub apply-Evolves :
    (s : Store) (op : Op) (ns key : Text) → Evolves (find s ns key) (find (apply s op) ns key)
unfolding apply
apply-Evolves s (puts n k value ttl trim) ns key = rw find-put_value (
    Evolves-at s n k ns key (λ o. some (put_entry o (if trim then trim_space value else value) ttl))
      (λ o. put_entry-Evolves o (if trim then trim_space value else value) ttl))
apply-Evolves s (deletes n k) ns key = rw find-delete_key (
    Evolves-at s n k ns key (λ o. elim o [ none ↦ none | some e ↦ some (tombstone e) ])
      tombstone-Evolves)
apply-Evolves s (purges n) ns key = rw find-purge_namespace (
    Evolves-if (n == ns) (find s ns key) _ _ (purge_entry-Evolves (find s ns key))
      (Evolves-refl (find s ns key)))
apply-Evolves s (expires now) ns key =
    rw find-expire_stale_entries (expire_entry-Evolves now (find s ns key))
