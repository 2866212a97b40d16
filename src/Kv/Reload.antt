-- ===== src/Kv/Reload.antt =====
-- kv/persist.go: what a load finds in the table, row by row.
use kive.Prelude.{
  ℕ, ◌<◌, ◌≡◌, refl, Bool, true, false, ◌&&◌, ◌||◌, Option, none, some, [], ◌∷◌, ◌++◌, arith, Text,
  ◌==◌, if◌then◌else◌, nat_key, text_key, Bool-cases, ◌⊎◌, inl, inr, ◌∙◌, ap, get,
}
use kive.Kv.{Entry, Store, find, new_store}
use kive.Kv.Lookup.{find-store_entry}
use kive.Kv.Table.{
  Row, Table, is_for, larger, max_version, row_entry, load_rows, load_from_transaction,
}

-- The last row of the key with version `m`, or `o`.
pick : ℕ → Text → Text → Table → Option Entry → Option Entry
pick m ns key [] o = o
pick m ns key (r ∷ rows) o =
    pick m ns key rows (if is_for ns key r && r.version == m then some (row_entry r) else o)

find-load_rows :
    (all rows : Table) (s : Store) (ns key : Text)
    → find (load_rows all rows s) ns key ≡ pick (max_version ns key all) ns key rows (find s ns key)
unfolding load_rows pick is_for
find-load_rows all [] s ns key = refl
find-load_rows all (r ∷ rows) s ns key =
    find-load_rows all rows _ ns key
    ∙ ap (λ o. pick (max_version ns key all) ns key rows o)
        (ground (arith, find-store_entry s r.namespace r.key (row_entry r) ns key))

-- What the table holds of a key: the last of its rows with the highest version.
pub stored : Table → Text → Text → Option Entry
unfolding pick
stored rows ns key = pick (max_version ns key rows) ns key rows none

-- A load finds for every key exactly what the table holds.
pub find-load_from_transaction :
    (rows : Table) (ns key : Text) → find (load_from_transaction rows) ns key ≡ stored rows ns key
unfolding load_from_transaction stored
find-load_from_transaction rows ns key =
    find-load_rows rows rows new_store ns key ∙ (unfold find get in refl)

max_version-append :
    (ns key : Text) (rows : Table) (r : Row)
    → max_version ns key (rows ++ r ∷ []) ≡ (
        if is_for ns key r
        then larger (max_version ns key rows) r.version
        else max_version ns key rows)
unfolding max_version
max_version-append ns key [] r = ground arith
max_version-append ns key (q ∷ rows) r = ground (arith, max_version-append ns key rows r)

pick-append :
    (m : ℕ) (ns key : Text) (rows : Table) (r : Row) (o : Option Entry)
    → pick m ns key (rows ++ r ∷ []) o
      ≡ (if is_for ns key r && r.version == m then some (row_entry r) else pick m ns key rows o)
unfolding pick
pick-append m ns key [] r o = refl
pick-append m ns key (q ∷ rows) r o =
    pick-append m ns key rows r
      (if is_for ns key q && q.version == m then some (row_entry q) else o)

-- A new row with a version above all rows of its key is what the table holds of that key, and
-- changes nothing for the others.
pub stored-append :
    (rows : Table) (r : Row) (ns key : Text)
    → max_version r.namespace r.key rows < r.version
    → stored (rows ++ r ∷ []) ns key
      ≡ (if r.namespace == ns && r.key == key then some (row_entry r) else stored rows ns key)
unfolding stored is_for
stored-append rows r ns key h = ground (
  arith,
  max_version-append ns key rows r,
  pick-append (max_version ns key (rows ++ r ∷ [])) ns key rows r none,
)

pub max_version-append_new :
    (rows : Table) (r : Row) (ns key : Text)
    → max_version r.namespace r.key rows < r.version
    → max_version ns key (rows ++ r ∷ [])
      ≡ (if r.namespace == ns && r.key == key then r.version else max_version ns key rows)
unfolding is_for
max_version-append_new rows r ns key h = ground (arith, max_version-append ns key rows r)

pick_version :
    (m : ℕ) (ns key : Text) (rows : Table) (o : Option Entry) (e : Entry)
    → pick m ns key rows o ≡ some e
    → (o ≡ some e) ⊎ (e.version ≡ m)
unfolding pick row_entry
pick_version m ns key [] o e h = inl h
pick_version m ns key (r ∷ rows) o e h = ground (
  arith,
  pick_version m ns key rows (if is_for ns key r && r.version == m then some (row_entry r) else o) e
      h,
)

-- What the table holds of a key has the key's highest version.
pub stored_version :
    (rows : Table) (ns key : Text) (e : Entry)
    → stored rows ns key ≡ some e
    → e.version ≡ max_version ns key rows
unfolding stored
stored_version rows ns key e h =
    ground (arith, pick_version (max_version ns key rows) ns key rows none e h)

pick_unchanged :
    (m : ℕ) (ns key : Text) (rows : Table) (o : Option Entry) (e : Entry)
    → pick m ns key rows o ≡ some e
    → (o ≡ some e) ⊎ (e.changed ≡ false)
unfolding pick row_entry
pick_unchanged m ns key [] o e h = inl h
pick_unchanged m ns key (r ∷ rows) o e h = ground (
  arith,
  pick_unchanged m ns key rows (if is_for ns key r && r.version == m then some (row_entry r) else o)
      e h,
)

-- What the table holds is not marked as changed.
pub stored_unchanged :
    (rows : Table) (ns key : Text) (e : Entry) → stored rows ns key ≡ some e → e.changed ≡ false
unfolding stored
stored_unchanged rows ns key e h =
    ground (arith, pick_unchanged (max_version ns key rows) ns key rows none e h)

pick-some :
    (m : ℕ) (ns key : Text) (rows : Table) (e : Entry)
    → (e' : Entry) × (pick m ns key rows (some e) ≡ some e')
unfolding pick
pick-some m ns key [] e = (e, refl)
pick-some m ns key (r ∷ rows) e = elim (Bool-cases (is_for ns key r && r.version == m)) [
  | inl h ↦ rw h (pick-some m ns key rows (row_entry r))
  | inr h ↦ rw h (pick-some m ns key rows e)
]

has_version : ℕ → Text → Text → Table → Bool
has_version m ns key [] = false
has_version m ns key (r ∷ rows) = (is_for ns key r && r.version == m) || has_version m ns key rows

pick-none :
    (m : ℕ) (ns key : Text) (rows : Table)
    → pick m ns key rows none ≡ none
    → has_version m ns key rows ≡ false
unfolding pick has_version
pick-none m ns key [] h = refl
pick-none m ns key (r ∷ rows) h =
    ground (arith, pick-none m ns key rows, (pick-some m ns key rows (row_entry r)).1)

max_version_attained :
    (ns key : Text) (rows : Table)
    → (max_version ns key rows ≡ 0) ⊎ (has_version (max_version ns key rows) ns key rows ≡ true)
unfolding max_version has_version
max_version_attained ns key [] = inl refl
max_version_attained ns key (r ∷ rows) = ground (arith, max_version_attained ns key rows)

-- Of a key that the table does not hold there is no row with a version above 0.
pub stored-none :
    (rows : Table) (ns key : Text) → stored rows ns key ≡ none → max_version ns key rows ≡ 0
unfolding stored
stored-none rows ns key h =
    ground
      (arith, max_version_attained ns key rows, pick-none (max_version ns key rows) ns key rows h)
