-- ===== src/Kv/Samples.antt =====
-- Runs of the key-value store of kv/.
use kive.Prelude.{
  ◌≡◌, ◌≢◌, ◌↔◌, ◌⊎◌, ◌&&◌, refl, Bool, true, false, none, some, List, [], ◌∷◌, Text, codes,
  trim_space, ◌==◌, if◌then◌else◌, text_key, list_discrete, ℕ_discrete, get, put,
}
use kive.Prelude.Int.{pos}
use kive.Kv.{
  Store, new_store, find, namespace_map, store_entry, new_entry, put_key, get_key, delete_key,
}
use kive.Kv.Table.{
  Row, Table, is_for, max_version, row_entry, load_from_transaction, persist_to_transaction,
}
use kive.Kv.Lookup.{put_entry, get_key-put_key, get_key-delete_key}
use kive.Kv.Sync.{Op, puts, deletes, purges, expires, apply, Evolves, apply-Evolves}
use kive.Kv.Persist.{settled}
use kive.Kv.Session.{run, session-reload, persist_total}

abbrev ns : Text
ns = codes "kive/bucket"

abbrev port : Text
port = codes "web_port"

abbrev base : Store
base = put_key new_store ns port (codes " 30001 ") (pos 0)

value_is_trimmed : get_key base ns port ≡ some (new_entry (codes "30001") (pos 0))
unfolding put_key get_key put get store_entry namespace_map new_entry trim_space ℕ_discrete
    list_discrete
value_is_trimmed = refl

get_key-put_key_example :
    (get_key (put_key base ns port (codes "8080") (pos 60)) ns port ≡ (
      if ns == ns && port == port
      then some (put_entry (find base ns port) (trim_space (codes "8080")) (pos 60))
      else get_key base ns port))
    × ((put_entry (find base ns port) (trim_space (codes "8080")) (pos 60)).value
        ≡ trim_space (codes "8080"))
    × ((put_entry (find base ns port) (trim_space (codes "8080")) (pos 60)).ttl ≡ pos 60)
get_key-put_key_example = get_key-put_key base ns port (codes "8080") (pos 60) ns port

get_key-delete_key_example :
    (((delete_key base ns port).1 ≢ none) ↔ (find base ns port ≡ none))
    × (((delete_key base ns port).1 ≡ none) ⊎ ((delete_key base ns port).0 ≡ base))
    × (get_key (delete_key base ns port).0 ns port
        ≡ (if ns == ns && port == port then none else get_key base ns port))
get_key-delete_key_example = get_key-delete_key base ns port ns port

apply-Evolves_example : Evolves (find base ns port) (find (apply base (deletes ns port)) ns port)
apply-Evolves_example = apply-Evolves base (deletes ns port) ns port

-- A table with two versions of one key.
abbrev rows : Table
rows =
    (record {
      key = port;
      value = codes "1";
      namespace = ns;
      version = 1;
      ttl = pos 0;
      created_date = pos 10;
      deleted = 0;
    })
    ∷ (record {
      key = port;
      value = codes "2";
      namespace = ns;
      version = 2;
      ttl = pos 0;
      created_date = pos 20;
      deleted = 0;
    })
    ∷ []

abbrev ops : List Op
ops =
    puts ns port (codes "3") (pos 0) true
    ∷ deletes ns (codes "gone")
    ∷ purges (codes "x")
    ∷ expires (pos 99)
    ∷ []

all_accepted : Row → Bool
all_accepted r = true

session-reload_example :
    find
      (load_from_transaction
        (persist_to_transaction all_accepted
          (pos 30)
          (run (load_from_transaction rows) ops)
          rows).1)
      ns
      port
    ≡ settled (pos 30) (find (run (load_from_transaction rows) ops) ns port)
session-reload_example = session-reload all_accepted (pos 30) rows ops ns port (
    persist_total all_accepted (pos 30) (run (load_from_transaction rows) ops) rows
      (λ r. unfold all_accepted in refl))

newest_version_is_loaded :
    find (load_from_transaction rows) ns port
    ≡ some (record {
      value = codes "2";
      version = 2;
      ttl = pos 0;
      deleted = 0;
      changed = false;
      last_modified_time = pos 20;
    })
unfolding find load_from_transaction store_entry namespace_map put get max_version is_for row_entry
    list_discrete ℕ_discrete
newest_version_is_loaded = refl
