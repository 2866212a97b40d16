-- ===== src/Rollout/Order.antt =====
-- rollout/order.go: the order in which the allocations of a job are rolled out.
pub mod Members
use kive.Prelude.{
  ℕ, ◌≡◌, Bool, true, false, not, ◌&&◌, Option, none, some, List, [], ◌∷◌, ◌++◌, Text, codes, ◌==◌,
  if◌then◌else◌, has, insert, trim_space, split, join, text_key,
}
use kive.Kv.{Store, Entry, get_key}

pub data OrderSource : Type 0 where
  kv default : OrderSource

pub record ResolvedOrder : Type 0 where
  pub ordered : List Text
  pub full_order : Text
  pub source : Option OrderSource

pub data Invalid : Type 0 where
  empty_list : Invalid
  duplicate unknown missing : Text → Invalid

rollout_order_key : Text
rollout_order_key = codes "rollout_order"

job_kv_namespace : Text → Text
job_kv_namespace job = codes "kive/job/" ++ job

-- `ok` is false where the store is not loaded, the key is missing or the value is blank.
unfoldable pub read_rollout_order_kv : Option Store → Text → Option Text
unfolding rollout_order_key job_kv_namespace
read_rollout_order_kv none job = none
read_rollout_order_kv (some store) job =
    elim (get_key store (job_kv_namespace job) rollout_order_key) [
      | none ↦ none
      | some item ↦ if trim_space item.value == [] then none else some (trim_space item.value)
    ]

trimmed_parts : List Text → List Text
trimmed_parts [] = []
trimmed_parts (part ∷ parts) =
    let rest = trimmed_parts parts in if trim_space part == [] then rest else trim_space part ∷ rest

unfoldable pub parse_order_list : Text → List Text
unfolding trimmed_parts
parse_order_list raw = trimmed_parts (split b',' raw)

-- The first loop: each entry is new and active. It returns the set `seen`.
unfoldable pub check_listed : List Text → List Text → List Text → Option Invalid
check_listed [] active seen = none
check_listed (ip ∷ ips) active seen =
    let rest = check_listed ips active (insert ip seen) in
    if has ip seen
    then some (duplicate ip)
    else if not (has ip active)
    then some (unknown ip)
    else rest

-- The second loop: each active allocation was listed.
unfoldable pub check_missing : List Text → List Text → Option Invalid
check_missing [] seen = none
check_missing (ip ∷ active) seen =
    let rest = check_missing active seen in if has ip seen then rest else some (missing ip)

abbrev or_else : Option Invalid → Option Invalid → Option Invalid
or_else none next = next
or_else (some e) next = some e

abbrev pub is_empty : List Text → Bool
is_empty [] = true
is_empty (x ∷ xs) = false

-- `none` is a valid list. After the first loop `seen` holds what `order_list` holds.
unfoldable pub validate_rollout_order_list : List Text → List Text → Option Invalid
validate_rollout_order_list order_list active =
    if is_empty order_list && not (is_empty active)
    then some empty_list
    else or_else (check_listed order_list active []) (check_missing active order_list)

unfoldable pub keep_candidates : List Text → List Text → List Text
keep_candidates candidates [] = []
keep_candidates candidates (ip ∷ ips) =
    let rest = keep_candidates candidates ips in if has ip candidates then ip ∷ rest else rest

-- The last loop of `defaultCatalogOrder`.
unfoldable pub append_unlisted : List Text → List Text → List Text
append_unlisted [] ordered = ordered
append_unlisted (ip ∷ candidates) ordered =
    append_unlisted candidates (if has ip ordered then ordered else ordered ++ ip ∷ [])

-- `catalog` is what the query for the job's allocations returns, `none` its error.
unfoldable pub default_catalog_order : Option (List Text) → List Text → Option (List Text)
default_catalog_order none candidates = none
default_catalog_order (some catalog) candidates =
    some (append_unlisted candidates (keep_candidates candidates catalog))

unfoldable pub order_by_list : List Text → List Text → List Text
order_by_list candidates order_list = keep_candidates candidates order_list

abbrev default_order : List Text → ResolvedOrder
default_order ordered = record {
  ordered = ordered;
  full_order = join (codes ",") ordered;
  source = some default;
}

choose_order : Option Text → List Text → List Text → ResolvedOrder
choose_order none candidates ordered = default_order ordered
choose_order (some raw) candidates ordered =
    elim (validate_rollout_order_list (parse_order_list raw) candidates) [
      | some reason ↦ default_order ordered
      | none ↦ record {
        ordered = order_by_list candidates (parse_order_list raw);
        full_order = raw;
        source = some kv;
      }
    ]

unfoldable pub resolve_order :
    Option Store → Option (List Text) → Text → List Text → Option ResolvedOrder
unfolding choose_order
resolve_order store catalog job [] = some (record { ordered = []; full_order = []; source = none })
resolve_order store catalog job (c ∷ cs) = elim (default_catalog_order catalog (c ∷ cs)) [
  | none ↦ none
  | some ordered ↦ some (choose_order (read_rollout_order_kv store job) (c ∷ cs) ordered)
]
