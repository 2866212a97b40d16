-- ===== src/Rollout/Samples.antt =====
-- Runs of the rollout order and of the batches.
use kive.Prelude.{
  ℕ, ◌≡◌, ◌≤◌, ◌↔◌, refl, none, some, List, [], ◌∷◌, arith, Text, codes, Unique, has, get, put,
  insert, length, ltb, if◌then◌else◌, ◌⊎◌, text_key, list_discrete, ℕ_discrete, trim_space, split,
}
use kive.Prelude.Int.{pos}
use kive.Kv.{Store, new_store, new_entry, put_key, get_key, store_entry, namespace_map}
use kive.Rollout.Batches.{
  concat, Bounded, split_worker_batches, split_worker_batches_lem, batch_count,
  effective_batch_size, effective_batch_size_range,
}
use kive.Rollout.Order.{
  parse_order_list, validate_rollout_order_list, read_rollout_order_kv, resolve_order, kv,
  check_listed, check_missing,
}
use kive.Rollout.Order.Members.{
  Covers, resolve_order-Covers, resolve_order_kv, validate_rollout_order_list_iff,
}

abbrev a1 : Text
a1 = codes "10.0.0.1"

abbrev a2 : Text
a2 = codes "10.0.0.2"

abbrev candidates : List Text
candidates = a1 ∷ a2 ∷ []

abbrev raw : Text
raw = codes "10.0.0.2, 10.0.0.1"

abbrev store : Store
store = put_key new_store (codes "kive/job/web") (codes "rollout_order") raw (pos 0)

batches_of_two : split_worker_batches {A = ℕ} (1 ∷ 2 ∷ 3 ∷ []) 2 ≡ (1 ∷ 2 ∷ []) ∷ (3 ∷ []) ∷ []
unfolding split_worker_batches
batches_of_two = refl

split_worker_batches_lem_example :
    (concat (split_worker_batches candidates 1) ≡ candidates)
    × Bounded (if ltb 1 1 then length candidates else 1) (split_worker_batches candidates 1)
    × (length (split_worker_batches candidates 1) ≡ batch_count (length candidates) 1)
split_worker_batches_lem_example = split_worker_batches_lem candidates 1

effective_batch_size_range_example :
    (1 ≤ effective_batch_size 4 10 3)
    × (effective_batch_size 4 10 3 ≤ 10)
    × ((◌≡◌ {A = ℕ} 3 0) ⊎ (effective_batch_size 4 10 3 ≤ 3))
    × ((◌≡◌ {A = ℕ} 4 0) ⊎ (effective_batch_size 4 10 3 ≤ 4))
effective_batch_size_range_example = effective_batch_size_range 4 10 3 (omega arith)

distinct : Unique candidates
unfolding has list_discrete
distinct = (refl, (refl, tt))

resolve_order-Covers_example :
    Covers candidates (resolve_order (some store) (some candidates) (codes "web") candidates)
resolve_order-Covers_example =
    resolve_order-Covers (some store) candidates (codes "web") candidates distinct

read_raw : read_rollout_order_kv (some store) (codes "web") ≡ some raw
unfolding read_rollout_order_kv put_key get_key store_entry namespace_map trim_space ℕ_discrete get
    put list_discrete new_entry
read_raw = refl

listed_is_valid : validate_rollout_order_list (parse_order_list raw) candidates ≡ none
unfolding validate_rollout_order_list parse_order_list split trim_space ℕ_discrete list_discrete
    check_listed has insert check_missing
listed_is_valid = refl

resolve_order_kv_example :
    resolve_order (some store) (some candidates) (codes "web") candidates
    ≡ some (record { ordered = parse_order_list raw; full_order = raw; source = some kv })
resolve_order_kv_example =
    resolve_order_kv (some store) candidates (codes "web") raw a1 (a2 ∷ []) read_raw listed_is_valid

validate_rollout_order_list_iff_example :
    (validate_rollout_order_list (a2 ∷ a1 ∷ []) candidates ≡ none)
    ↔ (Unique (a2 ∷ a1 ∷ []) × ((ip : Text) → has ip (a2 ∷ a1 ∷ []) ≡ has ip candidates))
validate_rollout_order_list_iff_example = validate_rollout_order_list_iff (a2 ∷ a1 ∷ []) candidates
