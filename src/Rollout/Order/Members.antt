-- ===== src/Rollout/Order/Members.antt =====
-- rollout/order.go: a resolved order names each candidate exactly once.
use kive.Prelude.{
  ◌≡◌, ◌↔◌, refl, true, false, ◌&&◌, ◌||◌, Option, none, some, List, [], ◌∷◌, ◌++◌, arith, Text,
  has, insert, has-append, has-insert, Unique, append-Unique, Option-cases, Bool-cases, inl, inr,
  text_key, ◌∙◌, sym,
}
use kive.Kv.{Store}
use kive.Rollout.Order.{
  check_listed, check_missing, is_empty, validate_rollout_order_list, keep_candidates,
  append_unlisted, default_catalog_order, order_by_list, resolve_order, ResolvedOrder, choose_order,
  parse_order_list, read_rollout_order_kv, kv,
}

has-keep_candidates :
    (candidates ips : List Text) (ip : Text)
    → has ip (keep_candidates candidates ips) ≡ (has ip candidates && has ip ips)
unfolding keep_candidates has
has-keep_candidates candidates [] ip = ground arith
has-keep_candidates candidates (i ∷ ips) ip = ground (arith, has-keep_candidates candidates ips ip)

keep_candidates-Unique :
    (candidates ips : List Text) → Unique ips → Unique (keep_candidates candidates ips)
unfolding keep_candidates
keep_candidates-Unique candidates [] u = tt
keep_candidates-Unique candidates (i ∷ ips) u =
    ground (arith, keep_candidates-Unique candidates ips, has-keep_candidates candidates ips i)

append_unlisted-Unique :
    (candidates ordered : List Text) → Unique ordered → Unique (append_unlisted candidates ordered)
unfolding append_unlisted
append_unlisted-Unique [] ordered u = u
append_unlisted-Unique (ip ∷ candidates) ordered u = ground (
  arith,
  append_unlisted-Unique candidates ordered,
  append_unlisted-Unique candidates (ordered ++ ip ∷ []),
  append-Unique ip ordered,
)

has-append_unlisted :
    (candidates ordered : List Text) (ip : Text)
    → has ip (append_unlisted candidates ordered) ≡ (has ip ordered || has ip candidates)
unfolding append_unlisted has
has-append_unlisted [] ordered ip = ground arith
has-append_unlisted (c ∷ candidates) ordered ip = ground (
  arith,
  has-append_unlisted candidates ordered ip,
  has-append_unlisted candidates (ordered ++ c ∷ []) ip,
  has-append ip ordered (c ∷ []),
)

-- What the first loop of the validation ensures of the part of the list that it has still to read.
check_listed_lem :
    (ips active seen : List Text) (ip : Text)
    → check_listed ips active seen ≡ none
    → has ip ips ≡ true
    → (has ip active ≡ true) × (has ip seen ≡ false)
unfolding check_listed has
check_listed_lem [] active seen ip h m = absurd (cc)
check_listed_lem (i ∷ ips) active seen ip h m =
    ground (arith, check_listed_lem ips active (insert i seen) ip, has-insert i ip seen)

check_listed-Unique :
    (ips active seen : List Text) → check_listed ips active seen ≡ none → Unique ips
unfolding check_listed
check_listed-Unique [] active seen h = tt
check_listed-Unique (i ∷ ips) active seen h = ground (
  arith,
  check_listed-Unique ips active (insert i seen),
  check_listed_lem ips active (insert i seen) i,
  has-insert i i seen,
  Bool-cases (has i ips),
)

check_missing_lem :
    (active seen : List Text) (ip : Text)
    → check_missing active seen ≡ none
    → has ip active ≡ true
    → has ip seen ≡ true
unfolding check_missing has
check_missing_lem [] seen ip h m = absurd (cc)
check_missing_lem (a ∷ active) seen ip h m = ground (arith, check_missing_lem active seen ip)

-- A list that is accepted names each active allocation, names no other, and none twice.
pub validate_rollout_order_list_lem :
    (order_list active : List Text) (ip : Text)
    → validate_rollout_order_list order_list active ≡ none
    → Unique order_list × (has ip order_list ≡ has ip active)
unfolding validate_rollout_order_list
validate_rollout_order_list_lem order_list active ip h = (
  ground (arith, check_listed-Unique order_list active []),
  ground (
    arith,
    check_listed_lem order_list active [] ip,
    check_missing_lem active order_list ip,
    Bool-cases (has ip order_list),
    Bool-cases (has ip active),
  ),
)

keep_candidates_all :
    (candidates ips : List Text)
    → ((ip : Text) → has ip ips ≡ true → has ip candidates ≡ true)
    → keep_candidates candidates ips ≡ ips
unfolding keep_candidates has
keep_candidates_all candidates [] h = refl
keep_candidates_all candidates (i ∷ ips) h =
    ground (arith, h i, keep_candidates_all candidates ips (λ ip m. h ip (ground arith)))

check_listed_accepts :
    (ips active seen : List Text)
    → Unique ips
    → ((ip : Text) → has ip ips ≡ true → (has ip active ≡ true) × (has ip seen ≡ false))
    → check_listed ips active seen ≡ none
unfolding check_listed has
check_listed_accepts [] active seen u h = refl
check_listed_accepts (i ∷ ips) active seen u h =
    let (known, new) = h i (ground arith) in
    let rest =
      check_listed_accepts ips active (insert i seen) u.1
        λ ip m. ground (arith, h ip, has-insert i ip seen) in
    ground (arith, rest, known, new)

check_missing_accepts :
    (active seen : List Text)
    → ((ip : Text) → has ip active ≡ true → has ip seen ≡ true)
    → check_missing active seen ≡ none
unfolding check_missing has
check_missing_accepts [] seen h = refl
check_missing_accepts (a ∷ active) seen h =
    let here = h a (ground arith) in
    let rest = check_missing_accepts active seen λ ip m. h ip (ground arith) in
    ground (arith, here, rest)

empty_has : (ips : List Text) (ip : Text) → is_empty ips ≡ true → has ip ips ≡ false
unfolding has
empty_has [] ip h = refl
empty_has (i ∷ ips) ip h = absurd (cc)

nonempty_member : (ips : List Text) → is_empty ips ≡ false → (ip : Text) × (has ip ips ≡ true)
unfolding has
nonempty_member [] h = absurd (cc)
nonempty_member (i ∷ ips) h = (i, ground arith)

-- `validateRolloutOrderList` accepts exactly the lists that name each active allocation once and
-- nothing else.
pub validate_rollout_order_list_iff :
    (order_list active : List Text)
    → (validate_rollout_order_list order_list active ≡ none)
      ↔ (Unique order_list × ((ip : Text) → has ip order_list ≡ has ip active))
validate_rollout_order_list_iff order_list active = (
  λ h. (
    (validate_rollout_order_list_lem order_list active [] h).0,
    λ ip. (validate_rollout_order_list_lem order_list active ip h).1,
  ),
  λ (u, same).
      let listed =
        check_listed_accepts order_list active [] u
          λ ip m. (sym (same ip) ∙ m, unfold has in refl) in
      let missed = check_missing_accepts active order_list λ ip m. same ip ∙ m in
      unfold validate_rollout_order_list has in
      (elim (Bool-cases (is_empty active)) [
        | inl e ↦ ground (arith, listed, missed)
        | inr e ↦
            let (ip, m) = nonempty_member active e in
            ground (arith, listed, missed, same ip, empty_has order_list ip)
      ]),
)

-- The order that `ResolveOrder` returns names each candidate exactly once, wherever it comes from.
abbrev pub Covers : List Text → Option ResolvedOrder → Type 0
Covers candidates none = ⊥
Covers candidates (some r) = Unique r.ordered × ((ip : Text) → has ip r.ordered ≡ has ip candidates)

default_order-Covers :
    (catalog candidates : List Text)
    → Unique catalog
    → Unique (append_unlisted candidates (keep_candidates candidates catalog))
      × ((ip : Text)
          → has ip (append_unlisted candidates (keep_candidates candidates catalog))
            ≡ has ip candidates)
default_order-Covers catalog candidates u = (
  append_unlisted-Unique candidates _ (keep_candidates-Unique candidates catalog u),
  λ ip. ground (
    arith,
    has-append_unlisted candidates (keep_candidates candidates catalog) ip,
    has-keep_candidates candidates catalog ip,
  ),
)

choose_order-Covers :
    (raw : Option Text) (candidates ordered : List Text)
    → Unique ordered
    → ((ip : Text) → has ip ordered ≡ has ip candidates)
    → Covers candidates (some (choose_order raw candidates ordered))
unfolding choose_order order_by_list
choose_order-Covers none candidates ordered u h = (u, h)
choose_order-Covers (some raw) candidates ordered u h =
    let listed = parse_order_list raw in
    elim (Option-cases (validate_rollout_order_list listed candidates)) [
      | inl e ↦
          let (unique, same) = (validate_rollout_order_list_iff listed candidates).0 e in
          rw (e, choose_order)
            (
              keep_candidates-Unique candidates listed unique,
              λ ip. ground (arith, has-keep_candidates candidates listed ip, same ip),
            )
      | inr (reason, e) ↦ rw (e, choose_order) (u, h)
    ]

-- While the catalog names no allocation twice, `ResolveOrder` returns an order that names each
-- candidate exactly once and nothing else, whatever the operator's list in the store says.
pub resolve_order-Covers :
    (store : Option Store) (catalog : List Text) (job : Text) (candidates : List Text)
    → Unique catalog
    → Covers candidates (resolve_order store (some catalog) job candidates)
unfolding resolve_order default_catalog_order
resolve_order-Covers store catalog job [] u = (tt, λ ip. refl)
resolve_order-Covers store catalog job (c ∷ cs) u =
    let (unique, same) = default_order-Covers catalog (c ∷ cs) u in
    choose_order-Covers (read_rollout_order_kv store job) (c ∷ cs) _ unique same

-- An operator's list that is valid is the order, word for word.
pub resolve_order_kv :
    (store : Option Store) (catalog : List Text) (job raw c : Text) (cs : List Text)
    → read_rollout_order_kv store job ≡ some raw
    → validate_rollout_order_list (parse_order_list raw) (c ∷ cs) ≡ none
    → resolve_order store (some catalog) job (c ∷ cs)
      ≡ some (record { ordered = parse_order_list raw; full_order = raw; source = some kv })
unfolding resolve_order default_catalog_order choose_order order_by_list
resolve_order_kv store catalog job raw c cs read valid =
    let listed = parse_order_list raw in
    let (unique, same) = (validate_rollout_order_list_iff listed (c ∷ cs)).0 valid in
    ground (arith, read, valid, keep_candidates_all (c ∷ cs) listed (λ ip m. sym (same ip) ∙ m))
