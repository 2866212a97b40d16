-- ===== src/Demands/Load.antt =====
-- build/build_deployment_sequence.go: the demands that are loaded from the rows.
use kive.Prelude.{
  ◌≡◌, refl, sym, ◌∙◌, true, ◌&&◌, ◌||◌, none, some, List, [], ◌∷◌, ◌++◌, arith, Text, text_key,
  ◌==◌, has, has-append, get, put, get-put, if◌then◌else◌, Bool-cases, Option-cases, inl, inr,
}
use mathlib.Core.Path.{subst}
use kive.Demands.{Graph, demands_of, names, ensure_entry, add_dependency, load_hook_dependencies}
use kive.Demands.Query.{in_rows}
use kive.Demands.Cycles.{names-get}
use kive.Demands.Search.{IsClosed}

names-put :
    (n k : Text) (ds : List Text) (g : Graph)
    → has n (names (put k ds g)) ≡ (k == n || has n (names g))
unfolding put has
names-put n k ds [] = ground arith
names-put n k ds ((j, es) ∷ g) = ground (arith, names-put n k ds g)

demands_of_absent : (d : Text) (g : Graph) → get d g ≡ none → demands_of d g ≡ []
unfolding demands_of
demands_of_absent d g h = rw (h, demands_of) refl

pub names-demands :
    (n d : Text) (g : Graph) → has d (demands_of n g) ≡ true → has n (names g) ≡ true
unfolding has
names-demands n d g h = elim (Option-cases (get n g)) [
  | inl absent ↦ absurd (nothing (demands_of_absent n g absent) h)
  | inr (ds, there) ↦ names-get n ds g there
]
  where
    nothing : demands_of n g ≡ [] → has d (demands_of n g) ≡ true → ⊥
    nothing e h = let f = subst (λ s. has d s ≡ true) e h in ground arith

demands_of-put :
    (n k : Text) (ds : List Text) (g : Graph)
    → demands_of n (put k ds g) ≡ (if k == n then ds else demands_of n g)
unfolding demands_of
demands_of-put n k ds g = elim (Bool-cases (k == n)) [
  | inl here ↦
      let e : get n (put k ds g) ≡ some ds = get-put k n ds g ∙ (rw here refl) in
      rw (here, e, demands_of) refl
  | inr other ↦
      let e : get n (put k ds g) ≡ get n g = get-put k n ds g ∙ (rw other refl) in
      rw (other, e, demands_of) refl
]

ensure_entry_absent : (d : Text) (g : Graph) → get d g ≡ none → ensure_entry d g ≡ put d [] g
unfolding ensure_entry
ensure_entry_absent d g h = rw (h, ensure_entry) refl

ensure_entry_there :
    (d : Text) (ds : List Text) (g : Graph) → get d g ≡ some ds → ensure_entry d g ≡ g
unfolding ensure_entry
ensure_entry_there d ds g h = rw (h, ensure_entry) refl

demands_of-ensure_entry :
    (n d : Text) (g : Graph) → demands_of n (ensure_entry d g) ≡ demands_of n g
demands_of-ensure_entry n d g = elim (Option-cases (get d g)) [
  | inr (ds, e) ↦ rw (ensure_entry_there d ds g e) refl
  | inl absent ↦
      rw (ensure_entry_absent d g absent, demands_of-put n d [] g)
        (elim (Bool-cases (d == n)) [
          | inl here ↦
              let e : d ≡ n = ground arith in rw (here, sym e, demands_of_absent d g absent) refl
          | inr other ↦ rw other refl
        ])
]

swap : (s : List Text) (d e : Text) → (has d s || has d (e ∷ [])) ≡ (e == d || has d s)
unfolding has
swap s d e = ground arith

has-demands_of-add_dependency :
    (n d job e : Text) (g : Graph)
    → has d (demands_of n (add_dependency job e g))
      ≡ ((job == n && e == d) || has d (demands_of n g))
unfolding add_dependency
has-demands_of-add_dependency n d job e g =
    rw
      (
        demands_of-ensure_entry n e (put job (demands_of job g ++ e ∷ []) g),
        demands_of-put n job (demands_of job g ++ e ∷ []) g,
      )
      (elim (Bool-cases (job == n)) [
        | inr other ↦ rw other refl
        | inl here ↦
            let same : job ≡ n = ground arith in
            rw (here, has-append d (demands_of job g) (e ∷ []), same) (swap (demands_of n g) d e)
      ])

has-names-ensure_entry :
    (n d : Text) (g : Graph) → has n (names (ensure_entry d g)) ≡ (d == n || has n (names g))
has-names-ensure_entry n d g = elim (Option-cases (get d g)) [
  | inl absent ↦ rw (ensure_entry_absent d g absent) (names-put n d [] g)
  | inr (ds, e) ↦
      let there = names-get d ds g e in
      rw (ensure_entry_there d ds g e) (elim (Bool-cases (d == n)) [
        | inl here ↦ let same : d ≡ n = ground arith in rw (here, sym same) there
        | inr other ↦ rw other refl
      ])
]

add_dependency-IsClosed :
    (job e : Text) (g : Graph) → IsClosed g → IsClosed (add_dependency job e g)
unfolding add_dependency
add_dependency-IsClosed job e g closed n d h =
    let g' = put job (demands_of job g ++ e ∷ []) g in
    let before = sym (has-demands_of-add_dependency n d job e g) ∙ h in
    rw (has-names-ensure_entry d e g', names-put d job (demands_of job g ++ e ∷ []) g)
      (elim (Bool-cases (e == d)) [
        | inl here ↦ rw here refl
        | inr other ↦ let c = closed n d (ground arith) in rw (other, c) (ground arith)
      ])

pub load_hook_dependencies-IsClosed :
    (rows : List (Text × Text)) (g : Graph) → IsClosed g → IsClosed (load_hook_dependencies rows g)
unfolding load_hook_dependencies
load_hook_dependencies-IsClosed [] g h = h
load_hook_dependencies-IsClosed ((job, d) ∷ rows) g h =
    load_hook_dependencies-IsClosed rows (add_dependency job d g)
      (add_dependency-IsClosed job d g h)

pub has-demands_of-load :
    (n d : Text) (rows : List (Text × Text)) (g : Graph)
    → has d (demands_of n (load_hook_dependencies rows g))
      ≡ (in_rows n d rows || has d (demands_of n g))
unfolding load_hook_dependencies
has-demands_of-load n d [] g = refl
has-demands_of-load n d ((job, e) ∷ rows) g =
    let step = has-demands_of-add_dependency n d job e g in
    rw (has-demands_of-load n d rows (add_dependency job e g), step) (ground arith)
