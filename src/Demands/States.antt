-- ===== src/Demands/States.antt =====
-- build/build_deployment_sequence.go: what a visit does to the states of the jobs.
use kive.Prelude.{
  ℕ, suc, ◌≤◌, ◌<◌, ◌≡◌, refl, sym, ◌∙◌, Bool, true, false, ◌||◌, List, [], ◌∷◌, ◌++◌, arith, Text,
  text_key, ◌==◌, has, has-append, length, if◌then◌else◌, Bool-cases, inl, inr, ◌⊎◌,
}
use kive.Demands.{
  Graph, demands_of, names, VisitState, unseen, visiting, complete, Visit, passes, circular,
  out_of_fuel, then_visit, mark, visit_all,
}
use kive.Demands.Cycles.{IsCircle, IsOrder}

-- The state of a job, where `path` is being visited and `done` is complete.
abbrev pub expected : List Text → List Text → Text → VisitState
expected path done n = if has n done then complete else if has n path then visiting else unseen

-- The names that are neither visited nor complete.
unfoldable pub remaining : List Text → List Text → List Text → ℕ
remaining [] path done = 0
remaining (k ∷ ks) path done =
    let rest = remaining ks path done in if has k path || has k done then rest else suc rest

abbrev pub Grows : List Text → List Text → Type 0
Grows done done' = (n : Text) → has n done ≡ true → has n done' ≡ true

pub has-snoc_self :
    (k : Text) (path : List Text) (job : Text) → k ≡ job → has k (path ++ job ∷ []) ≡ true
unfolding has
has-snoc_self k [] job e = ground arith
has-snoc_self k (n ∷ path) job e = ground (arith, has-snoc_self k path job)

pub has-snoc_other :
    (k : Text) (path : List Text) (job : Text)
    → (k == job) ≡ false
    → has k (path ++ job ∷ []) ≡ has k path
unfolding has
has-snoc_other k [] job e = ground arith
has-snoc_other k (n ∷ path) job e = ground (arith, has-snoc_other k path job)

pub remaining-Grows :
    (ks path done done' : List Text)
    → Grows done done'
    → remaining ks path done' ≤ remaining ks path done
unfolding remaining
remaining-Grows [] path done done' grows = omega arith
remaining-Grows (k ∷ ks) path done done' grows =
    let ih = remaining-Grows ks path done done' grows in let more = grows k in ground arith

pub remaining-snoc-le :
    (ks path done : List Text) (job : Text)
    → remaining ks (path ++ job ∷ []) done ≤ remaining ks path done
unfolding remaining
remaining-snoc-le [] path done job = omega arith
remaining-snoc-le (k ∷ ks) path done job =
    let ih = remaining-snoc-le ks path done job in
    let e = has-append k path (job ∷ []) in ground arith

-- A name that was neither is being visited now.
pub remaining-snoc :
    (ks path done : List Text) (job : Text)
    → has job ks ≡ true
    → has job path ≡ false
    → has job done ≡ false
    → remaining ks (path ++ job ∷ []) done < remaining ks path done
unfolding remaining has
remaining-snoc [] path done job h p d = absurd (ground arith)
remaining-snoc (k ∷ ks) path done job h p d = elim (Bool-cases (k == job)) [
  | inl here ↦
      let same : k ≡ job = ground arith in
      let le = remaining-snoc-le ks path done job in
      let there = has-snoc_self k path job same in
      let out : has k path ≡ false = rw same p in
      let open_still : has k done ≡ false = rw same d in rw (there, out, open_still) (omega arith)
  | inr later ↦
      let ih = remaining-snoc ks path done job (ground arith) p d in
      let e = has-snoc_other k path job later in rw e (ground arith)
]

pub head_or_tail :
    (n d : Text) (ds : List Text)
    → has n (d ∷ ds) ≡ true
    → (has n (d ∷ []) ≡ true) ⊎ (has n ds ≡ true)
unfolding has
head_or_tail n d ds h = elim (Bool-cases (d == n)) [
  | inl first ↦ inl (rw first refl)
  | inr later ↦ inr (ground arith)
]

pub remaining-bound : (g : Graph) → remaining (names g) [] [] ≤ length g
unfolding remaining has
remaining-bound [] = omega arith
remaining-bound ((n, ds) ∷ g) = let ih = remaining-bound g in omega arith

pub later_name : (n job : Text) (s : List Text) → has n s ≡ true → has n (job ∷ s) ≡ true
unfolding has
later_name n job s h = ground arith

pub first_name : (n job : Text) (s : List Text) → has n (job ∷ []) ≡ true → has n (job ∷ s) ≡ true
unfolding has
first_name n job s h = ground arith

pub is_name : (n job : Text) → (n == job) ≡ true → n ≡ job
is_name n job h = ground arith

pub clash :
    (job n : Text) (path : List Text)
    → (job == n) ≡ true
    → has n path ≡ true
    → has job path ≡ false
    → ⊥
clash job n path same h out = let e = is_name job n same in ground arith

-- The graph says that `n` demands `d`.
abbrev pub demands : Graph → Text → Text → Bool
demands g n d = has d (demands_of n g)

module _ (g : Graph) where
  pub record Inv (st : Text → VisitState) (path done : List Text) : Type 0 where
    pub states : (n : Text) → st n ≡ expected path done n
    pub disjoint : (n : Text) → has n path ≡ true → has n done ≡ false
    pub order : IsOrder (demands g) done

  -- What is reached from now on is complete after the visit; a circle is one.
  abbrev pub Visited : List Text → List Text → List Text → Visit → Type 0
  Visited path done goal (passes st) =
      (done' : List Text) × Inv st path done'
      × Grows done done'
      × ((d : Text) → has d goal ≡ true → has d done' ≡ true)
  Visited path done goal (circular c) = IsCircle (demands g) c
  Visited path done goal out_of_fuel = ⊥

  pub then_visit-Visited :
      (path done goal : List Text) (r : Visit) (k : (Text → VisitState) → Visit)
      (path' goal' : List Text)
      → Visited path done goal r
      → ((st : Text → VisitState) (done' : List Text)
          → Inv st path done'
          → Grows done done'
          → ((d : Text) → has d goal ≡ true → has d done' ≡ true)
          → Visited path' done goal' (k st))
      → Visited path' done goal' (then_visit r k)
  then_visit-Visited path done goal (passes st) k path' goal' (done', inv, grows, met) next =
      next st done' inv grows met
  then_visit-Visited path done goal (circular c) k path' goal' circle next = circle
  then_visit-Visited path done goal out_of_fuel k path' goal' h next = elim h [ ]

  -- A visit after one that met `goal`.
  pub widen :
      (path done1 done2 goal ds both : List Text) (r : Visit)
      → Grows done1 done2
      → ((n : Text) → has n both ≡ true → (has n goal ≡ true) ⊎ (has n ds ≡ true))
      → ((n : Text) → has n goal ≡ true → has n done2 ≡ true)
      → Visited path done2 ds r
      → Visited path done1 both r
  widen path done1 done2 goal ds both (passes st) grows split met (done3, inv, grows3, met3) = (
    done3,
    inv,
    (λ n h. grows3 n (grows n h)),
    (λ n h. elim (split n h) [ inl first ↦ grows3 n (met n first) | inr later ↦ met3 n later ]),
  )
  widen path done1 done2 goal ds both (circular c) grows split met circle = circle
  widen path done1 done2 goal ds both out_of_fuel grows split met h = elim h [ ]

  pub visit_all-Visited :
      (visit : Text → (Text → VisitState) → Visit) (path done goals : List Text)
      (st : Text → VisitState)
      → ((d : Text) (st : Text → VisitState) (done' : List Text)
          → has d goals ≡ true
          → Grows done done'
          → Inv st path done'
          → Visited path done' (d ∷ []) (visit d st))
      → (ds done1 : List Text) → ((d : Text) → has d ds ≡ true → has d goals ≡ true)
      → Grows done done1
      → Inv st path done1
      → Visited path done1 ds (visit_all visit ds st)
  unfolding visit_all has
  visit_all-Visited visit path done goals st each [] done1 sub grows inv =
      (done1, inv, (λ n h. h), (λ d h. absurd (ground arith)))
  visit_all-Visited visit path done goals st each (d ∷ ds) done1 sub grows inv =
      then_visit-Visited path done1 (d ∷ []) (visit d st) (visit_all visit ds) path (d ∷ ds)
        (each d st done1 (sub d (ground arith)) grows inv)
        (λ st2 done2 inv2 grows2 met2.
          widen path done1 done2 (d ∷ []) ds (d ∷ ds) (visit_all visit ds st2) grows2
            (λ n h. head_or_tail n d ds h) met2
            (visit_all-Visited visit path done goals st2 each ds done2 (λ n h. sub n (ground arith))
              (λ n h. grows2 n (grows n h)) inv2))

  pub unseen_names :
      (st : Text → VisitState) (path done : List Text) (job : Text)
      → Inv st path done
      → st job ≡ unseen
      → (has job path ≡ false) × (has job done ≡ false)
  unseen_names st path done job inv fresh =
      let e : expected path done job ≡ unseen = sym (inv.states job) ∙ fresh in ground arith

  pub enter-Inv :
      (st : Text → VisitState) (path done : List Text) (job : Text)
      → Inv st path done
      → st job ≡ unseen
      → Inv (mark job visiting st) (path ++ job ∷ []) done
  enter-Inv st path done job inv fresh =
      let (out, open_still) = unseen_names st path done job inv fresh in
      record {
        states = λ n. elim (Bool-cases (n == job)) [
          | inl here ↦
              let e : n ≡ job = is_name n job here in
              let there = has-snoc_self n path job e in
              let free : has n done ≡ false = rw e open_still in rw (here, there, free) refl
          | inr other ↦ rw (other, has-snoc_other n path job other) (inv.states n)
        ];
        disjoint = λ n h. elim (Bool-cases (n == job)) [
          | inl here ↦ rw (is_name n job here) open_still
          | inr other ↦ inv.disjoint n (sym (has-snoc_other n path job other) ∙ h)
        ];
        order = inv.order;
      }

  pub leave-Inv :
      (st st1 : Text → VisitState) (path done done1 : List Text) (job : Text)
      → Inv st path done
      → st job ≡ unseen
      → Inv st1 (path ++ job ∷ []) done1
      → ((d : Text) → has d (demands_of job g) ≡ true → has d done1 ≡ true)
      → Inv (mark job complete st1) path (job ∷ done1)
  unfolding has
  leave-Inv st st1 path done done1 job inv fresh inv1 met =
      let (out, open_still) = unseen_names st path done job inv fresh in
      let free = inv1.disjoint job (has-snoc_self job path job refl) in
      record {
        states = λ n. elim (Bool-cases (n == job)) [
          | inl here ↦ let same : (job == n) ≡ true = ground arith in rw (here, same) refl
          | inr other ↦
              let differs : (job == n) ≡ false = ground arith in
              rw (other, differs, sym (has-snoc_other n path job other)) (inv1.states n)
        ];
        disjoint = λ n h. elim (Bool-cases (job == n)) [
          | inl here ↦ absurd (clash job n path here h out)
          | inr other ↦
              let differs : (n == job) ≡ false = ground arith in
              rw other (inv1.disjoint n (has-snoc_other n path job differs ∙ h))
        ];
        order = (free, met, inv1.order);
      }
