-- ===== src/Demands/Cycles.antt =====
-- build/build_deployment_sequence.go: circles of demands, and orders in which every job comes after the
-- jobs that it demands.
use kive.Prelude.{
  ℕ, suc, ◌≤◌, ◌<◌, ◌≡◌, refl, Bool, true, false, List, [], ◌∷◌, ◌++◌, arith, Text, text_key, ◌==◌,
  has, length, if◌then◌else◌, Bool-cases, inl, inr, some, get,
}
use mathlib.Core.Path.{subst}
use kive.Demands.{Graph, names, path_from}

pub names-get : (n : Text) (ds : List Text) (g : Graph) → get n g ≡ some ds → has n (names g) ≡ true
unfolding get has
names-get n ds [] h = absurd (ground arith)
names-get n ds ((k, v) ∷ g) h = ground (arith, names-get n ds g)

pub other_member :
    (k d : Text) (s : List Text) → has k s ≡ false → has d s ≡ true → (k == d) ≡ false
other_member k d s fresh member = elim (Bool-cases (k == d)) [
  | inl same ↦ let e : k ≡ d = ground arith in absurd (absent k d s e fresh member)
  | inr differs ↦ differs
]
  where
    absent : (k d : Text) (s : List Text) → k ≡ d → has k s ≡ false → has d s ≡ true → ⊥
    absent k d s e fresh member = ground arith

module _ (edge : Text → Text → Bool) where
  -- Each job but the last demands the next one.
  abbrev pub IsPath : List Text → Type 0
  IsPath [] = Unit
  IsPath (a ∷ []) = Unit
  IsPath (a ∷ b ∷ p) = (edge a b ≡ true) × IsPath (b ∷ p)

  -- A path of demands from a job back to it.
  pub record IsCircle (c : List Text) : Type 0 where
    pub job : Text
    pub between : List Text
    pub shape : c ≡ job ∷ (between ++ job ∷ [])
    pub path : IsPath c

  -- The first one was finished last: its demands are among the others.
  abbrev pub IsOrder : List Text → Type 0
  IsOrder [] = Unit
  IsOrder (n ∷ done) =
      (has n done ≡ false) × ((d : Text) → edge n d ≡ true → has d done ≡ true) × IsOrder done

  pub IsPath-snoc :
      (p : List Text) (a b : Text)
      → IsPath (p ++ a ∷ [])
      → edge a b ≡ true
      → IsPath ((p ++ a ∷ []) ++ b ∷ [])
  IsPath-snoc [] a b h e = (e, tt)
  IsPath-snoc (x ∷ []) a b (e', h) e = (e', (e, tt))
  IsPath-snoc (x ∷ y ∷ p) a b (e', h) e = (e', IsPath-snoc (y ∷ p) a b h e)

  tail-IsPath : (a : Text) (p : List Text) → IsPath (a ∷ p) → IsPath p
  tail-IsPath a [] h = tt
  tail-IsPath a (b ∷ p) (e, h) = h

  pub path_from-IsCircle :
      (job : Text) (path : List Text)
      → has job path ≡ true
      → IsPath (path ++ job ∷ [])
      → IsCircle (path_from job path ++ job ∷ [])
  unfolding path_from has
  path_from-IsCircle job [] h p = absurd (ground arith)
  path_from-IsCircle job (n ∷ path) h p = elim (Bool-cases (n == job)) [
    | inl here ↦ rw here (record {
      job = job;
      between = path;
      shape = (let e : n ≡ job = ground arith in rw e refl);
      path = p;
    })
    | inr later ↦
        rw later (path_from-IsCircle job path (ground arith) (tail-IsPath n (path ++ job ∷ []) p))
  ]

  -- The place of a job, counted from the end.
  unfoldable pub rank : Text → List Text → ℕ
  rank n [] = 0
  rank n (k ∷ done) = let r = rank n done in if k == n then suc (length done) else r

  pub rank-bound : (n : Text) (done : List Text) → rank n done ≤ length done
  unfolding rank
  rank-bound n [] = omega arith
  rank-bound n (k ∷ done) = ground (arith, rank-bound n done)

  pub rank-demand :
      (n d : Text) (done : List Text)
      → IsOrder done
      → has n done ≡ true
      → edge n d ≡ true
      → (has d done ≡ true) × (rank d done < rank n done)
  unfolding rank has
  rank-demand n d [] o h e = absurd (ground arith)
  rank-demand n d (k ∷ done) (fresh, demands, o) h e = elim (Bool-cases (k == n)) [
    | inl here ↦
        let same : k ≡ n = ground arith in
        let member = demands d (rw same e) in
        let differs = other_member k d done fresh member in
        let low = rank-bound d done in rw (here, differs) (member, omega arith)
    | inr later ↦
        let (member, low) = rank-demand n d done o (ground arith) e in
        let differs = other_member k d done fresh member in rw (later, differs) (member, low)
  ]

  -- Along a path inside an order the place goes down.
  rank-path :
      (a b : Text) (p done : List Text)
      → IsOrder done
      → has a done ≡ true
      → IsPath (a ∷ (p ++ b ∷ []))
      → rank b done < rank a done
  rank-path a b [] done o h (e, p) = (rank-demand a b done o h e).1
  rank-path a b (c ∷ p) done o h (e, rest) =
      let (member, low) = rank-demand a c done o h e in
      let lower = rank-path c b p done o member rest in omega arith

  first_demand :
      (a b : Text) (p : List Text) → IsPath (a ∷ (p ++ b ∷ [])) → (d : Text) × (edge a d ≡ true)
  first_demand a b [] (e, p) = (b, e)
  first_demand a b (c ∷ p) (e, rest) = (c, e)

  -- Where all jobs that demand one stand in an order, there is no circle.
  pub no_circle_in_order :
      (c done : List Text)
      → IsOrder done
      → ((n d : Text) → edge n d ≡ true → has n done ≡ true)
      → IsCircle c
      → ⊥
  no_circle_in_order c done o covers circle =
      let p = subst IsPath circle.shape circle.path in
      let (d, e) = first_demand circle.job circle.job circle.between p in
      let member = covers circle.job d e in
      let low = rank-path circle.job circle.job circle.between done o member p in omega arith
