-- ===== src/Demands/Search.antt =====
-- build/build_deployment_sequence.go: the search from a job, and from all jobs.
use kive.Prelude.{
  ℕ, zero, suc, ◌<◌, ◌≡◌, refl, sym, ◌∙◌, true, false, List, [], ◌∷◌, ◌++◌, arith, Text, text_key,
  has, length, if◌then◌else◌, Bool-cases, inl, inr,
}
use kive.Demands.{
  Graph, demands_of, names, VisitState, unseen, visiting, complete, passes, circular, then_visit,
  mark, path_from, visit_all, visit_job, is_unseen, visit_jobs, detect_circular_hook_dependencies,
}
use kive.Demands.Cycles.{IsPath, IsPath-snoc, path_from-IsCircle}
use kive.Demands.States.{
  expected, remaining, remaining-Grows, remaining-snoc, head_or_tail, remaining-bound, later_name,
  first_name, demands, Inv, Visited, then_visit-Visited, widen, visit_all-Visited, unseen_names,
  enter-Inv, leave-Inv,
}

module _ (g : Graph) where
  visit_job_at :
      (f : ℕ) (job : Text) (path : List Text) (st : Text → VisitState) (v : VisitState)
      → st job ≡ v
      → visit_job g (suc f) job path st ≡ (elim v [
        | complete ↦ passes st
        | visiting ↦ circular (path_from job path ++ job ∷ [])
        | unseen ↦
            then_visit
              (visit_all
                (λ d st'. visit_job g f d (path ++ job ∷ []) st')
                (demands_of job g)
                (mark job visiting st))
              (λ st'. passes (mark job complete st'))
      ])
  unfolding visit_job
  visit_job_at f job path st v e = rw (e, visit_job) refl

  -- Every job that is demanded is one of the jobs.
  abbrev pub IsClosed : Type 0
  IsClosed = (n d : Text) → has d (demands_of n g) ≡ true → has d (names g) ≡ true

  complete_name :
      (st : Text → VisitState) (path done : List Text) (job : Text)
      → Inv g st path done
      → st job ≡ complete
      → has job done ≡ true
  complete_name st path done job inv h =
      let e : expected path done job ≡ complete = sym (inv.states job) ∙ h in ground arith

  visiting_name :
      (st : Text → VisitState) (path done : List Text) (job : Text)
      → Inv g st path done
      → st job ≡ visiting
      → has job path ≡ true
  visiting_name st path done job inv h =
      let e : expected path done job ≡ visiting = sym (inv.states job) ∙ h in ground arith

  only_name :
      (n job : Text) (s : List Text) → has n (job ∷ []) ≡ true → has job s ≡ true → has n s ≡ true
  unfolding has
  only_name n job s h member = let e : job ≡ n = ground arith in rw (sym e) member

  module _ (closed : IsClosed) where
    visit_job-Visited :
        (f : ℕ) (job : Text) (path done : List Text) (st : Text → VisitState) (v : VisitState)
        → st job ≡ v
        → Inv g st path done
        → IsPath (demands g) (path ++ job ∷ [])
        → has job (names g) ≡ true
        → remaining (names g) path done < f
        → Visited g path done (job ∷ []) (visit_job g f job path st)
    visit_job-Visited zero job path done st v e inv p key enough = absurd (omega arith)
    visit_job-Visited (suc f) job path done st complete e inv p key enough =
        rw (visit_job_at f job path st complete e) (
          done,
          inv,
          (λ n h. h),
          (λ n h. only_name n job done h (complete_name st path done job inv e)),
        )
    visit_job-Visited (suc f) job path done st visiting e inv p key enough =
        rw (visit_job_at f job path st visiting e)
          (path_from-IsCircle (demands g) job path (visiting_name st path done job inv e) p)
    visit_job-Visited (suc f) job path done st unseen e inv p key enough =
        let path' = path ++ job ∷ [] in
        let (out, open_still) = unseen_names g st path done job inv e in
        let less = remaining-snoc (names g) path done job key out open_still in
        rw (visit_job_at f job path st unseen e) (
          then_visit-Visited g path' done (demands_of job g)
            (visit_all (λ d st'. visit_job g f d path' st') (demands_of job g)
              (mark job visiting st))
            (λ st'. passes (mark job complete st')) path (job ∷ [])
            (visit_all-Visited g (λ d st'. visit_job g f d path' st') path' done (demands_of job g)
              (mark job visiting st)
              (λ d st2 done2 demanded grows inv2.
                let le = remaining-Grows (names g) path' done done2 grows in
                visit_job-Visited f d path' done2 st2 (st2 d) refl inv2
                  (IsPath-snoc (demands g) path job d p demanded) (closed job d demanded)
                  (omega arith))
              (demands_of job g) done (λ d h. h) (λ n h. h) (enter-Inv g st path done job inv e))
            (λ st1 done1 inv1 grows1 met1. (
              job ∷ done1,
              leave-Inv g st st1 path done done1 job inv e inv1 met1,
              (λ n h. later_name n job done1 (grows1 n h)),
              (λ n h. first_name n job done1 h),
            )))

    seen_is_complete :
        (st : Text → VisitState) (done : List Text) (job : Text)
        → Inv g st [] done
        → is_unseen g (st job) ≡ false
        → has job done ≡ true
    unfolding has
    seen_is_complete st done job inv h = let e = inv.states job in ground arith

    visit_if_unseen-Visited :
        (f : ℕ) (job : Text) (done : List Text) (st : Text → VisitState)
        → Inv g st [] done
        → has job (names g) ≡ true
        → remaining (names g) [] done < f
        → Visited g [] done
            (job ∷ [])
            (if is_unseen g (st job) then visit_job g f job [] st else passes st)
    visit_if_unseen-Visited f job done st inv key enough =
        elim (Bool-cases (is_unseen g (st job))) [
          | inl fresh ↦
              rw fresh (visit_job-Visited f job [] done st (st job) refl inv tt key enough)
          | inr seen ↦ rw seen (
            done,
            inv,
            (λ n h. h),
            (λ n h. only_name n job done h (seen_is_complete st done job inv seen)),
          )
        ]

    visit_jobs-Visited :
        (f : ℕ) (jobs done : List Text) (st : Text → VisitState)
        → ((n : Text) → has n jobs ≡ true → has n (names g) ≡ true)
        → Inv g st [] done
        → remaining (names g) [] done < f
        → Visited g [] done jobs (visit_jobs g f jobs st)
    unfolding visit_jobs has
    visit_jobs-Visited f [] done st keys inv enough =
        (done, inv, (λ n h. h), (λ d h. absurd (ground arith)))
    visit_jobs-Visited f (job ∷ jobs) done st keys inv enough =
        then_visit-Visited g [] done (job ∷ [])
          (if is_unseen g (st job) then visit_job g f job [] st else passes st)
          (visit_jobs g f jobs) [] (job ∷ jobs)
          (visit_if_unseen-Visited f job done st inv (keys job (ground arith)) enough)
          (λ st2 done2 inv2 grows2 met2.
            let le = remaining-Grows (names g) [] done done2 grows2 in
            widen g [] done done2 (job ∷ []) jobs (job ∷ jobs) (visit_jobs g f jobs st2) grows2
              (λ n h. head_or_tail n job jobs h) met2
              (visit_jobs-Visited f jobs done2 st2 (λ n h. keys n (later_name n job jobs h)) inv2
                (omega arith)))

    pub detect-Visited : Visited g [] [] (names g) (detect_circular_hook_dependencies g)
    unfolding detect_circular_hook_dependencies has
    detect-Visited =
        visit_jobs-Visited (suc (length g)) (names g) [] (λ n. unseen) (λ n h. h)
          (record { states = λ n. refl; disjoint = λ n h. refl; order = tt })
          (let le = remaining-bound g in omega arith)
