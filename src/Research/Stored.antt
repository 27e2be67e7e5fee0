-- ===== src/Research/Stored.antt =====
-- What a research job leaves in the database: the end of the job and the report.
use mathlib.Core.Option.{some-injective}
use juris_mind_ai.Session.Rules.{
  Ensures-gets, Ensures-pure, Ensures-flush, Ensures-new_id, Ensures-on_db,
}
use juris_mind_ai.ClaimCheck.Citing.{citations_of, Anything}
use juris_mind_ai.Failure.Ensures.{Ensures-or_raise, Ensures-weaken, Ensures-bind, Ensures}
use juris_mind_ai.Session.Jobs.{map_row, get_job-update_job}
use juris_mind_ai.Research.{
  Progress, Findings, store_report, flag_insufficient, Outcome, Session, get_job, report_text,
  ContradictionPair, declare_insufficient, Uuid, Str, Request,
}
use juris_mind_ai.Session.{update_job, Services}
use juris_mind_ai.Rows.{Report, succeeded, ResearchJob}
use juris_mind_ai.Base.{
  Bool, true, false, Option, none, some, List, [], ◌∷◌, ◌++◌, ◌≡◌, refl, ◌∙◌, ap, sym,
}

abbrev pub is_empty {ℓ} : {A : Type ℓ} → List A → Bool
is_empty [] = true
is_empty (x ∷ xs) = false

-- The row of a job that is done, marked if its report has no line.
abbrev pub done : Bool → ResearchJob → ResearchJob
done true r = record r { status = succeeded; insufficient_evidence = true }
done false r = record r { status = succeeded }

module _ (V : Services) (q : Request V) where
  open V use {World, Hit}

  abbrev pub report_of : Uuid → Uuid → Option Str → Str → Report
  report_of id report_id draft text = record {
    id = report_id;
    job_id = id;
    tenant_id = q.tenant_id;
    draft = draft;
    final_report = some text;
  }

  -- What the end of a job leaves, of the lines, gaps and contradictions that it had, the job's row
  -- and the session.
  pub record IsStoredAs (id : Uuid) (lines : List Str) (gaps : List Str)
      (contradictions : List ContradictionPair) (row : ResearchJob) (s : Session World)
      (out : Outcome V) (s' : Session World) : Type 0 where
    pub job_id : out.job_id ≡ id
    pub text : out.final_report ≡ report_text V q lines gaps contradictions
    pub reports :
        (report_id : Uuid) × (draft : Option Str) × (s'.db.reports
          ≡ s.db.reports ++ report_of id report_id draft out.final_report ∷ [])
    pub row_after : get_job id s'.db.jobs ≡ some (done (is_empty lines) row)
    pub flag : out.insufficient_evidence ≡ (done (is_empty lines) row).insufficient_evidence
    pub citations : citations_of s' ≡ citations_of s

  -- The row between the two writes to it.
  abbrev flagged : Bool → ResearchJob → ResearchJob
  flagged true r = record r { insufficient_evidence = true }
  flagged false r = r

  abbrev Flagged : Uuid → Bool → ResearchJob → Session World → Session World → Type 0
  Flagged id b row s s' =
      (get_job id s'.db.jobs ≡ some (flagged b row))
      × (s'.db.reports ≡ s.db.reports)
      × (citations_of s' ≡ citations_of s)

  flag_insufficient-Flagged :
      (id : Uuid) (lines : List Str) (row : ResearchJob) (s : Session World)
      → get_job id s.db.jobs ≡ some row
      → Ensures
          (flag_insufficient V q id lines s)
          (λ _ s'. Flagged id (is_empty lines) row s s')
          Anything
  unfolding flag_insufficient
  flag_insufficient-Flagged id [] row s found = Ensures-on_db _ s (
    get_job-update_job id (λ r. record r { insufficient_evidence = true }) s.db.jobs (λ _. refl)
        ∙ ap (map_row (λ r. record r { insufficient_evidence = true })) found,
    refl,
    refl,
  )
  flag_insufficient-Flagged id (l ∷ lines) row s found = Ensures-pure _ s (found, refl, refl)

  flagged-done :
      (b : Bool) (row : ResearchJob) → record (flagged b row) { status = succeeded } ≡ done b row
  flagged-done true row = refl
  flagged-done false row = refl

  pub declare_insufficient-IsStoredAs :
      (id : Uuid) (records : List V.CallRecord) (gaps : List Str)
      (contradictions : List ContradictionPair) (row : ResearchJob) (s : Session World)
      → get_job id s.db.jobs ≡ some row
      → Ensures
          (declare_insufficient V q id records s)
          (IsStoredAs id [] gaps contradictions row s)
          Anything
  unfolding declare_insufficient report_text
  declare_insufficient-IsStoredAs id records gaps contradictions row s found = Ensures-bind _ _ s (
      Ensures-on_db _ s (
        Ensures-bind _ _ _ (
          Ensures-new_id _ (
            Ensures-bind _ _ _ (
              Ensures-on_db _ _ (
                Ensures-bind _ _ _ (
                  Ensures-flush _
                    (λ _. Ensures-pure _ _ (record {
                      job_id = refl;
                      text = refl;
                      reports = (s.fresh, none, refl);
                      row_after =
                          get_job-update_job id
                            (λ r. record r { insufficient_evidence = true; status = succeeded })
                            s.db.jobs (λ _. refl)
                          ∙ ap
                              (map_row (λ r. record r {
                                insufficient_evidence = true;
                                status = succeeded;
                              }))
                              found;
                      flag = refl;
                      citations = refl;
                    }))
                    (λ _. tt))))))))

  pub store_report-IsStoredAs :
      (id : Uuid) (draft : Str) (found : Findings V) (p : Progress V) (row : ResearchJob)
      (s : Session World)
      → get_job id s.db.jobs ≡ some row
      → Ensures
          (store_report V q id draft found p s)
          (IsStoredAs id p.lines found.gaps found.contradictions row s)
          Anything
  unfolding store_report
  store_report-IsStoredAs id draft found p row s here = Ensures-bind _ _ s (
      Ensures-weaken _
        (λ _ s1 (marked, reports, citations). Ensures-bind _ _ s1 (
          Ensures-on_db _ s1 (
            Ensures-bind _ _ _ (
              Ensures-new_id _ (
                Ensures-bind _ _ _ (
                  Ensures-on_db _ _ (
                    Ensures-bind _ _ _ (
                      Ensures-flush _
                        (λ _. Ensures-bind _ _ _ (
                          Ensures-gets _ _ (
                            Ensures-bind _ _ _ (
                              Ensures-or_raise _ _ _
                                (λ row' there.
                                  let after = written s1 marked in
                                  Ensures-pure _ _ (record {
                                    job_id = refl;
                                    text = refl;
                                    reports = (
                                      s1.fresh,
                                      some draft,
                                      ap
                                          (λ l.
                                            l
                                            ++ report_of id s1.fresh (some draft) (
                                                report_text V q p.lines found.gaps
                                                  found.contradictions)
                                              ∷ [])
                                          reports,
                                    );
                                    row_after = after;
                                    flag =
                                        ap (λ (r : ResearchJob). r.insufficient_evidence)
                                          (some-injective _ _ (sym there ∙ after));
                                    citations = citations;
                                  }))
                                (λ _. tt)))))
                        (λ _. tt)))))))))
        (λ _ _ u. u) (flag_insufficient-Flagged id p.lines row s here))
    where
      written :
          (s1 : Session World)
          → get_job id s1.db.jobs ≡ some (flagged (is_empty p.lines) row)
          → get_job id (update_job id (λ r. record r { status = succeeded }) s1.db.jobs)
            ≡ some (done (is_empty p.lines) row)
      written s1 marked =
          get_job-update_job id (λ r. record r { status = succeeded }) s1.db.jobs (λ _. refl)
          ∙ ap (map_row (λ r. record r { status = succeeded })) marked
          ∙ ap some (flagged-done (is_empty p.lines) row)
