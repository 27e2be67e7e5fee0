-- ===== src/Research/Runs.antt =====
-- A whole run of `run_research`.
use juris_mind_ai.SubQuestion.Quiet.{research_sub_question-Keeps}
use juris_mind_ai.Session.Jobs.{get_job-new, map_row, get_job-update_job}
use juris_mind_ai.Session.Rules.{
  Ensures-outside, Ensures-report_progress, Ensures-flush, Ensures-gets, Ensures-on_db,
}
use juris_mind_ai.Research.Outcomes.{conclude-Concluded, Concluded}
use juris_mind_ai.ClaimCheck.Citing.{Anything, citations_of}
use juris_mind_ai.Failure.Ensures.{Ensures-weaken, Ensures-or_raise, Ensures-bind, Ensures}
use juris_mind_ai.Research.{
  Outcome, parse_uuid, ContradictionPair, Findings, Str, SubQuestion, get_job, running, ResearchJob,
  Uuid, run_research, research_all, start_job, Request,
}
use juris_mind_ai.Rows.{Citation, Database}
use juris_mind_ai.Session.Keeps.{Keeps-report_progress, Keeps-bind, Keeps-pure, Keeps, IsStored}
use juris_mind_ai.Session.{Session, Services}
use mathlib.Core.Path.{subst}
use juris_mind_ai.Base.{suc, map, false, ℕ, Option, none, some, List, [], ◌∷◌, ◌≡◌, refl, ◌∙◌, ap}

abbrev pub db_of : {W : Type 0} → Session W → Database
db_of s = s.db

pub db_of-IsStored : {W : Type 0} → IsStored {W = W} db_of
db_of-IsStored = record { world_free = λ s w. refl; fresh_free = λ s n. refl }

module _ (V : Services) (q : Request V) where
  open V use {World, Hit}

  -- The loop over the sub-questions leaves the rows of its own session as they are, whether it returns
  -- or raises; what the services do is in their world.
  pub research_all-Keeps :
      (i total : ℕ) (subs : List SubQuestion) (found : Findings V)
      → Keeps (db_of {W = World}) (research_all V q i total subs found)
  unfolding research_all
  research_all-Keeps i total [] found = Keeps-pure _ _
  research_all-Keeps i total (sub ∷ rest) found =
      Keeps-bind _ (Keeps-report_progress V _ db_of-IsStored _) (λ _.
        Keeps-bind _ (research_sub_question-Keeps V _ db_of-IsStored _ _ _ _ _)
          (λ more. research_all-Keeps (suc i) total rest _))

  -- The row that a job starts with: the one that is there, set to RUNNING, or a new one.
  abbrev pub started : Uuid → ℕ → Option ResearchJob → ResearchJob
  started id now (some r) = record r { status = running }
  started id now none = record {
    id = id;
    trace_id = some q.job.trace_id;
    tenant_id = q.tenant_id;
    query = q.query;
    status = running;
    error_message = none;
    progress_detail = none;
    insufficient_evidence = false;
    created_at = now;
  }

  start_job-started :
      (id : Uuid) (row : Option ResearchJob) (s : Session World)
      → get_job id s.db.jobs ≡ row
      → Ensures
          (start_job V q id row s)
          (λ _ s'.
            (get_job id s'.db.jobs ≡ some (started id s.now row))
            × (s'.db.reports ≡ s.db.reports)
            × (citations_of s' ≡ citations_of s))
          Anything
  unfolding start_job
  start_job-started id (some r) s here = Ensures-on_db _ s (
    get_job-update_job id (λ r. record r { status = running }) s.db.jobs (λ _. refl)
        ∙ ap (map_row (λ r. record r { status = running })) here,
    refl,
    refl,
  )
  start_job-started id none s here =
      Ensures-on_db _ s (get_job-new id s.db.jobs _ refl here, refl, refl)

  -- A run that returns, for the job that the research id names: the job's row ends as SUCCEEDED,
  -- one report is added, with the text that is returned, and this text has the lines of the
  -- claims that were checked, each line as the verdicts on its claim give it, or declares the
  -- evidence insufficient if there is no line, in which case the job is flagged; if there is a
  -- line, the flag stays as it was. The same verdicts are stored as citations, and only they.
  pub run_research-Concluded :
      (s : Session World)
      → Ensures
          (run_research V q s)
          (λ out s'.
            (id : Uuid) × (gaps : List Str) × (contradictions : List ContradictionPair)
            × (parse_uuid q.job.research_id ≡ some id)
            × Concluded V q id gaps contradictions
                (started id s.now (get_job id s.db.jobs))
                s.db.reports
                (citations_of s)
                out
                s')
          Anything
  unfolding run_research
  run_research-Concluded s = Ensures-bind _ _ s (
      Ensures-or_raise _ _ s
        (λ id named. Ensures-bind _ _ s (
          Ensures-gets _ s (
            Ensures-bind _ _ s (
              Ensures-weaken _
                (λ _ s1 (here, reports, citations). Ensures-bind _ _ s1 (
                  Ensures-flush s1
                    (λ _. Ensures-bind _ _ s1 (
                      Ensures-report_progress V _ s1
                        (λ w1. Ensures-bind _ _ _ (
                          Ensures-outside _ _
                            (λ (plan, r) w2. Ensures-bind _ _ _ (
                              Ensures-report_progress V _ _
                                (λ w3. Ensures-bind _ _ _ (
                                  Ensures-outside _ _
                                    (λ (decomposition, r') w4. Ensures-bind _ _ _ (
                                      Ensures-weaken _
                                        (λ found s2 same.
                                          Ensures-weaken _
                                            (λ out s' end. (
                                              id,
                                              found.gaps,
                                              found.contradictions,
                                              named,
                                              carry id found out s' s1 s2 same reports citations
                                                  end,
                                            ))
                                            (λ _ _ u. u)
                                            (conclude-Concluded V q id found found.kept _ s2 (
                                              ap (λ (d : Database). get_job id d.jobs) same
                                              ∙ here)))
                                        (λ _ _ _. tt)
                                        ((research_all-Keeps 1 _ decomposition.sub_questions
                                            _).keeps
                                          _)))
                                    (λ _ _. tt)))
                                (λ _ _. tt)))
                            (λ _ _. tt)))
                        (λ _ _. tt)))
                    (λ _. tt)))
                (λ _ _ u. u) (start_job-started id _ s refl)))))
        (λ _. tt))
    where
      carry :
          (id : Uuid) (found : Findings V) (out : Outcome V) (s' s1 s2 : Session World)
          → s2.db ≡ s1.db
          → s1.db.reports ≡ s.db.reports
          → citations_of s1 ≡ citations_of s
          → Concluded V q id found.gaps found.contradictions
              (started id s.now (get_job id s.db.jobs))
              s2.db.reports
              (citations_of s2)
              out
              s'
          → Concluded V q id found.gaps found.contradictions
              (started id s.now (get_job id s.db.jobs))
              s.db.reports
              (citations_of s)
              out
              s'
      carry id found out s' s1 s2 same reports citations end =
          subst
            (λ r.
              Concluded V q id found.gaps found.contradictions
                (started id s.now (get_job id s.db.jobs)) r (citations_of s) out s')
            (ap (λ (d : Database). d.reports) same ∙ reports)
            (subst
              (λ c.
                Concluded V q id found.gaps found.contradictions
                  (started id s.now (get_job id s.db.jobs)) s2.db.reports c out s')
              (ap (λ (d : Database). map (λ (c : Citation). (c.claim_id, c.status)) d.citations)
                  same
                ∙ citations)
              end)
