-- ===== src/Jobs/Responses/Creation.antt =====
-- Creating a job and reading it.
use juris_mind_ai.Queries.{Sql}
use juris_mind_ai.Session.Jobs.{get_job-new}
use juris_mind_ai.Session.Rules.{
  Ensures-pure, Ensures-outside, Ensures-flush, Ensures-on_db, Ensures-gets, Ensures-new_id,
}
use juris_mind_ai.ClaimCheck.Citing.{Anything}
use juris_mind_ai.Failure.Ensures.{Ensures-bind, Ensures}
use juris_mind_ai.Jobs.Responses.{
  new_job, add_job, ResearchJob, Database, found_response, ok, Session, Uuid, same_status,
  load_job_response, create_job, Failure, Result, Str, get_job,
}
use juris_mind_ai.Rows.{pending}
use juris_mind_ai.Session.{get_job as find_job}
use juris_mind_ai.Base.{suc, Option, none, some, [], ◌≡◌, refl}

get_job_found :
    (q : Sql) (id : Uuid) (d : Database) (job : ResearchJob)
    → find_job id d.jobs ≡ some job
    → get_job q id d ≡ ok (load_job_response q d job)
unfolding get_job
get_job_found q id d job there = rw (there, found_response) refl

get_job_added :
    (q : Sql) (d : Database) (job : ResearchJob)
    → find_job job.id d.jobs ≡ none
    → get_job q job.id (add_job job d) ≡ ok (load_job_response q (add_job job d) job)
get_job_added q d job new =
    get_job_found q job.id (add_job job d) job (get_job-new job.id d.jobs job refl new)

module _ {W : Type 0} (q : Sql)
    (enqueue : Str → Str → Option Str → Str → W → Result Failure (Unit {0}) × W) where
  -- Where the id that the supply gives the job is new, `get_job` finds a job that `create_job` has
  -- returned, with the same answer: it is PENDING and has no report and no claims.
  pub create_job-get_job :
      (query : Str) (tenant_id : Option Uuid) (s : Session W)
      → find_job (suc s.fresh) s.db.jobs ≡ none
      → Ensures
          (create_job q enqueue query tenant_id s)
          (λ out s'.
            (get_job q out.job_id s'.db ≡ ok out)
            × (out.status ≡ pending)
            × (out.query ≡ query)
            × (out.final_report ≡ none)
            × (out.claims ≡ []))
          Anything
  unfolding create_job load_job_response same_status new_job
  create_job-get_job query tenant_id s new = Ensures-bind _ _ s (
      Ensures-new_id s (
        Ensures-bind _ _ _ (
          Ensures-new_id _ (
            Ensures-bind _ _ _ (
              Ensures-gets _ _ (
                Ensures-bind _ _ _ (
                  Ensures-on_db _ _ (
                    Ensures-bind _ _ _ (
                      Ensures-flush _
                        (λ _. Ensures-bind _ _ _ (
                          Ensures-outside _ _
                            (λ _ w. Ensures-bind _ _ _ (
                              Ensures-gets _ _ (
                                Ensures-pure _ _ (
                                  get_job_added q s.db
                                      (new_job s.fresh (suc s.fresh) query tenant_id s.now) new,
                                  refl,
                                  refl,
                                  refl,
                                  refl,
                                ))))
                            (λ _ _. tt)))
                        (λ _. tt))))))))))
