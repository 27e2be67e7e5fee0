-- ===== src/Worker/Endings.antt =====
-- How a task ends: the row of its job, and the other tables.
use juris_mind_ai.Worker.Written.{
  IsUntouched, get_job-write_progress, write_progress-IsUntouched, mark_failed-IsUntouched,
}
use juris_mind_ai.Research.Runs.{run_research-Concluded, started}
use juris_mind_ai.Base.Text.{text as lit}
use juris_mind_ai.ClaimCheck.Lines.{lines_of}
use juris_mind_ai.Research.{run_research}
use juris_mind_ai.ClaimCheck.Citing.{Anything}
use juris_mind_ai.Failure.Ensures.{Ensures-weaken, Ensures}
use mathlib.Core.Bool.{false, true}
use juris_mind_ai.Research.Stored.{report_of, is_empty, done}
use juris_mind_ai.Session.Jobs.{map_row, get_job-update_job}
use juris_mind_ai.Session.{Session, get_job}
use juris_mind_ai.Rows.{running, failed, succeeded, Report, ResearchJob, Uuid, Database}
use juris_mind_ai.Worker.{
  parse_tenant, run_in_session, after_set_up, with_engine, run_research_job, start, raised, request,
  ok, Result, services, parse_uuid, mark_running, Outcome, settle, message,
  max_error_message_length, Failure, mark_failed, Str, Worker, Task, Backend, write_progress,
}
use mathlib.Core.Option.{some-injective}
use juris_mind_ai.Base.{Bool, ◌++◌, take, Option, some, List, [], ◌∷◌, ◌≡◌, refl, ◌∙◌, ap, sym}

module _ (B : Backend) (t : Task) where
  -- The row of a job that is over, and the reports that it has added.
  abbrev pub Succeeded : Uuid → Worker B.World → Worker B.World → Type 0
  Succeeded id w w' =
      (row : ResearchJob) × (report : Report) × (get_job id w'.db.jobs ≡ some row)
      × (row.status ≡ succeeded)
      × (w'.db.reports ≡ w.db.reports ++ report ∷ [])
      × (report.job_id ≡ id)

  abbrev pub Failed : Uuid → Worker B.World → Failure → Worker B.World → Type 0
  Failed id w e w' =
      (row : ResearchJob) × (get_job id w'.db.jobs ≡ some row)
      × (row.status ≡ failed)
      × (row.error_message ≡ some (take max_error_message_length (message e)))
      × IsUntouched w.db w'.db

  failed_row :
      (id : Uuid) (e : Failure) (log : List Str) (d : Database) (row : ResearchJob)
      → get_job id d.jobs ≡ some row
      → (row' : ResearchJob) × (get_job id (mark_failed id e (write_progress id log d)).jobs
          ≡ some row')
        × (row'.status ≡ failed)
        × (row'.error_message ≡ some (take max_error_message_length (message e)))
  unfolding mark_failed
  failed_row id e log d row here =
      let (detail, there) = get_job-write_progress id log d row here in
      (
        record row {
          progress_detail = detail;
          status = failed;
          error_message = some (take max_error_message_length (message e));
        },
        get_job-update_job id
              (λ r. record r {
                status = failed;
                error_message = some (take max_error_message_length (message e));
              })
              (write_progress id log d).jobs (λ _. refl)
            ∙ ap
                (map_row (λ r. record r {
                  status = failed;
                  error_message = some (take max_error_message_length (message e));
                }))
                there,
        refl,
        refl,
      )

  done_status : (b : Bool) (row : ResearchJob) → (done b row).status ≡ succeeded
  done_status true row = refl
  done_status false row = refl

  -- What a run from the rows `d` ends with.
  abbrev Ended : Uuid → Database → Outcome (services B) → Session (B.World × List Str) → Type 0
  Ended id d out s' =
      (row : ResearchJob) × (report : Report) × (get_job id s'.db.jobs ≡ some row)
      × (row.status ≡ succeeded)
      × (s'.db.reports ≡ d.reports ++ report ∷ [])
      × (report.job_id ≡ id)

  run_research-Ended :
      (id : Uuid) (tenant_id : Option Uuid) (s : Session (B.World × List Str))
      → parse_uuid t.job_id ≡ some id
      → Ensures (run_research (services B) (request B t tenant_id) s) (Ended id s.db) Anything
  run_research-Ended id tenant_id s named =
      Ensures-weaken _
        (λ out s' (id', gaps, contradictions, named', end).
          let same : id' ≡ id = some-injective id' id (sym named' ∙ named) in
          let lines = lines_of end.checked in
          let first =
            started (services B) (request B t tenant_id) id' s.now (get_job id' s.db.jobs) in
          (
            done (is_empty lines) first,
            report_of (services B) (request B t tenant_id) id' end.stored.0 end.stored.1
                out.final_report,
            ap (λ k. get_job k s'.db.jobs) (sym same) ∙ end.row_after,
            done_status (is_empty lines) first,
            end.stored.2,
            same,
          ))
        (λ _ _ u. u) (run_research-Concluded (services B) (request B t tenant_id) s)

  settle-ends :
      (id : Uuid) (w : Worker B.World) (row : ResearchJob)
      (r : Result Failure (Outcome (services B)) × Session (B.World × List Str))
      → get_job id (mark_running id w.db).jobs ≡ some row
      → Ensures r (Ended id (mark_running id w.db)) Anything
      → Ensures (settle B t id (mark_running id w.db) r) (λ _ w'. Succeeded id w w') (Failed id w)
  unfolding settle mark_running
  settle-ends id w row (ok out, s) here h =
      let (row', report, there, over, added, about) = h.case in
      let (detail, after) = get_job-write_progress id s.world.1 s.db row' there in
      let untouched = write_progress-IsUntouched id s.world.1 s.db in
      record {
        case = (
          record row' { progress_detail = detail },
          report,
          after,
          over,
          untouched.4 ∙ added,
          about,
        );
      }
  settle-ends id w row (raised e, s) here h =
      let (row', there, over, said) = failed_row id e s.world.1 (mark_running id w.db) row here in
      record {
        case = (
          row',
          there,
          over,
          said,
          mark_failed-IsUntouched id e s.world.1 (mark_running id w.db),
        );
      }

  -- The row is as the first commit has left it, and so are the other tables.
  abbrev pub Stranded : Uuid → Worker B.World → Worker B.World → Type 0
  Stranded id w w' =
      (row : ResearchJob) × (get_job id w'.db.jobs ≡ some row)
      × (row.status ≡ running)
      × IsUntouched w.db w'.db

  -- How the task ends when it raises.
  pub data Raises (id : Uuid) (w : Worker B.World) (e : Failure) (w' : Worker B.World)
      : Type 0 where
    in_engine : (B.make_engine w.world).0 ≡ raised e → w'.db ≡ w.db → Raises id w e w'
    in_set_up :
        (v : B.World)
        → B.make_engine w.world ≡ (ok tt, v)
        → (B.set_up v).0 ≡ raised e
        → Stranded id w w'
        → Raises id w e w'
    in_run :
        (v : B.World)
        → B.make_engine w.world ≡ (ok tt, v)
        → (B.set_up v).0 ≡ ok tt
        → Failed id w e w'
        → Raises id w e w'

  -- The engine and the set-up are made, and then the run returns.
  abbrev pub Returns : Uuid → Worker B.World → Worker B.World → Type 0
  Returns id w w' =
      (v : B.World) × (B.make_engine w.world ≡ (ok tt, v))
      × ((B.set_up v).0 ≡ ok tt)
      × Succeeded id w w'

  running_row :
      (id : Uuid) (w : Worker B.World) (row : ResearchJob)
      → get_job id w.db.jobs ≡ some row
      → get_job id (mark_running id w.db).jobs
        ≡ some (record row { status = running; progress_detail = some (lit "Starting research") })
  unfolding mark_running
  running_row id w row here =
      get_job-update_job id
        (λ r. record r { status = running; progress_detail = some (lit "Starting research") })
        w.db.jobs (λ _. refl)
      ∙ ap
          (map_row
            (λ r. record r { status = running; progress_detail = some (lit "Starting research") }))
          here

  after_set_up-ends :
      (id : Uuid) (tenant_id : Option Uuid) (w : Worker B.World) (row : ResearchJob) (v : B.World)
      (out : Result Failure (Unit {0}) × B.World)
      → parse_uuid t.job_id ≡ some id
      → parse_tenant t.tenant_id ≡ some tenant_id
      → get_job id w.db.jobs ≡ some row
      → B.make_engine w.world ≡ (ok tt, v)
      → B.set_up v ≡ out
      → Ensures
          (after_set_up B t id (mark_running id w.db) (record w { world = v }) out)
          (λ _ w'. Returns id w w')
          (Raises id w)
  unfolding after_set_up run_in_session mark_running
  after_set_up-ends id tenant_id w row v (raised e, _) named tenant here engine set_up = record {
    case = in_set_up v engine (ap (λ o. o.0) set_up) (
      record row { status = running; progress_detail = some (lit "Starting research") },
      running_row id w row here,
      refl,
      (refl, refl, refl, refl, refl, refl),
    );
  }
  after_set_up-ends id tenant_id w row v (ok tt, _) named tenant here engine set_up = rw tenant (
      Ensures-weaken _ (λ _ w' h. (v, engine, ap (λ o. o.0) set_up, h))
        (λ e w' h. in_run v engine (ap (λ o. o.0) set_up) h)
        (settle-ends id w _ _ (running_row id w row here)
          (run_research-Ended id tenant_id _ named)))

  with_engine-ends :
      (id : Uuid) (tenant_id : Option Uuid) (w : Worker B.World) (row : ResearchJob)
      (out : Result Failure (Unit {0}) × B.World)
      → parse_uuid t.job_id ≡ some id
      → parse_tenant t.tenant_id ≡ some tenant_id
      → get_job id w.db.jobs ≡ some row
      → B.make_engine w.world ≡ out
      → Ensures (with_engine B t w out) (λ _ w'. Returns id w w') (Raises id w)
  unfolding with_engine start
  with_engine-ends id tenant_id w row (raised e, v) named tenant here engine = record {
    case = in_engine (ap (λ o. o.0) engine) refl;
  }
  with_engine-ends id tenant_id w row (ok tt, v) named tenant here engine =
      rw named (after_set_up-ends id tenant_id w row v (B.set_up v) named tenant here engine refl)

  -- How a task ends whose job id is a UUID with a row, and whose tenant id, if there is one, is a
  -- UUID, where the commits themselves do not fail. If it returns, the row is SUCCEEDED and one
  -- report of the job is added. If it raises once the set-up is done, the row is FAILED with the
  -- message of the exception, cut to 2000 characters; if the set-up of the clients and the prompt
  -- repository raises, the row stays RUNNING. In both cases the tables of evidence, claims, links,
  -- citations, reports and audits are as they were. If there is no engine, nothing is written.
  pub run_research_job-ends :
      (id : Uuid) (tenant_id : Option Uuid) (w : Worker B.World) (row : ResearchJob)
      → parse_uuid t.job_id ≡ some id
      → parse_tenant t.tenant_id ≡ some tenant_id
      → get_job id w.db.jobs ≡ some row
      → Ensures (run_research_job B t w) (λ _ w'. Returns id w w') (Raises id w)
  unfolding run_research_job
  run_research_job-ends id tenant_id w row named tenant here =
      with_engine-ends id tenant_id w row (B.make_engine w.world) named tenant here refl
