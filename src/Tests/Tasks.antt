-- ===== src/Tests/Tasks.antt =====
-- A task for a pending job.
use juris_mind_ai.Worker.Endings.{run_research_job-ends, Raises, Returns}
use juris_mind_ai.Failure.Ensures.{Ensures}
use juris_mind_ai.Session.{get_job}
use juris_mind_ai.Tests.Research.{answer, payload_of_hit}
use juris_mind_ai.Payload.{Payload, parse_uuid}
use juris_mind_ai.Worker.{run_research_job, Task, parse_tenant, Worker, Backend}
use juris_mind_ai.Rows.{no_rows, ResearchJob, pending, running}
use juris_mind_ai.Base.{map, false, none, some, [], ◌∷◌, ◌≡◌, refl}
use juris_mind_ai.Base.Text.{text as lit}
use juris_mind_ai.Base.Result.{ok, raised}
use juris_mind_ai.Failure.{other_error}

abbrev backend : Backend
backend = record {
  World = Unit {0};
  Hit = Payload;
  CallRecord = Unit {0};
  payload = λ h. h;
  search = λ question query_filter top_n w. (ok (payload_of_hit ∷ []), w);
  run = λ schema call w. (ok (answer schema, tt), w);
  make_engine = λ w. (ok tt, w);
  set_up = λ w. (ok tt, w);
}

abbrev pending_job : ResearchJob
pending_job = record {
  id = 7;
  trace_id = none;
  tenant_id = none;
  query = [];
  status = pending;
  error_message = none;
  progress_detail = none;
  insufficient_evidence = false;
  created_at = 1;
}

abbrev worker : Worker (Unit {0})
worker = record {
  world = tt;
  db = record no_rows { jobs = pending_job ∷ [] };
  fresh = 100;
  now = 5;
}

abbrev task : Task
task = record {
  job_id = lit "00000000-0000-0000-0000-000000000007";
  query = [];
  tenant_id = none;
  trace_id = [];
  model = [];
}

task-named : parse_uuid task.job_id ≡ some 7
unfolding parse_uuid lit
task-named = refl

-- The prompt repository does not load: the task raises, and the job stays running.
abbrev unloaded : Backend
unloaded = record backend { set_up = λ w. (raised (other_error []), w) }

stays_running :
    map (λ (r : ResearchJob). r.status) (run_research_job unloaded task worker).1.db.jobs
    ≡ running ∷ []
unfolding run_research_job lit parse_uuid
stays_running = refl

run_research_job-ends_example :
    Ensures
      (run_research_job backend task worker)
      (λ _ w'. Returns backend task 7 worker w')
      (Raises backend task 7 worker)
unfolding parse_tenant get_job
run_research_job-ends_example =
    run_research_job-ends backend task 7 none worker pending_job task-named refl refl
