-- ===== src/Worker.antt =====
-- The task that runs a job, `_run_research_job` of tradegraph/src/graph/tasks.py: it commits that
-- the job is running, runs `run_research` in one transaction, and commits or rolls back. What the
-- progress callback commits on a session of its own is a log, which is applied to the rows that
-- are committed at the end.
pub mod Written
pub mod Endings
use juris_mind_ai.Base.Text.{text as lit}
use juris_mind_ai.Nodes.{Call}
use juris_mind_ai.Schemas.{Output, Schema}
use juris_mind_ai.Filters.{Filter}
use juris_mind_ai.Failure.{value_error, message, Failure}
use juris_mind_ai.Base.Result.{raised, ok, Result}
use juris_mind_ai.Research.{run_research, Outcome, Request}
use juris_mind_ai.Rows.{running, failed, Database, Uuid}
use juris_mind_ai.Payload.{parse_uuid, Payload}
use juris_mind_ai.Session.{Session, set_job, Services, update_job}
use juris_mind_ai.Base.Text.{Str}
use juris_mind_ai.Base.{All, ℕ, Option, none, some, List, [], ◌∷◌, ◌++◌, take}

-- The services of a run but its callback.
pub record Backend : Type 1 where
  pub World : Type 0
  pub Hit : Type 0
  pub CallRecord : Type 0
  pub payload : Hit → Payload
  pub search : Str → Option Filter → ℕ → World → Result Failure (List Hit) × World
  pub run : (s : Schema) → Call → World → Result Failure (Output s × CallRecord) × World
  -- `_make_engine_and_session_factory`, which raises where no database is configured
  pub make_engine : World → Result Failure (Unit {0}) × World
  -- The settings, the clients and the prompt repository, made between the first commit and the
  -- inner `try`; the repository raises `PromptLoadError`.
  pub set_up : World → Result Failure (Unit {0}) × World

-- What the task sees: the committed rows, and what the model of a session needs.
pub record Worker (W : Type 0) : Type 0 where
  pub world : W
  pub db : Database
  pub fresh : Uuid
  pub now : ℕ

-- The arguments of the task, with the model of the settings.
pub record Task : Type 0 where
  pub job_id : Str
  pub query : Str
  pub tenant_id : Option Str
  pub trace_id : Str
  pub model : Str

abbrev pub max_error_message_length : ℕ
max_error_message_length = 2000

-- The default of `run_research`, which the task does not set.
abbrev pub top_n_per_subquestion_default : ℕ
top_n_per_subquestion_default = 3

-- `uuid.UUID(tenant_id) if tenant_id else None`; the outer `none` is the `ValueError`.
unfoldable pub parse_tenant : Option Str → Option (Option Uuid)
unfolding parse_uuid
parse_tenant none = some none
parse_tenant (some []) = some none
parse_tenant (some (c ∷ s)) = elim (parse_uuid (c ∷ s)) [ none ↦ none | some id ↦ some (some id) ]

-- `on_progress`, for each message in turn
unfoldable pub write_progress : Uuid → List Str → Database → Database
unfolding update_job
write_progress id [] d = d
write_progress id (msg ∷ rest) d =
    write_progress id rest (set_job id (λ r. record r { progress_detail = some msg }) d)

-- `async with session_factory() as session: job.status = RUNNING …`
unfoldable pub mark_running : Uuid → Database → Database
unfolding update_job lit
mark_running id d =
    set_job id
      (λ r. record r { status = running; progress_detail = some (lit "Starting research") }) d

-- The rows that the failure session commits.
unfoldable pub mark_failed : Uuid → Failure → Database → Database
unfolding update_job
mark_failed id e d =
    set_job id
      (λ r. record r {
        status = failed;
        error_message = some (take max_error_message_length (message e));
      })
      d

module _ (B : Backend) where
  -- The services that `run_research` is given, with the callback.
  abbrev pub services : Services
  services = record {
    World = B.World × List Str;
    Hit = B.Hit;
    CallRecord = B.CallRecord;
    payload = B.payload;
    search = λ question query_filter top_n (w, log).
        let (hits, w') = B.search question query_filter top_n w in (hits, (w', log));
    run = λ schema call (w, log). let (out, w') = B.run schema call w in (out, (w', log));
    on_progress = some (λ msg (w, log). (ok tt, (w, log ++ msg ∷ [])));
  }

  module _ (t : Task) where
    abbrev pub request : Option Uuid → Request services
    request tenant_id = record {
      query = t.query;
      job = record { model = t.model; research_id = t.job_id; trace_id = t.trace_id };
      tenant_id = tenant_id;
      top_n_per_subquestion = top_n_per_subquestion_default;
    }

    -- The commit, or the rollback and the write of the failure, after the run on the rows `d`.
    pub settle :
        Uuid
        → Database
        → Result Failure (Outcome services) × Session (B.World × List Str)
        → Result Failure (Unit {0}) × Worker B.World
    unfolding write_progress mark_failed
    settle id d (ok out, s) = (
      ok tt,
      record {
        world = s.world.0;
        db = write_progress id s.world.1 s.db;
        fresh = s.fresh;
        now = s.now;
      },
    )
    settle id d (raised e, s) = (
      raised e,
      record {
        world = s.world.0;
        db = mark_failed id e (write_progress id s.world.1 d);
        fresh = s.fresh;
        now = s.now;
      },
    )

    -- The inner `try`, on the rows that are committed.
    pub run_in_session :
        Uuid
        → Database
        → Option (Option Uuid)
        → Worker B.World
        → Result Failure (Unit {0}) × Worker B.World
    unfolding settle mark_failed lit
    run_in_session id d none w =
        let e = value_error (lit "badly formed hexadecimal UUID string") in
        (raised e, record w { db = mark_failed id e d })
    run_in_session id d (some tenant_id) w = settle id d (
        run_research services (request tenant_id)
          (record { world = (w.world, []); db = d; fresh = w.fresh; now = w.now }))

    -- After the first commit. What the set-up raises is caught by no handler.
    pub after_set_up :
        Uuid
        → Database
        → Worker B.World
        → Result Failure (Unit {0}) × B.World
        → Result Failure (Unit {0}) × Worker B.World
    unfolding run_in_session parse_tenant
    after_set_up id d w (raised e, v) = (raised e, record w { world = v; db = d })
    after_set_up id d w (ok _, v) =
        run_in_session id d (parse_tenant t.tenant_id) (record w { world = v })

    pub start : Option Uuid → Worker B.World → Result Failure (Unit {0}) × Worker B.World
    unfolding after_set_up mark_running lit
    start none w = (raised (value_error (lit "badly formed hexadecimal UUID string")), w)
    start (some id) w = after_set_up id (mark_running id w.db) w (B.set_up w.world)

    pub with_engine :
        Worker B.World
        → Result Failure (Unit {0}) × B.World
        → Result Failure (Unit {0}) × Worker B.World
    unfolding start parse_uuid
    with_engine w (raised e, v) = (raised e, record w { world = v })
    with_engine w (ok _, v) = start (parse_uuid t.job_id) (record w { world = v })

    -- `_run_research_job`: without an engine, or with a job id that is no UUID, it raises before
    -- anything is written.
    unfoldable pub run_research_job : Worker B.World → Result Failure (Unit {0}) × Worker B.World
    unfolding with_engine
    run_research_job w = with_engine w (B.make_engine w.world)
