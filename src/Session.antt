-- ===== src/Session.antt =====
-- What a research job runs against: the services outside it, as an interface, and the database
-- session, as the rows that it sees. `AsyncSession.flush` checks the constraints of the rows; ids
-- come from a supply that never repeats, as `uuid.uuid4` does.
pub mod Rules
pub mod Jobs
pub mod Keeps
use juris_mind_ai.Base.{
  ℕ, suc, Bool, true, false, Option, none, some, List, [], ◌∷◌, ◌++◌, if◌then◌else◌, ◌==◌, nat_eq,
}
use juris_mind_ai.Base.Result.{Result, ok, raised}
use juris_mind_ai.Base.Text.{Str, text as lit}
use juris_mind_ai.Failure.{Failure, integrity_error, Exec, pure}
use juris_mind_ai.Filters.{Filter}
use juris_mind_ai.Nodes.{Call}
use juris_mind_ai.Payload.{Payload}
use juris_mind_ai.Rows.{
  Uuid, ResearchJob, EvidenceItem, Claim, ClaimEvidence, Citation, Report, Database,
}
use juris_mind_ai.Rows.Constraints.{is_consistent}
use juris_mind_ai.Schemas.{Schema, Output}

-- The objects that `run_research` is given: the retriever, the prompt runner, and `on_progress`.
-- They may answer differently each time, so each takes the world outside and returns it.
pub record Services : Type 1 where
  pub World : Type 0
  -- One search hit, and one record of a call of the model.
  pub Hit : Type 0
  pub CallRecord : Type 0
  pub payload : Hit → Payload
  pub search : Str → Option Filter → ℕ → World → Result Failure (List Hit) × World
  pub run : (s : Schema) → Call → World → Result Failure (Output s × CallRecord) × World
  pub on_progress : Option (Str → World → Result Failure (Unit {0}) × World)

pub record Session (W : Type 0) : Type 0 where
  pub world : W
  pub db : Database
  pub fresh : Uuid
  -- the database's clock, which dates new rows
  pub now : ℕ

-- The constraint test of a flush.
pub flush_with : {S : Type 0} → Bool → Exec S (Unit {0})
flush_with true s = (ok tt, s)
flush_with false s = (raised (integrity_error (lit "constraint violated")), s)

module _ {W : Type 0} where
  -- A call of a service, for its answer and its effect on the world.
  unfoldable pub outside : {A : Type 0} → (W → Result Failure A × W) → Exec (Session W) A
  outside f s = let (r, w) = f s.world in (r, record s { world = w })

  unfoldable pub new_id : Exec (Session W) Uuid
  new_id s = (ok s.fresh, record s { fresh = suc s.fresh })

  unfoldable pub flush : Exec (Session W) (Unit {0})
  unfolding flush_with
  flush s = flush_with (is_consistent s.db) s

  unfoldable pub on_db : (Database → Database) → Exec (Session W) (Unit {0})
  on_db f s = (ok tt, record s { db = f s.db })

-- `session.add(row)`
abbrev pub add_job : ResearchJob → Database → Database
add_job r d = record d { jobs = d.jobs ++ r ∷ [] }

abbrev pub add_evidence : EvidenceItem → Database → Database
add_evidence r d = record d { evidence_items = d.evidence_items ++ r ∷ [] }

abbrev pub add_claim : Claim → Database → Database
add_claim r d = record d { claims = d.claims ++ r ∷ [] }

abbrev pub add_link : ClaimEvidence → Database → Database
add_link r d = record d { claim_evidence = d.claim_evidence ++ r ∷ [] }

abbrev pub add_citation : Citation → Database → Database
add_citation r d = record d { citations = d.citations ++ r ∷ [] }

abbrev pub add_report : Report → Database → Database
add_report r d = record d { reports = d.reports ++ r ∷ [] }

-- `session.get(ResearchJob, id)`
unfoldable pub get_job : Uuid → List ResearchJob → Option ResearchJob
get_job id [] = none
get_job id (j ∷ rest) = if j.id == id then some j else get_job id rest

-- A write to the attributes of the job's object.
unfoldable pub update_job : Uuid → (ResearchJob → ResearchJob) → List ResearchJob → List ResearchJob
update_job id f [] = []
update_job id f (j ∷ rest) = if j.id == id then f j ∷ rest else j ∷ update_job id f rest

abbrev pub set_job : Uuid → (ResearchJob → ResearchJob) → Database → Database
set_job id f d = record d { jobs = update_job id f d.jobs }

module _ (V : Services) where
  open V use {World}

  pub report_to :
      Option (Str → World → Result Failure (Unit {0}) × World)
      → Str
      → Exec (Session World) (Unit {0})
  unfolding outside pure
  report_to none msg = pure tt
  report_to (some f) msg = outside (f msg)

  -- `_report_progress`
  unfoldable pub report_progress : Str → Exec (Session World) (Unit {0})
  unfolding report_to
  report_progress = report_to V.on_progress
