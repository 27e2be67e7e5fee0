-- ===== src/Jobs/Responses.antt =====
-- The answers of `create_job` and `get_job` of tradegraph/apps/api/routers/jobs.py, with the claims
-- and their citations. The order in which a query returns its rows is that of `Sql`.
pub mod Grouping
pub mod Creation
use juris_mind_ai.Queries.{Sql}
use juris_mind_ai.Payload.{show_uuid}
use juris_mind_ai.Base.Dict.{Dict}
use juris_mind_ai.Fusion.{get_or}
use juris_mind_ai.Jobs.{
  ok, not_found, raised, Result, Reply, EvidenceItem, JobStatus, Claim, ResearchJob, select,
  same_status,
}
use juris_mind_ai.Base.Text.{Str}
use juris_mind_ai.Base.Dict
use juris_mind_ai.Base.{
  if◌then◌else◌, false, ◌==◌, Bool, contains, ℕ, Option, none, some, List, [], ◌∷◌, ◌++◌, map,
  nat_eq,
}
use juris_mind_ai.Rows.{
  CitationStatus, Document, Citation, Database, Report, Uuid, pending, succeeded,
}
use juris_mind_ai.Failure.{pure, gets, Exec, Failure, ◌>>=◌, ◌>>◌}
use juris_mind_ai.Session.{outside, flush, add_job, on_db, new_id, Session, get_job as find_job}

pub record DocumentRef : Type 0 where
  pub document_id : Uuid
  pub company : Str
  pub ticker : Str
  pub document_type : Str

pub record CitationResponse : Type 0 where
  pub citation_id : Uuid
  pub status : CitationStatus
  pub rewritten_claim_text : Option Str
  pub justification : Str
  pub supporting_passage : Str
  pub evidence_summary : Str
  pub document : DocumentRef

pub record ClaimResponse : Type 0 where
  pub claim_id : Uuid
  pub text : Str
  pub citations : List CitationResponse

pub record JobResponse : Type 0 where
  pub job_id : Uuid
  pub status : JobStatus
  pub query : Str
  pub insufficient_evidence : Bool
  pub progress_detail : Option Str
  pub final_report : Option Str
  pub error_message : Option Str
  pub claims : List ClaimResponse

-- The rows that a join finds for an id.
pub evidence_with_id : Uuid → List EvidenceItem → Option EvidenceItem
evidence_with_id id [] = none
evidence_with_id id (e ∷ rest) = if e.id == id then some e else evidence_with_id id rest

pub document_with_id : Uuid → List Document → Option Document
document_with_id id [] = none
document_with_id id (x ∷ rest) = if x.id == id then some x else document_with_id id rest

-- A row of the join, if both sides have one.
citation_response :
    Citation → Option EvidenceItem → Option Document → List (Uuid × CitationResponse)
citation_response c (some e) (some x) =
    (
      c.claim_id,
      record {
        citation_id = c.id;
        status = c.status;
        rewritten_claim_text = c.rewritten_claim_text;
        justification = c.justification;
        supporting_passage = e.supporting_passage;
        evidence_summary = e.summary;
        document = record {
          document_id = x.id;
          company = x.company;
          ticker = x.ticker;
          document_type = x.document_type;
        };
      },
    )
    ∷ []
citation_response c _ _ = []

-- `rows`, each with the claim of its citation
pub joined_rows : Database → List Uuid → List Citation → List (Uuid × CitationResponse)
unfolding citation_response evidence_with_id document_with_id contains
joined_rows d claim_ids [] = []
joined_rows d claim_ids (c ∷ rest) =
    let later = joined_rows d claim_ids rest in
    if contains claim_ids c.claim_id
    then citation_response c (evidence_with_id c.evidence_id d.evidence_items)
        (document_with_id c.document_id d.documents)
      ++ later
    else later

-- `citations_by_claim`, a `defaultdict(list)` that each row is appended to
unfoldable pub group :
    List (Uuid × CitationResponse)
    → Dict Uuid (List CitationResponse)
    → Dict Uuid (List CitationResponse)
unfolding get_or
group [] by_claim = by_claim
group ((claim_id, c) ∷ rest) by_claim =
    group rest (Dict.insert claim_id (get_or [] (Dict.lookup claim_id by_claim) ++ c ∷ []) by_claim)

pub claim_response : Dict Uuid (List CitationResponse) → Claim → ClaimResponse
unfolding get_or
claim_response by_claim c = record {
  claim_id = c.id;
  text = c.text;
  citations = get_or [] (Dict.lookup c.id by_claim);
}

-- The rows of the two queries of `_load_claims`
pub claims_of : Sql → Database → Uuid → List Claim
unfolding select
claims_of q d job_id =
    q.ascending q.claim_created_at (select (λ (c : Claim). c.job_id == job_id) d.claims)

pub rows_of : Sql → Database → List Claim → List (Uuid × CitationResponse)
unfolding joined_rows
rows_of q d claims = q.unordered (joined_rows d (map (λ (c : Claim). c.id) claims) d.citations)

unfoldable pub load_claims : Sql → Database → Uuid → List ClaimResponse
unfolding claims_of rows_of group claim_response
load_claims q d job_id =
    let claims = claims_of q d job_id in map (claim_response (group (rows_of q d claims) [])) claims

-- `result.scalars().first()`
pub first_of : {A : Type 0} → List A → Option A
first_of [] = none
first_of (x ∷ xs) = some x

-- `where(Report.job_id == job.id).order_by(Report.created_at.desc())` and `first()`
pub latest_report : Sql → Uuid → List Report → Option Report
unfolding first_of select
latest_report q job_id reports =
    first_of
      (q.descending q.report_created_at (select (λ (r : Report). r.job_id == job_id) reports))

pub final_report_of : Option Report → Option Str
final_report_of none = none
final_report_of (some r) = r.final_report

unfoldable pub load_job_response : Sql → Database → ResearchJob → JobResponse
unfolding load_claims latest_report final_report_of same_status
load_job_response q d job =
    let succeeded_job = same_status job.status succeeded in
    record {
      job_id = job.id;
      status = job.status;
      query = job.query;
      insufficient_evidence = job.insufficient_evidence;
      progress_detail = job.progress_detail;
      final_report =
          if succeeded_job then final_report_of (latest_report q job.id d.reports) else none;
      error_message = job.error_message;
      claims = if succeeded_job then load_claims q d job.id else [];
    }

pub found_response : Sql → Database → Option ResearchJob → Reply JobResponse
unfolding load_job_response
found_response q d none = raised not_found
found_response q d (some job) = ok (load_job_response q d job)

unfoldable pub get_job : Sql → Uuid → Database → Reply JobResponse
unfolding found_response find_job
get_job q job_id d = found_response q d (find_job job_id d.jobs)

-- The row of a job before it starts.
unfoldable pub new_job : Uuid → Uuid → Str → Option Uuid → ℕ → ResearchJob
unfolding show_uuid
new_job trace_id id query tenant_id now = record {
  id = id;
  trace_id = some (show_uuid trace_id);
  tenant_id = tenant_id;
  query = query;
  status = pending;
  error_message = none;
  progress_detail = none;
  insufficient_evidence = false;
  created_at = now;
}

module _ {W : Type 0} (q : Sql)
    (enqueue : Str → Str → Option Str → Str → W → Result Failure (Unit {0}) × W) where
  show_tenant : Option Uuid → Option Str
  unfolding show_uuid
  show_tenant none = none
  show_tenant (some id) = some (show_uuid id)

  -- `create_job`, on a body that has been validated: the row is committed before the job is
  -- enqueued.
  unfoldable pub create_job : Str → Option Uuid → Exec (Session W) JobResponse
  unfolding load_job_response show_tenant show_uuid new_job
  create_job query tenant_id = do
    trace_id ← new_id
    id ← new_id
    now ← gets (λ s. s.now)
    let job = new_job trace_id id query tenant_id now
    on_db (add_job job)
    flush
    outside (enqueue (show_uuid id) query (show_tenant tenant_id) (show_uuid trace_id))
    d ← gets (λ s. s.db)
    pure (load_job_response q d job)
