-- ===== src/Jobs.antt =====
-- The routes of tradegraph/apps/api/routers/jobs.py. A reply is a value or an HTTP error; the
-- commit at the end of a route checks the constraints of the rows.
pub mod Tables
pub mod Deletion
use juris_mind_ai.Base.Result.{ok, raised, Result}
use juris_mind_ai.Base.Text.{truthy, Str}
use juris_mind_ai.Rows.{
  AuditLogEntry, Citation, ClaimEvidence, Report, EvidenceItem, Claim, failed, Database, succeeded,
  Uuid, JobStatus, ResearchJob,
}
use juris_mind_ai.Session.{get_job as find_job}
pub mod Stream
pub mod Listing
pub mod Responses
use juris_mind_ai.Queries.{Sql}
use juris_mind_ai.Rows.{pending, running, awaiting_review}
use juris_mind_ai.Base.{
  nat_eq, drop, ◌||◌, take, ◌&&◌, leb, contains, ◌==◌, list_beq, ltb, if◌then◌else◌, ℕ, Bool, true,
  false, Option, none, some, List, [], ◌∷◌, ◌++◌, map,
}

pub data HttpError : Type 0 where
  not_found : HttpError
  -- the status that forbids it
  conflict : JobStatus → HttpError
  -- a parameter out of its bounds
  unprocessable : HttpError

abbrev pub Reply : Type 0 → Type 0
Reply A = Result HttpError A

-- `status in TERMINAL_STATUSES`, and `in DELETABLE_STATUSES`
unfoldable pub is_finished : JobStatus → Bool
is_finished succeeded = true
is_finished failed = true
is_finished _ = false

-- The rows that a `where` clause selects, and those that stay when they are deleted.
unfoldable pub select {ℓ} : {A : Type ℓ} → (A → Bool) → List A → List A
select p [] = []
select p (x ∷ xs) = let rest = select p xs in if p x then x ∷ rest else rest

unfoldable pub delete {ℓ} : {A : Type ℓ} → (A → Bool) → List A → List A
delete p [] = []
delete p (x ∷ xs) = let rest = delete p xs in if p x then rest else x ∷ rest

-- `audit.job_id == id`
unfoldable pub is_about : Uuid → Option Uuid → Bool
is_about id none = false
is_about id (some job_id) = job_id == id

module _ (id : Uuid) (d : Database) where
  unfoldable pub job_claims : List Uuid
  unfolding select
  job_claims = map (λ (c : Claim). c.id) (select (λ (c : Claim). c.job_id == id) d.claims)

  unfoldable pub job_evidence : List Uuid
  unfolding select
  job_evidence =
      map (λ (e : EvidenceItem). e.id)
        (select (λ (e : EvidenceItem). e.job_id == id) d.evidence_items)

  -- The citations and links that stay: under `if claim_ids or evidence_ids`.
  pub remaining_citations : List Citation
  unfolding job_claims job_evidence delete contains truthy
  remaining_citations =
      let rest =
        delete
          (λ (c : Citation). contains job_claims c.claim_id || contains job_evidence c.evidence_id)
          d.citations in
      if truthy job_claims || truthy job_evidence then rest else d.citations

  pub remaining_links : List ClaimEvidence
  unfolding job_claims job_evidence delete contains truthy
  remaining_links =
      let rest =
        delete
          (λ (l : ClaimEvidence).
            contains job_claims l.claim_id || contains job_evidence l.evidence_id)
          d.claim_evidence in
      if truthy job_claims || truthy job_evidence then rest else d.claim_evidence

  unfoldable pub without_job : Database
  unfolding remaining_citations remaining_links delete is_about
  without_job = record d {
    citations = remaining_citations;
    claim_evidence = remaining_links;
    claims = delete (λ (c : Claim). c.job_id == id) d.claims;
    evidence_items = delete (λ (e : EvidenceItem). e.job_id == id) d.evidence_items;
    reports = delete (λ (r : Report). r.job_id == id) d.reports;
    audits = delete (λ (a : AuditLogEntry). is_about id a.job_id) d.audits;
    jobs = delete (λ (j : ResearchJob). j.id == id) d.jobs;
  }

-- The branches of `delete_job`, on the row that was found.
pub delete_found : Option ResearchJob → Uuid → Database → Reply Database
unfolding is_finished without_job
delete_found none id d = raised not_found
delete_found (some job) id d =
    if is_finished job.status then ok (without_job id d) else raised (conflict job.status)

-- The database that the route commits.
unfoldable pub delete_job : Uuid → Database → Reply Database
unfolding delete_found find_job
delete_job id d = delete_found (find_job id d.jobs) id d

-- `event: error`, `event: progress` and `event: status`
pub data Event : Type 0 where
  job_not_found : Event
  progress : Str → Event
  status : JobStatus → Event

unfoldable pub same_status : JobStatus → JobStatus → Bool
same_status pending pending = true
same_status running running = true
same_status awaiting_review awaiting_review = true
same_status succeeded succeeded = true
same_status failed failed = true
same_status _ _ = false

-- What differs from `last` is news.
unfoldable pub news {ℓ} : {A : Type ℓ} → (A → A → Bool) → Option A → A → List A
news same none a = a ∷ []
news same (some last) a = if same a last then [] else a ∷ []

pub progress_news : Option Str → Option Str → List Event
unfolding news
progress_news last none = []
progress_news last (some detail) = map progress (news list_beq last detail)

-- `last_progress` after a poll
pub or_last : Option Str → Option Str → Option Str
or_last none last = last
or_last (some detail) last = some detail

-- `event_source` on what its polls find, one after the other; the flag says that it has returned.
unfoldable pub event_source :
    Option JobStatus → Option Str → List (Option ResearchJob) → List Event × Bool
unfolding progress_news news same_status or_last is_finished
event_source last_status last_progress [] = ([], false)
event_source last_status last_progress (none ∷ polls) = (job_not_found ∷ [], true)
event_source last_status last_progress (some current ∷ polls) =
    let now =
      progress_news last_progress current.progress_detail
      ++ map status (news same_status last_status current.status) in
    let (later, closed) =
      event_source (some current.status) (or_last current.progress_detail last_progress) polls in
    if is_finished current.status then (now, true) else (now ++ later, closed)

-- `stream_job`: a job that is not there is an error before any event.
unfoldable pub stream_job :
    Option ResearchJob → List (Option ResearchJob) → Reply (List Event × Bool)
unfolding event_source
stream_job none polls = raised not_found
stream_job (some job) polls = ok (event_source none none polls)

pub record JobSummary : Type 0 where
  pub job_id : Uuid
  pub query : Str
  pub status : JobStatus
  pub insufficient_evidence : Bool
  pub created_at : ℕ

abbrev pub summary : ResearchJob → JobSummary
summary j = record {
  job_id = j.id;
  query = j.query;
  status = j.status;
  insufficient_evidence = j.insufficient_evidence;
  created_at = j.created_at;
}

-- `order_by(created_at.desc()).limit(limit).offset(offset)`, with the bounds of the two parameters
unfoldable pub list_jobs : Sql → ℕ → ℕ → Database → Reply (List JobSummary)
list_jobs q limit offset d =
    if leb 1 limit && leb limit 100
    then ok (
        map summary
          (take limit (drop offset (q.descending (λ (j : ResearchJob). j.created_at) d.jobs))))
    else raised unprocessable
