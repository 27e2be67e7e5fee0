-- ===== src/Rows.antt =====
-- The tables of tradegraph/src/models/orm.py that a job touches, with the constraints that the
-- database checks when a session flushes. An id is the number of its UUID; columns that no
-- modelled code reads are left out.
pub mod Constraints
use juris_mind_ai.Base.{ℕ, Bool, true, false, Option, List, [], ◌∷◌, ◌++◌}
use juris_mind_ai.Base.Text.{Str}
use juris_mind_ai.Schemas.{CitationVerdict}

abbrev pub Uuid : Type 0
Uuid = ℕ

pub data JobStatus : Type 0 where
  pending running awaiting_review succeeded failed : JobStatus

pub data DocumentType : Type 0 where
  form_10k form_10q form_8k annual_report earnings_release investor_presentation : DocumentType
  earnings_transcript news other constitution central_act judgment_sc judgment_hc : DocumentType
  notification : DocumentType

pub data IngestionStatus : Type 0 where
  pending succeeded failed skipped_duplicate : IngestionStatus

pub data ChunkType : Type 0 where
  text table : ChunkType

pub data CitationStatus : Type 0 where
  accept rewrite remove flag : CitationStatus

-- `CitationStatus(verdict.lower())`
abbrev pub status_of : CitationVerdict → CitationStatus
status_of CitationVerdict.accept = CitationStatus.accept
status_of CitationVerdict.rewrite = CitationStatus.rewrite
status_of CitationVerdict.remove = CitationStatus.remove
status_of CitationVerdict.flag = CitationStatus.flag

pub record Document : Type 0 where
  pub id : Uuid
  pub company : Str
  pub ticker : Str
  pub document_type : Str

pub record ChunkRow : Type 0 where
  pub id : Uuid
  pub document_id : Uuid

pub record ResearchJob : Type 0 where
  pub id : Uuid
  pub trace_id : Option Str
  pub tenant_id : Option Uuid
  pub query : Str
  pub status : JobStatus
  pub error_message : Option Str
  pub progress_detail : Option Str
  pub insufficient_evidence : Bool
  pub created_at : ℕ

pub record EvidenceItem : Type 0 where
  pub id : Uuid
  pub job_id : Uuid
  pub chunk_id : Uuid
  pub supporting_passage : Str
  pub summary : Str

pub record Claim : Type 0 where
  pub id : Uuid
  pub job_id : Uuid
  pub text : Str

-- The pair is the primary key.
pub record ClaimEvidence : Type 0 where
  pub claim_id : Uuid
  pub evidence_id : Uuid

pub record Citation : Type 0 where
  pub id : Uuid
  pub claim_id : Uuid
  pub evidence_id : Uuid
  pub document_id : Uuid
  pub status : CitationStatus
  pub rewritten_claim_text : Option Str
  pub justification : Str

pub record Report : Type 0 where
  pub id : Uuid
  pub job_id : Uuid
  pub tenant_id : Option Uuid
  pub draft : Option Str
  pub final_report : Option Str

pub record AuditLogEntry : Type 0 where
  pub id : Uuid
  pub job_id : Option Uuid

pub record Database : Type 0 where
  pub documents : List Document
  pub chunks : List ChunkRow
  pub jobs : List ResearchJob
  pub evidence_items : List EvidenceItem
  pub claims : List Claim
  pub claim_evidence : List ClaimEvidence
  pub citations : List Citation
  pub reports : List Report
  pub audits : List AuditLogEntry

abbrev pub no_rows : Database
no_rows = record {
  documents = [];
  chunks = [];
  jobs = [];
  evidence_items = [];
  claims = [];
  claim_evidence = [];
  citations = [];
  reports = [];
  audits = [];
}
