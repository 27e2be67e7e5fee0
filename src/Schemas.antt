-- ===== src/Schemas.antt =====
-- The typed answers of the language model's nodes, tradegraph/src/graph/schemas.py.
use juris_mind_ai.Base.{Bool, Option, List}
use juris_mind_ai.Base.Int.{ℤ}
use juris_mind_ai.Base.Text.{Str}

pub data EvidenceVerdict : Type 0 where
  supports partial does_not_support : EvidenceVerdict

pub data CitationVerdict : Type 0 where
  accept rewrite remove flag : CitationVerdict

pub data ConfidenceLevel : Type 0 where
  low medium high : ConfidenceLevel

pub data EvidenceKind : Type 0 where
  qualitative quantitative both : EvidenceKind

pub record PlannerOutput : Type 0 where
  pub entities : List Str
  pub evidence_needed : EvidenceKind
  pub is_compound : Bool
  pub plan_notes : Str

pub record SubQuestion : Type 0 where
  pub question : Str
  pub company : Option Str
  pub ticker : Option Str
  pub document_type : Option Str

pub record QueryDecomposition : Type 0 where
  pub sub_questions : List SubQuestion

pub record ExtractedEvidence : Type 0 where
  pub passage_index : ℤ
  pub supporting_text : Str
  pub summary : Str

pub record EvidenceExtractionResult : Type 0 where
  pub items : List ExtractedEvidence

pub record VerificationDecision : Type 0 where
  pub evidence_index : ℤ
  pub verdict : EvidenceVerdict
  pub reason : Str

pub record VerificationResult : Type 0 where
  pub decisions : List VerificationDecision

pub record ContradictionPair : Type 0 where
  pub evidence_index_a : ℤ
  pub evidence_index_b : ℤ
  pub description : Str

pub record ContradictionResult : Type 0 where
  pub contradictions : List ContradictionPair
  pub gaps : List Str
  pub confidence : ConfidenceLevel

pub record ClaimDraft : Type 0 where
  pub claim_text : Str
  pub evidence_indices : List ℤ

pub record SynthesisResult : Type 0 where
  pub report_text : Str
  pub claims : List ClaimDraft

pub record CriticResult : Type 0 where
  pub problems : List Str
  pub ok : Bool

pub record CitationDecision : Type 0 where
  pub verdict : CitationVerdict
  pub rewritten_claim : Option Str
  pub justification : Str

-- The schema classes that a call may ask for, and the values of each.
pub data Schema : Type 0 where
  planner_output query_decomposition evidence_extraction verification_result : Schema
  contradiction_result synthesis_result critic_result citation_decision : Schema

abbrev pub Output : Schema → Type 0
Output planner_output = PlannerOutput
Output query_decomposition = QueryDecomposition
Output evidence_extraction = EvidenceExtractionResult
Output verification_result = VerificationResult
Output contradiction_result = ContradictionResult
Output synthesis_result = SynthesisResult
Output critic_result = CriticResult
Output citation_decision = CitationDecision
