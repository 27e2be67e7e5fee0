-- ===== src/SubQuestion.antt =====
-- One sub-question of a research job, `_research_sub_question` of tradegraph/src/graph/pipeline.py:
-- search, extract, verify, look for contradictions.
pub mod Kept
pub mod Quiet
pub mod Answers
use juris_mind_ai.Base.{ℕ, suc, Bool, true, false, Option, none, some, List, [], ◌∷◌, ◌++◌, map}
use juris_mind_ai.Base.Dict
use juris_mind_ai.Base.Dict.{Dict}
use juris_mind_ai.Base.Int.{ℤ, pos, add_ℕ, item_at, ℤ_eq}
use juris_mind_ai.Base.Text.{Str, text as lit}
use juris_mind_ai.Failure.{Exec, ◌>>=◌, ◌>>◌, pure}
use juris_mind_ai.Filters.{Filter}
use juris_mind_ai.Nodes.{
  Job, describe_evidence, evidence_extractor_call, verifier_call, contradiction_call,
}
use juris_mind_ai.Payload.{payload_text}
use juris_mind_ai.Schemas.{
  EvidenceVerdict, supports, partial, does_not_support, ExtractedEvidence, VerificationDecision,
  ContradictionPair, evidence_extraction, verification_result, contradiction_result,
}
use juris_mind_ai.Session.{Services, Session, outside, report_progress}

-- `VerifiedEvidence`
pub record VerifiedEvidence (Hit : Type 0) : Type 0 where
  pub evidence : ExtractedEvidence
  pub source : Hit

-- `{d.evidence_index: d.verdict for d in verification.decisions}`, from the dict of those before
unfoldable pub verdict_by_index :
    List VerificationDecision → Dict ℤ EvidenceVerdict → Dict ℤ EvidenceVerdict
unfolding Dict.insert
verdict_by_index [] d = d
verdict_by_index (v ∷ rest) d = verdict_by_index rest (Dict.insert v.evidence_index v.verdict d)

-- `verdict in ("SUPPORTS", "PARTIAL")`
unfoldable pub passes : Option EvidenceVerdict → Bool
passes (some supports) = true
passes (some partial) = true
passes (some does_not_support) = false
passes none = false

module _ {Hit : Type 0} where
  keep :
      ExtractedEvidence
      → Bool
      → Option Hit
      → List (VerifiedEvidence Hit)
      → List (VerifiedEvidence Hit)
  keep item true (some hit) rest = record { evidence = item; source = hit } ∷ rest
  keep item _ _ rest = rest

  -- `for i, item in enumerate(extraction.items)`, from the index of the first of `items`
  unfoldable pub keep_verified :
      List Hit → Dict ℤ EvidenceVerdict → ℕ → List ExtractedEvidence → List (VerifiedEvidence Hit)
  unfolding keep passes Dict.lookup item_at
  keep_verified hits verdicts i [] = []
  keep_verified hits verdicts i (item ∷ rest) =
      keep item (passes (Dict.lookup (pos i) verdicts)) (item_at hits item.passage_index)
        (keep_verified hits verdicts (suc i) rest)

unfoldable pub offset_pair : ℕ → ContradictionPair → ContradictionPair
unfolding add_ℕ
offset_pair offset p = record {
  evidence_index_a = add_ℕ p.evidence_index_a offset;
  evidence_index_b = add_ℕ p.evidence_index_b offset;
  description = p.description;
}

module _ (V : Services) where
  open V use {World, Hit, CallRecord}

  -- The returned tuple: records, verified evidence, gaps, contradictions.
  pub record Findings : Type 0 where
    pub records : List CallRecord
    pub kept : List (VerifiedEvidence Hit)
    pub gaps : List Str
    pub contradictions : List ContradictionPair

  -- A return with one gap and no evidence.
  abbrev gap : List CallRecord → Str → Str → Exec (Session World) Findings
  gap records why question =
      pure (record {
        records = records;
        kept = [];
        gaps = (why ++ question) ∷ [];
        contradictions = [];
      })

  module _ (job : Job) (question : Str) (offset : ℕ) where
    -- From the check for contradictions on.
    unfoldable pub check_contradictions :
        List CallRecord → List (VerifiedEvidence Hit) → Exec (Session World) Findings
    check_contradictions records [] = gap records (lit "No verified evidence for: ") question
    check_contradictions records (ve ∷ more) = do
      let kept = ve ∷ more
      report_progress V (lit "Checking for contradictions in: " ++ question)
      (result, r) ← outside (
          V.run contradiction_result
            (contradiction_call job question (map (λ k. describe_evidence k.evidence) kept)))
      pure (record {
        records = records ++ r ∷ [];
        kept = kept;
        gaps = result.gaps;
        contradictions = map (offset_pair offset) result.contradictions;
      })

    -- From the verification on.
    unfoldable pub verify_items :
        List Hit → List CallRecord → List ExtractedEvidence → Exec (Session World) Findings
    verify_items hits records [] = gap records (lit "No evidence extracted for: ") question
    verify_items hits records (item ∷ more) = do
      let items = item ∷ more
      report_progress V (lit "Verifying evidence for: " ++ question)
      (verification, r) ← outside (V.run verification_result (verifier_call job question items))
      check_contradictions (records ++ r ∷ [])
          (keep_verified hits (verdict_by_index verification.decisions []) 0 items)

    -- From the extraction on.
    unfoldable pub extract_evidence : List Hit → Exec (Session World) Findings
    extract_evidence [] = gap [] (lit "No retrieved evidence for: ") question
    extract_evidence (hit ∷ more) = do
      let hits = hit ∷ more
      report_progress V (lit "Extracting evidence for: " ++ question)
      (extraction, r) ← outside (
          V.run evidence_extraction
            (evidence_extractor_call job question (map (λ h. payload_text (V.payload h)) hits)))
      verify_items hits (r ∷ []) extraction.items

    unfoldable pub research_sub_question : Option Filter → ℕ → Exec (Session World) Findings
    research_sub_question query_filter top_n = do
      hits ← outside (V.search question query_filter top_n)
      extract_evidence hits
