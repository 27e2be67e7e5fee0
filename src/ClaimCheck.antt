-- ===== src/ClaimCheck.antt =====
-- The validation of the drafted claims, the loop over `synthesis.claims` in `run_research` of
-- tradegraph/src/graph/pipeline.py.
pub mod Verdicts
pub mod Citing
pub mod Lines
pub mod Pairing
pub mod Frame
use juris_mind_ai.Base.{Bool, true, false, Option, none, some, List, [], ◌∷◌, ◌++◌, if◌then◌else◌}
use juris_mind_ai.Base.Dict
use juris_mind_ai.Base.Dict.{Dict}
use juris_mind_ai.Base.Int.{ℤ, item_at, ℤ_eq}
use juris_mind_ai.Base.Text.{Str, text as lit, truthy}
use juris_mind_ai.Failure.{Exec, ◌>>=◌, ◌>>◌, pure, or_raise, value_error}
use juris_mind_ai.Nodes.{Job, citation_validator_call}
use juris_mind_ai.Payload.{get_str, parse_uuid}
use juris_mind_ai.Rows.{Uuid, status_of}
use juris_mind_ai.Schemas.{
  accept, rewrite, remove, flag, CitationDecision, ClaimDraft, citation_decision,
}
use juris_mind_ai.Session.{
  Services, Session, outside, new_id, flush, on_db, add_evidence, add_claim, add_link, add_citation,
}
use juris_mind_ai.SubQuestion.{VerifiedEvidence}

-- `verified_evidence[i] for i in indices if 0 <= i < len(verified_evidence)`
unfoldable pub resolve {ℓ} : {A : Type ℓ} → List A → List ℤ → List A
unfolding item_at
resolve verified [] = []
resolve verified (i ∷ rest) = elim (item_at verified i) [
  | none ↦ resolve verified rest
  | some ve ↦ ve ∷ resolve verified rest
]

-- `zip(xs, ys, strict=False)`
unfoldable pub zip {ℓ κ} : {A : Type ℓ} {B : Type κ} → List A → List B → List (A × B)
zip (x ∷ xs) (y ∷ ys) = (x, y) ∷ zip xs ys
zip _ _ = []

-- `accepted_text` and `flagged`
pub record Acceptance : Type 0 where
  pub accepted_text : Option Str
  pub flagged : Bool

abbrev pub undecided : Acceptance
undecided = record { accepted_text = none; flagged = false }

-- `x if x is not None else y`
or_text : Option Str → Str → Option Str
or_text (some t) y = some t
or_text none y = some y

-- The branch for a REWRITE verdict: only a text that is not empty counts.
take_rewrite : Option Str → Acceptance → Acceptance
unfolding truthy
take_rewrite none a = a
take_rewrite (some t) a = if truthy t then record a { accepted_text = some t } else a

-- What one verdict does to `accepted_text` and `flagged`.
unfoldable pub decide : Str → CitationDecision → Acceptance → Acceptance
unfolding or_text take_rewrite
decide claim_text d a = elim d.verdict [
  | accept ↦ record a { accepted_text = or_text a.accepted_text claim_text }
  | rewrite ↦ take_rewrite d.rewritten_claim a
  | flag ↦ record { accepted_text = or_text a.accepted_text claim_text; flagged = true }
  | remove ↦ a
]

-- The line of the report, if any: an empty text is no line.
unfoldable pub report_line : Acceptance → List Str
unfolding truthy
report_line a = elim a.accepted_text [
  | none ↦ []
  | some t ↦ if truthy t then (if a.flagged then t ++ lit " [uncertain]" else t) ∷ [] else []
]

module _ (V : Services) where
  open V use {World, Hit, CallRecord}

  pub record Progress : Type 0 where
    pub records : List CallRecord
    pub persisted : Dict ℤ Uuid
    pub lines : List Str

  module _ (job : Job) (job_id : Uuid) where
    pub write_evidence :
        ℤ → VerifiedEvidence Hit → Dict ℤ Uuid → Exec (Session World) (Uuid × Dict ℤ Uuid)
    write_evidence index ve persisted = do
      chunk_id ←
          or_raise (value_error (lit "badly formed hexadecimal UUID string"))
            (parse_uuid (get_str (lit "chunk_id") (V.payload ve.source)))
      id ← new_id
      on_db (
          add_evidence (record {
            id = id;
            job_id = job_id;
            chunk_id = chunk_id;
            supporting_passage = ve.evidence.supporting_text;
            summary = ve.evidence.summary;
          }))
      flush
      pure (id, Dict.insert index id persisted)

    pub or_write :
        Option Uuid
        → ℤ
        → VerifiedEvidence Hit
        → Dict ℤ Uuid
        → Exec (Session World) (Uuid × Dict ℤ Uuid)
    or_write (some id) index ve persisted = pure (id, persisted)
    or_write none index ve persisted = write_evidence index ve persisted

    -- The row of evidence for an index, written when the index is first met.
    unfoldable pub persist :
        ℤ → VerifiedEvidence Hit → Dict ℤ Uuid → Exec (Session World) (Uuid × Dict ℤ Uuid)
    unfolding write_evidence or_write
    persist index ve persisted = or_write (Dict.lookup index persisted) index ve persisted

    -- One turn of the loop over `zip(claim_draft.evidence_indices, cited)`.
    unfoldable pub cite :
        Str
        → Uuid
        → ℤ
        → VerifiedEvidence Hit
        → Dict ℤ Uuid
        → Exec (Session World) (CitationDecision × CallRecord × Dict ℤ Uuid)
    cite claim_text claim_id index ve persisted = do
      (evidence_id, persisted') ← persist index ve persisted
      on_db (add_link (record { claim_id = claim_id; evidence_id = evidence_id }))
      (decision, r) ← outside (
          V.run citation_decision
            (citation_validator_call job claim_text ve.evidence.supporting_text))
      document_id ←
          or_raise (value_error (lit "badly formed hexadecimal UUID string"))
            (parse_uuid (get_str (lit "document_id") (V.payload ve.source)))
      id ← new_id
      on_db (
          add_citation (record {
            id = id;
            claim_id = claim_id;
            evidence_id = evidence_id;
            document_id = document_id;
            status = status_of decision.verdict;
            rewritten_claim_text = decision.rewritten_claim;
            justification = decision.justification;
          }))
      pure (decision, r, persisted')

    -- The loop, with what it leaves in `accepted_text` and `flagged`.
    unfoldable pub cite_all :
        Str
        → Uuid
        → List (ℤ × VerifiedEvidence Hit)
        → Acceptance
        → Progress
        → Exec (Session World) (Acceptance × Progress)
    cite_all claim_text claim_id [] a p = pure (a, p)
    cite_all claim_text claim_id ((index, ve) ∷ rest) a p = do
      (decision, r, persisted') ← cite claim_text claim_id index ve p.persisted
      cite_all claim_text claim_id rest (decide claim_text decision a)
          (record p { records = p.records ++ r ∷ []; persisted = persisted' })

    -- The body for a claim with evidence.
    unfoldable pub check_cited :
        ClaimDraft → List (VerifiedEvidence Hit) → Progress → Exec (Session World) Progress
    check_cited draft [] p = pure p
    check_cited draft (ve ∷ more) p = do
      claim_id ← new_id
      on_db (add_claim (record { id = claim_id; job_id = job_id; text = draft.claim_text }))
      flush
      (a, p') ←
          cite_all draft.claim_text claim_id (zip draft.evidence_indices (ve ∷ more)) undecided p
      pure (record p' { lines = p'.lines ++ report_line a })

    unfoldable pub check_claims :
        List (VerifiedEvidence Hit) → List ClaimDraft → Progress → Exec (Session World) Progress
    check_claims verified [] p = pure p
    check_claims verified (draft ∷ rest) p = do
      p' ← check_cited draft (resolve verified draft.evidence_indices) p
      check_claims verified rest p'
