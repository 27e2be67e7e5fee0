-- ===== src/Rows/Constraints.antt =====
-- The foreign keys and the composite primary key that orm.py declares, as the test that the
-- database makes of the rows.
use juris_mind_ai.Base.{
  Bool, true, ◌&&◌, not, Option, none, some, List, [], ◌∷◌, map, ◌==◌, nat_eq, contains,
}
use juris_mind_ai.Rows.{Uuid, EvidenceItem, Claim, ClaimEvidence, Citation, Report, Database}

-- `all(p(x) for x in xs)`
unfoldable pub all {ℓ} : {A : Type ℓ} → (A → Bool) → List A → Bool
all p [] = true
all p (x ∷ xs) = p x && all p xs

module _ (d : Database) where
  abbrev pub job_ids : List Uuid
  job_ids = map (λ r. r.id) d.jobs

  abbrev pub claim_ids : List Uuid
  claim_ids = map (λ r. r.id) d.claims

  abbrev pub evidence_ids : List Uuid
  evidence_ids = map (λ r. r.id) d.evidence_items

  abbrev pub chunk_ids : List Uuid
  chunk_ids = map (λ r. r.id) d.chunks

  abbrev pub document_ids : List Uuid
  document_ids = map (λ r. r.id) d.documents

  unfoldable pub evidence_fits : EvidenceItem → Bool
  evidence_fits r = contains job_ids r.job_id && contains chunk_ids r.chunk_id

  unfoldable pub claim_fits : Claim → Bool
  claim_fits r = contains job_ids r.job_id

  unfoldable pub link_fits : ClaimEvidence → Bool
  link_fits r = contains claim_ids r.claim_id && contains evidence_ids r.evidence_id

  unfoldable pub citation_fits : Citation → Bool
  citation_fits r =
      contains claim_ids r.claim_id
      && (contains evidence_ids r.evidence_id && contains document_ids r.document_id)

  unfoldable pub report_fits : Report → Bool
  report_fits r = contains job_ids r.job_id

  unfoldable pub audit_fits : Option Uuid → Bool
  audit_fits none = true
  audit_fits (some job_id) = contains job_ids job_id

abbrev pub same_link : ClaimEvidence → ClaimEvidence → Bool
same_link a b = (a.claim_id == b.claim_id) && (a.evidence_id == b.evidence_id)

-- The primary key of `claim_evidence`.
unfoldable pub links_distinct : List ClaimEvidence → Bool
unfolding all
links_distinct [] = true
links_distinct (l ∷ rest) = all (λ m. not (same_link l m)) rest && links_distinct rest

unfoldable pub is_consistent : Database → Bool
unfolding all evidence_fits claim_fits link_fits citation_fits report_fits audit_fits links_distinct
is_consistent d =
    all (evidence_fits d) d.evidence_items
    && (all (claim_fits d) d.claims
        && (all (link_fits d) d.claim_evidence
            && (all (citation_fits d) d.citations
                && (all (report_fits d) d.reports
                    && (all (λ a. audit_fits d a.job_id) d.audits
                        && links_distinct d.claim_evidence)))))
