-- ===== src/Jobs/Deletion.antt =====
-- What the deletion of a job leaves.
use juris_mind_ai.Jobs.Tables.{
  contains-falsy, contains-other, all-delete, guarded-delete, all-not, links_distinct-delete,
  contains-delete,
}
use juris_mind_ai.Base.Result.{ok-injective, raised-ne-ok}
use mathlib.Core.Path.{subst}
use juris_mind_ai.Session.{get_job as find_job}
use juris_mind_ai.Base.{some, Option, none, sym, if◌then◌else◌}
use juris_mind_ai.Jobs.{
  delete_found, ok, conflict, is_finished, AuditLogEntry, raised, Report, EvidenceItem, is_about,
  delete_job, Claim, remaining_links, remaining_citations, job_claims, job_evidence, Citation,
  without_job, Database, ResearchJob, Uuid, ClaimEvidence, delete,
}
use juris_mind_ai.Rows.Constraints.{
  audit_fits, evidence_fits, is_consistent, claim_fits, document_ids, citation_fits, report_fits,
  link_fits, evidence_ids, job_ids, claim_ids, links_distinct, all,
}
use juris_mind_ai.Base.{◌||◌, ◌==◌, ap, refl, arith, not, ◌≡◌, contains, Bool, true, false, nat_eq}

module _ (id : Uuid) (d : Database) where
  cites_job : Citation → Bool
  cites_job c = contains (job_claims id d) c.claim_id || contains (job_evidence id d) c.evidence_id

  links_job : ClaimEvidence → Bool
  links_job l = contains (job_claims id d) l.claim_id || contains (job_evidence id d) l.evidence_id

  citations-without_job : (without_job id d).citations ≡ delete cites_job d.citations
  unfolding without_job remaining_citations cites_job
  citations-without_job = guarded-delete cites_job d.citations _ (λ none_there c.
      contains-falsy (job_claims id d) (job_evidence id d) c.claim_id c.evidence_id none_there)

  links-without_job : (without_job id d).claim_evidence ≡ delete links_job d.claim_evidence
  unfolding without_job remaining_links links_job
  links-without_job = guarded-delete links_job d.claim_evidence _ (λ none_there l.
      contains-falsy (job_claims id d) (job_evidence id d) l.claim_id l.evidence_id none_there)

  -- Claims and items of other jobs stay.
  claim_stays :
      (k : Uuid)
      → contains (claim_ids d) k ≡ true
      → contains (job_claims id d) k ≡ false
      → contains (claim_ids (without_job id d)) k ≡ true
  unfolding job_claims without_job
  claim_stays k = contains-delete _ _ d.claims k

  evidence_stays :
      (k : Uuid)
      → contains (evidence_ids d) k ≡ true
      → contains (job_evidence id d) k ≡ false
      → contains (evidence_ids (without_job id d)) k ≡ true
  unfolding job_evidence without_job
  evidence_stays k = contains-delete _ _ d.evidence_items k

  job_stays :
      (k : Uuid)
      → (k == id) ≡ false
      → contains (job_ids d) k ≡ true
      → contains (job_ids (without_job id d)) k ≡ true
  unfolding without_job
  job_stays k = contains-other id k d.jobs

  evidence_consistent :
      all (evidence_fits d) d.evidence_items ≡ true
      → all (evidence_fits (without_job id d)) (without_job id d).evidence_items ≡ true
  unfolding without_job evidence_fits
  evidence_consistent =
      all-delete _ _ _ d.evidence_items (λ e other fits. ground (arith, job_stays e.job_id))

  claims_consistent :
      all (claim_fits d) d.claims ≡ true
      → all (claim_fits (without_job id d)) (without_job id d).claims ≡ true
  unfolding without_job claim_fits
  claims_consistent = all-delete _ _ _ d.claims (λ c other fits. job_stays c.job_id other fits)

  links_consistent :
      all (link_fits d) d.claim_evidence ≡ true
      → all (link_fits (without_job id d)) (without_job id d).claim_evidence ≡ true
  unfolding link_fits links_job
  links_consistent h =
      subst (λ ls. all (link_fits (without_job id d)) ls ≡ true) (sym links-without_job)
        (all-delete _ (link_fits d) _ d.claim_evidence
          (λ l other fits. ground (arith, claim_stays l.claim_id, evidence_stays l.evidence_id)) h)

  same_documents :
      (k : Uuid) → contains (document_ids (without_job id d)) k ≡ contains (document_ids d) k
  unfolding without_job
  same_documents k = refl

  citations_consistent :
      all (citation_fits d) d.citations ≡ true
      → all (citation_fits (without_job id d)) (without_job id d).citations ≡ true
  unfolding citation_fits cites_job
  citations_consistent h =
      subst (λ cs. all (citation_fits (without_job id d)) cs ≡ true) (sym citations-without_job)
        (all-delete _ (citation_fits d) _ d.citations
          (λ c other fits. ground (
            arith,
            claim_stays c.claim_id,
            evidence_stays c.evidence_id,
            same_documents c.document_id,
          ))
          h)

  reports_consistent :
      all (report_fits d) d.reports ≡ true
      → all (report_fits (without_job id d)) (without_job id d).reports ≡ true
  unfolding without_job report_fits
  reports_consistent = all-delete _ _ _ d.reports (λ r other fits. job_stays r.job_id other fits)

  audit_stays :
      (o : Option Uuid)
      → is_about id o ≡ false
      → audit_fits d o ≡ true
      → audit_fits (without_job id d) o ≡ true
  unfolding is_about audit_fits
  audit_stays none other fits = refl
  audit_stays (some k) other fits = job_stays k other fits

  audits_consistent :
      all (λ a. audit_fits d a.job_id) d.audits ≡ true
      → all (λ a. audit_fits (without_job id d) a.job_id) (without_job id d).audits ≡ true
  unfolding without_job
  audits_consistent = all-delete _ _ _ d.audits (λ a other fits. audit_stays a.job_id other fits)

  without_job-consistent : is_consistent d ≡ true → is_consistent (without_job id d) ≡ true
  unfolding is_consistent
  without_job-consistent h = ground (
    arith,
    evidence_consistent,
    claims_consistent,
    links_consistent,
    citations_consistent,
    reports_consistent,
    audits_consistent,
    links_distinct-delete links_job d.claim_evidence,
    ap links_distinct links-without_job,
  )

  -- That no row of the job is left.
  abbrev pub Cleared : Database → Type 0
  Cleared d' =
      (all (λ (j : ResearchJob). not (j.id == id)) d'.jobs ≡ true)
      × (all (λ (c : Claim). not (c.job_id == id)) d'.claims ≡ true)
      × (all (λ (e : EvidenceItem). not (e.job_id == id)) d'.evidence_items ≡ true)
      × (all (λ (r : Report). not (r.job_id == id)) d'.reports ≡ true)
      × (all (λ (a : AuditLogEntry). not (is_about id a.job_id)) d'.audits ≡ true)

  without_job-Cleared : Cleared (without_job id d)
  unfolding without_job
  without_job-Cleared = (
    all-not _ d.jobs,
    all-not _ d.claims,
    all-not _ d.evidence_items,
    all-not _ d.reports,
    all-not _ d.audits,
  )

  -- Deleting a job that is there and has finished succeeds, and leaves no row of it in any of the
  -- five tables that name a job.
  pub delete_job-Cleared :
      (j : ResearchJob)
      → find_job id d.jobs ≡ some j
      → is_finished j.status ≡ true
      → (d' : Database) × (delete_job id d ≡ ok d') × Cleared d'
  unfolding delete_job
  delete_job-Cleared j there finished =
      (without_job id d, rw (there, delete_found) (rw finished refl), without_job-Cleared)

  found-guard :
      (o : Option ResearchJob) (d' : Database)
      → delete_found o id d ≡ ok d'
      → (j : ResearchJob) × (o ≡ some j) × (is_finished j.status ≡ true) × (without_job id d ≡ d')
  unfolding delete_found
  found-guard none d' h = absurd (raised-ne-ok h)
  found-guard (some j) d' h = by_test (is_finished j.status) refl h
    where
      by_test :
          (b : Bool)
          → is_finished j.status ≡ b
          → (if b then ok (without_job id d) else raised (conflict j.status)) ≡ ok d'
          → (j' : ResearchJob) × (some j ≡ some j')
            × (is_finished j'.status ≡ true)
            × (without_job id d ≡ d')
      by_test true e h = (j, refl, e, ok-injective h)
      by_test false e h = absurd (raised-ne-ok h)

  -- Only a job that is there and has finished is ever deleted, and where the constraints held
  -- before, they hold of what the route commits.
  pub delete_job-consistent :
      (d' : Database)
      → is_consistent d ≡ true
      → delete_job id d ≡ ok d'
      → ((j : ResearchJob) × (find_job id d.jobs ≡ some j) × (is_finished j.status ≡ true))
        × (is_consistent d' ≡ true)
  unfolding delete_job
  delete_job-consistent d' good h =
      let (j, there, finished, same) = found-guard (find_job id d.jobs) d' h in
      ((j, there, finished), subst (λ e. is_consistent e ≡ true) same (without_job-consistent good))
