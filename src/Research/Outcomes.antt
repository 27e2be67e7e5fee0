-- ===== src/Research/Outcomes.antt =====
-- What a research job returns and stores, from the query on.
use juris_mind_ai.Rows.{ResearchJob}
use juris_mind_ai.ClaimCheck.Frame.{check_claims-Leaves}
use juris_mind_ai.Session.Rules.{Ensures-outside, Ensures-report_progress}
use juris_mind_ai.Research.Stored.{
  store_report-IsStoredAs, is_empty, done, report_of, declare_insufficient-IsStoredAs,
}
use juris_mind_ai.ClaimCheck.Lines.{
  check_claims-lines, verdicts_of, lines_of, IsJudged, with_evidence, Checked,
}
use juris_mind_ai.ClaimCheck.Citing.{Anything, citations_of}
use juris_mind_ai.Schemas.{ClaimDraft}
use juris_mind_ai.Failure.Ensures.{Ensures-both, Ensures-bind, Ensures-weaken, Ensures}
use juris_mind_ai.Rows.{CitationStatus, Report}
use juris_mind_ai.Research.{
  report_text, Outcome, get_job, Session, ResearchJob, VerifiedEvidence, Findings,
  ContradictionPair, write_report, Str, conclude, Uuid, Request,
}
use juris_mind_ai.Session.{Services}
use mathlib.Core.List.{append-nil}
use juris_mind_ai.Base.{All, Option, some, List, [], ◌∷◌, ◌++◌, ◌≡◌, refl, ◌∙◌, ap, sym, map}

module _ (V : Services) (q : Request V) where
  open V use {World, Hit}

  -- What a job has returned and stored, by the row that it had, the reports and the verdicts that
  -- were there, and its gaps and contradictions.
  pub record Concluded (id : Uuid) (gaps : List Str) (contradictions : List ContradictionPair)
      (row : ResearchJob) (reports : List Report) (verdicts : List (Uuid × CitationStatus))
      (out : Outcome V) (s' : Session World) : Type 0 where
    pub kept : List (VerifiedEvidence Hit)
    pub drafts : List ClaimDraft
    -- the claims that were checked, with their verdicts
    pub checked : List Checked
    pub checked_drafts : map (λ (c : Checked). c.draft) checked ≡ with_evidence kept drafts
    pub judged : All (IsJudged kept) checked
    pub job_id : out.job_id ≡ id
    pub text : out.final_report ≡ report_text V q (lines_of checked) gaps contradictions
    pub stored :
        (report_id : Uuid) × (draft : Option Str) × (s'.db.reports
          ≡ reports ++ report_of V q id report_id draft out.final_report ∷ [])
    pub row_after : get_job id s'.db.jobs ≡ some (done (is_empty (lines_of checked)) row)
    pub flag :
        out.insufficient_evidence ≡ (done (is_empty (lines_of checked)) row).insufficient_evidence
    pub citations : citations_of s' ≡ verdicts ++ verdicts_of checked

  pub conclude-Concluded :
      (id : Uuid) (found : Findings V) (kept : List (VerifiedEvidence Hit)) (row : ResearchJob)
      (s : Session World)
      → get_job id s.db.jobs ≡ some row
      → Ensures
          (conclude V q id found kept s)
          (Concluded id found.gaps found.contradictions row s.db.reports (citations_of s))
          Anything
  unfolding conclude write_report
  conclude-Concluded id found [] row s here =
      Ensures-weaken _
        (λ out s' end. record {
          kept = found.kept;
          drafts = [];
          checked = [];
          checked_drafts = refl;
          judged = tt;
          job_id = end.job_id;
          text = end.text;
          stored = end.reports;
          row_after = end.row_after;
          flag = end.flag;
          citations = end.citations ∙ sym (append-nil _);
        })
        (λ _ _ u. u)
        (declare_insufficient-IsStoredAs V q id found.records found.gaps found.contradictions row s
          here)
  conclude-Concluded id found (ve ∷ more) row s here = Ensures-bind _ _ s (
      Ensures-report_progress V _ s
        (λ w1. Ensures-bind _ _ _ (
          Ensures-outside _ _
            (λ (synthesis, r) w2. Ensures-bind _ _ _ (
              Ensures-report_progress V _ _
                (λ w3. Ensures-bind _ _ _ (
                  Ensures-outside _ _
                    (λ (critic, r') w4. Ensures-bind _ _ _ (
                      Ensures-report_progress V _ _
                        (λ w5. Ensures-bind _ _ _ (
                          Ensures-weaken _
                            (λ p s1 (left, (cs, drafts, judged, lines, rows)).
                              Ensures-weaken _
                                (λ out s' end. record {
                                  kept = found.kept;
                                  drafts = synthesis.claims;
                                  checked = cs;
                                  checked_drafts = drafts;
                                  judged = judged;
                                  job_id = end.job_id;
                                  text =
                                      end.text
                                      ∙ ap (λ l. report_text V q l found.gaps found.contradictions)
                                          lines;
                                  stored = (
                                    end.reports.0,
                                    end.reports.1,
                                    end.reports.2
                                        ∙ ap
                                            (λ (k : List ResearchJob × List Report).
                                              k.1
                                              ++ report_of V q id end.reports.0 end.reports.1
                                                  out.final_report
                                                ∷ [])
                                            left,
                                  );
                                  row_after =
                                      end.row_after ∙ ap (λ l. some (done (is_empty l) row)) lines;
                                  flag =
                                      end.flag
                                      ∙ ap (λ l. (done (is_empty l) row).insufficient_evidence)
                                          lines;
                                  citations = end.citations ∙ rows;
                                })
                                (λ _ _ u. u)
                                (store_report-IsStoredAs V q id synthesis.report_text found p row s1
                                  (ap (λ (k : List ResearchJob × List Report). get_job id k.0) left
                                    ∙ here)))
                            (λ _ _ _. tt)
                            (Ensures-both _
                              ((check_claims-Leaves V q.job id found.kept synthesis.claims _).keeps
                                _)
                              (check_claims-lines V q.job id found.kept synthesis.claims _ _))))
                        (λ _ _. tt)))
                    (λ _ _. tt)))
                (λ _ _. tt)))
            (λ _ _. tt)))
        (λ _ _. tt))
