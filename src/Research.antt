-- ===== src/Research.antt =====
-- A research job from query to stored report, `run_research` of
-- tradegraph/src/graph/pipeline.py.
pub mod Stored
pub mod Outcomes
pub mod Runs
use juris_mind_ai.Base.{
  ℕ, suc, Bool, true, false, Option, none, some, List, [], ◌∷◌, ◌++◌, map, length,
}
use juris_mind_ai.Base.Int.{ℤ, pos, negsuc}
use juris_mind_ai.Base.Text.{Str, text as lit, join, show_ℕ}
use juris_mind_ai.ClaimCheck.{Progress, check_claims}
use juris_mind_ai.Failure.{Exec, ◌>>=◌, ◌>>◌, pure, gets, or_raise, value_error, key_error}
use juris_mind_ai.Filters.{build_metadata_filter}
use juris_mind_ai.Nodes.{
  Job, describe_evidence, planner_call, query_decomposer_call, synthesizer_call, critic_call,
}
use juris_mind_ai.Payload.{parse_uuid, show_uuid}
use juris_mind_ai.Rows.{Uuid, ResearchJob, running, succeeded}
use juris_mind_ai.Schemas.{
  SubQuestion, ContradictionPair, planner_output, query_decomposition, synthesis_result,
  critic_result,
}
use juris_mind_ai.Session.{
  Services, Session, outside, new_id, flush, on_db, report_progress, get_job, set_job, add_job,
  add_report,
}
use juris_mind_ai.SubQuestion.{VerifiedEvidence, Findings, research_sub_question}

unfoldable pub no_quantitative_results : Str
unfolding lit
no_quantitative_results =
    lit "No quantitative results available — the deterministic quant engine is V3 work."

unfoldable pub declared_insufficient : Str
unfolding lit
declared_insufficient =
    lit
      "Evidence insufficient to answer this question within the current corpus and research budget. No verified evidence was found for any sub-question."

-- `str(i)`
show_ℤ : ℤ → Str
unfolding show_ℕ lit
show_ℤ (pos n) = show_ℕ n
show_ℤ (negsuc n) = lit "-" ++ show_ℕ (suc n)

-- `s or "None"`
or_none : Str → Str
unfolding lit
or_none [] = lit "None"
or_none (c ∷ s) = c ∷ s

describe_pair : ContradictionPair → Str
unfolding show_ℤ lit
describe_pair c =
    show_ℤ c.evidence_index_a
    ++ (lit " vs " ++ (show_ℤ c.evidence_index_b ++ (lit ": " ++ c.description)))

-- A section of the report that is there only if its list is not empty.
optional_section : Str → List Str → List Str
unfolding join lit
optional_section title [] = []
optional_section title (s ∷ rest) = (title ++ join (lit "; ") (s ∷ rest)) ∷ []

-- The text of a report with at least one line.
unfoldable pub final_text : List Str → List Str → List ContradictionPair → Str
unfolding optional_section join lit
final_text report_lines gaps contradictions = join (lit "\n\n") (
    join (lit " ") report_lines
    ∷ (optional_section (lit "Evidence gaps: ") gaps
        ++ optional_section (lit "Contradictions found: ")
            (map (λ c. c.description) contradictions)))

show_optional : Option Uuid → Option Str
unfolding show_uuid
show_optional none = none
show_optional (some id) = some (show_uuid id)

module _ (V : Services) where
  open V use {World, Hit, CallRecord}

  pub record Outcome : Type 0 where
    pub job_id : Uuid
    pub final_report : Str
    pub insufficient_evidence : Bool
    pub llm_call_records : List CallRecord

  -- The arguments of `run_research` that are values.
  pub record Request : Type 0 where
    pub query : Str
    pub job : Job
    pub tenant_id : Option Uuid
    pub top_n_per_subquestion : ℕ

  module _ (q : Request) where
    -- The row is taken over if the API wrote it, and made if not.
    pub start_job : Uuid → Option ResearchJob → Exec (Session World) (Unit {0})
    start_job id (some row) s = on_db (set_job id (λ r. record r { status = running })) s
    start_job id none s =
        on_db
          (add_job (record {
            id = id;
            trace_id = some q.job.trace_id;
            tenant_id = q.tenant_id;
            query = q.query;
            status = running;
            error_message = none;
            progress_detail = none;
            insufficient_evidence = false;
            created_at = s.now;
          }))
          s

    -- The loop over the sub-questions, numbered from `i` of `total`.
    unfoldable pub research_all :
        ℕ → ℕ → List SubQuestion → Findings V → Exec (Session World) (Findings V)
    unfolding show_optional
    research_all i total [] found = pure found
    research_all i total (sub ∷ rest) found = do
      report_progress V (
          lit "Researching sub-question "
          ++ (show_ℕ i ++ (lit "/" ++ (show_ℕ total ++ (lit ": " ++ sub.question)))))
      more ←
          research_sub_question V q.job sub.question (length found.kept)
            (build_metadata_filter (record {
              company = none;
              ticker = sub.ticker;
              document_type = sub.document_type;
              tenant_id = show_optional q.tenant_id;
              filing_date_from = none;
              filing_date_to = none;
            }))
            q.top_n_per_subquestion
      research_all (suc i) total rest (record {
        records = found.records ++ more.records;
        kept = found.kept ++ more.kept;
        gaps = found.gaps ++ more.gaps;
        contradictions = found.contradictions ++ more.contradictions;
      })

    -- The return without any verified evidence.
    pub declare_insufficient : Uuid → List CallRecord → Exec (Session World) Outcome
    declare_insufficient id records = do
      on_db (set_job id (λ r. record r { insufficient_evidence = true; status = succeeded }))
      report_id ← new_id
      on_db (
          add_report (record {
            id = report_id;
            job_id = id;
            tenant_id = q.tenant_id;
            draft = none;
            final_report = some declared_insufficient;
          }))
      flush
      pure (record {
        job_id = id;
        final_report = declared_insufficient;
        insufficient_evidence = true;
        llm_call_records = records;
      })

    -- The end of the job: the job's flag and the text of the report.
    flag_insufficient : Uuid → List Str → Exec (Session World) (Unit {0})
    flag_insufficient id [] = on_db (set_job id (λ r. record r { insufficient_evidence = true }))
    flag_insufficient id (l ∷ lines) = pure tt

    unfoldable pub report_text : List Str → List Str → List ContradictionPair → Str
    unfolding final_text declared_insufficient
    report_text [] gaps contradictions = declared_insufficient
    report_text (l ∷ lines) gaps contradictions = final_text (l ∷ lines) gaps contradictions

    unfoldable pub store_report :
        Uuid → Str → Findings V → Progress V → Exec (Session World) Outcome
    unfolding flag_insufficient
    store_report id draft found p = do
      let report = report_text p.lines found.gaps found.contradictions
      flag_insufficient id p.lines
      on_db (set_job id (λ r. record r { status = succeeded }))
      report_id ← new_id
      on_db (
          add_report (record {
            id = report_id;
            job_id = id;
            tenant_id = q.tenant_id;
            draft = some draft;
            final_report = some report;
          }))
      flush
      row ← gets (λ s. get_job id s.db.jobs)
      row' ← or_raise (key_error (lit "job")) row
      pure (record {
        job_id = id;
        final_report = report;
        insufficient_evidence = row'.insufficient_evidence;
        llm_call_records = p.records;
      })

    -- From the synthesis on, for a job with verified evidence.
    unfoldable pub write_report : Uuid → Findings V → Exec (Session World) Outcome
    unfolding or_none describe_pair
    write_report id found = do
      let descriptions =
          map (λ (ve : VerifiedEvidence Hit). describe_evidence ve.evidence) found.kept
      let contradictions_text = or_none (join (lit "\n") (map describe_pair found.contradictions))
      let gaps_text = or_none (join (lit "\n") found.gaps)
      report_progress V
          (lit "Synthesizing report from " ++ (show_ℕ (length found.kept) ++ lit " evidence items"))
      (synthesis, r) ← outside (
          V.run synthesis_result (
            synthesizer_call q.job q.query descriptions no_quantitative_results contradictions_text
              gaps_text))
      report_progress V (lit "Reviewing draft report")
      (critic, r') ← outside (
          V.run critic_result
            (critic_call q.job synthesis.report_text descriptions no_quantitative_results))
      report_progress V
          (lit "Validating citations for " ++ (show_ℕ (length synthesis.claims) ++ lit " claims"))
      p ←
          check_claims V q.job id found.kept synthesis.claims
            (record { records = found.records ++ r ∷ r' ∷ []; persisted = []; lines = [] })
      store_report id synthesis.report_text found p

    pub conclude : Uuid → Findings V → List (VerifiedEvidence Hit) → Exec (Session World) Outcome
    unfolding declare_insufficient write_report
    conclude id found [] = declare_insufficient id found.records
    conclude id found (ve ∷ more) = write_report id found

    unfoldable pub run_research : Exec (Session World) Outcome
    unfolding start_job conclude
    run_research = do
      id ←
          or_raise (value_error (lit "badly formed hexadecimal UUID string"))
            (parse_uuid q.job.research_id)
      row ← gets (λ s. get_job id s.db.jobs)
      start_job id row
      flush
      report_progress V (lit "Planning research approach")
      (plan, r) ← outside (V.run planner_output (planner_call q.job q.query))
      report_progress V (lit "Decomposing into sub-questions")
      (decomposition, r') ←
          outside (V.run query_decomposition (query_decomposer_call q.job q.query plan.plan_notes))
      found ←
          research_all 1 (length decomposition.sub_questions) decomposition.sub_questions
            (record { records = r ∷ r' ∷ []; kept = []; gaps = []; contradictions = [] })
      conclude id found found.kept
