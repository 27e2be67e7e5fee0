-- ===== src/Tests/Research.antt =====
-- A research job with one sub-question, one hit and one claim, and its theorems.
use juris_mind_ai.ClaimCheck.Lines.{check_claims-lines, ChecksOut}
use juris_mind_ai.Research.Outcomes.{Concluded}
use juris_mind_ai.ClaimCheck.Citing.{Anything}
use juris_mind_ai.Research.Runs.{run_research-Concluded, started}
use juris_mind_ai.SubQuestion.Answers.{research_sub_question-Answer, Answer}
use juris_mind_ai.Failure.Ensures.{Ensures}
use juris_mind_ai.ClaimCheck.{
  Progress, report_line, decide, zip, resolve, persist, cite, cite_all, check_cited, check_claims,
}
use juris_mind_ai.Filters.{build_metadata_filter}
use juris_mind_ai.SubQuestion.{
  VerifiedEvidence, passes, offset_pair, verdict_by_index, keep_verified, check_contradictions,
  verify_items, extract_evidence, research_sub_question,
}
use juris_mind_ai.Rows.Constraints.{
  report_fits, links_distinct, link_fits, evidence_fits, claim_fits, citation_fits, audit_fits, all,
  is_consistent,
}
use juris_mind_ai.Failure.{◌>>=◌, gets, or_raise, pure, continue}
use juris_mind_ai.Base.Int.{ℤ_beq, item_at, add_ℕ, pos}
use juris_mind_ai.Rows.{Uuid, no_rows}
use juris_mind_ai.Payload.{show_uuid, payload_text, get_str, parse_uuid, str, Payload}
use juris_mind_ai.Schemas.{
  ClaimDraft, ContradictionPair, citation_decision, critic_result, synthesis_result,
  contradiction_result, verification_result, evidence_extraction, query_decomposition,
  planner_output, CitationVerdict, high, supports, qualitative, Output, Schema,
}
use juris_mind_ai.Research.{
  final_text, report_text, store_report, write_report, research_all, Request, run_research,
}
use juris_mind_ai.Session.{
  report_progress, flush, new_id, outside, on_db, update_job, get_job, Session, Services,
}
use juris_mind_ai.Nodes.{
  citation_validator_call, critic_call, synthesizer_call, verifier_call, query_decomposer_call,
  planner_call, format_numbered_list, evidence_extractor_call, describe_evidence,
  contradiction_call, Job,
}
use juris_mind_ai.Base.{
  list_beq, contains, true, false, ℕ, none, some, List, [], ◌∷◌, ◌++◌, ◌≡◌, refl,
}
use juris_mind_ai.Base.Result.{ok}
use juris_mind_ai.Base.Dict
use juris_mind_ai.Base.Text.{Str, truthy, show_ℕ, join, text as lit}

abbrev pub id_text : ℕ → List ℕ
unfolding lit
id_text n = lit "00000000-0000-0000-0000-00000000000" ++ (n ∷ [])

abbrev pub payload_of_hit : Payload
unfolding lit id_text
payload_of_hit =
    (lit "chunk_id", str (id_text b'2'))
    ∷ (lit "document_id", str (id_text b'1'))
    ∷ (lit "text", str (lit "Revenue rose."))
    ∷ []

pub answer : (schema : Schema) → Output schema
unfolding lit
answer planner_output = record {
  entities = [];
  evidence_needed = qualitative;
  is_compound = false;
  plan_notes = lit "Look.";
}
answer query_decomposition = record {
  sub_questions =
      record { question = lit "Why?"; company = none; ticker = none; document_type = none } ∷ [];
}
answer evidence_extraction = record {
  items =
      record { passage_index = pos 0; supporting_text = lit "Revenue rose."; summary = lit "Up" }
      ∷ [];
}
answer verification_result = record {
  decisions = record { evidence_index = pos 0; verdict = supports; reason = [] } ∷ [];
}
answer contradiction_result = record { contradictions = []; gaps = []; confidence = high }
answer synthesis_result = record {
  report_text = lit "Prose";
  claims = record { claim_text = lit "It rose."; evidence_indices = pos 0 ∷ [] } ∷ [];
}
answer critic_result = record { problems = []; ok = true }
answer citation_decision = record {
  verdict = CitationVerdict.flag;
  rewritten_claim = none;
  justification = lit "Thin";
}

abbrev services : Services
services = record {
  World = Unit {0};
  Hit = Payload;
  CallRecord = Unit {0};
  payload = λ h. h;
  search = λ question query_filter top_n w. (ok (payload_of_hit ∷ []), w);
  run = λ schema call w. (ok (answer schema, tt), w);
  on_progress = none;
}

abbrev job : Job
unfolding lit id_text
job = record { model = lit "qwen3:4b"; research_id = id_text b'7'; trace_id = lit "t" }

abbrev request : Request services
unfolding lit
request = record { query = lit "Why?"; job = job; tenant_id = none; top_n_per_subquestion = 3 }

abbrev pub before : Session (Unit {0})
unfolding lit
before = record {
  world = tt;
  db = record no_rows {
    documents = record { id = 1; company = []; ticker = []; document_type = [] } ∷ [];
    chunks = record { id = 2; document_id = 1 } ∷ [];
  };
  fresh = 100;
  now = 5;
}

returned :
    (run_research services request before).0
    ≡ ok (record {
      job_id = 7;
      final_report = lit "It rose. [uncertain]";
      insufficient_evidence = false;
      llm_call_records = tt ∷ tt ∷ tt ∷ tt ∷ tt ∷ tt ∷ tt ∷ tt ∷ [];
    })
unfolding ℤ_beq run_research ◌>>=◌ continue pure or_raise gets parse_uuid get_str payload_text
    show_uuid get_job update_job on_db outside new_id flush is_consistent report_progress
    research_all answer research_sub_question extract_evidence verify_items check_contradictions
    keep_verified verdict_by_index Dict.insert Dict.lookup contains list_beq add_ℕ item_at join
    show_ℕ lit build_metadata_filter contradiction_call describe_evidence evidence_extractor_call
    format_numbered_list planner_call query_decomposer_call verifier_call all audit_fits
    citation_fits claim_fits evidence_fits link_fits links_distinct report_fits offset_pair passes
    write_report store_report report_text final_text check_claims check_cited cite_all cite persist
    resolve zip decide report_line synthesizer_call critic_call citation_validator_call truthy
returned = refl

run_research-Concluded_example :
    Ensures
      (run_research services request before)
      (λ out s'.
        (id : Uuid) × (gaps : List Str) × (contradictions : List ContradictionPair) × (parse_uuid
            request.job.research_id
          ≡ some id)
        × Concluded services request id gaps contradictions
            (started services request id 5 (get_job id []))
            []
            []
            out
            s')
      Anything
unfolding before
run_research-Concluded_example = run_research-Concluded services request before

research_sub_question-Answer_example :
    Ensures
      (research_sub_question services job (lit "Why?") 0 none 3 before)
      (λ out s'.
        (hits : List Payload) × (w : services.World) × (services.search
            (lit "Why?")
            none
            3
            before.world
          ≡ (ok hits, w))
        × Answer services job (lit "Why?") 0 hits w out s'.world)
      Anything
research_sub_question-Answer_example =
    research_sub_question-Answer services job (lit "Why?") 0 none 3 before

abbrev claim_drafts : List ClaimDraft
claim_drafts = (answer synthesis_result).claims

abbrev kept : List (VerifiedEvidence Payload)
kept =
    record {
      evidence = record { passage_index = pos 0; supporting_text = []; summary = [] };
      source = payload_of_hit;
    }
    ∷ []

abbrev no_progress : Progress services
no_progress = record { records = []; persisted = []; lines = [] }

check_claims-lines_example :
    Ensures
      (check_claims services job 7 kept claim_drafts no_progress before)
      (ChecksOut services job 7 kept claim_drafts no_progress before)
      Anything
check_claims-lines_example = check_claims-lines services job 7 kept claim_drafts no_progress before
