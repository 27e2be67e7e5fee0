-- ===== src/Tests/Answers.antt =====
-- What the routes show of a job.
use juris_mind_ai.Jobs.Responses.Grouping.{get_job-claims, with_own, ShowsLatest}
use juris_mind_ai.Queries.{key_above}
use juris_mind_ai.Base.Sorting.{IsFalling}
use mathlib.Core.List.{Perm}
use juris_mind_ai.Tests.Routes.{in_table_order, in_table_order-IsSql, job_7, job_with, rows}
use juris_mind_ai.Jobs.Responses.Creation.{create_job-get_job}
use juris_mind_ai.ClaimCheck.Citing.{Anything}
use juris_mind_ai.Failure.{Failure}
use juris_mind_ai.Failure.Ensures.{Ensures}
use juris_mind_ai.Base.Text.{Str}
use juris_mind_ai.Jobs.{same_status, select}
use juris_mind_ai.Base.{map, ◌==◌, Option, none, [], ◌≡◌, refl, nat_eq}
use juris_mind_ai.Base.Result.{Result, ok}
use juris_mind_ai.Session.{Session, get_job as find_job}
use juris_mind_ai.Jobs.Responses.{CitationResponse, JobResponse, joined_rows, create_job, get_job}
use juris_mind_ai.Base.{List, true, false}
use juris_mind_ai.Rows.{Uuid, Claim, pending, succeeded}

get_job-claims_example :
    let mine = select (λ (c : Claim). c.job_id == 7) rows.claims in
    (response : JobResponse) × (claims : List Claim) × (found : List (Uuid × CitationResponse))
    × (get_job in_table_order 7 rows ≡ ok response)
    × Perm claims mine
    × IsFalling (key_above in_table_order.claim_created_at) claims
    × Perm found (joined_rows rows (map (λ (c : Claim). c.id) claims) rows.citations)
    × (same_status succeeded succeeded ≡ true
        → (response.claims ≡ map (with_own found) claims)
          × ShowsLatest in_table_order.report_created_at 7 rows.reports response.final_report)
    × (same_status succeeded succeeded ≡ false
        → (response.claims ≡ []) × (response.final_report ≡ none))
get_job-claims_example =
    get_job-claims in_table_order 7 rows (job_with 7 succeeded) in_table_order-IsSql job_7

enqueue : Str → Str → Option Str → Str → Unit {0} → Result Failure (Unit {0}) × Unit {0}
enqueue job_id query tenant_id trace_id w = (ok tt, w)

abbrev session : Session (Unit {0})
session = record { world = tt; db = rows; fresh = 20; now = 9 }

no_job_21 : find_job 21 rows.jobs ≡ none
unfolding find_job
no_job_21 = refl

create_job-get_job_example :
    Ensures
      (create_job in_table_order enqueue [] none session)
      (λ out s'.
        (get_job in_table_order out.job_id s'.db ≡ ok out)
        × (out.status ≡ pending)
        × (out.query ≡ [])
        × (out.final_report ≡ none)
        × (out.claims ≡ []))
      Anything
create_job-get_job_example = create_job-get_job in_table_order enqueue [] none session no_job_21
