-- ===== src/Worker/Written.antt =====
-- What the progress and the failure of a task write.
use juris_mind_ai.Session.Jobs.{map_row, get_job-update_job}
use juris_mind_ai.Session.{get_job}
use juris_mind_ai.Rows.{ResearchJob, Uuid, Database}
use juris_mind_ai.Worker.{set_job, Failure, mark_failed, Str, write_progress}
use juris_mind_ai.Base.{Option, some, List, [], ◌∷◌, ◌≡◌, refl, ◌∙◌, ap}

-- The progress is all that the callback changes in the job's row.
pub get_job-write_progress :
    (id : Uuid) (log : List Str) (d : Database) (row : ResearchJob)
    → get_job id d.jobs ≡ some row
    → (detail : Option Str) × (get_job id (write_progress id log d).jobs
        ≡ some (record row { progress_detail = detail }))
unfolding write_progress
get_job-write_progress id [] d row here = (row.progress_detail, here)
get_job-write_progress id (msg ∷ log) d row here =
    get_job-write_progress id log _ (record row { progress_detail = some msg })
      (get_job-update_job id (λ r. record r { progress_detail = some msg }) d.jobs (λ _. refl)
        ∙ ap (map_row (λ r. record r { progress_detail = some msg })) here)

-- The tables but the jobs.
abbrev pub IsUntouched : Database → Database → Type 0
IsUntouched d d' =
    (d'.evidence_items ≡ d.evidence_items)
    × (d'.claims ≡ d.claims)
    × (d'.claim_evidence ≡ d.claim_evidence)
    × (d'.citations ≡ d.citations)
    × (d'.reports ≡ d.reports)
    × (d'.audits ≡ d.audits)

pub write_progress-IsUntouched :
    (id : Uuid) (log : List Str) (d : Database) → IsUntouched d (write_progress id log d)
unfolding write_progress
write_progress-IsUntouched id [] d = (refl, refl, refl, refl, refl, refl)
write_progress-IsUntouched id (msg ∷ log) d =
    write_progress-IsUntouched id log (set_job id (λ r. record r { progress_detail = some msg }) d)

pub mark_failed-IsUntouched :
    (id : Uuid) (e : Failure) (log : List Str) (d : Database)
    → IsUntouched d (mark_failed id e (write_progress id log d))
unfolding mark_failed
mark_failed-IsUntouched id e log d = write_progress-IsUntouched id log d
