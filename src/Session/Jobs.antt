-- ===== src/Session/Jobs.antt =====
-- Reading the job's row after a write to it.
use juris_mind_ai.Session.{update_job, get_job}
use juris_mind_ai.Rows.{Uuid, ResearchJob}
use mathlib.Core.Option.{none-ne-some}
use juris_mind_ai.Base.{◌∙◌, inr, sym, inl, ◌==◌, ◌++◌, Bool-cases, eq_refl, nat_eq}
use juris_mind_ai.Base.{Option, none, some, List, [], ◌∷◌, ◌≡◌, refl}

-- `f` on the row, if there is one.
abbrev pub map_row : (ResearchJob → ResearchJob) → Option ResearchJob → Option ResearchJob
map_row f none = none
map_row f (some r) = some (f r)

pub get_job-update_job :
    (id : Uuid) (f : ResearchJob → ResearchJob) (jobs : List ResearchJob)
    → ((r : ResearchJob) → (f r).id ≡ r.id)
    → get_job id (update_job id f jobs) ≡ map_row f (get_job id jobs)
unfolding get_job update_job
get_job-update_job id f [] same = refl
get_job-update_job id f (j ∷ jobs) same = elim (Bool-cases (j.id == id)) [
  | inl here ↦ rw here (rw (same j, here) refl)
  | inr there ↦ rw there (rw there (get_job-update_job id f jobs same))
]

pub get_job-new :
    (id : Uuid) (jobs : List ResearchJob) (r : ResearchJob)
    → r.id ≡ id
    → get_job id jobs ≡ none
    → get_job id (jobs ++ r ∷ []) ≡ some r
unfolding get_job
get_job-new id [] r same absent = rw (same, eq_refl id) refl
get_job-new id (j ∷ jobs) r same absent = elim (Bool-cases (j.id == id)) [
  | inl here ↦ absurd (none-ne-some j (sym absent ∙ rw here refl))
  | inr there ↦ rw there (get_job-new id jobs r same (sym (rw there refl) ∙ absent))
]
