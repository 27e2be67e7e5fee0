-- ===== src/Jobs/Stream.antt =====
-- The events of a stream, against the polls that it reads.
use mathlib.Core.Option.{none}
use juris_mind_ai.Jobs.{
  ok, or_last, stream_job, is_finished, same_status, progress, status, Str, Event, JobStatus,
  ResearchJob, progress_news, event_source, news,
}
use juris_mind_ai.Base.{
  sym, inr, inl, ◌∙◌, Bool-cases, refl, ap, some, ◌≡◌, [], ◌++◌, map, ◌∷◌, List, Option, Bool, true,
  if◌then◌else◌, nat_eq,
}

-- The rows that a stream reads: to the first finished one, or to where the job is missing.
abbrev pub read : List (Option ResearchJob) → List ResearchJob
read [] = []
read (none ∷ polls) = []
read (some j ∷ polls) = if is_finished j.status then j ∷ [] else j ∷ read polls

-- What differs from the one before.
abbrev pub changes {ℓ} : {A : Type ℓ} → (A → A → Bool) → Option A → List A → List A
changes same last [] = []
changes same last (a ∷ rest) = news same last a ++ changes same (some a) rest

abbrev pub details : List ResearchJob → List Str
details [] = []
details (j ∷ js) = elim j.progress_detail [ none ↦ details js | some s ↦ s ∷ details js ]

abbrev pub statuses_of : List Event → List JobStatus
statuses_of [] = []
statuses_of (status s ∷ es) = s ∷ statuses_of es
statuses_of (_ ∷ es) = statuses_of es

abbrev pub progress_of : List Event → List Str
progress_of [] = []
progress_of (progress s ∷ es) = s ∷ progress_of es
progress_of (_ ∷ es) = progress_of es

-- The events of one poll.
abbrev at_poll : Option JobStatus → Option Str → ResearchJob → List Event
at_poll last_status last_progress j =
    progress_news last_progress j.progress_detail
    ++ map status (news same_status last_status j.status)

-- `s` in front of the later details, if there is one.
abbrev or_cons : Option Str → List Str → List Str
or_cons none rest = rest
or_cons (some s) rest = s ∷ rest

-- That a poll ends the stream.
abbrev pub ends : Option ResearchJob → Bool
ends none = true
ends (some j) = is_finished j.status

event_source-stops :
    (ls : Option JobStatus) (lp : Option Str) (before after : List (Option ResearchJob))
    (last : Option ResearchJob)
    → ends last ≡ true
    → ((event_source ls lp (before ++ last ∷ after)).1 ≡ true)
      × (event_source ls lp (before ++ last ∷ after) ≡ event_source ls lp (before ++ last ∷ []))
unfolding event_source
event_source-stops ls lp [] after none h = (refl, refl)
event_source-stops ls lp [] after (some j) h = (rw h refl, rw h refl)
event_source-stops ls lp (none ∷ before) after last h = (refl, refl)
event_source-stops ls lp (some j ∷ before) after last h = elim (Bool-cases (is_finished j.status)) [
  | inl e ↦ (rw e refl, rw e refl)
  | inr e ↦
      let (closed, same) =
        event_source-stops (some j.status) (or_last j.progress_detail lp) before after last h in
      (rw e closed, rw e (rw same refl))
]

-- A stream returns at the first poll that finds the job finished or missing, whatever came
-- before, and then sends nothing more.
pub stream_job-stops :
    (job : ResearchJob) (before after : List (Option ResearchJob)) (last : Option ResearchJob)
    → ends last ≡ true
    → (events : List Event) × (stream_job (some job) (before ++ last ∷ after) ≡ ok (events, true))
      × (stream_job (some job) (before ++ last ∷ []) ≡ ok (events, true))
unfolding stream_job
stream_job-stops job before after last h =
    let (closed, same) = event_source-stops none none before after last h in
    let (closed', _) = event_source-stops none none before [] last h in
    let events = (event_source none none (before ++ last ∷ after)).0 in
    (events, ap (λ b. ok (events, b)) closed, ap ok (sym same) ∙ ap (λ b. ok (events, b)) closed)
