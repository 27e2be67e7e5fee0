-- ===== src/Tests/Routes.antt =====
-- The routes on a database with two jobs, one of them finished with a report.
use juris_mind_ai.Jobs.Listing.{list_jobs-pages, IsKey, IsNewestFirst}
use juris_mind_ai.Queries.{Sql, IsSql, key_above, key_below}
use mathlib.Core.List.{Mem, Perm, reverse, eq-or-mem_of_mem-cons, not-mem-nil}
use mathlib.Core.List.Perm
use native.Mathlib.Decide.{ℕ_discrete}
use mathlib.Core.Logic.Or
use mathlib.Core.HLevel.{→_prop}
use mathlib.Core.Path.{subst, sym}
use juris_mind_ai.Base.Result.{ok}
use juris_mind_ai.Jobs.Deletion.{delete_job-Cleared, Cleared, delete_job-consistent}
use juris_mind_ai.Base.Sorting.{sort_falling, sort_falling-Perm, sort_falling-IsFalling}
use juris_mind_ai.Rows.Constraints.{
  links_distinct, audit_fits, report_fits, citation_fits, link_fits, claim_fits, evidence_fits, all,
  is_consistent,
}
use juris_mind_ai.Jobs.Stream.{stream_job-stops}
use juris_mind_ai.Jobs.{
  is_about, list_jobs, job_evidence, summary, job_claims, select, JobSummary, delete, without_job,
  stream_job, delete_job, is_finished, Event,
}
use juris_mind_ai.Rows.{no_rows, ResearchJob, Database, JobStatus, pending, running, succeeded}
use juris_mind_ai.Session.{get_job as find_job}
use juris_mind_ai.Base.{
  arith, ltb, drop, contains, take, map, true, false, nat_eq, ℕ, Option, none, some, List, [], ◌∷◌,
  ◌++◌, ◌≡◌, refl,
}
use juris_mind_ai.Base.Text.{truthy}

abbrev pub job_with : ℕ → JobStatus → ResearchJob
job_with n s = record {
  id = n;
  trace_id = none;
  tenant_id = none;
  query = [];
  status = s;
  error_message = none;
  progress_detail = none;
  insufficient_evidence = false;
  created_at = n;
}

abbrev pub rows : Database
rows = record no_rows {
  documents = record { id = 1; company = []; ticker = []; document_type = [] } ∷ [];
  chunks = record { id = 2; document_id = 1 } ∷ [];
  jobs = job_with 7 succeeded ∷ job_with 8 running ∷ [];
  evidence_items =
      record { id = 3; job_id = 7; chunk_id = 2; supporting_passage = []; summary = [] } ∷ [];
  claims = record { id = 4; job_id = 7; text = [] } ∷ record { id = 5; job_id = 8; text = [] } ∷ [];
  claim_evidence = record { claim_id = 4; evidence_id = 3 } ∷ [];
}

after_deletion : Database
after_deletion = record rows {
  jobs = job_with 8 running ∷ [];
  evidence_items = [];
  claims = record { id = 5; job_id = 8; text = [] } ∷ [];
  claim_evidence = [];
}

deleted : delete_job 7 rows ≡ ok after_deletion
unfolding delete_job find_job is_finished without_job delete select job_claims job_evidence contains
    truthy is_about after_deletion
deleted = refl

rows-consistent : is_consistent rows ≡ true
unfolding is_consistent all evidence_fits claim_fits link_fits citation_fits report_fits audit_fits
    links_distinct contains
rows-consistent = refl

delete_job-consistent_example :
    ((j : ResearchJob) × (find_job 7 rows.jobs ≡ some j) × (is_finished j.status ≡ true))
    × (is_consistent after_deletion ≡ true)
delete_job-consistent_example = delete_job-consistent 7 rows after_deletion rows-consistent deleted

pub job_7 : find_job 7 rows.jobs ≡ some (job_with 7 succeeded)
unfolding find_job
job_7 = refl

delete_job-Cleared_example : (d' : Database) × (delete_job 7 rows ≡ ok d') × Cleared 7 rows d'
unfolding is_finished
delete_job-Cleared_example = delete_job-Cleared 7 rows (job_with 7 succeeded) job_7 refl

abbrev polls : List (Option ResearchJob)
polls =
    some (job_with 7 pending)
    ∷ some (job_with 7 running)
    ∷ some (job_with 7 running)
    ∷ some (job_with 7 succeeded)
    ∷ []

stream_job-stops_example :
    (events : List Event) × (stream_job (some (job_with 7 pending)) (polls ++ none ∷ polls)
      ≡ ok (events, true))
    × (stream_job (some (job_with 7 pending)) (polls ++ none ∷ []) ≡ ok (events, true))
stream_job-stops_example = stream_job-stops (job_with 7 pending) polls polls none refl

-- A database that keeps the table's order where it may choose.
abbrev pub in_table_order : Sql
in_table_order = record {
  ascending = λ key xs. sort_falling (key_above key) xs;
  descending = λ key xs. sort_falling (key_below key) xs;
  unordered = λ xs. xs;
  claim_created_at = λ c. 0;
  report_created_at = λ r. 0;
}

below_asym : (a b : ℕ) → ltb a b ≡ true → ltb b a ≡ false
below_asym a b h = ground (arith, h)

below_trans : (a b c : ℕ) → ltb a b ≡ false → ltb b c ≡ false → ltb a c ≡ false
below_trans a b c h k = ground (arith, h, k)

pub in_table_order-IsSql : IsSql in_table_order
in_table_order-IsSql = record {
  ascending_perm = λ key xs. sort_falling-Perm (key_above key) xs;
  ascending_order = λ key xs.
      sort_falling-IsFalling (key_above key) (λ a b h. below_asym (key b) (key a) h)
        (λ a b c h k. below_trans (key c) (key b) (key a) k h) xs;
  descending_perm = λ key xs. sort_falling-Perm (key_below key) xs;
  descending_order = λ key xs.
      sort_falling-IsFalling (key_below key) (λ a b h. below_asym (key a) (key b) h)
        (λ a b c h k. below_trans (key a) (key b) (key c) h k) xs;
  unordered_perm = λ xs. Perm.rfl;
}

status_discrete : Discrete JobStatus
status_discrete = hlevel

job_set : IsSet ResearchJob
job_set = hlevel (status_discrete, ℕ_discrete)

in_rows :
    (a : ResearchJob) (P : ResearchJob → Type 0)
    → ((j : ResearchJob) → IsProp (P j))
    → P (job_with 7 succeeded)
    → P (job_with 8 running)
    → Mem a rows.jobs
    → P a
in_rows a P prop p q m =
    Or.elim (prop a) (eq-or-mem_of_mem-cons m) (λ e. subst P (sym e) p)
      (λ n.
        Or.elim (prop a) (eq-or-mem_of_mem-cons n) (λ e. subst P (sym e) q)
          (λ k. absurd (not-mem-nil k)))

rows-IsKey : IsKey (λ (j : ResearchJob). j.created_at) rows.jobs
rows-IsKey a b m n =
    in_rows a (λ a. a.created_at ≡ b.created_at → a ≡ b) (λ a. →_prop (job_set a b))
      (in_rows b (λ b. 7 ≡ b.created_at → job_with 7 succeeded ≡ b) (λ b. →_prop (job_set _ b))
        (λ _. refl) (λ e. absurd (omega (arith, e))) n)
      (in_rows b (λ b. 8 ≡ b.created_at → job_with 8 running ≡ b) (λ b. →_prop (job_set _ b))
        (λ e. absurd (omega (arith, e))) (λ _. refl) n)
      m

list_jobs-pages_example :
    (history : List ResearchJob) × IsNewestFirst history
    × Perm history rows.jobs
    × (page : List JobSummary) × (next : List JobSummary) × (page
        ≡ map summary (take 1 (drop 0 history)))
    × (list_jobs in_table_order 1 0 rows ≡ ok page)
    × (list_jobs in_table_order 1 1 rows ≡ ok next)
    × (list_jobs in_table_order 2 0 rows ≡ ok (page ++ next))
list_jobs-pages_example =
    list_jobs-pages in_table_order in_table_order in_table_order rows 1 1 0 in_table_order-IsSql
      in_table_order-IsSql in_table_order-IsSql rows-IsKey (omega arith) (omega arith) (omega arith)

-- Another order of rows with one time.
abbrev reversed_ties : Sql
reversed_ties = record in_table_order {
  descending = λ key xs. sort_falling (key_below key) (reverse xs);
}

abbrev tied : Database
tied = record no_rows {
  jobs =
      record (job_with 7 succeeded) { created_at = 5 }
      ∷ record (job_with 8 running) { created_at = 5 }
      ∷ [];
}

-- Two jobs of one time: where the two queries choose differently, one job is on both pages.
repeated : list_jobs in_table_order 1 0 tied ≡ list_jobs reversed_ties 1 1 tied
unfolding list_jobs sort_falling
repeated = refl
