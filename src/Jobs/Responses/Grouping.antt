-- ===== src/Jobs/Responses/Grouping.antt =====
-- The grouping of citations by claim, and what a route shows of a job.
use mathlib.Core.Bool.{false}
use juris_mind_ai.Base.Dict.{lookup-insert, lookup-nil, Dict}
use juris_mind_ai.Jobs.Responses.{
  found_response, latest_report, final_report_of, same_status, ok, JobResponse, joined_rows, select,
  ResearchJob, Database, load_claims, ClaimResponse, Claim, load_job_response, get_job,
  CitationResponse, group, claim_response,
}
use mathlib.Core.List.{
  append-nil, append_assoc, Mem, Mem-prop, not-mem-nil, mem-cons_self, mem-cons_of_mem,
  eq-or-mem_of_mem-cons, Perm,
}
use mathlib.Core.List.Perm
use mathlib.Core.Logic.Or
use mathlib.Core.HLevel.{×_prop}
use mathlib.Core.Bool.{Bool-set, true≢false}
use mathlib.Core.Path.{subst}
use juris_mind_ai.Base.Text.{Str}
use juris_mind_ai.Base.Sorting.{IsFalling}
use juris_mind_ai.Queries.{Sql, IsSql, key_above, key_below}
use juris_mind_ai.Jobs.Listing.{first_greatest}
use juris_mind_ai.Jobs.Responses.{claims_of, rows_of, first_of}
use juris_mind_ai.Rows.{Report}
use juris_mind_ai.Base.{◌↔◌, ℕ, Option, Bool-cases, inl, inr, ◌⊎◌, ◌≤◌, arith}
use mathlib.Core.Path.{ap₂}
use juris_mind_ai.Fusion.{get_or}
use juris_mind_ai.Rows.{Uuid, succeeded}
use juris_mind_ai.Base.Dict
use juris_mind_ai.Session.{get_job as find_job}
use juris_mind_ai.Base.{
  nat_beq_iff, true, ◌∙◌, ap, Bool, map, sym, ◌==◌, none, some, List, [], ◌∷◌, ◌++◌, ◌≡◌, refl,
  nat_eq, if◌then◌else◌,
}

-- The citations of one claim, in order.
abbrev pub own : Uuid → List (Uuid × CitationResponse) → List CitationResponse
own k [] = []
own k ((j, c) ∷ rest) = if j == k then c ∷ own k rest else own k rest

lookup-group :
    (k : Uuid) (rows : List (Uuid × CitationResponse)) (d : Dict Uuid (List CitationResponse))
    → get_or [] (Dict.lookup k (group rows d)) ≡ get_or [] (Dict.lookup k d) ++ own k rows
unfolding group
lookup-group k [] d = sym (append-nil _)
lookup-group k ((j, c) ∷ rest) d =
    lookup-group k rest _
    ∙ ap (λ o. get_or [] o ++ own k rest) (lookup-insert k j _ d)
    ∙ one (j == k) (λ e. (nat_beq_iff j k).0 e)
  where
    one :
        (b : Bool)
        → (b ≡ true → j ≡ k)
        → get_or [] (if b then some (get_or [] (Dict.lookup j d) ++ c ∷ []) else Dict.lookup k d)
            ++ own k rest
          ≡ get_or [] (Dict.lookup k d) ++ (if b then c ∷ own k rest else own k rest)
    one false same = refl
    one true same =
        ap (λ i. (get_or [] (Dict.lookup i d) ++ c ∷ []) ++ own k rest) (same refl)
        ∙ append_assoc (get_or [] (Dict.lookup k d)) (c ∷ []) (own k rest)

-- A claim with its own citations among `rows`.
abbrev pub with_own : List (Uuid × CitationResponse) → Claim → ClaimResponse
with_own rows c = record { claim_id = c.id; text = c.text; citations = own c.id rows }

map-claim_response :
    (rows : List (Uuid × CitationResponse)) (cs : List Claim)
    → map (claim_response (group rows [])) cs ≡ map (with_own rows) cs
unfolding claim_response get_or
map-claim_response rows [] = refl
map-claim_response rows (c ∷ cs) =
    ap₂ (◌∷◌)
      (ap (λ l. record { claim_id = c.id; text = c.text; citations = l })
        (lookup-group c.id rows [] ∙ ap (λ o. get_or [] o ++ own c.id rows) (lookup-nil c.id)))
      (map-claim_response rows cs)

-- The rows that a `where` clause selects are those of the table that pass.
Mem-select :
    {A : Type 0} (p : A → Bool) (xs : List A) (a : A)
    → Mem a (select p xs) ↔ (Mem a xs × (p a ≡ true))
unfolding select
Mem-select p [] a = (λ m. absurd (not-mem-nil m), λ (m, _). m)
Mem-select p (x ∷ xs) a = elim (Bool-cases (p x)) [
  | inl e ↦ rw e (
    λ m.
        Or.elim (×_prop Mem-prop (Bool-set _ _)) (eq-or-mem_of_mem-cons m)
          (λ same. (subst (λ t. Mem t (x ∷ xs)) (sym same) mem-cons_self, ap p same ∙ e))
          (λ later.
            let (there, passes) = (Mem-select p xs a).0 later in (mem-cons_of_mem x there, passes)),
    λ (m, passes).
        Or.elim Mem-prop (eq-or-mem_of_mem-cons m)
          (λ same. subst (λ t. Mem t (x ∷ select p xs)) (sym same) mem-cons_self)
          (λ later. mem-cons_of_mem x ((Mem-select p xs a).1 (later, passes))),
  )
  | inr e ↦ rw e (
    λ m. let (there, passes) = (Mem-select p xs a).0 m in (mem-cons_of_mem x there, passes),
    λ (m, passes).
        Or.elim Mem-prop (eq-or-mem_of_mem-cons m)
          (λ same. absurd (true≢false (sym passes ∙ ap p same ∙ e)))
          (λ later. (Mem-select p xs a).1 (later, passes)),
  )
]

-- What is shown for the reports of a job: nothing if there is none, and else the text of one that
-- no other is newer than.
abbrev pub ShowsLatest : (Report → ℕ) → Uuid → List Report → Option Str → Type 0
ShowsLatest time id reports shown =
    (((r : Report) → Mem r reports → r.job_id ≡ id → ⊥) × (shown ≡ none))
    ⊎ ((latest : Report) × (Mem latest reports)
        × (latest.job_id ≡ id)
        × (shown ≡ latest.final_report)
        × ((r : Report) → Mem r reports → r.job_id ≡ id → time r ≤ time latest))

first_report-ShowsLatest :
    (time : Report → ℕ) (id : Uuid) (reports found : List Report)
    → Perm found (select (λ (r : Report). r.job_id == id) reports)
    → IsFalling (key_below time) found
    → ShowsLatest time id reports (final_report_of (first_of found))
unfolding final_report_of first_of
first_report-ShowsLatest time id reports [] perm falling = inl (
  λ r there mine. not-mem-nil (
      (Perm.mem_iff perm).1 (
        (Mem-select (λ (r : Report). r.job_id == id) reports r).1
          (there, (nat_beq_iff r.job_id id).1 mine))),
  refl,
)
first_report-ShowsLatest time id reports (latest ∷ found) perm (greatest, _) =
    let mine = λ (r : Report). r.job_id == id in
    let (there, its) = (Mem-select mine reports latest).0 ((Perm.mem_iff perm).0 mem-cons_self) in
    inr (
      latest,
      there,
      (nat_beq_iff latest.job_id id).0 its,
      refl,
      λ r in_table is_mine.
          let m : Mem r (latest ∷ found) =
            (Perm.mem_iff perm).1
              ((Mem-select mine reports r).1 (in_table, (nat_beq_iff r.job_id id).1 is_mine)) in
          let low = first_greatest time latest found r greatest m in ground (arith, low),
    )

shown_if :
    (b : Bool) (time : Report → ℕ) (id : Uuid) (reports : List Report) (shown : Option Str)
    → ShowsLatest time id reports shown
    → b ≡ true
    → ShowsLatest time id reports (if b then shown else none)
shown_if true time id reports shown h e = h
shown_if false time id reports shown h e = absurd (true≢false (sym e))

-- The answer for a job that is there, whatever the database does where an order is left open. If
-- the job has succeeded: its claims, one time after the other, each with exactly its own rows of the
-- join of its citations, in the order in which the database returns these; and the text of a report
-- of the job that no other one is newer than, or none, if it has no report. If it has not
-- succeeded: no claims and no report.
pub get_job-claims :
    (q : Sql) (id : Uuid) (d : Database) (job : ResearchJob)
    → IsSql q
    → find_job id d.jobs ≡ some job
    → let mine = select (λ (c : Claim). c.job_id == job.id) d.claims in
      (response : JobResponse) × (claims : List Claim) × (rows : List (Uuid × CitationResponse))
      × (get_job q id d ≡ ok response)
      × Perm claims mine
      × IsFalling (key_above q.claim_created_at) claims
      × Perm rows (joined_rows d (map (λ (c : Claim). c.id) claims) d.citations)
      × (same_status job.status succeeded ≡ true
          → (response.claims ≡ map (with_own rows) claims)
            × ShowsLatest q.report_created_at job.id d.reports response.final_report)
      × (same_status job.status succeeded ≡ false
          → (response.claims ≡ []) × (response.final_report ≡ none))
unfolding get_job load_job_response load_claims claims_of rows_of latest_report
get_job-claims q id d job is there =
    let mine = select (λ (c : Claim). c.job_id == job.id) d.claims in
    let claims = q.ascending q.claim_created_at mine in
    (
      load_job_response q d job,
      claims,
      q.unordered (joined_rows d (map (λ (c : Claim). c.id) claims) d.citations),
      rw (there, found_response) refl,
      is.ascending_perm q.claim_created_at mine,
      is.ascending_order q.claim_created_at mine,
      is.unordered_perm _,
      λ done. (
        ap (λ b. if b then load_claims q d job.id else []) done ∙ map-claim_response _ _,
        shown_if (same_status job.status succeeded) q.report_created_at job.id d.reports _
            (first_report-ShowsLatest q.report_created_at job.id d.reports _
              (is.descending_perm q.report_created_at _)
              (is.descending_order q.report_created_at _))
            done,
      ),
      λ not_done. (
        ap (λ b. if b then load_claims q d job.id else []) not_done,
        ap (λ b. if b then final_report_of (latest_report q job.id d.reports) else none) not_done,
      ),
    )
