-- ===== src/ClaimCheck/Frame.antt =====
-- The jobs and the reports across the validation of the claims.
use juris_mind_ai.Base.Dict
use juris_mind_ai.Base.Int.{ℤ_eq}
use juris_mind_ai.Failure.{Exec}
use juris_mind_ai.ClaimCheck.{
  Dict, Acceptance, ℤ, Progress, write_evidence, ClaimDraft, VerifiedEvidence, persist, Str, cite,
  or_write, check_cited, check_claims, cite_all,
}
use juris_mind_ai.Rows.{Uuid, Report, ResearchJob}
use juris_mind_ai.Nodes.{Job}
use juris_mind_ai.Session.Keeps.{
  Keeps-flush, Keeps-outside, Keeps-on_db, Keeps-or_raise, Keeps-new_id, Keeps-bind, Keeps-pure,
  Keeps, IsStored,
}
use juris_mind_ai.Session.{Session, Services}
use juris_mind_ai.Base.{Option, none, some, List, [], ◌∷◌, refl}

-- What the validation leaves alone, whether it returns or raises.
abbrev pub jobs_and_reports : {W : Type 0} → Session W → List ResearchJob × List Report
jobs_and_reports s = (s.db.jobs, s.db.reports)

pub jobs_and_reports-IsStored : {W : Type 0} → IsStored {W = W} jobs_and_reports
jobs_and_reports-IsStored = record { world_free = λ s w. refl; fresh_free = λ s n. refl }

module _ (V : Services) (job : Job) (job_id : Uuid) where
  open V use {World, Hit}

  abbrev Leaves : {A : Type 0} → Exec (Session World) A → Type 0
  Leaves m = Keeps {W = World} jobs_and_reports m

  or_write-Leaves :
      (o : Option Uuid) (index : ℤ) (ve : VerifiedEvidence Hit) (persisted : Dict ℤ Uuid)
      → Leaves (or_write V job job_id o index ve persisted)
  unfolding or_write write_evidence
  or_write-Leaves (some id) index ve persisted = Keeps-pure _ _
  or_write-Leaves none index ve persisted = Keeps-bind _ (Keeps-or_raise _ _ _) (λ _.
      Keeps-bind _ (Keeps-new_id _ jobs_and_reports-IsStored) (λ _.
        Keeps-bind _ (Keeps-on_db _ _ (λ _. refl))
          (λ _. Keeps-bind _ (Keeps-flush _) (λ _. Keeps-pure _ _))))

  cite-Leaves :
      (claim_text : Str) (claim_id : Uuid) (index : ℤ) (ve : VerifiedEvidence Hit)
      (persisted : Dict ℤ Uuid)
      → Leaves (cite V job job_id claim_text claim_id index ve persisted)
  unfolding cite persist
  cite-Leaves claim_text claim_id index ve persisted =
      Keeps-bind _ (or_write-Leaves (Dict.lookup index persisted) index ve persisted) (λ _.
        Keeps-bind _ (Keeps-on_db _ _ (λ _. refl)) (λ _.
          Keeps-bind _ (Keeps-outside _ jobs_and_reports-IsStored _) (λ _.
            Keeps-bind _ (Keeps-or_raise _ _ _) (λ _.
              Keeps-bind _ (Keeps-new_id _ jobs_and_reports-IsStored)
                (λ _. Keeps-bind _ (Keeps-on_db _ _ (λ _. refl)) (λ _. Keeps-pure _ _))))))

  cite_all-Leaves :
      (claim_text : Str) (claim_id : Uuid) (pairs : List (ℤ × VerifiedEvidence Hit))
      (a : Acceptance) (p : Progress V)
      → Leaves (cite_all V job job_id claim_text claim_id pairs a p)
  unfolding cite_all
  cite_all-Leaves claim_text claim_id [] a p = Keeps-pure _ _
  cite_all-Leaves claim_text claim_id ((index, ve) ∷ rest) a p =
      Keeps-bind _ (cite-Leaves claim_text claim_id index ve p.persisted)
        (λ _. cite_all-Leaves claim_text claim_id rest _ _)

  check_cited-Leaves :
      (draft : ClaimDraft) (cited : List (VerifiedEvidence Hit)) (p : Progress V)
      → Leaves (check_cited V job job_id draft cited p)
  unfolding check_cited
  check_cited-Leaves draft [] p = Keeps-pure _ _
  check_cited-Leaves draft (ve ∷ more) p =
      Keeps-bind _ (Keeps-new_id _ jobs_and_reports-IsStored) (λ _.
        Keeps-bind _ (Keeps-on_db _ _ (λ _. refl)) (λ _.
          Keeps-bind _ (Keeps-flush _)
            (λ _. Keeps-bind _ (cite_all-Leaves _ _ _ _ _) (λ _. Keeps-pure _ _))))

  pub check_claims-Leaves :
      (verified : List (VerifiedEvidence Hit)) (drafts : List ClaimDraft) (p : Progress V)
      → Keeps jobs_and_reports (check_claims V job job_id verified drafts p)
  unfolding check_claims
  check_claims-Leaves verified [] p = Keeps-pure _ _
  check_claims-Leaves verified (draft ∷ rest) p =
      Keeps-bind _ (check_cited-Leaves draft _ p) (λ p'. check_claims-Leaves verified rest p')
