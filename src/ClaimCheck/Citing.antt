-- ===== src/ClaimCheck/Citing.antt =====
-- The rows of citations that the validation of one claim writes.
use mathlib.Core.List.{append_assoc, append-nil, map-append}
use juris_mind_ai.Base.{
  suc, Option, none, some, List, [], ◌∷◌, ◌++◌, map, ◌≡◌, refl, ◌∙◌, ap, length, sym,
}
use juris_mind_ai.Base.Dict
use juris_mind_ai.Base.Dict.{Dict}
use juris_mind_ai.Base.Int.{ℤ, ℤ_eq}
use juris_mind_ai.Base.Text.{Str}
use juris_mind_ai.ClaimCheck.{
  Acceptance, decide, Progress, or_write, write_evidence, persist, cite, cite_all,
}
use juris_mind_ai.ClaimCheck.Verdicts.{decide_all}
use juris_mind_ai.Failure.{Failure}
use juris_mind_ai.Failure.Ensures.{Ensures, Ensures-bind, Ensures-or_raise, Ensures-weaken}
use juris_mind_ai.Nodes.{Job}
use juris_mind_ai.Rows.{Uuid, Citation, CitationStatus, status_of}
use juris_mind_ai.Schemas.{CitationDecision}
use juris_mind_ai.Session.{Services, Session}
use juris_mind_ai.Session.Rules.{
  Ensures-pure, Ensures-outside, Ensures-on_db, Ensures-flush, Ensures-new_id,
}
use juris_mind_ai.SubQuestion.{VerifiedEvidence}

-- What an exception leaves is not described.
abbrev pub Anything : {S : Type 0} → Failure → S → Type 0
Anything e s = Unit {0}

-- The claim and the status of every citation, in the order of the rows.
abbrev pub citations_of : {W : Type 0} → Session W → List (Uuid × CitationStatus)
citations_of s = map (λ (c : Citation). (c.claim_id, c.status)) s.db.citations

abbrev pub statuses : Uuid → List CitationDecision → List (Uuid × CitationStatus)
statuses claim_id = map (λ (d : CitationDecision). (claim_id, status_of d.verdict))

module _ (V : Services) (job : Job) (job_id : Uuid) where
  open V use {World, Hit, CallRecord}

  or_write-citations :
      (o : Option Uuid) (index : ℤ) (ve : VerifiedEvidence Hit) (persisted : Dict ℤ Uuid)
      (s : Session World)
      → Ensures
          (or_write V job job_id o index ve persisted s)
          (λ _ s'. citations_of s' ≡ citations_of s)
          Anything
  unfolding or_write write_evidence
  or_write-citations (some id) index ve persisted s = Ensures-pure (id, persisted) s refl
  or_write-citations none index ve persisted s = Ensures-bind _ _ s (
      Ensures-or_raise _ _ s
        (λ chunk_id _. Ensures-bind _ _ s (
          Ensures-new_id s (
            Ensures-bind _ _ _ (
              Ensures-on_db _ _
                (Ensures-bind _ _ _ (Ensures-flush _ (λ _. Ensures-pure _ _ refl) (λ _. tt)))))))
        (λ _. tt))

  persist-citations :
      (index : ℤ) (ve : VerifiedEvidence Hit) (persisted : Dict ℤ Uuid) (s : Session World)
      → Ensures
          (persist V job job_id index ve persisted s)
          (λ _ s'. citations_of s' ≡ citations_of s)
          Anything
  unfolding persist
  persist-citations index ve persisted s =
      or_write-citations (Dict.lookup index persisted) index ve persisted s

  cite-citations :
      (claim_text : Str) (claim_id : Uuid) (index : ℤ) (ve : VerifiedEvidence Hit)
      (persisted : Dict ℤ Uuid) (s : Session World)
      → Ensures
          (cite V job job_id claim_text claim_id index ve persisted s)
          (λ out s'. citations_of s' ≡ citations_of s ++ statuses claim_id (out.0 ∷ []))
          Anything
  unfolding cite
  cite-citations claim_text claim_id index ve persisted s = Ensures-bind _ _ s (
      Ensures-weaken _
        (λ out s1 same. Ensures-bind _ _ s1 (
          Ensures-on_db _ s1 (
            Ensures-bind _ _ _ (
              Ensures-outside _ _
                (λ (decision, r) w. Ensures-bind _ _ _ (
                  Ensures-or_raise _ _ _
                    (λ document_id _. Ensures-bind _ _ _ (
                      Ensures-new_id _ (
                        Ensures-bind _ _ _ (
                          Ensures-on_db _ _ (
                            Ensures-pure _ _ (
                              map-append _ s1.db.citations _
                              ∙ ap (λ l. l ++ statuses claim_id (decision ∷ [])) same))))))
                    (λ _. tt)))
                (λ _ _. tt)))))
        (λ _ _ u. u) (persist-citations index ve persisted s))

  -- One citation for each pair, with the status of the verdict on it, and the acceptance that
  -- these verdicts decide.
  pub cite_all-citations :
      (claim_text : Str) (claim_id : Uuid) (pairs : List (ℤ × VerifiedEvidence Hit))
      (a : Acceptance) (p : Progress V) (s : Session World)
      → Ensures
          (cite_all V job job_id claim_text claim_id pairs a p s)
          (λ out s'.
            (ds : List CitationDecision) × (length ds ≡ length pairs)
            × (out.0 ≡ decide_all claim_text ds a)
            × (out.1.lines ≡ p.lines)
            × (citations_of s' ≡ citations_of s ++ statuses claim_id ds))
          Anything
  unfolding cite_all
  cite_all-citations claim_text claim_id [] a p s =
      Ensures-pure (a, p) s ([], refl, refl, refl, sym (append-nil (citations_of s)))
  cite_all-citations claim_text claim_id ((index, ve) ∷ rest) a p s = Ensures-bind _ _ s (
      Ensures-weaken _
        (λ (decision, r, persisted') s1 now.
          Ensures-weaken _
            (λ out s2 (ds, count, decided, lines, later). (
              decision ∷ ds,
              ap suc count,
              decided,
              lines,
              later
                  ∙ ap (λ l. l ++ statuses claim_id ds) now
                  ∙ append_assoc (citations_of s) (statuses claim_id (decision ∷ []))
                      (statuses claim_id ds),
            ))
            (λ _ _ u. u)
            (cite_all-citations claim_text claim_id rest (decide claim_text decision a) _ s1))
        (λ _ _ u. u) (cite-citations claim_text claim_id index ve p.persisted s))
