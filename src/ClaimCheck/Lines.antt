-- ===== src/ClaimCheck/Lines.antt =====
-- The lines of the report, against the verdicts on the claims that are stored as citations.
use mathlib.Core.Path.{ap₂}
use mathlib.Core.List.{append_assoc, append-nil, map-append}
use juris_mind_ai.Base.{All-append, All, List, [], ◌∷◌, ◌++◌, map, ◌≡◌, refl, ◌∙◌, ap, length, sym}
use juris_mind_ai.Base.Int.{ℤ_eq}
use juris_mind_ai.Base.Text.{Str}
use juris_mind_ai.ClaimCheck.{
  undecided, Progress, zip, resolve, check_cited, check_claims, report_line,
}
use juris_mind_ai.ClaimCheck.Verdicts.{expected_line, report_line-decide_all}
use juris_mind_ai.Failure.Ensures.{Ensures, Ensures-bind, Ensures-weaken}
use juris_mind_ai.Nodes.{Job}
use juris_mind_ai.Rows.{Uuid, CitationStatus}
use juris_mind_ai.Schemas.{CitationDecision, ClaimDraft}
use juris_mind_ai.Session.{Services, Session}
use juris_mind_ai.Session.Rules.{Ensures-pure, Ensures-on_db, Ensures-flush, Ensures-new_id}
use juris_mind_ai.SubQuestion.{VerifiedEvidence}
use juris_mind_ai.ClaimCheck.Citing.{Anything, citations_of, statuses, cite_all-citations}

-- A claim that was checked: its row's id, its draft, and the verdicts on its pairs.
pub record Checked : Type 0 where
  pub claim_id : Uuid
  pub draft : ClaimDraft
  pub decisions : List CitationDecision

abbrev pub lines_of : List Checked → List Str
lines_of [] = []
lines_of (c ∷ cs) = expected_line c.draft.claim_text c.decisions ++ lines_of cs

abbrev pub verdicts_of : List Checked → List (Uuid × CitationStatus)
verdicts_of [] = []
verdicts_of (c ∷ cs) = statuses c.claim_id c.decisions ++ verdicts_of cs

-- A verdict for each pair of an index of the draft and a resolved item.
abbrev pub IsJudged {ℓ} : {A : Type ℓ} → List A → Checked → Type 0
IsJudged verified c =
    length c.decisions
    ≡ length (zip c.draft.evidence_indices (resolve verified c.draft.evidence_indices))

-- The drafts with an index that resolves.
abbrev cons_if {ℓ} : {A : Type ℓ} → List A → ClaimDraft → List ClaimDraft → List ClaimDraft
cons_if [] draft rest = rest
cons_if (_ ∷ _) draft rest = draft ∷ rest

abbrev pub with_evidence {ℓ} : {A : Type ℓ} → List A → List ClaimDraft → List ClaimDraft
with_evidence verified [] = []
with_evidence verified (d ∷ rest) =
    cons_if (resolve verified d.evidence_indices) d (with_evidence verified rest)

cons_if-append {ℓ} :
    {A : Type ℓ} (cited : List A) (draft : ClaimDraft) (rest : List ClaimDraft)
    → cons_if cited draft [] ++ rest ≡ cons_if cited draft rest
cons_if-append [] draft rest = refl
cons_if-append (_ ∷ _) draft rest = refl

lines_of-append : (cs cs' : List Checked) → lines_of (cs ++ cs') ≡ lines_of cs ++ lines_of cs'
lines_of-append [] cs' = refl
lines_of-append (c ∷ cs) cs' =
    ap (◌++◌ (expected_line c.draft.claim_text c.decisions)) (lines_of-append cs cs')
    ∙ sym (append_assoc _ (lines_of cs) (lines_of cs'))

verdicts_of-append :
    (cs cs' : List Checked) → verdicts_of (cs ++ cs') ≡ verdicts_of cs ++ verdicts_of cs'
verdicts_of-append [] cs' = refl
verdicts_of-append (c ∷ cs) cs' =
    ap (◌++◌ (statuses c.claim_id c.decisions)) (verdicts_of-append cs cs')
    ∙ sym (append_assoc _ (verdicts_of cs) (verdicts_of cs'))

joined :
    {A : Type 0} (x l l' : List A) {y z both : List A}
    → y ≡ x ++ l
    → z ≡ y ++ l'
    → both ≡ l ++ l'
    → z ≡ x ++ both
joined x l l' first second all =
    second ∙ ap (λ t. t ++ l') first ∙ append_assoc x l l' ∙ ap (◌++◌ x) (sym all)

module _ (V : Services) (job : Job) (job_id : Uuid) where
  open V use {World, Hit, CallRecord}

  -- What the check of some drafts leaves.
  abbrev pub ChecksOut :
      List (VerifiedEvidence Hit)
      → List ClaimDraft
      → Progress V
      → Session World
      → Progress V
      → Session World
      → Type 0
  ChecksOut verified drafts p s p' s' =
      (cs : List Checked) × (map (λ (c : Checked). c.draft) cs ≡ with_evidence verified drafts)
      × All (IsJudged verified) cs
      × (p'.lines ≡ p.lines ++ lines_of cs)
      × (citations_of s' ≡ citations_of s ++ verdicts_of cs)

  check_cited-citations :
      (draft : ClaimDraft) (cited verified : List (VerifiedEvidence Hit)) (p : Progress V)
      (s : Session World)
      → resolve verified draft.evidence_indices ≡ cited
      → Ensures
          (check_cited V job job_id draft cited p s)
          (ChecksOut verified (draft ∷ []) p s)
          Anything
  unfolding check_cited
  check_cited-citations draft [] verified p s e =
      Ensures-pure p s ([], rw e, tt, sym (append-nil p.lines), sym (append-nil (citations_of s)))
  check_cited-citations draft (ve ∷ more) verified p s e = Ensures-bind _ _ s (
      Ensures-new_id s (
        Ensures-bind _ _ _ (
          Ensures-on_db _ _ (
            Ensures-bind _ _ _ (
              Ensures-flush _
                (λ _. Ensures-bind _ _ _ (
                  Ensures-weaken _
                    (λ (a, p') s' (ds, count, decided, same, rows). Ensures-pure _ s' (
                      record { claim_id = s.fresh; draft = draft; decisions = ds } ∷ [],
                      rw e,
                      (rw e count, tt),
                      ap₂ (◌++◌) same (
                          ap report_line decided
                          ∙ report_line-decide_all draft.claim_text ds
                          ∙ sym (append-nil (expected_line draft.claim_text ds))),
                      rows ∙ ap (◌++◌ (citations_of s)) (sym (append-nil (statuses s.fresh ds))),
                    ))
                    (λ _ _ u. u)
                    (cite_all-citations V job job_id draft.claim_text s.fresh
                      (zip draft.evidence_indices (ve ∷ more)) undecided p _)))
                (λ _. tt))))))

  -- The lines that the check of the claims adds to the report are those of the claims with
  -- resolvable evidence, in order. Each line is the one that the verdicts on the claim give, and
  -- the same verdicts, one for each pair of an index and an item, are stored as citations of the
  -- claim. A claim without resolvable evidence adds no line and no citation.
  pub check_claims-lines :
      (verified : List (VerifiedEvidence Hit)) (drafts : List ClaimDraft) (p : Progress V)
      (s : Session World)
      → Ensures
          (check_claims V job job_id verified drafts p s)
          (ChecksOut verified drafts p s)
          Anything
  unfolding check_claims
  check_claims-lines verified [] p s =
      Ensures-pure p s ([], refl, tt, sym (append-nil p.lines), sym (append-nil (citations_of s)))
  check_claims-lines verified (draft ∷ rest) p s = Ensures-bind _ _ s (
      Ensures-weaken _
        (λ p1 s1 (cs, drafts, judged, lines, rows).
          Ensures-weaken _
            (λ p2 s2 (cs', drafts', judged', lines', rows'). (
              cs ++ cs',
              map-append _ cs cs'
                  ∙ ap₂ (◌++◌) drafts drafts'
                  ∙ cons_if-append (resolve verified draft.evidence_indices) draft _,
              All-append (IsJudged verified) cs cs' judged judged',
              joined p.lines (lines_of cs) (lines_of cs') lines lines' (lines_of-append cs cs'),
              joined (citations_of s) (verdicts_of cs) (verdicts_of cs') rows rows'
                  (verdicts_of-append cs cs'),
            ))
            (λ _ _ u. u) (check_claims-lines verified rest p1 s1))
        (λ _ _ u. u) (check_cited-citations draft _ verified p s refl))
