-- ===== src/SubQuestion/Answers.antt =====
-- What the research of one sub-question returns, by what the search and the model answered.
use mathlib.Core.Path.{subst}
use mathlib.Core.List.{Mem, [], not-mem-nil}
use juris_mind_ai.Base.Result.{ok}
use juris_mind_ai.Session.Rules.{
  Ensures-outside_answer, Ensures-report_progress_told, Ensures-pure, TellsBy,
}
use juris_mind_ai.ClaimCheck.Citing.{Anything}
use juris_mind_ai.Failure.Ensures.{Ensures-weaken, Ensures-bind, Ensures}
use juris_mind_ai.SubQuestion.Kept.{keep_verified-Survives, Survives-keep_verified, Survives}
use juris_mind_ai.SubQuestion.{
  lit, verdict_by_index, keep_verified, Findings, Filter, ExtractedEvidence, VerifiedEvidence,
  research_sub_question, check_contradictions, verify_items, extract_evidence, offset_pair,
}
use juris_mind_ai.Base.Text.{Str}
use juris_mind_ai.Nodes.{
  Job, Call, evidence_extractor_call, verifier_call, contradiction_call, describe_evidence,
}
use juris_mind_ai.Payload.{payload_text}
use juris_mind_ai.Schemas.{
  Schema, Output, evidence_extraction, verification_result, contradiction_result,
}
use juris_mind_ai.Session.{Session, Services}
use juris_mind_ai.Base.{refl, ◌++◌, ◌≡◌, All, ◌∷◌, Option, List, ℕ, map}

module _ (V : Services) (job : Job) (question : Str) (offset : ℕ) where
  -- One call of the model, from the world `w` on: the progress message, and then the answer.
  pub record Asked (s : Schema) (call : Call) (msg : Str) (w : V.World) : Type 0 where
    pub between : V.World
    pub after : V.World
    pub output : Output s
    pub call_record : V.CallRecord
    pub is_told : TellsBy V V.on_progress msg w between
    pub is_answered : V.run s call between ≡ (ok (output, call_record), after)

  abbrev pub Extracted : List V.Hit → V.World → Type 0
  Extracted hits =
      Asked evidence_extraction
        (evidence_extractor_call job question (map (λ h. payload_text (V.payload h)) hits))
        (lit "Extracting evidence for: " ++ question)

  abbrev pub Verified : List ExtractedEvidence → V.World → Type 0
  Verified items =
      Asked verification_result (verifier_call job question items)
        (lit "Verifying evidence for: " ++ question)

  abbrev pub Compared : List (VerifiedEvidence V.Hit) → V.World → Type 0
  Compared kept =
      Asked contradiction_result
        (contradiction_call job question (map (λ k. describe_evidence k.evidence) kept))
        (lit "Checking for contradictions in: " ++ question)

  -- One gap, which names the question, and no evidence.
  abbrev pub nothing_found : List V.CallRecord → Str → Findings V
  nothing_found records why = record {
    records = records;
    kept = [];
    gaps = (why ++ question) ∷ [];
    contradictions = [];
  }

  -- What follows a search that found `hits` and left the world `w`.
  pub data Answer (hits : List V.Hit) (w : V.World) : Findings V → V.World → Type 0 where
    no_hits : hits ≡ [] → Answer hits w (nothing_found [] (lit "No retrieved evidence for: ")) w
    no_items :
        (x : Extracted hits w)
        → x.output.items ≡ []
        → Answer hits w
            (nothing_found (x.call_record ∷ []) (lit "No evidence extracted for: "))
            x.after
    none_kept :
        (x : Extracted hits w) (v : Verified x.output.items x.after)
        → ((ve : VerifiedEvidence V.Hit) → Survives hits v.output.decisions x.output.items ve → ⊥)
        → Answer hits w
            (nothing_found (x.call_record ∷ v.call_record ∷ []) (lit "No verified evidence for: "))
            v.after
    some_kept :
        (x : Extracted hits w) (v : Verified x.output.items x.after)
        (first : VerifiedEvidence V.Hit) (more : List (VerifiedEvidence V.Hit))
        (c : Compared (first ∷ more) v.after)
        → All (Survives hits v.output.decisions x.output.items) (first ∷ more)
        → ((ve : VerifiedEvidence V.Hit)
            → Survives hits v.output.decisions x.output.items ve
            → Mem ve (first ∷ more))
        → Answer hits w
            (record {
              records = x.call_record ∷ v.call_record ∷ c.call_record ∷ [];
              kept = first ∷ more;
              gaps = c.output.gaps;
              contradictions = map (offset_pair offset) c.output.contradictions;
            })
            c.after

  check_contradictions-Answer :
      (hits : List V.Hit) (w : V.World) (x : Extracted hits w) (v : Verified x.output.items x.after)
      (kept : List (VerifiedEvidence V.Hit)) (s : Session V.World)
      → keep_verified hits (verdict_by_index v.output.decisions []) 0 x.output.items ≡ kept
      → Ensures
          (check_contradictions V job question offset
            (x.call_record ∷ v.call_record ∷ [])
            kept
            (record s { world = v.after }))
          (λ out s'. Answer hits w out s'.world)
          Anything
  unfolding check_contradictions
  check_contradictions-Answer hits w x v [] s same = Ensures-pure _ _ (
      none_kept x v (λ ve h.
        not-mem-nil (
          subst (Mem ve) same
            (Survives-keep_verified hits v.output.decisions x.output.items ve h))))
  check_contradictions-Answer hits w x v (ve ∷ more) s same = Ensures-bind _ _ _ (
      Ensures-report_progress_told V _ _
        (λ between told. Ensures-bind _ _ _ (
          Ensures-outside_answer _ _
            (λ (result, r) after answered. Ensures-pure _ _ (
              some_kept x v ve more
                (record {
                  between = between;
                  after = after;
                  output = result;
                  call_record = r;
                  is_told = told;
                  is_answered = answered;
                })
                (subst (All (Survives hits v.output.decisions x.output.items)) same
                  (keep_verified-Survives hits v.output.decisions x.output.items))
                (λ y h.
                  subst (Mem y) same
                    (Survives-keep_verified hits v.output.decisions x.output.items y h))))
            (λ _ _. tt)))
        (λ _ _. tt))

  verify_items-Answer :
      (hits : List V.Hit) (w : V.World) (x : Extracted hits w) (items : List ExtractedEvidence)
      (s : Session V.World)
      → x.output.items ≡ items
      → Ensures
          (verify_items V job question offset hits
            (x.call_record ∷ [])
            items
            (record s { world = x.after }))
          (λ out s'. Answer hits w out s'.world)
          Anything
  unfolding verify_items
  verify_items-Answer hits w x [] s same = Ensures-pure _ _ (no_items x same)
  verify_items-Answer hits w x (item ∷ more) s same = Ensures-bind _ _ _ (
      Ensures-report_progress_told V _ _
        (λ between told. Ensures-bind _ _ _ (
          Ensures-outside_answer _ _
            (λ (verification, r) after answered.
              let v : Verified (item ∷ more) x.after = record {
                between = between;
                after = after;
                output = verification;
                call_record = r;
                is_told = told;
                is_answered = answered;
              } in
              subst
                (λ items.
                  (v : Verified items x.after)
                  → Ensures
                      (check_contradictions V job question offset
                        (x.call_record ∷ v.call_record ∷ [])
                        (keep_verified hits (verdict_by_index v.output.decisions []) 0 items)
                        (record s { world = v.after }))
                      (λ out s'. Answer hits w out s'.world) Anything)
                same (λ v. check_contradictions-Answer hits w x v _ s refl) v)
            (λ _ _. tt)))
        (λ _ _. tt))

  extract_evidence-Answer :
      (hits : List V.Hit) (s : Session V.World)
      → Ensures
          (extract_evidence V job question offset hits s)
          (λ out s'. Answer hits s.world out s'.world)
          Anything
  unfolding extract_evidence
  extract_evidence-Answer [] s = Ensures-pure _ _ (no_hits refl)
  extract_evidence-Answer (hit ∷ more) s = Ensures-bind _ _ _ (
      Ensures-report_progress_told V _ _
        (λ between told. Ensures-bind _ _ _ (
          Ensures-outside_answer _ _
            (λ (extraction, r) after answered.
              verify_items-Answer (hit ∷ more) s.world
                (record {
                  between = between;
                  after = after;
                  output = extraction;
                  call_record = r;
                  is_told = told;
                  is_answered = answered;
                })
                extraction.items s refl)
            (λ _ _. tt)))
        (λ _ _. tt))

  -- Where the research of a sub-question returns, the search has returned hits, and after it these
  -- calls of the model were made, in this order, each on what the one before answered: none without
  -- hits; the extraction from the hits, and no more without items; the verification of its items,
  -- and no more if none survives; and the comparison of those that do. An item survives if the last
  -- decision on its place passes and its passage is a hit, and exactly these are kept, each with its
  -- hit. The gaps and the contradictions, with shifted indices, are those of the comparison; where
  -- it was not made, there is one gap, which names the question, and no contradiction.
  pub research_sub_question-Answer :
      (query_filter : Option Filter) (top_n : ℕ) (s : Session V.World)
      → Ensures
          (research_sub_question V job question offset query_filter top_n s)
          (λ out s'.
            (hits : List V.Hit) × (w : V.World) × (V.search question query_filter top_n s.world
              ≡ (ok hits, w))
            × Answer hits w out s'.world)
          Anything
  unfolding research_sub_question
  research_sub_question-Answer query_filter top_n s = Ensures-bind _ _ s (
      Ensures-outside_answer (V.search question query_filter top_n) s
        (λ hits w found.
          Ensures-weaken _ (λ out s' answer. (hits, w, found, answer)) (λ _ _ u. u)
            (extract_evidence-Answer hits (record s { world = w })))
        (λ _ _. tt))
