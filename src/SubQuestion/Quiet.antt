-- ===== src/SubQuestion/Quiet.antt =====
-- What the research of one sub-question leaves as it was.
use mathlib.Core.List.{[]}
use juris_mind_ai.SubQuestion.{
  Filter, ExtractedEvidence, VerifiedEvidence, research_sub_question, check_contradictions,
  verify_items, extract_evidence,
}
use juris_mind_ai.Base.Text.{Str}
use juris_mind_ai.Nodes.{Job}
use juris_mind_ai.Session.Keeps.{
  Keeps-report_progress, Keeps-outside, Keeps-pure, Keeps-bind, Keeps, IsStored,
}
use juris_mind_ai.Session.{Session, Services}
use juris_mind_ai.Base.{◌∷◌, Option, List, ℕ}

module _ (V : Services) {B : Type 0} (see : Session V.World → B) (stored : IsStored see) (job : Job)
    (question : Str) (offset : ℕ) where
  check_contradictions-Keeps :
      (records : List V.CallRecord) (kept : List (VerifiedEvidence V.Hit))
      → Keeps see (check_contradictions V job question offset records kept)
  unfolding check_contradictions
  check_contradictions-Keeps records [] = Keeps-pure see _
  check_contradictions-Keeps records (ve ∷ more) =
      Keeps-bind see (Keeps-report_progress V see stored _)
        (λ _. Keeps-bind see (Keeps-outside see stored _) (λ _. Keeps-pure see _))

  verify_items-Keeps :
      (hits : List V.Hit) (records : List V.CallRecord) (items : List ExtractedEvidence)
      → Keeps see (verify_items V job question offset hits records items)
  unfolding verify_items
  verify_items-Keeps hits records [] = Keeps-pure see _
  verify_items-Keeps hits records (item ∷ more) =
      Keeps-bind see (Keeps-report_progress V see stored _)
        (λ _. Keeps-bind see (Keeps-outside see stored _) (λ _. check_contradictions-Keeps _ _))

  extract_evidence-Keeps :
      (hits : List V.Hit) → Keeps see (extract_evidence V job question offset hits)
  unfolding extract_evidence
  extract_evidence-Keeps [] = Keeps-pure see _
  extract_evidence-Keeps (hit ∷ more) =
      Keeps-bind see (Keeps-report_progress V see stored _)
        (λ _. Keeps-bind see (Keeps-outside see stored _) (λ _. verify_items-Keeps _ _ _))

  pub research_sub_question-Keeps :
      (query_filter : Option Filter) (top_n : ℕ)
      → Keeps see (research_sub_question V job question offset query_filter top_n)
  unfolding research_sub_question
  research_sub_question-Keeps query_filter top_n =
      Keeps-bind see (Keeps-outside see stored _) extract_evidence-Keeps
