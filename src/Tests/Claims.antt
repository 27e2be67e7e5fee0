-- ===== src/Tests/Claims.antt =====
-- The verdicts on a claim, and the evidence that a claim and a sub-question are left with.
use mathlib.Core.List.{Mem}
use juris_mind_ai.ClaimCheck.Pairing.{zip-resolve_shifted}
use juris_mind_ai.ClaimCheck.Verdicts.{report_line-decide_all, expected_line, decide_all}
use juris_mind_ai.SubQuestion.Kept.{Survives-keep_verified, keep_verified-Survives, Survives}
use juris_mind_ai.Base.Int.{ℤ_beq, pos, item_at}
use juris_mind_ai.SubQuestion.{verdict_by_index, keep_verified, VerifiedEvidence, passes}
use juris_mind_ai.ClaimCheck.{resolve, undecided, zip, report_line}
use juris_mind_ai.Schemas.{
  partial, remove, rewrite, does_not_support, flag, CitationVerdict, CitationDecision,
  ExtractedEvidence, VerificationDecision,
}
use juris_mind_ai.Base.{All, ℕ, Option, none, some, List, [], ◌∷◌, ◌≡◌, refl}
use juris_mind_ai.Base.Text.{Str, text as lit}

abbrev decision : CitationVerdict → Option Str → CitationDecision
decision v text = record { verdict = v; rewritten_claim = text; justification = [] }

abbrev three_verdicts : List CitationDecision
unfolding lit
three_verdicts = decision flag none ∷ decision rewrite (some (lit "B")) ∷ decision remove none ∷ []

report_line-decide_all_example :
    report_line (decide_all (lit "A") three_verdicts undecided)
    ≡ expected_line (lit "A") three_verdicts
report_line-decide_all_example = report_line-decide_all (lit "A") three_verdicts

abbrev items : List ℕ
items = 10 ∷ 11 ∷ []

zip-resolve_shifted_example :
    zip (pos 9 ∷ pos 0 ∷ pos 1 ∷ []) (resolve items (pos 9 ∷ pos 0 ∷ pos 1 ∷ []))
    ≡ (pos 9, 10) ∷ (pos 0, 11) ∷ zip (pos 1 ∷ []) (resolve items [])
unfolding item_at
zip-resolve_shifted_example =
    zip-resolve_shifted items (pos 9) (pos 0) (pos 1) 10 11 [] refl refl refl

abbrev extracted : List ExtractedEvidence
extracted =
    record { passage_index = pos 0; supporting_text = []; summary = [] }
    ∷ record { passage_index = pos 1; supporting_text = []; summary = [] }
    ∷ []

abbrev decisions : List VerificationDecision
decisions =
    record { evidence_index = pos 1; verdict = does_not_support; reason = [] }
    ∷ record { evidence_index = pos 1; verdict = partial; reason = [] }
    ∷ []

keep_verified-Survives_example :
    All
      (Survives items decisions extracted)
      (keep_verified items (verdict_by_index decisions []) 0 extracted)
keep_verified-Survives_example = keep_verified-Survives items decisions extracted

abbrev survivor : VerifiedEvidence ℕ
survivor = record {
  evidence = record { passage_index = pos 1; supporting_text = []; summary = [] };
  source = 11;
}

survivor-Survives : Survives items decisions extracted survivor
unfolding passes item_at ℤ_beq
survivor-Survives = (1, refl, refl, refl)

Survives-keep_verified_example :
    Mem survivor (keep_verified items (verdict_by_index decisions []) 0 extracted)
Survives-keep_verified_example =
    Survives-keep_verified items decisions extracted survivor survivor-Survives
