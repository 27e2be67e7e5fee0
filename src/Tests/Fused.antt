-- ===== src/Tests/Fused.antt =====
-- Two ranked lists, fused; a score is a fraction's numerator over 61 · 62.
use juris_mind_ai.Base.Dict
use juris_mind_ai.Base.{list_beq}
use juris_mind_ai.Fusion.Ranks.{ranked, first_payload}
use juris_mind_ai.Base.Text.{text as lit}
use juris_mind_ai.Fusion.Fused.{fusion_correct, present, occurs, Scored}
use juris_mind_ai.Base.Text.{Str}
use juris_mind_ai.Score.{IsOrdered, Score}
use juris_mind_ai.Base.Sorting.{total}
use juris_mind_ai.Fusion.{rrf_k, FusedResult, reciprocal_rank_fusion, RankedResult}
use juris_mind_ai.Base.{refl, nat_beq, ltb, ◌/◌, All, ◌+◌, ◌≡◌, ℕ, some, List, [], ◌∷◌, arith}

abbrev pub fractions : Score
fractions = record {
  Num = ℕ;
  zero = 0;
  add = ◌+◌;
  recip = λ n. 3782 / n;
  less = ltb;
  same = nat_beq;
}

pub fractions-IsOrdered : IsOrdered fractions
fractions-IsOrdered = record { asym = λ a b h. ground arith; trans = λ a b c h k. ground arith }

abbrev hit : Str → ℕ → RankedResult ℕ
hit id n = record { point_id = id; payload = n }

abbrev dense_and_sparse : List (List (RankedResult ℕ))
dense_and_sparse = (hit (lit "a") 1 ∷ hit (lit "b") 2 ∷ []) ∷ (hit (lit "b") 3 ∷ []) ∷ []

abbrev fused : List (FusedResult fractions ℕ)
fused =
    record { point_id = lit "b"; rrf_score = 123; payload = 2 }
    ∷ record { point_id = lit "a"; rrf_score = 62; payload = 1 }
    ∷ []

two_lists : reciprocal_rank_fusion fractions dense_and_sparse rrf_k ≡ some fused
unfolding reciprocal_rank_fusion lit Dict.insert list_beq Dict.lookup Dict.set_default
two_lists = refl

fusion_correct_example :
    (out : List (FusedResult fractions ℕ)) × (reciprocal_rank_fusion fractions dense_and_sparse 60
      ≡ some out)
    × All
        (λ r.
          Scored fractions 60 dense_and_sparse r.point_id r.rrf_score
          × (first_payload r.point_id (ranked dense_and_sparse) ≡ some r.payload))
        out
    × ((id : Str)
        → total (occurs fractions ℕ id) out ≡ present (first_payload id (ranked dense_and_sparse)))
fusion_correct_example = fusion_correct fractions 60 dense_and_sparse
