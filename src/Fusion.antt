-- ===== src/Fusion.antt =====
-- Reciprocal rank fusion, tradegraph/src/rag/hybrid/fusion.py. `none` is the `KeyError` that
-- `payloads[point_id]` could raise.
pub mod Ranks
pub mod Fused
use juris_mind_ai.Base.{Bool, ℕ, ◌+◌, Option, none, some, List, [], ◌∷◌, list_eq, nat_eq}
use juris_mind_ai.Base.Dict
use juris_mind_ai.Base.Dict.{Dict}
use juris_mind_ai.Base.Text.{Str}
use juris_mind_ai.Base.Sorting.{sort_falling}
use juris_mind_ai.Score.{Score}

abbrev pub rrf_k : ℕ
rrf_k = 60

pub record RankedResult (Payload : Type 0) : Type 0 where
  pub point_id : Str
  pub payload : Payload

pub record FusedResult (S : Score) (Payload : Type 0) : Type 0 where
  pub point_id : Str
  pub rrf_score : S.Num
  pub payload : Payload

-- `d.get(k, default)`
unfoldable pub get_or {ℓ} : {A : Type ℓ} → A → Option A → A
get_or d none = d
get_or d (some a) = a

module _ (S : Score) {P : Type 0} where
  open S use {Num}

  -- The pair holds the two dicts that the loops fill, `scores` and `payloads`.
  pub record_rank : ℕ → ℕ → RankedResult P → Dict Str Num × Dict Str P → Dict Str Num × Dict Str P
  unfolding get_or
  record_rank k rank r (scores, payloads) = (
    Dict.insert r.point_id
        (S.add (get_or S.zero (Dict.lookup r.point_id scores)) (S.recip (k + rank))) scores,
    Dict.set_default r.point_id r.payload payloads,
  )

  -- `for rank, result in enumerate(ranked_list, start=1)`
  pub fuse_list :
      ℕ → ℕ → List (RankedResult P) → Dict Str Num × Dict Str P → Dict Str Num × Dict Str P
  unfolding record_rank
  fuse_list k rank [] tables = tables
  fuse_list k rank (r ∷ rest) tables = fuse_list k (rank + 1) rest (record_rank k rank r tables)

  pub fuse_lists :
      ℕ → List (List (RankedResult P)) → Dict Str Num × Dict Str P → Dict Str Num × Dict Str P
  unfolding fuse_list
  fuse_lists k [] tables = tables
  fuse_lists k (l ∷ rest) tables = fuse_lists k rest (fuse_list k 1 l tables)

  -- `[FusedResult(…) for point_id, score in scores.items()]`
  pub fused_items : Dict Str P → List (Str × Num) → Option (List (FusedResult S P))
  fused_items payloads [] = some []
  fused_items payloads ((id, score) ∷ rest) = elim (Dict.lookup id payloads) [
    | none ↦ none
    | some p ↦ elim (fused_items payloads rest) [
      | none ↦ none
      | some items ↦ some (record { point_id = id; rrf_score = score; payload = p } ∷ items)
    ]
  ]

  abbrev pub by_score : FusedResult S P → FusedResult S P → Bool
  by_score a b = S.less a.rrf_score b.rrf_score

  pub sort_fused : Option (List (FusedResult S P)) → Option (List (FusedResult S P))
  unfolding sort_falling
  sort_fused none = none
  sort_fused (some items) = some (sort_falling by_score items)

  unfoldable pub reciprocal_rank_fusion :
      List (List (RankedResult P)) → ℕ → Option (List (FusedResult S P))
  unfolding fuse_lists fused_items sort_fused
  reciprocal_rank_fusion ranked_lists k =
      let (scores, payloads) = fuse_lists k ranked_lists ([], []) in
      sort_fused (fused_items payloads scores)
