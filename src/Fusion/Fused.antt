-- ===== src/Fusion/Fused.antt =====
-- The fused list, against the ranks of the lists that it is fused from.
use mathlib.Core.Path.{subst}
use mathlib.Core.Option.{some-injective, none-ne-some}
use juris_mind_ai.Base.{
  ℕ, ◌≡◌, refl, ◌∙◌, ap, sym, Option, none, some, List, [], ◌∷◌, arith, All, ◌==◌, list_eq, nat_eq,
  if◌then◌else◌, inl, inr, Bool-cases, All-weaken, list_beq_iff,
}
use juris_mind_ai.Base.Dict
use juris_mind_ai.Base.Dict.{Dict, NodupKeys, All-lookup, lookup-nil}
use juris_mind_ai.Base.Text.{Str}
use juris_mind_ai.Base.Sorting.{
  sort_falling, All-sort_falling, total, total-sort_falling, IsFalling, sort_falling-IsFalling,
}
use juris_mind_ai.Score.{Score, IsOrdered}
use juris_mind_ai.Fusion.{
  sort_fused, RankedResult, FusedResult, fuse_lists, fused_items, by_score, reciprocal_rank_fusion,
}
use juris_mind_ai.Fusion.Ranks.{
  ranked, first_payload, score_from, lookup-fuse_lists, fuse_lists-NodupKeys, or_first,
  or_first-none,
}

abbrev pub present {ℓ} : {A : Type ℓ} → Option A → ℕ
present none = 0
present (some a) = 1

module _ {V : Type 0} (id : Str) where
  occurs-keys :
      (d : Dict Str V)
      → NodupKeys d
      → total {A = Str × V} (λ e. if e.0 == id then 1 else 0) d ≡ present (Dict.lookup id d)
  unfolding Dict.lookup
  occurs-keys [] h = refl
  occurs-keys ((j, v) ∷ d) (fresh, h) = ground (arith, occurs-keys d h, list_beq_iff j id)

some_of_present {ℓ κ} :
    {A : Type ℓ} {B : Type κ} (o : Option A) (o' : Option B) {a : A}
    → present o ≡ present o'
    → o ≡ some a
    → (b : B) × (o' ≡ some b)
some_of_present (some x) (some b) same h = (b, refl)
some_of_present (some x) none same h = absurd (omega arith)
some_of_present none o' same h = absurd (none-ne-some _ h)

-- Whether a result is the point's, as a number to sum.
abbrev pub occurs : (S : Score) (P : Type 0) → Str → FusedResult S P → ℕ
occurs S P id r = if r.point_id == id then 1 else 0

module _ (S : Score) {P : Type 0} (payloads : Dict Str P) where
  abbrev HasPayload : Str × S.Num → Type 0
  HasPayload e = (p : P) × (Dict.lookup e.0 payloads ≡ some p)

  -- Where every point has a payload, the list is built: one result for each item.
  fused_items_lem :
      (Q : Str → S.Num → Type 0) (l : List (Str × S.Num))
      → All HasPayload l
      → All (λ e. Q e.0 e.1) l
      → (items : List (FusedResult S P)) × (fused_items S payloads l ≡ some items)
        × All
            (λ r. Q r.point_id r.rrf_score × (Dict.lookup r.point_id payloads ≡ some r.payload))
            items
        × ((id : Str)
            → total (occurs S P id) items
              ≡ total {A = Str × S.Num} (λ e. if e.0 == id then 1 else 0) l)
  unfolding fused_items
  fused_items_lem Q [] h q = ([], refl, tt, λ id. refl)
  fused_items_lem Q ((j, score) ∷ l) ((p, found), h) (q, qs) =
      let (items, built, good, counts) = fused_items_lem Q l h qs in
      let item : FusedResult S P = record { point_id = j; rrf_score = score; payload = p } in
      (
        item ∷ items,
        rw (found, fused_items) (rw (built, fused_items)),
        ((q, found), good),
        λ id. omega (arith, counts id),
      )

sort_fused-IsFalling :
    (S : Score) {P : Type 0}
    → IsOrdered S
    → (items : Option (List (FusedResult S P))) (out : List (FusedResult S P))
    → sort_fused S items ≡ some out
    → IsFalling (by_score S) out
unfolding sort_fused
sort_fused-IsFalling S ordered none out h = absurd (none-ne-some _ h)
sort_fused-IsFalling S ordered (some items) out h =
    subst (IsFalling (by_score S)) (some-injective _ out h) (
      sort_falling-IsFalling (by_score S) (λ a b. ordered.asym a.rrf_score b.rrf_score)
        (λ a b c. ordered.trans a.rrf_score b.rrf_score c.rrf_score) items)

module _ (S : Score) {P : Type 0} (k : ℕ) where
  module _ (id : Str) where
    score_from-some :
        (es : List (ℕ × RankedResult P)) (a : S.Num) → present (score_from S k id (some a) es) ≡ 1
    score_from-some [] a = refl
    score_from-some ((rank, r) ∷ es) a = elim (Bool-cases (r.point_id == id)) [
      | inl here ↦ rw here (score_from-some es _)
      | inr there ↦ rw there (score_from-some es a)
    ]

    -- A point has a score exactly when it has a first hit.
    score_from_first :
        (es : List (ℕ × RankedResult P))
        → present (score_from S k id none es) ≡ present (first_payload id es)
    score_from_first [] = refl
    score_from_first ((rank, r) ∷ es) = elim (Bool-cases (r.point_id == id)) [
      | inl here ↦ rw here (score_from-some es _)
      | inr there ↦ rw there (score_from_first es)
    ]

  module _ (ls : List (List (RankedResult P))) where
    -- The score and the payload that the ranked lists give a point.
    abbrev pub Scored : Str → S.Num → Type 0
    Scored id score = score_from S k id none (ranked ls) ≡ some score

    -- Fusion never fails. Each result's score is the sum of `1 / (k + rank)` over the hits on its
    -- point, list after list, its payload is the first hit's, and a point of the lists is in the
    -- result once; no other point is.
    pub fusion_correct :
        (out : List (FusedResult S P)) × (reciprocal_rank_fusion S ls k ≡ some out)
        × All
            (λ r.
              Scored r.point_id r.rrf_score
              × (first_payload r.point_id (ranked ls) ≡ some r.payload))
            out
        × ((id : Str) → total (occurs S P id) out ≡ present (first_payload id (ranked ls)))
    unfolding reciprocal_rank_fusion
    fusion_correct =
        let (scores, payloads) = fuse_lists S k ls ([], []) in
        let unique = fuse_lists-NodupKeys S k ls [] [] tt in
        let by_key = All-lookup scores unique in
        let (items, built, good, counts) =
          fused_items_lem S payloads Scored scores
            (All-weaken _ _ scores (λ e. has_payload e.0) by_key)
            (All-weaken _ _ scores (λ e h. sym (score_at e.0) ∙ h) by_key) in
        (
          sort_falling (by_score S) items,
          rw (built, sort_fused),
          All-sort_falling (by_score S) _ items
              (All-weaken _ _ items (λ r h. (h.0, sym (payload_at r.point_id) ∙ h.1)) good),
          λ id.
              total-sort_falling (by_score S) (occurs S P id) items
              ∙ counts id
              ∙ occurs-keys id scores unique
              ∙ ap present (score_at id)
              ∙ score_from_first id (ranked ls),
        )
      where
        score_at :
            (id : Str)
            → Dict.lookup id (fuse_lists S k ls ([], [])).0 ≡ score_from S k id none (ranked ls)
        score_at id =
            (lookup-fuse_lists S k id ls [] []).0
            ∙ ap (λ o. score_from S k id o (ranked ls)) (lookup-nil id)

        payload_at :
            (id : Str)
            → Dict.lookup id (fuse_lists S k ls ([], [])).1 ≡ first_payload id (ranked ls)
        payload_at id =
            (lookup-fuse_lists S k id ls [] []).1
            ∙ ap (λ o. or_first S k id o (ranked ls)) (lookup-nil id)
            ∙ or_first-none S k id (ranked ls)

        has_payload :
            (id : Str) {score : S.Num}
            → Dict.lookup id (fuse_lists S k ls ([], [])).0 ≡ some score
            → (p : P) × (Dict.lookup id (fuse_lists S k ls ([], [])).1 ≡ some p)
        has_payload id h =
            let (p, first) =
              some_of_present _ _ (score_from_first id (ranked ls)) (sym (score_at id) ∙ h) in
            (p, payload_at id ∙ first)

    -- With an order on the scores, no result's score is less than that of one behind it.
    pub fusion-IsFalling :
        IsOrdered S
        → (out : List (FusedResult S P)) → reciprocal_rank_fusion S ls k ≡ some out
        → IsFalling (by_score S) out
    unfolding reciprocal_rank_fusion
    fusion-IsFalling ordered out h =
        let (scores, payloads) = fuse_lists S k ls ([], []) in
        sort_fused-IsFalling S ordered (fused_items S payloads scores) out h
