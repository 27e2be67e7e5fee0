-- ===== src/Fusion/Ranks.antt =====
-- What the fused list holds, against an independent reading of the ranked lists.
use juris_mind_ai.Base.{
  ℕ, ◌+◌, ◌≡◌, refl, ◌∙◌, ap, Option, none, some, List, [], ◌∷◌, ◌++◌, arith, ◌==◌, list_eq, nat_eq,
  if◌then◌else◌, inl, inr, Bool-cases, list_beq_iff,
}
use juris_mind_ai.Base.Dict
use juris_mind_ai.Base.Dict.{Dict, lookup-insert, lookup-set_default, NodupKeys, insert-NodupKeys}
use juris_mind_ai.Base.Text.{Str}
use juris_mind_ai.Score.{Score}
use juris_mind_ai.Fusion.{RankedResult, get_or, record_rank, fuse_list, fuse_lists}

-- Every hit with its rank, list after list, the ranks of each list from one.
abbrev pub ranked_from {ℓ} : {A : Type ℓ} → ℕ → List A → List (ℕ × A)
ranked_from rank [] = []
ranked_from rank (r ∷ rest) = (rank, r) ∷ ranked_from (rank + 1) rest

abbrev pub ranked {ℓ} : {A : Type ℓ} → List (List A) → List (ℕ × A)
ranked [] = []
ranked (l ∷ rest) = ranked_from 1 l ++ ranked rest

module _ {P : Type 0} (id : Str) where
  -- The payload at the first hit on the point.
  abbrev pub first_payload : List (ℕ × RankedResult P) → Option P
  first_payload [] = none
  first_payload ((_, r) ∷ rest) = if r.point_id == id then some r.payload else first_payload rest

module _ (S : Score) {P : Type 0} (k : ℕ) (id : Str) where
  -- The sum of `1.0 / (k + rank)` over the hits on the point, from `acc`; `none` without a hit.
  abbrev pub score_from : Option S.Num → List (ℕ × RankedResult P) → Option S.Num
  score_from acc [] = acc
  score_from acc ((rank, r) ∷ rest) =
      score_from
        (if r.point_id == id then some (S.add (get_or S.zero acc) (S.recip (k + rank))) else acc)
        rest

  score_from-append :
      (xs ys : List (ℕ × RankedResult P)) (acc : Option S.Num)
      → score_from acc (xs ++ ys) ≡ score_from (score_from acc xs) ys
  score_from-append [] ys acc = refl
  score_from-append (x ∷ xs) ys acc = score_from-append xs ys _

  -- A dict of payloads after the hits: what it held, or the first hit's payload.
  abbrev pub or_first : Option P → List (ℕ × RankedResult P) → Option P
  or_first old [] = old
  or_first old ((_, r) ∷ rest) =
      or_first
        (elim old [ some p ↦ some p | none ↦ if r.point_id == id then some r.payload else none ])
        rest

  or_first-append :
      (xs ys : List (ℕ × RankedResult P)) (old : Option P)
      → or_first old (xs ++ ys) ≡ or_first (or_first old xs) ys
  or_first-append [] ys old = refl
  or_first-append (x ∷ xs) ys old = or_first-append xs ys _

  or_first-some : (p : P) (es : List (ℕ × RankedResult P)) → or_first (some p) es ≡ some p
  or_first-some p [] = refl
  or_first-some p (x ∷ es) = or_first-some p es

  pub or_first-none : (es : List (ℕ × RankedResult P)) → or_first none es ≡ first_payload id es
  or_first-none [] = refl
  or_first-none ((rank, r) ∷ es) = elim (Bool-cases (r.point_id == id)) [
    | inl here ↦ rw here (or_first-some r.payload es)
    | inr there ↦ rw there (or_first-none es)
  ]

  lookup-record_rank :
      (rank : ℕ) (r : RankedResult P) (scores : Dict Str S.Num) (payloads : Dict Str P)
      → let t = record_rank S k rank r (scores, payloads) in
        (Dict.lookup id t.0 ≡ score_from (Dict.lookup id scores) ((rank, r) ∷ []))
        × (Dict.lookup id t.1 ≡ or_first (Dict.lookup id payloads) ((rank, r) ∷ []))
  unfolding record_rank
  lookup-record_rank rank r scores payloads =
      let same = list_beq_iff r.point_id id in
      (
        ground (
          arith,
          lookup-insert id r.point_id
              (S.add (get_or S.zero (Dict.lookup r.point_id scores)) (S.recip (k + rank))) scores,
          same,
        ),
        lookup-set_default id r.point_id r.payload payloads,
      )

  lookup-fuse_list :
      (l : List (RankedResult P)) (rank : ℕ) (scores : Dict Str S.Num) (payloads : Dict Str P)
      → let t = fuse_list S k rank l (scores, payloads) in
        (Dict.lookup id t.0 ≡ score_from (Dict.lookup id scores) (ranked_from rank l))
        × (Dict.lookup id t.1 ≡ or_first (Dict.lookup id payloads) (ranked_from rank l))
  unfolding fuse_list
  lookup-fuse_list [] rank scores payloads = (refl, refl)
  lookup-fuse_list (r ∷ l) rank scores payloads =
      let (scores', payloads') = record_rank S k rank r (scores, payloads) in
      let now = lookup-record_rank rank r scores payloads in
      let later = lookup-fuse_list l (rank + 1) scores' payloads' in
      (
        later.0 ∙ ap (λ o. score_from o (ranked_from (rank + 1) l)) now.0,
        later.1 ∙ ap (λ o. or_first o (ranked_from (rank + 1) l)) now.1,
      )

  pub lookup-fuse_lists :
      (ls : List (List (RankedResult P))) (scores : Dict Str S.Num) (payloads : Dict Str P)
      → let t = fuse_lists S k ls (scores, payloads) in
        (Dict.lookup id t.0 ≡ score_from (Dict.lookup id scores) (ranked ls))
        × (Dict.lookup id t.1 ≡ or_first (Dict.lookup id payloads) (ranked ls))
  unfolding fuse_lists
  lookup-fuse_lists [] scores payloads = (refl, refl)
  lookup-fuse_lists (l ∷ ls) scores payloads =
      let (scores', payloads') = fuse_list S k 1 l (scores, payloads) in
      let now = lookup-fuse_list l 1 scores payloads in
      let later = lookup-fuse_lists ls scores' payloads' in
      (
        rw score_from-append (later.0 ∙ ap (λ o. score_from o (ranked ls)) now.0),
        rw or_first-append (later.1 ∙ ap (λ o. or_first o (ranked ls)) now.1),
      )

-- The fused scores have each point once.
module _ (S : Score) {P : Type 0} (k : ℕ) where
  fuse_list-NodupKeys :
      (l : List (RankedResult P)) (rank : ℕ) (scores : Dict Str S.Num) (payloads : Dict Str P)
      → NodupKeys scores
      → NodupKeys (fuse_list S k rank l (scores, payloads)).0
  unfolding fuse_list record_rank
  fuse_list-NodupKeys [] rank scores payloads h = h
  fuse_list-NodupKeys (r ∷ l) rank scores payloads h =
      fuse_list-NodupKeys l (rank + 1) _ _ (insert-NodupKeys r.point_id _ scores h)

  pub fuse_lists-NodupKeys :
      (ls : List (List (RankedResult P))) (scores : Dict Str S.Num) (payloads : Dict Str P)
      → NodupKeys scores
      → NodupKeys (fuse_lists S k ls (scores, payloads)).0
  unfolding fuse_lists
  fuse_lists-NodupKeys [] scores payloads h = h
  fuse_lists-NodupKeys (l ∷ ls) scores payloads h =
      fuse_lists-NodupKeys ls _ _ (fuse_list-NodupKeys l 1 scores payloads h)
