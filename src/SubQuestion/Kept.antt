-- ===== src/SubQuestion/Kept.antt =====
-- Which evidence survives verification, by the decisions read as a whole.
use mathlib.Core.Option.{none-ne-some, some-injective}
use mathlib.Core.List.{Mem, mem-cons_self, mem-cons_of_mem}
use juris_mind_ai.Base.{
  ◌<◌, ℕ, zero, suc, ◌+◌, Bool, true, false, Option, none, some, List, [], ◌∷◌, ◌++◌, ◌≡◌, refl,
  ◌∙◌, ap, sym, arith, length, get_elem?, All, All-weaken, if◌then◌else◌, ◌==◌,
}
use juris_mind_ai.Base.Dict
use juris_mind_ai.Base.Dict.{Dict, lookup-insert, lookup-nil}
use juris_mind_ai.Base.Int.{ℤ, pos, add_ℕ, item_at, ℤ_eq}
use juris_mind_ai.Schemas.{
  EvidenceVerdict, ExtractedEvidence, VerificationDecision, ContradictionPair,
}
use juris_mind_ai.SubQuestion.{
  VerifiedEvidence, verdict_by_index, passes, keep, keep_verified, offset_pair,
}

-- The verdict of the last decision on an index.
abbrev pub last_verdict : List VerificationDecision → ℤ → Option EvidenceVerdict
last_verdict [] i = none
last_verdict (d ∷ rest) i = elim (last_verdict rest i) [
  | some v ↦ some v
  | none ↦ if d.evidence_index == i then some d.verdict else none
]

abbrev or_old : Option EvidenceVerdict → Option EvidenceVerdict → Option EvidenceVerdict
or_old (some v) old = some v
or_old none old = old

lookup-verdict_by_index :
    (ds : List VerificationDecision) (d : Dict ℤ EvidenceVerdict) (i : ℤ)
    → Dict.lookup i (verdict_by_index ds d) ≡ or_old (last_verdict ds i) (Dict.lookup i d)
unfolding verdict_by_index
lookup-verdict_by_index [] d i = refl
lookup-verdict_by_index (v ∷ ds) d i = ground (
  arith,
  lookup-verdict_by_index ds (Dict.insert v.evidence_index v.verdict d) i,
  lookup-insert i v.evidence_index v.verdict d,
)

module _ {Hit : Type 0} (hits : List Hit) where
  module _ (verdicts : Dict ℤ EvidenceVerdict) where
    -- Why an item is kept, for the items from the place `i` on: its place, a verdict there that
    -- passes, and the hit that its passage index names.
    abbrev HasPlace : ℕ → List ExtractedEvidence → VerifiedEvidence Hit → Type 0
    HasPlace i items ve =
        (j : ℕ) × (get_elem? items j ≡ some ve.evidence)
        × (passes (Dict.lookup (pos (i + j)) verdicts) ≡ true)
        × (item_at hits ve.evidence.passage_index ≡ some ve.source)

    later :
        (i : ℕ) (item : ExtractedEvidence) (rest : List ExtractedEvidence)
        (ve : VerifiedEvidence Hit)
        → HasPlace (suc i) rest ve
        → HasPlace i (item ∷ rest) ve
    later i item rest ve (j, found, pass, source) =
        (suc j, found, ap (λ k. passes (Dict.lookup (pos k) verdicts)) (omega arith) ∙ pass, source)

    keep-HasPlace :
        (i : ℕ) (item : ExtractedEvidence) (rest : List ExtractedEvidence) (b : Bool)
        (o : Option Hit) (kept : List (VerifiedEvidence Hit))
        → passes (Dict.lookup (pos i) verdicts) ≡ b
        → item_at hits item.passage_index ≡ o
        → All (HasPlace (suc i) rest) kept
        → All (HasPlace i (item ∷ rest)) (keep item b o kept)
    unfolding keep
    keep-HasPlace i item rest true (some hit) kept pass source h = (
      (0, refl, ap (λ k. passes (Dict.lookup (pos k) verdicts)) (omega arith) ∙ pass, source),
      All-weaken _ _ kept (later i item rest) h,
    )
    keep-HasPlace i item rest true none kept pass source h =
        All-weaken _ _ kept (later i item rest) h
    keep-HasPlace i item rest false o kept pass source h = All-weaken _ _ kept (later i item rest) h

    keep_verified-HasPlace :
        (i : ℕ) (items : List ExtractedEvidence)
        → All (HasPlace i items) (keep_verified hits verdicts i items)
    unfolding keep_verified
    keep_verified-HasPlace i [] = tt
    keep_verified-HasPlace i (item ∷ rest) =
        keep-HasPlace i item rest _ _ _ refl refl (keep_verified-HasPlace (suc i) rest)

    keep-Mem :
        (item : ExtractedEvidence) (b : Bool) (o : Option Hit) (kept : List (VerifiedEvidence Hit))
        (ve : VerifiedEvidence Hit)
        → Mem ve kept
        → Mem ve (keep item b o kept)
    unfolding keep
    keep-Mem item true (some hit) kept ve h = mem-cons_of_mem _ h
    keep-Mem item true none kept ve h = h
    keep-Mem item false o kept ve h = h

    Mem-keep :
        (i : ℕ) (x item : ExtractedEvidence) (hit : Hit) (kept : List (VerifiedEvidence Hit))
        → x ≡ item
        → passes (Dict.lookup (pos i) verdicts) ≡ true
        → item_at hits item.passage_index ≡ some hit
        → Mem
            (record { evidence = item; source = hit })
            (keep x (passes (Dict.lookup (pos i) verdicts)) (item_at hits x.passage_index) kept)
    unfolding keep
    Mem-keep i x item hit kept same pass source = rw (same, pass, source) mem-cons_self

    Mem-keep_verified :
        (i j : ℕ) (items : List ExtractedEvidence) (item : ExtractedEvidence) (hit : Hit)
        → get_elem? items j ≡ some item
        → passes (Dict.lookup (pos (i + j)) verdicts) ≡ true
        → item_at hits item.passage_index ≡ some hit
        → Mem (record { evidence = item; source = hit }) (keep_verified hits verdicts i items)
    unfolding keep_verified keep
    Mem-keep_verified i j [] item hit found pass source = absurd (none-ne-some _ found)
    Mem-keep_verified i zero (x ∷ rest) item hit found pass source =
        Mem-keep i x item hit _ (some-injective x item found)
          (ap (λ k. passes (Dict.lookup (pos k) verdicts)) (omega arith) ∙ pass) source
    Mem-keep_verified i (suc j) (x ∷ rest) item hit found pass source = keep-Mem x _ _ _ _ (
        Mem-keep_verified (suc i) j rest item hit found
          (ap (λ k. passes (Dict.lookup (pos k) verdicts)) (omega arith) ∙ pass) source)

  -- The verdict on a place of the extraction is that of the last decision on it.
  verdict_at :
      (ds : List VerificationDecision) (j : ℕ)
      → Dict.lookup (pos (0 + j)) (verdict_by_index ds []) ≡ last_verdict ds (pos j)
  verdict_at ds j =
      let same : 0 + j ≡ j = omega arith in
      ap (λ k. Dict.lookup (pos k) (verdict_by_index ds [])) same
      ∙ ground
          (arith, lookup-verdict_by_index ds [] (pos j), lookup-nil {V = EvidenceVerdict} (pos j))

  -- Why an item is kept, by the decisions: the last decision on its place is SUPPORTS or PARTIAL,
  -- and its passage index is that of a hit.
  abbrev pub Survives :
      List VerificationDecision → List ExtractedEvidence → VerifiedEvidence Hit → Type 0
  Survives ds items ve =
      (j : ℕ) × (get_elem? items j ≡ some ve.evidence)
      × (passes (last_verdict ds (pos j)) ≡ true)
      × (item_at hits ve.evidence.passage_index ≡ some ve.source)

  -- Everything that is kept of an extraction survives: it stands in the extraction, the last
  -- decision on its place is SUPPORTS or PARTIAL, and its source is the hit that its passage index
  -- names.
  pub keep_verified-Survives :
      (ds : List VerificationDecision) (items : List ExtractedEvidence)
      → All (Survives ds items) (keep_verified hits (verdict_by_index ds []) 0 items)
  keep_verified-Survives ds items =
      All-weaken _ _ _
        (λ ve (j, found, pass, source).
          (j, found, ap passes (sym (verdict_at ds j)) ∙ pass, source))
        (keep_verified-HasPlace (verdict_by_index ds []) 0 items)

  -- Everything that survives is kept: an item of the extraction whose place the last decision
  -- on it calls SUPPORTS or PARTIAL and whose passage index is that of a hit is among the kept
  -- evidence, with that hit.
  pub Survives-keep_verified :
      (ds : List VerificationDecision) (items : List ExtractedEvidence) (ve : VerifiedEvidence Hit)
      → Survives ds items ve
      → Mem ve (keep_verified hits (verdict_by_index ds []) 0 items)
  Survives-keep_verified ds items ve (j, found, pass, source) =
      Mem-keep_verified (verdict_by_index ds []) 0 j items ve.evidence ve.source found
        (ap passes (verdict_at ds j) ∙ pass) source

get_elem?-before :
    {A : Type 0} (kept after : List A) (i : ℕ)
    → i < length kept
    → get_elem? (kept ++ after) i ≡ get_elem? kept i
get_elem?-before [] after i h = absurd (omega arith)
get_elem?-before (x ∷ kept) after zero h = refl
get_elem?-before (x ∷ kept) after (suc i) h = get_elem?-before kept after i (omega arith)

get_elem?-between :
    {A : Type 0} (before kept after : List A) (i : ℕ)
    → i < length kept
    → get_elem? (before ++ (kept ++ after)) (i + length before) ≡ get_elem? kept i
get_elem?-between [] kept after i h =
    let same : i + 0 ≡ i = omega arith in
    ap (get_elem? (kept ++ after)) same ∙ get_elem?-before kept after i h
get_elem?-between (x ∷ before) kept after i h =
    let same : i + suc (length before) ≡ suc (i + length before) = omega arith in
    ap (get_elem? (x ∷ (before ++ (kept ++ after)))) same ∙ get_elem?-between before kept after i h

-- A pair that the check of a sub-question reports names, after the shift by the number of the
-- items before, the same two items of the whole list, for indices of the kept items, whatever
-- stands before and after them.
pub item_at-offset_pair :
    {A : Type 0} (before kept after : List A) (p : ContradictionPair) (i j : ℕ)
    → p.evidence_index_a ≡ pos i
    → p.evidence_index_b ≡ pos j
    → i < length kept
    → j < length kept
    → (item_at (before ++ (kept ++ after)) (offset_pair (length before) p).evidence_index_a
        ≡ item_at kept p.evidence_index_a)
      × (item_at (before ++ (kept ++ after)) (offset_pair (length before) p).evidence_index_b
          ≡ item_at kept p.evidence_index_b)
unfolding item_at offset_pair add_ℕ
item_at-offset_pair before kept after p i j a b h k =
    (rw a (get_elem?-between before kept after i h), rw b (get_elem?-between before kept after j k))
