-- ===== src/ClaimCheck/Verdicts.antt =====
-- What the verdicts on a claim decide, read off the whole list of them at once.
use mathlib.Core.Option.{none-ne-some}
use juris_mind_ai.Base.{
  ◌∙◌, ◌≢◌, Bool, true, false, ◌||◌, Option, none, some, List, [], ◌∷◌, ◌++◌, ◌≡◌, refl, arith,
  if◌then◌else◌, ap,
}
use juris_mind_ai.Base.Text.{Str, text as lit}
use juris_mind_ai.ClaimCheck.{Acceptance, undecided, decide, report_line}
use juris_mind_ai.Schemas.{accept, rewrite, flag, CitationDecision}

-- The loop's use of `decide`.
abbrev pub decide_all : Str → List CitationDecision → Acceptance → Acceptance
decide_all claim_text [] a = a
decide_all claim_text (d ∷ rest) a = decide_all claim_text rest (decide claim_text d a)

abbrev pub is_truthy : Option Str → Bool
is_truthy none = false
is_truthy (some []) = false
is_truthy (some (c ∷ s)) = true

-- The text of the last REWRITE that has one.
abbrev pub last_rewrite : List CitationDecision → Option Str
last_rewrite [] = none
last_rewrite (d ∷ rest) = elim (last_rewrite rest) [
  | some t ↦ some t
  | none ↦ elim d.verdict [
    | rewrite ↦ if is_truthy d.rewritten_claim then d.rewritten_claim else none
    | _ ↦ none
  ]
]

abbrev pub has_flag : List CitationDecision → Bool
has_flag [] = false
has_flag (d ∷ rest) = elim d.verdict [ flag ↦ true | _ ↦ has_flag rest ]

-- An ACCEPT or a FLAG.
abbrev pub has_approval : List CitationDecision → Bool
has_approval [] = false
has_approval (d ∷ rest) = elim d.verdict [ flag ↦ true | accept ↦ true | _ ↦ has_approval rest ]

abbrev or_approved : Str → Bool → Option Str → Option Str → Option Str
or_approved claim_text approved (some t) old = some t
or_approved claim_text approved none (some t) = some t
or_approved claim_text true none none = some claim_text
or_approved claim_text false none none = none

decide_all_from :
    (claim_text : Str) (ds : List CitationDecision) (a : Acceptance)
    → decide_all claim_text ds a ≡ record {
      accepted_text = or_approved claim_text (has_approval ds) (last_rewrite ds) a.accepted_text;
      flagged = a.flagged || has_flag ds;
    }
unfolding decide
decide_all_from claim_text [] a = ground arith
decide_all_from claim_text (d ∷ ds) a =
    ground (arith, decide_all_from claim_text ds (decide claim_text d a))

last_rewrite-ne-empty : (ds : List CitationDecision) → last_rewrite ds ≢ some []
last_rewrite-ne-empty [] = none-ne-some []
last_rewrite-ne-empty (d ∷ ds) = λ e. ground (arith, last_rewrite-ne-empty ds)

-- A line of the report, marked if a verdict flags it.
abbrev pub marked : Bool → Str → Str
marked true t = t ++ lit " [uncertain]"
marked false t = t

abbrev pub line_for : Bool → Str → Bool → Option Str → List Str
line_for flagged claim_text approved (some t) = marked flagged t ∷ []
line_for flagged [] true none = []
line_for flagged (c ∷ s) true none = marked flagged (c ∷ s) ∷ []
line_for flagged claim_text false none = []

-- The line that the verdicts on a claim give the report: the text of the last rewrite, else the
-- claim itself if a verdict approves it and it is not empty.
abbrev pub expected_line : Str → List CitationDecision → List Str
expected_line claim_text ds = line_for (has_flag ds) claim_text (has_approval ds) (last_rewrite ds)

report_line_for :
    (flagged approved : Bool) (claim_text : Str) (o : Option Str)
    → o ≢ some []
    → report_line
        (record { accepted_text = or_approved claim_text approved o none; flagged = flagged })
      ≡ line_for flagged claim_text approved o
unfolding report_line
report_line_for flagged approved claim_text (some []) h = absurd (h refl)
report_line_for true approved claim_text (some (c ∷ t)) h = refl
report_line_for false approved claim_text (some (c ∷ t)) h = refl
report_line_for true true (c ∷ t) none h = refl
report_line_for false true (c ∷ t) none h = refl
report_line_for flagged true [] none h = refl
report_line_for flagged false claim_text none h = refl

-- A claim's line is the expected one, whatever the verdicts and their order.
pub report_line-decide_all :
    (claim_text : Str) (ds : List CitationDecision)
    → report_line (decide_all claim_text ds undecided) ≡ expected_line claim_text ds
report_line-decide_all claim_text ds =
    ap report_line (decide_all_from claim_text ds undecided)
    ∙ report_line_for (has_flag ds) (has_approval ds) claim_text (last_rewrite ds)
        (last_rewrite-ne-empty ds)
