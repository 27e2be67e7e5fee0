-- ===== src/Edgar/Filings/Listed.antt =====
-- What the list of filings of tradegraph/src/rag/ingestion/sec_edgar.py holds of the decoded columns.
use juris_mind_ai.Base.Dict.{Dict}
use mathlib.Core.Path.{subst}
use mathlib.Core.List.{[]}
use juris_mind_ai.Base.Result.{Result, ok-injective, bind-ok, raised-ne-ok}
use mathlib.Core.Option.{none}
use juris_mind_ai.Edgar.Dates.{parse_date}
use juris_mind_ai.Edgar.{
  get_cik_for_ticker-ok, Submissions, ok, Failure, DocumentType, sec_form_to_document_type,
  FilingMetadata,
}
use juris_mind_ai.Edgar.Filings.{
  report_date_in, resolved, recent_of, list_filings, append, date_in, or_fail, keep_from, turn,
  list_rows, cell, of_type, is_before, cell_text, filing_at, Recent,
}
use juris_mind_ai.Base.Text.{upper, strip, Str}
use juris_mind_ai.Base.Dict
use juris_mind_ai.Base.{
  refl, inr, suc, ◌∷◌, ◌∙◌, inl, ap, Bool-cases, sym, false, get_elem?, some, true, ◌≡◌, contains,
  ℕ, Option, List, list_eq, nat_eq,
}

or_fail-ok : {A : Type 0} (e : Failure) (o : Option A) (a : A) → or_fail e o ≡ ok a → o ≡ some a
unfolding or_fail
or_fail-ok e none a h = absurd (raised-ne-ok h)
or_fail-ok e (some b) a h = ap some (ok-injective h)

module _ (cik company_name ticker : Str) (forms : List Str) (since : Option ℕ)
    (recent : Recent) where
  -- The filing is the row `i` of the columns, and was asked for.
  pub record IsRow (i : ℕ) (f : FilingMetadata) : Type 0 where
    pub is_wanted : contains forms f.form ≡ true
    pub has_type : Dict.lookup f.form sec_form_to_document_type ≡ some f.document_type
    pub is_dated :
        (s : Option Str) × (get_elem? recent.filing_date i ≡ some s)
        × (parse_date (cell_text s) ≡ some f.filing_date)
    pub is_recent : is_before since f.filing_date ≡ false
    pub is_numbered :
        (s : Option Str) × (get_elem? recent.accession_number i ≡ some s)
        × (f.accession_number ≡ cell_text s)
    pub is_named :
        (s : Option Str) × (get_elem? recent.primary_document i ≡ some s)
        × (f.primary_document ≡ cell_text s)
    pub is_of : (f.cik ≡ cik) × (f.company_name ≡ company_name) × (f.ticker ≡ ticker)

  filing_at-IsRow :
      (i : ℕ) (form : Str) (dt : DocumentType) (d : ℕ) (f : FilingMetadata)
      → contains forms form ≡ true
      → Dict.lookup form sec_form_to_document_type ≡ some dt
      → ((s : Option Str) × (get_elem? recent.filing_date i ≡ some s)
          × (parse_date (cell_text s) ≡ some d))
      → is_before since d ≡ false
      → filing_at cik company_name ticker forms since recent i form dt d ≡ ok f
      → (f.form ≡ form) × IsRow i f
  unfolding filing_at cell
  filing_at-IsRow i form dt d f wanted typed dated late h =
      let (raw, _, h1) = bind-ok (cell recent.report_date i) _ f h in
      let (report, _, h2) = bind-ok (report_date_in raw) _ f h1 in
      let (a, ha, h3) = bind-ok (cell recent.accession_number i) _ f h2 in
      let (p, hp, h4) = bind-ok (cell recent.primary_document i) _ f h3 in
      subst (λ g. (g.form ≡ form) × IsRow i g) (ok-injective h4)
        (
          refl,
          record {
            is_wanted = wanted;
            has_type = typed;
            is_dated = dated;
            is_recent = late;
            is_numbered = (a, or_fail-ok _ _ a ha, refl);
            is_named = (p, or_fail-ok _ _ p hp, refl);
            is_of = (refl, refl, refl);
          },
        )

  -- The row `i` was not asked for: its form, or its date before `since`.
  pub data IsSkipped (i : ℕ) (form : Str) : Type 0 where
    other_form : contains forms form ≡ false → IsSkipped i form
    unknown_form : Dict.lookup form sec_form_to_document_type ≡ none → IsSkipped i form
    too_old :
        (s : Option Str) (d : ℕ)
        → get_elem? recent.filing_date i ≡ some s
        → parse_date (cell_text s) ≡ some d
        → is_before since d ≡ true
        → IsSkipped i form

  -- A turn keeps the filing of the row, or passes over a row that was not asked for.
  abbrev pub Kept : ℕ → Str → Option FilingMetadata → Type 0
  Kept i form none = IsSkipped i form
  Kept i form (some f) = (f.form ≡ form) × IsRow i f

  keep_from-Kept :
      (i : ℕ) (form : Str) (dt : DocumentType) (d : ℕ) (kept : Option FilingMetadata)
      → contains forms form ≡ true
      → Dict.lookup form sec_form_to_document_type ≡ some dt
      → ((s : Option Str) × (get_elem? recent.filing_date i ≡ some s)
          × (parse_date (cell_text s) ≡ some d))
      → keep_from cik company_name ticker forms since recent i form dt d ≡ ok kept
      → Kept i form kept
  unfolding keep_from
  keep_from-Kept i form dt d kept wanted typed dated h = elim (Bool-cases (is_before since d)) [
    | inl e ↦
        let (s, found, read) = dated in
        subst (Kept i form) {x = none} (ok-injective (sym (rw e refl) ∙ h))
          (too_old s d found read e)
    | inr e ↦
        let listed = filing_at cik company_name ticker forms since recent i form dt d in
        let (f, hf, h1) = bind-ok listed (λ f. ok (some f)) kept (sym (rw e refl) ∙ h) in
        subst (Kept i form) (ok-injective h1)
          (filing_at-IsRow i form dt d f wanted typed dated e hf)
  ]

  of_type-Kept :
      (i : ℕ) (form : Str) (o : Option DocumentType) (kept : Option FilingMetadata)
      → contains forms form ≡ true
      → Dict.lookup form sec_form_to_document_type ≡ o
      → of_type cik company_name ticker forms since recent i form o ≡ ok kept
      → Kept i form kept
  unfolding of_type cell date_in
  of_type-Kept i form none kept wanted typed h =
      subst (Kept i form) (ok-injective h) (unknown_form typed)
  of_type-Kept i form (some dt) kept wanted typed h =
      let (s, hs, h1) = bind-ok _ _ kept h in
      let (d, hd, h2) = bind-ok _ _ kept h1 in
      keep_from-Kept i form dt d kept wanted typed (s, or_fail-ok _ _ s hs, or_fail-ok _ _ d hd) h2

  turn-Kept :
      (i : ℕ) (form : Str) (kept : Option FilingMetadata)
      → turn cik company_name ticker forms since recent i form ≡ ok kept
      → Kept i form kept
  unfolding turn
  turn-Kept i form kept h = elim (Bool-cases (contains forms form)) [
    | inl e ↦ of_type-Kept i form _ kept e refl (sym (rw e refl) ∙ h)
    | inr e ↦ subst (Kept i form) {x = none} (ok-injective (sym (rw e refl) ∙ h)) (other_form e)
  ]

  -- The filings of the rows from `i` on, in the order of the rows: each row gives its filing,
  -- or was not asked for.
  abbrev pub Rows : ℕ → List (Option Str) → List FilingMetadata → Type 0
  Rows i [] fs = fs ≡ []
  Rows i (c ∷ left) fs =
      (kept : Option FilingMetadata) × (rest : List FilingMetadata) × Kept i (cell_text c) kept
      × Rows (suc i) left rest
      × (fs ≡ append cik company_name ticker forms since recent kept rest)

  list_rows-Rows :
      (i : ℕ) (left : List (Option Str)) (fs : List FilingMetadata)
      → list_rows cik company_name ticker forms since recent i left ≡ ok fs
      → Rows i left fs
  unfolding list_rows
  list_rows-Rows i [] fs h = sym (ok-injective h)
  list_rows-Rows i (c ∷ left) fs h =
      let (kept, hk, h1) = bind-ok _ _ fs h in
      let (rest, hr, h2) = bind-ok _ _ fs h1 in
      (
        kept,
        rest,
        turn-Kept i _ kept hk,
        list_rows-Rows (suc i) left rest hr,
        sym (ok-injective h2),
      )

-- The filings that `list_filings` returns are those of the rows of the submissions for the ticker's
-- CIK, in their order: each row gives its filing, with a form and a date that were asked for, or it
-- is passed over because its form is not asked for or has no document type, or its date is before
-- `since`.
pub list_filings-Rows :
    (ticker : Str) (forms : List Str) (since : Option ℕ) (mapping : Dict Str Str)
    (get_submissions : Str → Result Failure Submissions) (fs : List FilingMetadata)
    → list_filings ticker forms since mapping get_submissions ≡ ok fs
    → (cik : Str) × (payload : Submissions) × (recent : Recent) × (Dict.lookup
          (strip (upper ticker))
          mapping
        ≡ some cik)
      × (get_submissions cik ≡ ok payload)
      × (recent_of payload.filings ≡ ok recent)
      × Rows cik payload.name (resolved ticker payload.tickers) forms since recent 0 recent.form fs
unfolding list_filings
list_filings-Rows ticker forms since mapping get_submissions fs h =
    let (cik, hc, h1) = bind-ok _ _ fs h in
    let (payload, hp, h2) = bind-ok _ _ fs h1 in
    let (recent, hr, h3) = bind-ok _ _ fs h2 in
    (
      cik,
      payload,
      recent,
      get_cik_for_ticker-ok ticker mapping cik hc,
      hp,
      hr,
      list_rows-Rows cik payload.name _ forms since recent 0 recent.form fs h3,
    )
