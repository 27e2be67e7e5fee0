-- ===== src/Edgar/Filings.antt =====
-- `list_filings` of tradegraph/src/rag/ingestion/sec_edgar.py: the checks of the decoded submissions
-- and the loop over `filings.recent`.
pub mod Listed
pub mod Urls
use mathlib.Core.List.{[]}
use mathlib.Core.Option.{none}
use juris_mind_ai.Edgar.Dates.{parse_date}
use juris_mind_ai.Failure.{Failure}
use juris_mind_ai.Edgar.{
  sec_form_to_document_type, DocumentType, value_error, Submissions, index_error, FilingMetadata,
  edgar_error, get_cik_for_ticker,
}
use juris_mind_ai.Base.Result.{Result, ok, raised, ◌>>=◌}
use juris_mind_ai.Base.Text.{Str, truthy, upper, text as lit}
use juris_mind_ai.Base.Dict
use juris_mind_ai.Base.Dict.{Dict}
use juris_mind_ai.Base.{
  ltb, get_elem?, false, suc, ◌∷◌, contains, none, Bool, ℕ, some, Option, List, list_eq, nat_eq,
  if◌then◌else◌,
}

or_fail : {A : Type 0} → Failure → Option A → Result Failure A
or_fail e none = raised e
or_fail e (some a) = ok a

-- `filings.recent`, its five columns
pub record Recent : Type 0 where
  pub form : List (Option Str)
  pub filing_date : List (Option Str)
  pub report_date : List (Option Str)
  pub accession_number : List (Option Str)
  pub primary_document : List (Option Str)

-- The loop over `required_keys`; a missing one is the error.
pub columns : Dict Str (List (Option Str)) → Result Failure Recent
unfolding or_fail Dict.lookup lit
columns recent = do
  let missing = edgar_error (lit "'filings.recent' missing expected key")
  form ← or_fail missing (Dict.lookup (lit "form") recent)
  filing_date ← or_fail missing (Dict.lookup (lit "filingDate") recent)
  report_date ← or_fail missing (Dict.lookup (lit "reportDate") recent)
  accession_number ← or_fail missing (Dict.lookup (lit "accessionNumber") recent)
  primary_document ← or_fail missing (Dict.lookup (lit "primaryDocument") recent)
  ok (record {
    form = form;
    filing_date = filing_date;
    report_date = report_date;
    accession_number = accession_number;
    primary_document = primary_document;
  })

pub recent_of : Option (Option (Dict Str (List (Option Str)))) → Result Failure Recent
unfolding columns lit
recent_of none = raised (edgar_error (lit "malformed submissions payload"))
recent_of (some none) = raised (edgar_error (lit "malformed 'filings.recent'"))
recent_of (some (some recent)) = columns recent

-- `str(value)`
pub cell_text : Option Str → Str
unfolding lit
cell_text none = lit "None"
cell_text (some s) = s

-- `column[i]`
pub cell : List (Option Str) → ℕ → Result Failure (Option Str)
unfolding or_fail lit
cell column i = or_fail (index_error (lit "list index out of range")) (get_elem? column i)

pub date_in : Str → Result Failure ℕ
unfolding or_fail parse_date lit
date_in s = or_fail (value_error (lit "time data does not match format")) (parse_date s)

-- `_parse_date(str(report_date_raw)) if report_date_raw else None`
report_date_in : Option Str → Result Failure (Option ℕ)
unfolding date_in truthy
report_date_in none = ok none
report_date_in (some s) = if truthy s then (date_in s >>= λ d. ok (some d)) else ok none

-- `since is not None and filing_date < since`
unfoldable pub is_before : Option ℕ → ℕ → Bool
is_before none d = false
is_before (some since) d = ltb d since

pub resolved : Str → Option (List Str) → Str
unfolding upper
resolved ticker none = upper ticker
resolved ticker (some []) = upper ticker
resolved ticker (some (t ∷ ts)) = t

module _ (cik company_name ticker : Str) (forms : List Str) (since : Option ℕ)
    (recent : Recent) where
  -- The row `i` with its document type and date, from the reading of `reportDate` on.
  pub filing_at : ℕ → Str → DocumentType → ℕ → Result Failure FilingMetadata
  unfolding cell cell_text report_date_in
  filing_at i form document_type filing_date = do
    report_date_raw ← cell recent.report_date i
    report_date ← report_date_in report_date_raw
    accession_number ← cell recent.accession_number i
    primary_document ← cell recent.primary_document i
    ok (record {
      cik = cik;
      company_name = company_name;
      ticker = ticker;
      form = form;
      document_type = document_type;
      filing_date = filing_date;
      report_date = report_date;
      accession_number = cell_text accession_number;
      primary_document = cell_text primary_document;
    })

  pub keep_from : ℕ → Str → DocumentType → ℕ → Result Failure (Option FilingMetadata)
  unfolding filing_at is_before
  keep_from i form document_type d =
      if is_before since d then ok none else (filing_at i form document_type d >>= λ f. ok (some f))

  pub of_type : ℕ → Str → Option DocumentType → Result Failure (Option FilingMetadata)
  unfolding keep_from cell cell_text date_in
  of_type i form none = ok none
  of_type i form (some document_type) = do
    filing_date ← cell recent.filing_date i
    d ← date_in (cell_text filing_date)
    keep_from i form document_type d

  -- One turn of the loop; `none` is a `continue`.
  pub turn : ℕ → Str → Result Failure (Option FilingMetadata)
  unfolding of_type contains Dict.lookup
  turn i form =
      if contains forms form
      then of_type i form (Dict.lookup form sec_form_to_document_type)
      else ok none

  pub append : Option FilingMetadata → List FilingMetadata → List FilingMetadata
  append none rest = rest
  append (some f) rest = f ∷ rest

  -- The loop from `i` on, over the rest of the column `form`.
  pub list_rows : ℕ → List (Option Str) → Result Failure (List FilingMetadata)
  unfolding turn cell_text append
  list_rows i [] = ok []
  list_rows i (form ∷ forms_left) = do
    kept ← turn i (cell_text form)
    rest ← list_rows (suc i) forms_left
    ok (append kept rest)

-- `list_filings`, for the ticker mapping and the submissions that the two GETs answer with.
unfoldable pub list_filings :
    Str
    → List Str
    → Option ℕ
    → Dict Str Str
    → (Str → Result Failure Submissions)
    → Result Failure (List FilingMetadata)
unfolding get_cik_for_ticker recent_of resolved list_rows
list_filings ticker forms since mapping get_submissions = do
  cik ← get_cik_for_ticker ticker mapping
  payload ← get_submissions cik
  recent ← recent_of payload.filings
  list_rows cik payload.name (resolved ticker payload.tickers) forms since recent 0 recent.form
