-- ===== src/Edgar.antt =====
-- The client of SEC EDGAR, tradegraph/src/rag/ingestion/sec_edgar.py: the filter of filings, the
-- attempts, and the spacing of requests. An HTTP GET and the decoded JSON of its answer are
-- parameters; the texts of error messages are shortened.
pub mod Dates
pub mod Filings
pub mod Pace
use juris_mind_ai.Base.{
  ap, ◌≡◌, ℕ, zero, suc, Bool, true, false, not, Option, none, some, List, [], ◌∷◌, ◌++◌, ltb, leb,
  if◌then◌else◌, ◌==◌, list_eq, nat_eq, contains, get_elem?, length,
}
use juris_mind_ai.Base.Dict
use juris_mind_ai.Base.Dict.{Dict}
use juris_mind_ai.Base.Result.{ok-injective, raised-ne-ok, Result, ok, raised, ◌>>=◌}
use juris_mind_ai.Base.Text.{Str, text as lit, truthy, upper, strip, without, read_ℕ, show_ℕ, zfill}
use juris_mind_ai.Failure.{Failure, edgar_error, value_error, index_error, http_error}
use juris_mind_ai.Rows.{DocumentType, form_10k, form_10q, form_8k}

abbrev pub sec_form_to_document_type : Dict Str DocumentType
unfolding lit
sec_form_to_document_type =
    (lit "10-K", form_10k)
    ∷ (lit "10-K/A", form_10k)
    ∷ (lit "10-Q", form_10q)
    ∷ (lit "10-Q/A", form_10q)
    ∷ (lit "8-K", form_8k)
    ∷ (lit "8-K/A", form_8k)
    ∷ []

pub record FilingMetadata : Type 0 where
  pub cik : Str
  pub company_name : Str
  pub ticker : Str
  pub form : Str
  pub document_type : DocumentType
  -- dates as ordinals
  pub filing_date : ℕ
  pub report_date : Option ℕ
  pub accession_number : Str
  pub primary_document : Str

unfoldable pub url_with : Str → Str → Option ℕ → Option Str
unfolding show_ℕ lit
url_with accession document none = none
url_with accession document (some n) = some (
    lit "https://www.sec.gov/Archives/edgar/data/"
    ++ (show_ℕ n ++ (lit "/" ++ (accession ++ (lit "/" ++ document)))))

-- `none` is the `ValueError` of `int(self.cik)`.
unfoldable pub document_url : FilingMetadata → Option Str
unfolding url_with read_ℕ without
document_url f = url_with (without b'-' f.accession_number) f.primary_document (read_ℕ f.cik)

-- The decoded answers. A value that is not the expected list or object is `none`; a null in a list
-- likewise.
pub record Submissions : Type 0 where
  pub name : Str
  pub tickers : Option (List Str)
  pub filings : Option (Option (Dict Str (List (Option Str))))

-- An entry of `company_tickers.json`: `ticker` and `cik_str`
pub record TickerEntry : Type 0 where
  pub ticker : Option Str
  pub cik_str : Option ℕ

-- `_company_tickers`, one entry; `none` is an entry that is no object.
unfoldable pub add_ticker : Option Str → Option ℕ → Dict Str Str → Dict Str Str
unfolding Dict.insert upper zfill show_ℕ
add_ticker (some ticker) (some cik) mapping =
    Dict.insert (upper ticker) (zfill 10 (show_ℕ cik)) mapping
add_ticker _ _ mapping = mapping

unfoldable pub company_tickers : List (Option TickerEntry) → Dict Str Str → Dict Str Str
unfolding add_ticker
company_tickers [] mapping = mapping
company_tickers (none ∷ rest) mapping = company_tickers rest mapping
company_tickers (some e ∷ rest) mapping =
    company_tickers rest (add_ticker e.ticker e.cik_str mapping)

abbrev or_else : Failure → Option Str → Result Failure Str
or_else e none = raised e
or_else e (some a) = ok a

unfoldable pub get_cik_for_ticker : Str → Dict Str Str → Result Failure Str
unfolding Dict.lookup upper strip lit
get_cik_for_ticker ticker mapping =
    or_else (edgar_error (lit "no CIK found")) (Dict.lookup (strip (upper ticker)) mapping)

pub get_cik_for_ticker-ok :
    (ticker : Str) (mapping : Dict Str Str) (cik : Str)
    → get_cik_for_ticker ticker mapping ≡ ok cik
    → Dict.lookup (strip (upper ticker)) mapping ≡ some cik
unfolding get_cik_for_ticker
get_cik_for_ticker-ok ticker mapping cik h = from _ h
  where
    from : (o : Option Str) → or_else (edgar_error (lit "no CIK found")) o ≡ ok cik → o ≡ some cik
    from none h = absurd (raised-ne-ok h)
    from (some a) h = ap some (ok-injective h)
