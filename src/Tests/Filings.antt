-- ===== src/Tests/Filings.antt =====
-- Two rows of EDGAR's columns, and the times of requests.
use juris_mind_ai.Edgar.Filings.Listed.{list_filings-Rows, Rows}
use juris_mind_ai.Failure.{Failure}
use juris_mind_ai.Rows.{form_10k}
use juris_mind_ai.Edgar.Filings.Urls.{HasUrl, list_filings-HasUrl}
use juris_mind_ai.Base.{ℕ, All, Option}
use juris_mind_ai.Edgar.{FilingMetadata, Submissions, TickerEntry, company_tickers}
use juris_mind_ai.Edgar.Pace.{request_times-spaced, request_times}
use juris_mind_ai.Edgar.Filings.{resolved, recent_of, Recent, list_filings}
use juris_mind_ai.Base.{list_beq, refl, ◌≡◌, ◌≤◌, ◌*◌, none, get_elem?, some, [], ◌+◌, List, ◌∷◌}
use juris_mind_ai.Base.Text.{digits_onto, upper, strip, Str, text as lit}
use juris_mind_ai.Base.Dict
use juris_mind_ai.Base.Dict.{Dict}
use juris_mind_ai.Base.{list_eq, nat_eq}
use juris_mind_ai.Base.Result.{Result, ok}

abbrev mapping : Dict Str Str
unfolding lit
mapping = (lit "ACME", lit "0000000012") ∷ []

abbrev submissions : Submissions
unfolding lit
submissions = record {
  name = lit "Acme";
  tickers = some [];
  filings = some (
      some (
        (lit "form", some (lit "10-K") ∷ some (lit "4") ∷ some (lit "8-K") ∷ [])
        ∷ (lit "filingDate", some (lit "2024-02-29") ∷ none ∷ some (lit "2020-01-01") ∷ [])
        ∷ (lit "reportDate", some [] ∷ [])
        ∷ (lit "accessionNumber", some (lit "12-34") ∷ [])
        ∷ (lit "primaryDocument", some (lit "a.html") ∷ [])
        ∷ []));
}

abbrev listed : FilingMetadata
unfolding lit
listed = record {
  cik = lit "0000000012";
  company_name = lit "Acme";
  ticker = lit "ACME ";
  form = lit "10-K";
  document_type = form_10k;
  filing_date = 738945;
  report_date = none;
  accession_number = lit "12-34";
  primary_document = lit "a.html";
}

abbrev asked : List Str
unfolding lit
asked = lit "10-K" ∷ lit "8-K" ∷ []

-- The second row has another form, and the third is older than asked for, so that neither reads the
-- columns that end before it. The space
-- after the ticker stays.
lists :
    list_filings (lit "acme ") asked (some 738000) mapping (λ cik. ok submissions)
    ≡ ok (listed ∷ [])
unfolding lit list_filings mapping submissions listed asked list_beq
lists = refl

list_filings-Rows_example :
    (cik : Str) × (payload : Submissions) × (recent : Recent) × (Dict.lookup
        (strip (upper (lit "acme ")))
        mapping
      ≡ some cik)
    × (◌≡◌ {A = Result Failure Submissions} (ok submissions) (ok payload))
    × (recent_of payload.filings ≡ ok recent)
    × Rows cik payload.name
        (resolved (lit "acme ") payload.tickers)
        asked
        (some 738000)
        recent
        0
        recent.form
        (listed ∷ [])
list_filings-Rows_example =
    list_filings-Rows (lit "acme ") asked (some 738000) mapping (λ cik. ok submissions)
      (listed ∷ []) lists

abbrev entries : List (Option TickerEntry)
unfolding lit
entries = none ∷ some (record { ticker = some (lit "acme"); cik_str = some 12 }) ∷ []

lists_from :
    list_filings
      (lit "acme ")
      asked
      (some 738000)
      (company_tickers entries [])
      (λ cik. ok submissions)
    ≡ ok (listed ∷ [])
unfolding lit list_filings company_tickers entries submissions listed asked list_beq digits_onto
lists_from = refl

list_filings-HasUrl_example : (n : ℕ) × All (HasUrl n) (listed ∷ [])
list_filings-HasUrl_example =
    list_filings-HasUrl entries (lit "acme ") asked (some 738000) (λ cik. ok submissions)
      (listed ∷ []) lists_from

times : request_times 150 none 10 ((0, 3) ∷ (20, 2) ∷ (400, 0) ∷ []) ≡ 13 ∷ 165 ∷ 565 ∷ []
unfolding request_times
times = refl

first : get_elem? (request_times 150 none 10 ((0, 3) ∷ (20, 2) ∷ (400, 0) ∷ [])) 0 ≡ some 13
unfolding request_times
first = refl

third : get_elem? (request_times 150 none 10 ((0, 3) ∷ (20, 2) ∷ (400, 0) ∷ [])) 2 ≡ some 565
unfolding request_times
third = refl

request_times-spaced_example : 13 + 2 * 150 ≤ 565
request_times-spaced_example =
    request_times-spaced 150 ((0, 3) ∷ (20, 2) ∷ (400, 0) ∷ []) none 10 0 2 1 13 565 first third
      refl
