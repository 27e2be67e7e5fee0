-- ===== src/Edgar/Filings/Urls.antt =====
-- The addresses of the listed filings.
use juris_mind_ai.Base.Numerals.{read-show, read-zfill}
use mathlib.Core.List.{[]}
use juris_mind_ai.Edgar.Filings.Listed.{list_filings-Rows, Rows}
use juris_mind_ai.Edgar.Filings.{append, list_filings, Recent}
use juris_mind_ai.Edgar.{
  Submissions, Failure, TickerEntry, url_with, FilingMetadata, document_url, company_tickers,
  add_ticker,
}
use mathlib.Core.Path.{subst}
use mathlib.Core.Option.{none, none-ne-some}
use juris_mind_ai.Base.Text.{read_ℕ, upper, without, show_ℕ, zfill, Str, text as lit}
use juris_mind_ai.Base.{
  All-weaken, suc, refl, ◌∙◌, sym, All, ◌∷◌, ◌++◌, ap, some, ◌≡◌, Option, ℕ, List, list_eq, nat_eq,
}
use juris_mind_ai.Base.Dict
use juris_mind_ai.Base.Dict.{Dict}
use juris_mind_ai.Base.Result.{Result, ok}

-- Ten digits at least, of this number.
abbrev pub IsCik : Str → ℕ → Type 0
IsCik cik n = cik ≡ zfill 10 (show_ℕ n)

add_ticker-IsCik :
    (ticker : Option Str) (number : Option ℕ) (mapping : Dict Str Str)
    → ((t cik : Str) → Dict.lookup t mapping ≡ some cik → (n : ℕ) × IsCik cik n)
    → (t cik : Str) → Dict.lookup t (add_ticker ticker number mapping) ≡ some cik
    → (n : ℕ) × IsCik cik n
unfolding add_ticker
add_ticker-IsCik none number mapping old = old
add_ticker-IsCik (some ticker) none mapping old = old
add_ticker-IsCik (some ticker) (some n) mapping old =
    Dict.insert-Holds (λ t cik. (n : ℕ) × IsCik cik n) (upper ticker) (zfill 10 (show_ℕ n)) mapping
      (n, refl) old

company_tickers-IsCik :
    (entries : List (Option TickerEntry)) (mapping : Dict Str Str)
    → ((t cik : Str) → Dict.lookup t mapping ≡ some cik → (n : ℕ) × IsCik cik n)
    → (t cik : Str) → Dict.lookup t (company_tickers entries mapping) ≡ some cik
    → (n : ℕ) × IsCik cik n
unfolding company_tickers
company_tickers-IsCik [] mapping old = old
company_tickers-IsCik (none ∷ rest) mapping old = company_tickers-IsCik rest mapping old
company_tickers-IsCik (some e ∷ rest) mapping old =
    company_tickers-IsCik rest (add_ticker e.ticker e.cik_str mapping)
      (add_ticker-IsCik e.ticker e.cik_str mapping old)

-- The address has the number of the company, without zeros in front, and no dashes.
abbrev pub HasUrl : ℕ → FilingMetadata → Type 0
HasUrl n f =
    document_url f
    ≡ some (
        lit "https://www.sec.gov/Archives/edgar/data/"
        ++ (show_ℕ n
            ++ (lit "/" ++ (without b'-' f.accession_number ++ (lit "/" ++ f.primary_document)))))

document_url-HasUrl : (f : FilingMetadata) (n : ℕ) → IsCik f.cik n → HasUrl n f
unfolding document_url url_with
document_url-HasUrl f n is =
    ap (url_with (without b'-' f.accession_number) f.primary_document)
      (ap read_ℕ is ∙ read-zfill 10 (show_ℕ n) n (read-show n))

module _ (cik company_name ticker : Str) (forms : List Str) (since : Option ℕ)
    (recent : Recent) where
  Rows-cik :
      (i : ℕ) (left : List (Option Str)) (fs : List FilingMetadata)
      → Rows cik company_name ticker forms since recent i left fs
      → All (λ (f : FilingMetadata). f.cik ≡ cik) fs
  unfolding append
  Rows-cik i [] fs e = subst (All (λ (f : FilingMetadata). f.cik ≡ cik)) (sym e) tt
  Rows-cik i (c ∷ left) fs (none, rest, kept, rows, e) =
      subst (All (λ (f : FilingMetadata). f.cik ≡ cik)) (sym e) (Rows-cik (suc i) left rest rows)
  Rows-cik i (c ∷ left) fs (some f, rest, (_, row), rows, e) =
      subst (All (λ (f : FilingMetadata). f.cik ≡ cik)) (sym e)
        (row.is_of.0, Rows-cik (suc i) left rest rows)

-- With the ticker mapping that `_company_tickers` makes, every listed filing has an address: that of
-- one number for all of them, without zeros in front, whatever the answers are.
pub list_filings-HasUrl :
    (entries : List (Option TickerEntry)) (ticker : Str) (forms : List Str) (since : Option ℕ)
    (get_submissions : Str → Result Failure Submissions) (fs : List FilingMetadata)
    → list_filings ticker forms since (company_tickers entries []) get_submissions ≡ ok fs
    → (n : ℕ) × All (HasUrl n) fs
list_filings-HasUrl entries ticker forms since get_submissions fs h =
    let (cik, payload, recent, found, _, _, rows) =
      list_filings-Rows ticker forms since (company_tickers entries []) get_submissions fs h in
    let (n, is) =
      company_tickers-IsCik entries []
        (λ t c e. absurd (none-ne-some c (sym (Dict.lookup-nil t) ∙ e))) _ cik found in
    (
      n,
      All-weaken _ _ fs (λ f same. document_url-HasUrl f n (same ∙ is))
          (Rows-cik cik payload.name _ forms since recent 0 recent.form fs rows),
    )
