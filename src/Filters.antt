-- ===== src/Filters.antt =====
-- The metadata filter that both arms of retrieval get, `build_metadata_filter` of
-- tradegraph/src/rag/vector/qdrant_store.py. A date is its ordinal, as `date.toordinal` gives it.
pub mod Tenants
use juris_mind_ai.Base.{ℕ, Option, none, some, List, [], ◌∷◌, ◌++◌}
use juris_mind_ai.Base.Text.{Str, text as lit}

-- `FieldCondition` with a `MatchValue` or a `Range`
pub data FieldCondition : Type 0 where
  match_value : Str → Str → FieldCondition
  in_dates : Str → Option ℕ → Option ℕ → FieldCondition

pub record Filter : Type 0 where
  pub must : List FieldCondition

pub match_condition : Str → Option Str → List FieldCondition
match_condition key none = []
match_condition key (some value) = match_value key value ∷ []

pub date_condition : Option ℕ → Option ℕ → List FieldCondition
date_condition none none = []
date_condition from to = in_dates (lit "filing_date_ts") from to ∷ []

pub filter_of : List FieldCondition → Option Filter
filter_of [] = none
filter_of (c ∷ rest) = some (record { must = c ∷ rest })

pub record Metadata : Type 0 where
  pub company : Option Str
  pub ticker : Option Str
  pub document_type : Option Str
  pub tenant_id : Option Str
  pub filing_date_from : Option ℕ
  pub filing_date_to : Option ℕ

unfoldable pub build_metadata_filter : Metadata → Option Filter
unfolding match_condition date_condition filter_of
build_metadata_filter m = filter_of (
    match_condition (lit "company") m.company
    ++ (match_condition (lit "ticker") m.ticker
        ++ (match_condition (lit "document_type") m.document_type
            ++ (match_condition (lit "tenant_id") m.tenant_id
                ++ date_condition m.filing_date_from m.filing_date_to))))
