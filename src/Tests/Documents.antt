-- ===== src/Tests/Documents.antt =====
-- The version of a document with two versions before it, and a filter for a tenant.
use juris_mind_ai.Base.Result.{ok}
use juris_mind_ai.Base.{list_beq}
use juris_mind_ai.IndiaCode.Articles.{parse_articles}
use juris_mind_ai.Edgar.Dates.{parse_date}
use juris_mind_ai.Filters.Tenants.{build_metadata_filter-tenant}
use juris_mind_ai.Filters.{match_value, build_metadata_filter, Filter, Metadata}
use mathlib.Core.List.{Mem}
use juris_mind_ai.Base.Text.{Str, text as lit}
use juris_mind_ai.Base.{none, refl, some, [], ◌∷◌, ◌≡◌}

abbrev wanted : Metadata
unfolding lit
wanted = record {
  company = none;
  ticker = some (lit "NVDA");
  document_type = none;
  tenant_id = some (lit "t");
  filing_date_from = none;
  filing_date_to = none;
}

wanted-tenant : wanted.tenant_id ≡ some (lit "t")
unfolding wanted
wanted-tenant = refl

build_metadata_filter-tenant_example :
    (f : Filter) × (build_metadata_filter wanted ≡ some f)
    × Mem (match_value (lit "tenant_id") (lit "t")) f.must
build_metadata_filter-tenant_example = build_metadata_filter-tenant wanted (lit "t") wanted-tenant

epoch : parse_date (lit "1970-01-01") ≡ some 719163
unfolding lit parse_date
epoch = refl

leap : parse_date (lit "2024-02-29") ≡ some 738945
unfolding lit parse_date
leap = refl

no_leap : parse_date (lit "2023-02-29") ≡ none
unfolding lit parse_date
no_leap = refl

-- An article, a footnote, an article, and the first article once more. The dash near the end of
-- the first cuts the text there: it is most of a last window of three characters.
abbrev part : Str
unfolding lit
part =
    lit
      "\n14. Equality before law.—The State shall not deny.\n1. Added by 2.—x\n15A. Other.—No person shall be denied this.\n14. Again. yes"

part_articles :
    parse_articles part 14 35
    ≡ ok (record {
      sections =
          record {
            name = lit "Article 14";
            text =
                lit "Article 14. Equality before law.\n\n—The State shall not deny. 1. Added by 2";
          }
          ∷ record {
            name = lit "Article 15A";
            text = lit "Article 15A. Other.\n\n—No person shall be denied this. 14. Again. yes";
          }
          ∷ [];
      tables = [];
    })
unfolding lit parse_articles list_beq
part_articles = refl
