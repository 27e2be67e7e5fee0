-- ===== src/Tests/Ingest.antt =====
-- One filing, ingested twice, and its bytes once more as a Part of the Constitution.
use juris_mind_ai.Ingestion.Filing.Again.{ingest_filing-again}
use juris_mind_ai.Ingestion.Constitution.Known.{ingest_constitution_part-raises, OnlyPut}
use juris_mind_ai.Ingestion.Constitution.{Part, ingest_constitution_part}
use juris_mind_ai.Chunking.{chunk_document}
use juris_mind_ai.Embedder.{embed_batch, embed_batches, embed_texts}
use juris_mind_ai.Ingestion.Indexing.{encode_documents, index_chunks, write_chunks}
use juris_mind_ai.Ingestion.Filing.Ingested.{ingest_filing-Ingested, HasStopped, Ingested, Skipped}
use juris_mind_ai.Failure.{pure, gets, or_raise, continue, Failure}
use juris_mind_ai.Rows.{skipped_duplicate, succeeded, form_10k}
use juris_mind_ai.Base.{ap, ◌++◌, true, contains, map, ◌⊎◌, ◌∷◌, refl, [], ℕ, some, none, ◌≡◌}
use juris_mind_ai.Ingestion.{
  get_document, hashes, is_valid, add_chunks, new_id, flush, set_documents, call, Stores, Backends,
}
use juris_mind_ai.Ingestion.Filing.{
  document_of, decision_for, mark_succeeded, with_hash, store_document, ingest_new, unless_known,
  IngestionOutcome, ingest_filing,
}
use juris_mind_ai.Failure.Ensures.{Ensures}
use juris_mind_ai.Edgar.{FilingMetadata, document_url}
use juris_mind_ai.Base.Text.{digits_onto, Str, text as lit}
use juris_mind_ai.Base.Result.{Result, ok}
use juris_mind_ai.Failure.{◌>>=◌}
use juris_mind_ai.Base.{list_beq, list_eq, nat_eq}
use juris_mind_ai.Dedup.{determine_version}
use juris_mind_ai.Ingestion.Filing.Corpus.{
  AreFetched, verdicts, Ingests-admit_all, IsBelow, admit_all, next, done,
}
use juris_mind_ai.Base.{List}

-- The bytes are text, its own hash; it is parsed as one section, with its characters for tokens.
abbrev bytes : Str
bytes = 60 ∷ 61 ∷ []

abbrev backends : Backends
backends = record {
  World = Unit {0};
  Bytes = Str;
  Num = ℕ;
  content_hash = λ raw. raw;
  fetch = λ url w. (ok bytes, w);
  store = λ bucket key body kind w. (ok tt, w);
  parse = λ raw. ok (record { sections = record { name = bytes; text = raw } ∷ []; tables = [] });
  encoding = record { encode = λ s. some s; decode = λ s. s };
  model = [];
  dimension = 2;
  batch_size = 8;
  post = λ batch w. (ok (some (map (λ (t : Str). some (1 ∷ 2 ∷ [])) batch)), w);
  passage_embed =
      λ texts w. (ok (map (λ (t : Str). record { indices = []; values = [] }) texts), w);
  upsert_points = λ points w. (ok tt, w);
}

abbrev filing : FilingMetadata
unfolding lit
filing = record {
  cik = lit "0000000012";
  company_name = lit "Acme";
  ticker = lit "acme";
  form = lit "10-K";
  document_type = form_10k;
  filing_date = 738945;
  report_date = none;
  accession_number = lit "12-34";
  primary_document = lit "a.b.html";
}

abbrev empty : Stores backends
empty = record { world = tt; calls = []; documents = []; chunks = []; fresh = 0; now = 5 }

abbrev run : Result Failure IngestionOutcome × Stores backends
unfolding ingest_filing
run = ingest_filing backends filing [] none empty

abbrev outcome : IngestionOutcome
outcome = record { document_id = 0; status = succeeded; chunks_created = 1 }

url_of : document_url filing ≡ some (lit "https://www.sec.gov/Archives/edgar/data/12/1234/a.b.html")
unfolding document_url lit filing digits_onto
url_of = refl

returned : run.0 ≡ ok outcome
unfolding lit run filing ingest_filing unless_known ingest_new store_document ◌>>=◌ continue
    or_raise call gets pure with_hash document_url set_documents flush mark_succeeded write_chunks
    index_chunks encode_documents embed_texts embed_batches embed_batch chunk_document decision_for
    new_id add_chunks is_valid hashes document_of determine_version
returned = refl

ingest_filing-Ingested_example :
    Ensures
      (ingest_filing backends filing [] none empty)
      (λ o s'.
        Skipped backends filing [] none empty o s' ⊎ Ingested backends filing [] none empty o s')
      (λ _ s'. HasStopped backends filing [] none empty s')
ingest_filing-Ingested_example = ingest_filing-Ingested backends filing [] none empty tt

fetched :
    (backends.fetch (lit "https://www.sec.gov/Archives/edgar/data/12/1234/a.b.html") tt).0
    ≡ ok bytes
fetched = refl

fetched_again :
    backends.fetch (lit "https://www.sec.gov/Archives/edgar/data/12/1234/a.b.html") run.1.world
    ≡ (ok bytes, tt)
fetched_again = refl

ingest_filing-again_example : ingest_filing backends filing [] none run.1 ≡ (
  ok (record { document_id = 0; status = skipped_duplicate; chunks_created = 0 }),
  record run.1 {
    world = tt;
    calls =
        run.1.calls
        ++ get_document (lit "https://www.sec.gov/Archives/edgar/data/12/1234/a.b.html") ∷ [];
  },
)
unfolding run
ingest_filing-again_example =
    ingest_filing-again backends filing [] none empty outcome run.1
      (lit "https://www.sec.gov/Archives/edgar/data/12/1234/a.b.html") bytes tt tt url_of fetched
      (ap (λ o. (o, run.1)) returned) fetched_again

Ingests-admit_all_example :
    (raws : List Str) × AreFetched backends (filing ∷ []) raws
    × (hashes run.1.documents ≡ admit_all (map backends.content_hash raws) [])
    × (succeeded ∷ [] ≡ verdicts (map backends.content_hash raws) [])
    × IsBelow backends [] none run.1
unfolding ingest_filing hashes run
Ingests-admit_all_example =
    Ingests-admit_all backends [] none empty run.1 (filing ∷ []) (outcome ∷ []) tt
      (next empty run.1 run.1 filing [] outcome [] (ap (λ o. (o, run.1)) returned) (done run.1))

abbrev part : Part Str
unfolding lit
part = record {
  pdf_bytes = bytes;
  source_url = lit "u";
  start_page = 0;
  end_page = 1;
  part_start_marker = lit "PART III";
  part_end_marker = lit "PART IV";
  min_article = 12;
  max_article = 35;
  raw_bucket = lit "b";
  edition_date = 738945;
}

known : contains (hashes run.1.documents) (backends.content_hash part.pdf_bytes) ≡ true
unfolding lit run filing ingest_filing unless_known ingest_new store_document ◌>>=◌ continue
    or_raise call gets pure with_hash document_url set_documents flush mark_succeeded write_chunks
    index_chunks encode_documents embed_texts embed_batches embed_batch chunk_document decision_for
    new_id add_chunks is_valid hashes document_of determine_version part contains list_beq
known = refl

ingest_constitution_part-raises_example :
    Ensures
      (ingest_constitution_part backends (λ pdf i. ok pdf) part run.1)
      (λ _ _. ⊥)
      (λ _ s'. OnlyPut backends (λ pdf i. ok pdf) part run.1 s')
ingest_constitution_part-raises_example =
    ingest_constitution_part-raises backends (λ pdf i. ok pdf) part run.1 known
