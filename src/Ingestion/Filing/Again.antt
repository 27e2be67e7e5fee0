-- ===== src/Ingestion/Filing/Again.antt =====
-- A second ingestion of the same content.

use juris_mind_ai.Failure.Ensures.{Ensures-ok}
use juris_mind_ai.Ingestion.Filing.Stored.{succeeded_at}
use juris_mind_ai.Ingestion.Filing.Ingested.{
  new_document, ingest_filing-Ingested, Ingested, Skipped,
}
use juris_mind_ai.Ingestion.Filing.{
  skipped_duplicate, scalar_one_or_none, unless_known, document_url, IngestionOutcome, document_of,
  ingest_filing, FilingMetadata, with_hash,
}
use mathlib.Core.List.{nil≢cons}
use mathlib.Core.Option.{some-injective}
use mathlib.Core.Path.{subst}
use juris_mind_ai.Base.{
  list_eq, nat_eq, ◌==◌, Bool-cases, eq_refl, inl, inr, ◌⊎◌, Option, some, List, [], ◌∷◌, ◌++◌, ◌≡◌,
  refl, sym, ◌∙◌, ap, All, ◌<◌,
}
use juris_mind_ai.Base.Result.{ok, ok-injective}
use juris_mind_ai.Failure.{◌>>=◌, continue, gets, pure, or_raise}
use juris_mind_ai.Ingestion.{get_document, Stores, FiledDocument, Uuid, Str, Backends, call}

with_hash-last :
    (h : Str) (ds : List FiledDocument) (d : FiledDocument)
    → with_hash h ds ≡ []
    → d.content_hash ≡ h
    → with_hash h (ds ++ d ∷ []) ≡ d ∷ []
unfolding with_hash
with_hash-last h [] d none_has same = rw (same, eq_refl h) refl
with_hash-last h (e ∷ ds) d none_has same = elim (Bool-cases (e.content_hash == h)) [
  | inl here ↦ absurd (nil≢cons {x = e} {xs = with_hash h ds} (sym none_has ∙ rw here refl))
  | inr there ↦ rw there (with_hash-last h ds d (sym (rw there refl) ∙ none_has) same)
]

module _ (V : Backends) (filing : FilingMetadata) (raw_bucket : Str) (tenant_id : Option Uuid) where
  same_fetch :
      (s : Stores V) (url url' : Str) (raw raw' : V.Bytes)
      → document_url filing ≡ some url
      → document_url filing ≡ some url'
      → (V.fetch url s.world).0 ≡ ok raw
      → (V.fetch url' s.world).0 ≡ ok raw'
      → raw' ≡ raw
  same_fetch s url url' raw raw' is_url is_url' got got' =
      let same : url' ≡ url = some-injective url' url (sym is_url' ∙ is_url) in
      ok-injective (sym got' ∙ ap (λ u. (V.fetch u s.world).0) same ∙ got)

  -- After a run that returned, one row has the hash of what it fetched: the outcome's document.
  known_after :
      (s : Stores V) (outcome : IngestionOutcome) (s' : Stores V) (url : Str) (raw : V.Bytes)
      → document_url filing ≡ some url
      → (V.fetch url s.world).0 ≡ ok raw
      → (Skipped V filing raw_bucket tenant_id s outcome s'
          ⊎ Ingested V filing raw_bucket tenant_id s outcome s')
      → (d : FiledDocument) × (with_hash (V.content_hash raw) s'.documents ≡ d ∷ [])
        × (outcome.document_id ≡ d.id)
  unfolding document_of
  known_after s outcome s' url raw is_url got (inl h) =
      let same = same_fetch s url h.url raw h.raw is_url h.is_url got h.is_fetched in
      (
        h.existing,
        subst (λ r. with_hash (V.content_hash r) s'.documents ≡ h.existing ∷ []) same
            (ap (with_hash (V.content_hash h.raw)) h.same_documents ∙ h.is_known),
        ap (λ (o : IngestionOutcome). o.document_id) h.is_outcome,
      )
  known_after s outcome s' url raw is_url got (inr h) =
      let same = same_fetch s url h.url raw h.raw is_url h.is_url got h.is_fetched in
      let d = succeeded_at s'.now (new_document V filing raw_bucket tenant_id s h.url h.raw) in
      (
        d,
        subst (λ r. with_hash (V.content_hash r) s'.documents ≡ d ∷ []) same
            (ap (with_hash (V.content_hash h.raw)) h.filed.has_document
              ∙ with_hash-last (V.content_hash h.raw) s.documents d h.is_new refl),
        ap (λ (o : IngestionOutcome). o.document_id) h.filed.is_outcome,
      )

  skip_known :
      (s : Stores V) (url : Str) (raw : V.Bytes) (w : V.World) (d : FiledDocument)
      → document_url filing ≡ some url
      → V.fetch url s.world ≡ (ok raw, w)
      → with_hash (V.content_hash raw) s.documents ≡ d ∷ []
      → ingest_filing V filing raw_bucket tenant_id s ≡ (
        ok (record { document_id = d.id; status = skipped_duplicate; chunks_created = 0 }),
        record s { world = w; calls = s.calls ++ get_document url ∷ [] },
      )
  unfolding ingest_filing unless_known scalar_one_or_none ◌>>=◌ or_raise call gets pure continue
  skip_known s url raw w d is_url is_fetched known = rw is_url (rw is_fetched (rw known refl))

  -- Ingestion is idempotent: where the ids of the documents are below the next one and the
  -- ingestion of a filing returned, a second one that fetches the same bytes returns the same
  -- document as a skipped duplicate without chunks, and does nothing but the fetch.
  pub ingest_filing-again :
      (s : Stores V) (outcome : IngestionOutcome) (s' : Stores V) (url : Str) (raw : V.Bytes)
      (w : V.World)
      → All (λ (e : FiledDocument). e.id < s.fresh) s.documents
      → document_url filing ≡ some url
      → (V.fetch url s.world).0 ≡ ok raw
      → ingest_filing V filing raw_bucket tenant_id s ≡ (ok outcome, s')
      → V.fetch url s'.world ≡ (ok raw, w)
      → ingest_filing V filing raw_bucket tenant_id s' ≡ (
        ok (record {
          document_id = outcome.document_id;
          status = skipped_duplicate;
          chunks_created = 0;
        }),
        record s' { world = w; calls = s'.calls ++ get_document url ∷ [] },
      )
  ingest_filing-again s outcome s' url raw w below is_url got first got' =
      let (d, known, same) = known_after s outcome s' url raw is_url got (
        Ensures-ok _ outcome s' first
          (ingest_filing-Ingested V filing raw_bucket tenant_id s below)) in
      rw same (skip_known s' url raw w d is_url got' known)
