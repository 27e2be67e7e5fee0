-- ===== src/Ingestion/Filing/Corpus.antt =====
-- The corpus as the set of the hashes of its documents, which is what the ingestion of filings
-- promises to keep.
use juris_mind_ai.Ingestion.Rules.{hashes-append}
use juris_mind_ai.Ingestion.Filing.Stored.{succeeded_at}
use mathlib.Core.Path.{subst}
use juris_mind_ai.Base.{arith, All-weaken, All-append, sym, if◌then◌else◌}
use juris_mind_ai.Ingestion.Filing.Ingested.{
  new_document, Ingested, ingest_filing-Ingested, Skipped,
}
use juris_mind_ai.Failure.Ensures.{Ensures-ok}
use mathlib.Core.List.{[]}
use juris_mind_ai.Ingestion.Filing.{
  succeeded, skipped_duplicate, ingest_filing, IngestionOutcome, FilingMetadata, document_of,
  with_hash,
}
use juris_mind_ai.Base.Text.{truthy, Str}
use juris_mind_ai.Edgar.{document_url}
use juris_mind_ai.Base.{some}
use juris_mind_ai.Ingestion.{Stores, Uuid, IngestionStatus, FiledDocument, Backends, hashes}
use juris_mind_ai.Base.{
  false, ◌∙◌, true, inr, ◌⊎◌, inl, refl, map, ◌<◌, ◌==◌, ap, Bool-cases, All, ◌≡◌, ◌++◌, Option,
  ◌∷◌, contains, List, list_eq, nat_eq,
}
use juris_mind_ai.Base.Result.{ok}

-- The specification: content that is known is skipped, and other content is added.
unfoldable pub admit : Str → List Str → List Str × IngestionStatus
admit h known =
    if contains known h then (known, skipped_duplicate) else (known ++ h ∷ [], succeeded)

unfoldable pub admit_all : List Str → List Str → List Str
admit_all [] known = known
admit_all (h ∷ hs) known = admit_all hs (admit h known).0

-- What the specification says of each content in turn.
unfoldable pub verdicts : List Str → List Str → List IngestionStatus
verdicts [] known = []
verdicts (h ∷ hs) known = (admit h known).1 ∷ verdicts hs (admit h known).0

contains-hashes :
    (h : Str) (ds : List FiledDocument) → contains (hashes ds) h ≡ truthy (with_hash h ds)
unfolding contains hashes with_hash truthy
contains-hashes h [] = refl
contains-hashes h (d ∷ ds) = elim (Bool-cases (d.content_hash == h)) [
  | inl e ↦ rw e refl
  | inr e ↦ rw e (contains-hashes h ds)
]

-- A sequence of ingestions that returned, each from the state that the one before left, with their
-- outcomes.
pub data Ingests (V : Backends) (raw_bucket : Str) (tenant_id : Option Uuid)
    : Stores V → List FilingMetadata → List IngestionOutcome → Stores V → Type 0 where
  done : (s : Stores V) → Ingests V raw_bucket tenant_id s [] [] s
  next :
      (s s1 s2 : Stores V) (f : FilingMetadata) (fs : List FilingMetadata)
      (outcome : IngestionOutcome) (outcomes : List IngestionOutcome)
      → ingest_filing V f raw_bucket tenant_id s ≡ (ok outcome, s1)
      → Ingests V raw_bucket tenant_id s1 fs outcomes s2
      → Ingests V raw_bucket tenant_id s (f ∷ fs) (outcome ∷ outcomes) s2

module _ (V : Backends) where
  -- The bytes came from the address of the filing.
  abbrev pub IsFetched : FilingMetadata → V.Bytes → Type 0
  IsFetched f raw =
      (url : Str) × (w : V.World) × (document_url f ≡ some url) × ((V.fetch url w).0 ≡ ok raw)

  abbrev pub AreFetched : List FilingMetadata → List V.Bytes → Type 0
  AreFetched [] [] = Unit
  AreFetched (f ∷ fs) (raw ∷ raws) = IsFetched f raw × AreFetched fs raws
  AreFetched _ _ = ⊥

module _ (V : Backends) (raw_bucket : Str) (tenant_id : Option Uuid) where
  -- The ids of the documents are below the next one.
  abbrev pub IsBelow : Stores V → Type 0
  IsBelow s = All (λ (e : FiledDocument). e.id < s.fresh) s.documents

  -- One ingestion does what the specification says, with the hash of what it fetched.
  one_admitted :
      (f : FilingMetadata) (s s' : Stores V) (outcome : IngestionOutcome)
      → IsBelow s
      → (Skipped V f raw_bucket tenant_id s outcome s'
          ⊎ Ingested V f raw_bucket tenant_id s outcome s')
      → (raw : V.Bytes) × (IsFetched V f raw)
        × (hashes s'.documents ≡ (admit (V.content_hash raw) (hashes s.documents)).0)
        × (outcome.status ≡ (admit (V.content_hash raw) (hashes s.documents)).1)
        × IsBelow s'
  unfolding admit document_of hashes truthy
  one_admitted f s s' outcome below (inl k) =
      let known : contains (hashes s.documents) (V.content_hash k.raw) ≡ true =
        contains-hashes (V.content_hash k.raw) s.documents ∙ ap truthy k.is_known in
      (
        k.raw,
        (k.url, s.world, k.is_url, k.is_fetched),
        rw known (ap hashes k.same_documents),
        rw known (ap (λ (o : IngestionOutcome). o.status) k.is_outcome),
        subst (All (λ (e : FiledDocument). e.id < s'.fresh)) (sym k.same_documents) (
            subst (λ n. All (λ (e : FiledDocument). e.id < n) s.documents) (sym k.same_fresh)
              below),
      )
  one_admitted f s s' outcome below (inr k) =
      let new : contains (hashes s.documents) (V.content_hash k.raw) ≡ false =
        contains-hashes (V.content_hash k.raw) s.documents ∙ ap truthy k.is_new in
      let d = succeeded_at s'.now (new_document V f raw_bucket tenant_id s k.url k.raw) in
      let past = k.filed.later in
      (
        k.raw,
        (k.url, s.world, k.is_url, k.is_fetched),
        rw new (ap hashes k.filed.has_document ∙ hashes-append s.documents (d ∷ [])),
        rw new (ap (λ (o : IngestionOutcome). o.status) k.filed.is_outcome),
        subst (All (λ (e : FiledDocument). e.id < s'.fresh)) (sym k.filed.has_document) (
            All-append _ s.documents (d ∷ [])
              (All-weaken _ _ s.documents (λ e less. omega (arith, less, past)) below)
              (omega (arith, past), tt)),
      )

  -- Ingestion refines the specification, which skips content that is known and adds other content:
  -- where the ids of the documents are below the next one, a sequence of ingestions that returned has
  -- fetched one content for each filing, from its address, and leaves the hashes, and has the
  -- statuses, that the specification gives for the hashes of these contents. The ids stay below the
  -- next one.
  pub Ingests-admit_all :
      (s s' : Stores V) (fs : List FilingMetadata) (outcomes : List IngestionOutcome)
      → IsBelow s
      → Ingests V raw_bucket tenant_id s fs outcomes s'
      → (raws : List V.Bytes) × AreFetched V fs raws
        × (hashes s'.documents ≡ admit_all (map V.content_hash raws) (hashes s.documents))
        × (map (λ (o : IngestionOutcome). o.status) outcomes
            ≡ verdicts (map V.content_hash raws) (hashes s.documents))
        × IsBelow s'
  unfolding admit_all verdicts
  Ingests-admit_all s s' fs outcomes below (done _) = ([], tt, refl, refl, below)
  Ingests-admit_all s s' fs outcomes below (next _ s1 _ f fs' outcome outcomes' run rest) =
      let (raw, fetched, e, status, below1) =
        one_admitted f s s1 outcome below
          (Ensures-ok _ outcome s1 run (ingest_filing-Ingested V f raw_bucket tenant_id s below)) in
      let (raws, fetched', e', statuses, below2) =
        Ingests-admit_all s1 s' fs' outcomes' below1 rest in
      let hs : List Str = map V.content_hash raws in
      (
        raw ∷ raws,
        (fetched, fetched'),
        e' ∙ ap (admit_all hs) e,
        ap (λ t. t ∷ map (λ (o : IngestionOutcome). o.status) outcomes') status
            ∙ ap (◌∷◌ (admit (V.content_hash raw) (hashes s.documents)).1)
                (statuses ∙ ap (verdicts hs) e),
        below2,
      )
