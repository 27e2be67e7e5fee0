-- ===== src/Ingestion/Constitution/Known.antt =====
-- A second ingestion of the same bytes of the Constitution.
use juris_mind_ai.Session.Rules.{Ensures-from_result}
use mathlib.Core.Bool.{true≢false}
use juris_mind_ai.Ingestion.Rules.{
  hashes-append, Ensures-new_id, Ensures-call, Ensures-flush, Ensures-set_documents,
}
use juris_mind_ai.Failure.Ensures.{Ensures-weaken, Ensures-bind, Ensures}
use juris_mind_ai.Ingestion.Filing.Stored.{pending_row, unchanged, IsUnfinished}
use juris_mind_ai.Ingestion.Constitution.{
  document_of, ingest_constitution_part, pending, raw_key_of, store_articles, Part,
}
use juris_mind_ai.Ingestion.{
  is_valid, ParsedDocument, put_object, Stores, Failure, FiledDocument, Result, hashes, Backends,
}
use juris_mind_ai.Base.{
  list_beq_iff, contains-append, inr, arith, inl, Bool-cases, ◌∙◌, sym, refl, false, [], ap, ◌∷◌,
  true, ◌++◌, ◌≡◌, contains, List, ℕ, nodup, list_eq, nat_eq,
}
use juris_mind_ai.Base.Text.{Str, text as lit}

nodup-last : (hs : List Str) (h : Str) → contains hs h ≡ true → nodup (hs ++ h ∷ []) ≡ false
unfolding nodup contains
nodup-last [] h known = absurd (true≢false (sym known))
nodup-last (k ∷ hs) h known = elim (Bool-cases (contains hs h)) [
  | inl later ↦ let rest = nodup-last hs h later in ground (arith, rest)
  | inr e ↦
      let last = contains-append hs (h ∷ []) k in
      ground (arith, known, e, last, list_beq_iff k h, list_beq_iff h k)
]

module _ (V : Backends) (page_text : V.Bytes → ℕ → Result Failure Str) (part : Part V.Bytes) where
  -- The bytes were put into the storage, whether or not that raised, and at most a pending row added.
  pub record OnlyPut (s s' : Stores V) : Type 0 where
    pub has_calls :
        s'.calls
        ≡ s.calls
          ++ put_object part.raw_bucket
              (raw_key_of V page_text part (V.content_hash part.pdf_bytes))
              part.pdf_bytes
              (lit "application/pdf")
            ∷ []
    pub is_unfinished : IsUnfinished s.documents s'.documents
    pub same_chunks : s'.chunks ≡ s.chunks

  unstored :
      (s : Stores V) (w : V.World)
      → OnlyPut s (record s {
        world = w;
        calls =
            s.calls
            ++ put_object part.raw_bucket
                (raw_key_of V page_text part (V.content_hash part.pdf_bytes))
                part.pdf_bytes
                (lit "application/pdf")
              ∷ [];
      })
  unstored s w = record { has_calls = refl; is_unfinished = unchanged refl; same_chunks = refl }

  invalid :
      (s : Stores V) (d : FiledDocument)
      → contains (hashes s.documents) d.content_hash ≡ true
      → is_valid (s.documents ++ d ∷ []) s.chunks ≡ false
  unfolding is_valid hashes
  invalid s d known =
      let twice = nodup-last (hashes s.documents) d.content_hash known in
      rw (hashes-append s.documents (d ∷ [])) (rw twice refl)

  store_articles-raises :
      (s : Stores V) (d : FiledDocument) (parsed : ParsedDocument)
      → d.ingestion_status ≡ pending
      → contains (hashes s.documents) d.content_hash ≡ true
      → Ensures
          (store_articles V page_text part d parsed s)
          (λ _ _. ⊥)
          (λ _ s'. s' ≡ record s { documents = s.documents ++ d ∷ [] })
  unfolding store_articles
  store_articles-raises s d parsed new known = Ensures-bind _ _ s (
      Ensures-set_documents V _ s (
        Ensures-bind _ _ _ (
          Ensures-flush V _ (λ valid. absurd (true≢false (sym valid ∙ invalid s d known)))
            (λ _ _. refl))))

  -- Unlike a filing, a Part whose bytes are known is not skipped: where a stored document has the
  -- hash of the bytes, the ingestion of a Part always raises. It has stored the bytes once more by
  -- then, and has added no chunk and at most a row that is still pending.
  pub ingest_constitution_part-raises :
      (s : Stores V)
      → contains (hashes s.documents) (V.content_hash part.pdf_bytes) ≡ true
      → Ensures (ingest_constitution_part V page_text part s) (λ _ _. ⊥) (λ _ s'. OnlyPut s s')
  unfolding ingest_constitution_part document_of
  ingest_constitution_part-raises s known = Ensures-bind _ _ s (
      Ensures-call V _ _ s
        (λ _ w _. Ensures-bind _ _ _ (
          Ensures-from_result _ _
            (λ raw_text. Ensures-bind _ _ _ (
              Ensures-from_result _ _
                (λ part_text. Ensures-bind _ _ _ (
                  Ensures-from_result _ _
                    (λ parsed. Ensures-bind _ _ _ (
                      Ensures-new_id V _ (
                        Ensures-weaken _ (λ _ _ impossible. impossible)
                          (λ _ s' same. record {
                            has_calls = ap (λ (t : Stores V). t.calls) same;
                            is_unfinished =
                                pending_row _ refl (ap (λ (t : Stores V). t.documents) same);
                            same_chunks = ap (λ (t : Stores V). t.chunks) same;
                          })
                          (store_articles-raises _ _ parsed refl known))))
                    (λ _. unstored s w)))
                (λ _. unstored s w)))
            (λ _. unstored s w)))
        (λ _ w. unstored s w))
