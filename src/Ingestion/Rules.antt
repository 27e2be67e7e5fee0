-- ===== src/Ingestion/Rules.antt =====
-- What the steps of an ingestion ensure.
use mathlib.Core.Path.{◌≡◌, refl}
use juris_mind_ai.Base.{ap, suc, Bool, true, false, List, [], ◌∷◌, ◌++◌}
use juris_mind_ai.Base.Result.{Result, ok, raised}
use juris_mind_ai.Base.Text.{text as lit}
use juris_mind_ai.Failure.{Failure, raise, integrity_error}
use juris_mind_ai.Failure.Ensures.{Ensures}
use juris_mind_ai.Ingestion.{
  hashes, Backends, Stores, Call, call, new_id, set_documents, add_chunks, flush, flush_with,
  is_valid, FiledDocument, IndexedChunk,
}
use juris_mind_ai.Rows.{Uuid}

module _ {S A : Type 0} {Q : A → S → Type 0} {E : Failure → S → Type 0} where
  pub Ensures-raise : (e : Failure) (s : S) → E e s → Ensures (raise e s) Q E
  unfolding raise
  Ensures-raise e s h = record { case = h }

module _ (V : Backends) where
  open V use {World, Bytes, Num}

  -- A service may answer anything, raise anything and do anything to the world; the call is logged
  -- either way.
  pub Ensures-call :
      {A : Type 0} {Q : A → Stores V → Type 0} {E : Failure → Stores V → Type 0}
      (c : Call Bytes Num) (f : World → Result Failure A × World) (s : Stores V)
      → ((a : A) (w : World)
          → (f s.world).0 ≡ ok a
          → Q a (record s { world = w; calls = s.calls ++ c ∷ [] }))
      → ((e : Failure) (w : World) → E e (record s { world = w; calls = s.calls ++ c ∷ [] }))
      → Ensures (call V c f s) Q E
  unfolding call
  Ensures-call {A} {Q} {E} c f s q e = from (f s.world) refl
    where
      from :
          (r : Result Failure A × World)
          → (f s.world).0 ≡ r.0
          → Ensures (r.0, record s { world = r.1; calls = s.calls ++ c ∷ [] }) Q E
      from (ok a, w) same = record { case = q a w same }
      from (raised x, w) same = record { case = e x w }

  pub Ensures-new_id :
      {Q : Uuid → Stores V → Type 0} {E : Failure → Stores V → Type 0} (s : Stores V)
      → Q s.fresh (record s { fresh = suc s.fresh })
      → Ensures (new_id V s) Q E
  unfolding new_id
  Ensures-new_id s h = record { case = h }

  module _ {Q : Unit {0} → Stores V → Type 0} {E : Failure → Stores V → Type 0} where
    pub Ensures-set_documents :
        (f : List FiledDocument → List FiledDocument) (s : Stores V)
        → Q tt (record s { documents = f s.documents })
        → Ensures (set_documents V f s) Q E
    unfolding set_documents
    Ensures-set_documents f s h = record { case = h }

    pub Ensures-add_chunks :
        (rows : List IndexedChunk) (s : Stores V)
        → Q tt (record s { chunks = s.chunks ++ rows })
        → Ensures (add_chunks V rows s) Q E
    unfolding add_chunks
    Ensures-add_chunks rows s h = record { case = h }

    pub Ensures-flush :
        (s : Stores V)
        → (is_valid s.documents s.chunks ≡ true → Q tt s)
        → ((e : Failure) → is_valid s.documents s.chunks ≡ false → E e s)
        → Ensures (flush V s) Q E
    unfolding flush flush_with
    Ensures-flush s q e = from (is_valid s.documents s.chunks) q e
      where
        from :
            (b : Bool)
            → (b ≡ true → Q tt s)
            → ((e : Failure) → b ≡ false → E e s)
            → Ensures (flush_with V b s) Q E
        from true q e = record { case = q refl }
        from false q e = record { case = e (integrity_error (lit "constraint violated")) refl }

pub hashes-append : (ds es : List FiledDocument) → hashes (ds ++ es) ≡ hashes ds ++ hashes es
unfolding hashes
hashes-append [] es = refl
hashes-append (d ∷ ds) es = ap (◌∷◌ d.content_hash) (hashes-append ds es)
