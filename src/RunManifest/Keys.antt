-- ===== src/RunManifest/Keys.antt =====
-- Which configurations share a cache key.
use mathlib.Core.List.{[]}
use juris_mind_ai.Base.Numerals.{read-show, show-plain}
use juris_mind_ai.RunManifest.{RunManifest, cache_key_component}
use juris_mind_ai.Base.{
  refl, contains-append, nat_beq_iff, ◌∙◌, sym, arith, ◌∷◌, ◌++◌, drop, ap, false, ℕ, ◌≡◌, contains,
  nat_eq,
}
use mathlib.Core.List.{head-eq_of_cons-eq, tail-eq_of_cons-eq}
use mathlib.Core.Option.{some-injective}
use juris_mind_ai.Base.Text.{show_ℕ, read_ℕ, join, Str, text as lit}

-- Two texts that agree agree before and after the first separator.
cut :
    (c : ℕ) (a b s t : Str)
    → contains a c ≡ false
    → contains b c ≡ false
    → a ++ c ∷ s ≡ b ++ c ∷ t
    → (a ≡ b) × (s ≡ t)
unfolding contains
cut c [] [] s t ha hb e = (refl, tail-eq_of_cons-eq e)
cut c [] (y ∷ b) s t ha hb e =
    let same : c ≡ y = head-eq_of_cons-eq e in absurd (ground (arith, same, hb, nat_beq_iff y c))
cut c (x ∷ a) [] s t ha hb e =
    let same : x ≡ c = head-eq_of_cons-eq e in absurd (ground (arith, same, ha, nat_beq_iff x c))
cut c (x ∷ a) (y ∷ b) s t ha hb e =
    let (parts, rests) =
      cut c a b s t (ground (arith, ha)) (ground (arith, hb)) (tail-eq_of_cons-eq e) in
    let heads : x ≡ y = head-eq_of_cons-eq e in (ap (λ z. z ∷ a) heads ∙ ap (◌∷◌ y) parts, rests)

-- No field has the separator, nor the name of the prompt the colon.
pub record IsPlain (m : RunManifest) : Type 0 where
  pub prompt_name : contains m.prompt_name b':' ≡ false
  pub prompt_name_part : contains m.prompt_name b'|' ≡ false
  pub llm_model : contains m.llm_model b'|' ≡ false
  pub embedding_model : contains m.embedding_model b'|' ≡ false
  pub reranker_model : contains m.reranker_model b'|' ≡ false
  pub retrieval_config_version : contains m.retrieval_config_version b'|' ≡ false

prompt_part : RunManifest → Str
prompt_part m = lit "prompt=" ++ (m.prompt_name ++ (lit ":" ++ show_ℕ m.prompt_version))

prompt_part-plain : (m : RunManifest) → IsPlain m → contains (prompt_part m) b'|' ≡ false
unfolding prompt_part lit contains
prompt_part-plain m p =
    contains-append m.prompt_name (b':' ∷ show_ℕ m.prompt_version) b'|'
    ∙ rw p.prompt_name_part (show-plain m.prompt_version b'|' (omega arith))

-- Manifests without separators in their fields have one cache key only if they agree in the prompt
-- and its version, the three models, and the configurations of retrieval and chunking.
pub cache_key_component-injective :
    (m n : RunManifest)
    → IsPlain m
    → IsPlain n
    → cache_key_component m ≡ cache_key_component n
    → (m.prompt_name ≡ n.prompt_name)
      × (m.prompt_version ≡ n.prompt_version)
      × (m.llm_model ≡ n.llm_model)
      × (m.embedding_model ≡ n.embedding_model)
      × (m.reranker_model ≡ n.reranker_model)
      × (m.retrieval_config_version ≡ n.retrieval_config_version)
      × (m.chunking_config_version ≡ n.chunking_config_version)
unfolding cache_key_component lit join contains prompt_part
cache_key_component-injective m n pm pn e =
    let bar : ℕ = b'|' in
    let (part, e2) =
      cut bar (prompt_part m) (prompt_part n) _ _ (prompt_part-plain m pm) (prompt_part-plain n pn)
        e in
    let (name, version) =
      cut b':' m.prompt_name n.prompt_name _ _ pm.prompt_name pn.prompt_name (ap (drop 7) part) in
    let (llm, e3) =
      cut bar m.llm_model n.llm_model _ _ pm.llm_model pn.llm_model (ap (drop 4) e2) in
    let (embedding, e4) =
      cut bar m.embedding_model n.embedding_model _ _ pm.embedding_model pn.embedding_model
        (ap (drop 10) e3) in
    let (reranker, e5) =
      cut bar m.reranker_model n.reranker_model _ _ pm.reranker_model pn.reranker_model
        (ap (drop 9) e4) in
    let (retrieval, e6) =
      cut bar m.retrieval_config_version n.retrieval_config_version _ _ pm.retrieval_config_version
        pn.retrieval_config_version (ap (drop 10) e5) in
    (
      name,
      some-injective m.prompt_version n.prompt_version
          (sym (read-show m.prompt_version) ∙ ap read_ℕ version ∙ read-show n.prompt_version),
      llm,
      embedding,
      reranker,
      retrieval,
      ap (drop 9) e6,
    )
