-- ===== src/Prompts/Loader/Loaded.antt =====
-- What a loaded repository holds.
use mathlib.Core.Bool.{false}
use mathlib.Core.Path.{subst}
use juris_mind_ai.Base.{arith, if◌then◌else◌}
use juris_mind_ai.Base.Text.{text as lit}
use juris_mind_ai.Rows.Constraints.{all}
use mathlib.Core.Option.{none-ne-some}
use mathlib.Core.List.{[]}
use mathlib.Core.Option.{none}
use juris_mind_ai.Prompts.Loader.{
  prompt_load_error, found_nodes, filename_version, or_key_error, get, load_all, number_of, Entry,
  load_entry, load_entries, checked, load_nodes, some_version, load_node, required_nodes, validated,
  load_file, Repository, add_version,
}
use juris_mind_ai.Prompts.{all, all_in, is_definition, Str, PromptDefinition}
use juris_mind_ai.Base.Result.{bind-ok, ok-injective, raised-ne-ok, ok}
use juris_mind_ai.Base.{
  map, ap, nat_beq_iff, inl, ◌∙◌, sym, [], inr, refl, All, Bool, ◌∷◌, ◌==◌, List, Bool-cases,
  contains, some, true, ◌≡◌, ℕ, Option, list_eq, nat_eq,
}
use juris_mind_ai.Base.Dict
use juris_mind_ai.Base.Dict.{Dict}

module _ {Num Content : Type 0} (read_definition : Content → Option (PromptDefinition Num)) where
  -- A definition that passed the checks, under its own version.
  IsVersion : ℕ → PromptDefinition Num → Type 0
  IsVersion n d = (d.version ≡ n) × (is_definition d ≡ true)

  AreVersions : Dict ℕ (PromptDefinition Num) → Type 0
  AreVersions versions =
      (n : ℕ) (d : PromptDefinition Num) → Dict.lookup n versions ≡ some d → IsVersion n d

  ArePrompts : Repository read_definition → Type 0
  ArePrompts prompts =
      (node : Str) (versions : Dict ℕ (PromptDefinition Num))
      → Dict.lookup node prompts ≡ some versions
      → (contains required_nodes node ≡ true) × AreVersions versions

  checked-is_definition :
      (d0 d : PromptDefinition Num) (b : Bool)
      → is_definition d0 ≡ b
      → checked read_definition d0 b ≡ ok d
      → is_definition d ≡ true
  unfolding checked
  checked-is_definition d0 d true valid h =
      subst (λ x. is_definition x ≡ true) (ok-injective h) valid
  checked-is_definition d0 d false valid h = absurd (raised-ne-ok h)

  validated-is_definition :
      (o : Option (PromptDefinition Num)) (d : PromptDefinition Num)
      → validated read_definition o ≡ ok d
      → is_definition d ≡ true
  unfolding validated
  validated-is_definition none d h = absurd (raised-ne-ok h)
  validated-is_definition (some d0) d h = checked-is_definition d0 d (is_definition d0) refl h

  add_version-AreVersions :
      (n : ℕ) (d : PromptDefinition Num) (versions added : Dict ℕ (PromptDefinition Num))
      → is_definition d ≡ true
      → AreVersions versions
      → add_version read_definition n d versions ≡ ok added
      → AreVersions added
  unfolding add_version AreVersions IsVersion
  add_version-AreVersions n d versions added valid old h = elim (Bool-cases (d.version == n)) [
    | inr other ↦ absurd (
        raised-ne-ok {e = prompt_load_error (lit "filename and version differ")}
          (sym (rw other refl) ∙ h))
    | inl same ↦ elim (Bool-cases (contains (Dict.keys versions) n)) [
      | inl twice ↦ absurd (
          raised-ne-ok {e = prompt_load_error (lit "duplicate version")}
            (sym (rw same (rw twice refl)) ∙ h))
      | inr new ↦
          subst AreVersions {x = Dict.insert n d versions}
            (ok-injective (sym (rw same (rw new refl)) ∙ h))
            (Dict.insert-Holds IsVersion n d versions ((nat_beq_iff d.version n).0 same, valid) old)
    ]
  ]

  load_entry-AreVersions :
      (e : Entry read_definition) (versions added : Dict ℕ (PromptDefinition Num))
      (o : Option Content)
      → AreVersions versions
      → load_entry read_definition e versions o ≡ ok added
      → AreVersions added
  unfolding load_entry load_file
  load_entry-AreVersions e versions added none old h = subst AreVersions (ok-injective h) old
  load_entry-AreVersions e versions added (some content) old h =
      let (n, _, h1) = bind-ok (number_of read_definition (filename_version e.name)) _ added h in
      let (d, read, h2) = bind-ok (load_file read_definition content) _ added h1 in
      add_version-AreVersions n d versions added
        (validated-is_definition (read_definition content) d read) old h2

  load_entries-AreVersions :
      (es : List (Entry read_definition)) (versions added : Dict ℕ (PromptDefinition Num))
      → AreVersions versions
      → load_entries read_definition es versions ≡ ok added
      → AreVersions added
  unfolding load_entries
  load_entries-AreVersions [] versions added old h = subst AreVersions (ok-injective h) old
  load_entries-AreVersions (e ∷ es) versions added old h =
      let (next, here, h1) = bind-ok (load_entry read_definition e versions e.content) _ added h in
      load_entries-AreVersions es next added
        (load_entry-AreVersions e versions next e.content old here) h1

  some_version-same :
      (versions loaded : Dict ℕ (PromptDefinition Num))
      → some_version read_definition versions ≡ ok loaded
      → versions ≡ loaded
  unfolding some_version
  some_version-same [] loaded h = absurd (raised-ne-ok h)
  some_version-same (v ∷ vs) loaded h = ok-injective h

  load_node-AreVersions :
      (es : List (Entry read_definition)) (versions : Dict ℕ (PromptDefinition Num))
      → load_node read_definition es ≡ ok versions
      → AreVersions versions
  unfolding load_node AreVersions
  load_node-AreVersions es versions h =
      let (loaded, here, h1) = bind-ok (load_entries read_definition es []) _ versions h in
      subst AreVersions (some_version-same loaded versions h1) (
        load_entries-AreVersions es [] loaded
          (λ n d e. absurd (none-ne-some d (sym (Dict.lookup-nil n) ∙ e))) here)

  load_nodes-ArePrompts :
      (found : List (Str × List (Entry read_definition)))
      (prompts loaded : Repository read_definition)
      → All (λ (e : Str × List (Entry read_definition)). contains required_nodes e.0 ≡ true) found
      → ArePrompts prompts
      → load_nodes read_definition found prompts ≡ ok loaded
      → ArePrompts loaded
  unfolding load_nodes ArePrompts
  load_nodes-ArePrompts [] prompts loaded required old h = subst ArePrompts (ok-injective h) old
  load_nodes-ArePrompts ((node, es) ∷ rest) prompts loaded (here, required) old h =
      let (versions, read, h1) = bind-ok (load_node read_definition es) _ loaded h in
      load_nodes-ArePrompts rest (Dict.insert node versions prompts) loaded required
        (Dict.insert-Holds
          (λ node versions. (contains required_nodes node ≡ true) × AreVersions versions) node
          versions prompts (here, load_node-AreVersions es versions read) old)
        h1

  all_in-All :
      (found : List (Str × List (Entry read_definition))) (required : List Str)
      → all_in (map (λ e. e.0) found) required ≡ true
      → All (λ (e : Str × List (Entry read_definition)). contains required e.0 ≡ true) found
  unfolding all_in all
  all_in-All [] required h = tt
  all_in-All (e ∷ found) required h =
      (ground (arith, h), all_in-All found required (ground (arith, h)))

  load_all-ArePrompts :
      (require_all_nodes : Bool) (root : Option (List (Str × List (Entry read_definition))))
      (loaded : Repository read_definition)
      → load_all read_definition require_all_nodes root ≡ ok loaded
      → ArePrompts loaded
  unfolding load_all ArePrompts
  load_all-ArePrompts require_all_nodes none loaded h = absurd (raised-ne-ok h)
  load_all-ArePrompts require_all_nodes (some directories) loaded h =
      let found = found_nodes read_definition directories in
      let names : List Str = map (λ e. e.0) found in
      elim (Bool-cases (if require_all_nodes then all_in required_nodes names else true)) [
        | inr missing ↦ absurd (
            raised-ne-ok {e = prompt_load_error (lit "missing required prompt node directories")}
              (sym (rw missing refl) ∙ h))
        | inl there ↦ elim (Bool-cases (all_in names required_nodes)) [
          | inr unexpected ↦ absurd (
              raised-ne-ok {e = prompt_load_error (lit "unexpected prompt node directories")}
                (sym (rw there (rw unexpected refl)) ∙ h))
          | inl expected ↦
              load_nodes-ArePrompts found [] loaded (all_in-All found required_nodes expected)
                (λ node versions e. absurd (none-ne-some versions (sym (Dict.lookup-nil node) ∙ e)))
                (sym (rw there (rw expected refl)) ∙ h)
        ]
      ]

  or_key_error-ok :
      {A : Type 0} (o : Option A) (a : A) → or_key_error read_definition o ≡ ok a → o ≡ some a
  unfolding or_key_error
  or_key_error-ok none a h = absurd (raised-ne-ok h)
  or_key_error-ok (some b) a h = ap some (ok-injective h)

  -- What a repository that was loaded gives for a node and a version is a definition of that version
  -- that passed the checks of its fields, and the node is one of the eight.
  pub load_all-get :
      (require_all_nodes : Bool) (root : Option (List (Str × List (Entry read_definition))))
      (loaded : Repository read_definition) (node : Str) (version : ℕ) (d : PromptDefinition Num)
      → load_all read_definition require_all_nodes root ≡ ok loaded
      → get read_definition node version loaded ≡ ok d
      → (d.version ≡ version) × (is_definition d ≡ true) × (contains required_nodes node ≡ true)
  unfolding get ArePrompts AreVersions IsVersion
  load_all-get require_all_nodes root loaded node version d h h' =
      let (versions, at_node, h1) =
        bind-ok (or_key_error read_definition (Dict.lookup node loaded)) _ d h' in
      let (required, are) =
        load_all-ArePrompts require_all_nodes root loaded h node versions
          (or_key_error-ok _ versions at_node) in
      let (same, valid) = are version d (or_key_error-ok _ d h1) in (same, valid, required)
