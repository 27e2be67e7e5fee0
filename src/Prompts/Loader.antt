-- ===== src/Prompts/Loader.antt =====
-- The prompt repository, tradegraph/src/prompts/loader.py. The directory is a list of its entries, in
-- the order of their names; the reading of a file by YAML and pydantic's field types, with the ranges
-- of floats, is a parameter.
pub mod Loaded
use juris_mind_ai.Base.{
  ℕ, Bool, true, false, not, Option, none, some, List, [], ◌∷◌, ltb, if◌then◌else◌, ◌==◌, nat_eq,
  list_eq, contains, map, max,
}
use juris_mind_ai.Base.Dict
use juris_mind_ai.Base.Dict.{Dict}
use juris_mind_ai.Base.Result.{Result, ok, raised, ◌>>=◌}
use juris_mind_ai.Base.Text.{Str, text as lit, split, read_ℕ}
use juris_mind_ai.Failure.{Failure, other_error, key_error}
use juris_mind_ai.Prompts.{PromptDefinition, is_definition, all_in}

abbrev pub required_nodes : List Str
unfolding lit
required_nodes =
    lit "planner"
    ∷ lit "query_rewriter"
    ∷ lit "evidence_extractor"
    ∷ lit "verifier"
    ∷ lit "contradiction"
    ∷ lit "synthesizer"
    ∷ lit "critic"
    ∷ lit "citation_validator"
    ∷ []

-- `PromptLoadError`
abbrev pub prompt_load_error : Str → Failure
prompt_load_error = other_error

version_parts : List Str → Option ℕ
unfolding lit contains read_ℕ
version_parts (digits ∷ extension ∷ []) =
    if contains (lit "yaml" ∷ lit "yml" ∷ lit "yaml\n" ∷ lit "yml\n" ∷ []) extension
    then read_ℕ digits
    else none
version_parts _ = none

-- `_VERSION_FILENAME_PATTERN.match(name)`, for its number; `$` also stands before a newline at the
-- end.
unfoldable pub filename_version : Str → Option ℕ
unfolding version_parts split
filename_version [] = none
filename_version (c ∷ s) = if c == b'v' then version_parts (split b'.' s) else none

is_dunder : Str → Bool
is_dunder (a ∷ b ∷ s) = if a == b'_' then b == b'_' else false
is_dunder _ = false

module _ {Num Content : Type 0} (read_definition : Content → Option (PromptDefinition Num)) where
  -- An entry of a node's directory; a directory has no content.
  pub record Entry : Type 0 where
    pub name : Str
    pub content : Option Content

  checked : PromptDefinition Num → Bool → Result Failure (PromptDefinition Num)
  unfolding lit
  checked d true = ok d
  checked d false = raised (prompt_load_error (lit "invalid definition"))

  validated : Option (PromptDefinition Num) → Result Failure (PromptDefinition Num)
  unfolding lit checked is_definition
  validated none = raised (prompt_load_error (lit "invalid YAML"))
  validated (some d) = checked d (is_definition d)

  pub load_file : Content → Result Failure (PromptDefinition Num)
  unfolding validated
  load_file content = validated (read_definition content)

  number_of : Option ℕ → Result Failure ℕ
  unfolding lit
  number_of none = raised (prompt_load_error (lit "filename must match 'vN.yaml'"))
  number_of (some n) = ok n

  -- `versions[filename_version] = definition` behind its two checks.
  pub add_version :
      ℕ
      → PromptDefinition Num
      → Dict ℕ (PromptDefinition Num)
      → Result Failure (Dict ℕ (PromptDefinition Num))
  unfolding lit contains Dict.insert
  add_version n d versions =
      if d.version == n
      then if contains (Dict.keys versions) n
        then raised (prompt_load_error (lit "duplicate version"))
        else ok (Dict.insert n d versions)
      else raised (prompt_load_error (lit "filename and version differ"))

  pub load_entry :
      Entry
      → Dict ℕ (PromptDefinition Num)
      → Option Content
      → Result Failure (Dict ℕ (PromptDefinition Num))
  unfolding number_of filename_version load_file add_version
  load_entry e versions none = ok versions
  load_entry e versions (some content) = do
    n ← number_of (filename_version e.name)
    d ← load_file content
    add_version n d versions

  -- The loop over the files of a node.
  pub load_entries :
      List Entry → Dict ℕ (PromptDefinition Num) → Result Failure (Dict ℕ (PromptDefinition Num))
  unfolding load_entry
  load_entries [] versions = ok versions
  load_entries (e ∷ es) versions = do added ← load_entry e versions e.content; load_entries es added

  some_version : Dict ℕ (PromptDefinition Num) → Result Failure (Dict ℕ (PromptDefinition Num))
  unfolding lit
  some_version [] = raised (prompt_load_error (lit "no prompt versions found"))
  some_version (v ∷ vs) = ok (v ∷ vs)

  unfoldable pub load_node : List Entry → Result Failure (Dict ℕ (PromptDefinition Num))
  unfolding load_entries some_version
  load_node es = do versions ← load_entries es []; some_version versions

  abbrev pub Repository : Type 0
  Repository = Dict Str (Dict ℕ (PromptDefinition Num))

  -- `for node in sorted(found_nodes): self._load_node(node)`
  pub load_nodes : List (Str × List Entry) → Repository → Result Failure Repository
  unfolding load_node Dict.insert
  load_nodes [] prompts = ok prompts
  load_nodes ((node, es) ∷ rest) prompts = do
    versions ← load_node es
    load_nodes rest (Dict.insert node versions prompts)

  pub found_nodes : List (Str × List Entry) → List (Str × List Entry)
  unfolding is_dunder
  found_nodes [] = []
  found_nodes ((node, es) ∷ rest) =
      let others = found_nodes rest in if is_dunder node then others else (node, es) ∷ others

  unfoldable pub load_all : Bool → Option (List (Str × List Entry)) → Result Failure Repository
  unfolding lit all_in load_nodes found_nodes
  load_all require_all_nodes none = raised (prompt_load_error (lit "prompt root does not exist"))
  load_all require_all_nodes (some directories) =
      let found = found_nodes directories in
      let names = map (λ e. e.0) found in
      if (if require_all_nodes then all_in required_nodes names else true)
      then if all_in names required_nodes
        then load_nodes found []
        else raised (prompt_load_error (lit "unexpected prompt node directories"))
      else raised (prompt_load_error (lit "missing required prompt node directories"))

  or_key_error : {A : Type 0} → Option A → Result Failure A
  unfolding lit
  or_key_error none = raised (key_error (lit "no prompt"))
  or_key_error (some a) = ok a

  unfoldable pub get : Str → ℕ → Repository → Result Failure (PromptDefinition Num)
  unfolding or_key_error Dict.lookup
  get node version prompts = do
    versions ← or_key_error (Dict.lookup node prompts)
    or_key_error (Dict.lookup version versions)
