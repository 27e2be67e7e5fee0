-- ===== src/Prompts.antt =====
-- The versioned prompts, tradegraph/src/prompts/schema.py: definitions and rendering. The texts of
-- errors are shortened.
pub mod Rendering
pub mod Loader
use juris_mind_ai.Base.{
  ℕ, Bool, true, false, not, ◌&&◌, ◌||◌, Option, none, some, List, [], ◌∷◌, ◌++◌, ltb, leb,
  if◌then◌else◌, ◌==◌, nat_eq, list_eq, contains, nodup,
}
use juris_mind_ai.Base.Dict
use juris_mind_ai.Base.Dict.{Dict}
use juris_mind_ai.Base.Result.{Result, ok, raised}
use juris_mind_ai.Base.Text.{Str, text as lit, truthy}
use juris_mind_ai.Failure.{Failure, value_error}
use juris_mind_ai.StrFormat.{format}
use juris_mind_ai.Rows.Constraints.{all}

pub record ModelRequirements (Num : Type 0) : Type 0 where
  pub temperature : Num
  pub top_p : Option Num
  pub max_tokens : Option ℕ

pub record PromptDefinition (Num : Type 0) : Type 0 where
  pub name : Str
  pub version : ℕ
  pub description : Str
  pub model_requirements : ModelRequirements Num
  pub variables : List Str
  pub prompt : Str

is_small : ℕ → Bool
is_small c = leb b'a' c && leb c b'z'

is_name_char : ℕ → Bool
unfolding is_small
is_name_char c = is_small c || ((leb b'0' c && leb c b'9') || c == b'_')

-- `[a-z0-9_]*$`, where `$` also stands before a newline at the end.
is_name_rest : Str → Bool
unfolding is_name_char
is_name_rest [] = true
is_name_rest (c ∷ []) = is_name_char c || c == b'\n'
is_name_rest (c ∷ d ∷ s) = is_name_char c && is_name_rest (d ∷ s)

-- `_NAME_PATTERN.match(value)`
unfoldable pub is_name : Str → Bool
unfolding is_small is_name_rest
is_name [] = false
is_name (c ∷ s) = is_small c && is_name_rest s

is_positive : Option ℕ → Bool
is_positive none = true
is_positive (some n) = ltb 0 n

-- What pydantic checks of the name, the version, the texts, `max_tokens` and the variables; the
-- ranges of the floats belong to the reading of a file.
unfoldable pub is_definition : {Num : Type 0} → PromptDefinition Num → Bool
unfolding is_name is_positive truthy nodup
is_definition d =
    is_name d.name
    && (leb 1 d.version
        && (truthy d.description
            && (truthy d.prompt
                && (is_positive d.model_requirements.max_tokens && nodup d.variables))))

-- `xs - ys` is empty.
unfoldable pub all_in : List Str → List Str → Bool
unfolding all contains
all_in xs ys = all (contains ys) xs

unfoldable pub render : {Num : Type 0} → PromptDefinition Num → Dict Str Str → Result Failure Str
unfolding lit
render d variables =
    if all_in d.variables (Dict.keys variables)
    then if all_in (Dict.keys variables) d.variables
      then format variables d.prompt
      else raised (value_error (lit "undeclared variables passed"))
    else raised (value_error (lit "missing required variables"))
