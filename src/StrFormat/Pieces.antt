-- ===== src/StrFormat/Pieces.antt =====
-- A template as text and fields, and what it renders to.
use mathlib.Core.List.{append_assoc, append-nil}
use juris_mind_ai.Base.{Option, sym, ap, none, some}
use juris_mind_ai.StrFormat.{
  at_end, step, Place, opened, closed, close_brace, fill, open_brace, before, in_field, no_brace,
  in_text, format, brace_of, format_from, Brace,
}
use juris_mind_ai.Base.{false, ◌==◌}
use juris_mind_ai.Base.Dict.{Dict}
use juris_mind_ai.Failure.{Failure}
use juris_mind_ai.Base.{refl, some, ◌∙◌, ◌≡◌, [], All, ◌++◌, ◌∷◌, ℕ, List, list_eq, nat_eq}
use juris_mind_ai.Base.Result.{Result, ok}
use juris_mind_ai.Base.Text.{Str}
use juris_mind_ai.Base.Dict

pub data Piece : Type 0 where
  literal : ℕ → Piece
  field : Str → Piece

-- A brace is written twice.
pub escaped : Brace → ℕ → Str
escaped no_brace c = c ∷ []
escaped _ c = c ∷ c ∷ []

-- The template of these pieces.
unfoldable pub print : List Piece → Str
unfolding escaped
print [] = []
print (literal c ∷ ps) = escaped (brace_of c) c ++ print ps
print (field name ∷ ps) = b'{' ∷ (name ++ b'}' ∷ print ps)

opens : brace_of b'{' ≡ open_brace
unfolding brace_of
opens = refl

closes : brace_of b'}' ≡ close_brace
unfolding brace_of
closes = refl

value_or_empty : Option Str → Str
value_or_empty none = []
value_or_empty (some value) = value

pub brace_of-no_brace : (c : ℕ) → (c == b'{') ≡ false → (c == b'}') ≡ false → brace_of c ≡ no_brace
unfolding brace_of
brace_of-no_brace c h h' = rw h (rw h' refl)

module _ (variables : Dict Str Str) where
  -- The values of the fields, as they are, between the text.
  unfoldable pub values_in : List Piece → Str
  unfolding value_or_empty
  values_in [] = []
  values_in (literal c ∷ ps) = c ∷ values_in ps
  values_in (field name ∷ ps) = value_or_empty (Dict.lookup name variables) ++ values_in ps

  -- Each field has a name without braces, and a value.
  abbrev pub IsFilled : Piece → Type 0
  IsFilled (literal c) = Unit
  IsFilled (field []) = ⊥
  IsFilled (field (c ∷ name)) =
      (brace_of c ≡ no_brace)
      × All (λ (c : ℕ). brace_of c ≡ no_brace) name
      × ((value : Str) × (Dict.lookup (c ∷ name) variables ≡ some value))

  format_from-step :
      (place : Place) (c : ℕ) (s : Str) (b : Brace)
      → brace_of c ≡ b
      → format_from variables place (c ∷ s)
        ≡ step variables place b c (λ p. format_from variables p s)
  unfolding format_from
  format_from-step place c s b e =
      ap (λ b. step variables place b c (λ p. format_from variables p s)) e

  -- The rest of a field's name, and the brace behind it.
  format_from-name :
      (name seen rest : Str)
      → All (λ (c : ℕ). brace_of c ≡ no_brace) name
      → format_from variables (in_field seen) (name ++ b'}' ∷ rest)
        ≡ fill (Dict.lookup (seen ++ name) variables) (format_from variables in_text rest)
  unfolding step
  format_from-name [] seen rest h =
      format_from-step (in_field seen) b'}' rest close_brace closes
      ∙ ap (λ n. fill (Dict.lookup n variables) (format_from variables in_text rest))
          (sym (append-nil seen))
  format_from-name (c ∷ name) seen rest (here, h) =
      format_from-step (in_field seen) c (name ++ b'}' ∷ rest) no_brace here
      ∙ format_from-name name (seen ++ c ∷ []) rest h
      ∙ ap (λ n. fill (Dict.lookup n variables) (format_from variables in_text rest))
          (append_assoc seen (c ∷ []) name)

  format_from-literal :
      (c : ℕ) (rest : Str) (b : Brace)
      → brace_of c ≡ b
      → format_from variables in_text (escaped b c ++ rest)
        ≡ before (c ∷ []) (format_from variables in_text rest)
  unfolding escaped step
  format_from-literal c rest open_brace e =
      format_from-step in_text c (c ∷ rest) open_brace e
      ∙ format_from-step opened c rest open_brace e
  format_from-literal c rest close_brace e =
      format_from-step in_text c (c ∷ rest) close_brace e
      ∙ format_from-step closed c rest close_brace e
  format_from-literal c rest no_brace e = format_from-step in_text c rest no_brace e

  field_values :
      (name value : Str) (ps : List Piece)
      → Dict.lookup name variables ≡ some value
      → values_in (field name ∷ ps) ≡ value ++ values_in ps
  unfolding values_in value_or_empty
  field_values name value ps e = ap (λ o. value_or_empty o ++ values_in ps) e

  format_from-nil : format_from variables in_text [] ≡ ok []
  unfolding format_from at_end
  format_from-nil = refl

  before-ok : (s rest : Str) → before s (ok rest) ≡ ok (s ++ rest)
  unfolding before
  before-ok s rest = refl

  fill-some : (value : Str) (rest : Result Failure Str) → fill (some value) rest ≡ before value rest
  unfolding fill
  fill-some value rest = refl

  -- A template is formatted as its text, with each double brace as one brace, and the values of its
  -- fields, which are not read as templates themselves.
  pub format-print :
      (ps : List Piece) → All IsFilled ps → format variables (print ps) ≡ ok (values_in ps)
  unfolding format print values_in step
  format-print [] h = format_from-nil
  format-print (literal c ∷ ps) (_, h) =
      format_from-literal c (print ps) (brace_of c) refl
      ∙ ap (before (c ∷ [])) (format-print ps h)
      ∙ before-ok (c ∷ []) (values_in ps)
  format-print (field [] ∷ ps) (here, h) = absurd here
  format-print (field (c ∷ name) ∷ ps) ((plain, names, (value, found)), h) =
      format_from-step in_text b'{' (c ∷ name ++ b'}' ∷ print ps) open_brace opens
      ∙ format_from-step opened c (name ++ b'}' ∷ print ps) no_brace plain
      ∙ format_from-name name (c ∷ []) (print ps) names
      ∙ ap (λ o. fill o (format_from variables in_text (print ps))) found
      ∙ fill-some value _
      ∙ ap (before value) (format-print ps h)
      ∙ before-ok value (values_in ps)
      ∙ ap ok (sym (field_values (c ∷ name) value ps found))
