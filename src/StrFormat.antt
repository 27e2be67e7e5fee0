-- ===== src/StrFormat.antt =====
-- What the prompts use of Python's `str.format`: templates whose fields are names. The texts of
-- errors are shortened.
pub mod Pieces
use juris_mind_ai.Base.{
  ℕ, Bool, true, false, Option, none, some, List, [], ◌∷◌, ◌++◌, if◌then◌else◌, ◌==◌, nat_eq,
  list_eq,
}
use juris_mind_ai.Base.Dict
use juris_mind_ai.Base.Dict.{Dict}
use juris_mind_ai.Base.Result.{Result, ok, raised}
use juris_mind_ai.Base.Text.{Str, text as lit}
use juris_mind_ai.Failure.{Failure, value_error, key_error, index_error}

-- The place in a template of `str.format`: in the text, behind a brace, or in a field's name.
pub data Place : Type 0 where
  in_text opened closed : Place
  in_field : Str → Place

pub data Brace : Type 0 where
  open_brace close_brace no_brace : Brace

unfoldable pub brace_of : ℕ → Brace
brace_of c = if c == b'{' then open_brace else if c == b'}' then close_brace else no_brace

unfoldable pub before : Str → Result Failure Str → Result Failure Str
before s (ok rest) = ok (s ++ rest)
before s (raised e) = raised e

unfoldable pub fill : Option Str → Result Failure Str → Result Failure Str
unfolding lit
fill none rest = raised (key_error (lit "missing field"))
fill (some value) rest = before value rest

-- The end of the template.
unfoldable pub at_end : Place → Result Failure Str
unfolding lit
at_end in_text = ok []
at_end opened = raised (value_error (lit "Single '{' encountered in format string"))
at_end closed = raised (value_error (lit "Single '}' encountered in format string"))
at_end (in_field name) = raised (value_error (lit "expected '}' before end of string"))

module _ (variables : Dict Str Str) where
  -- A character at a place, and `next`, which formats the rest from a place on.
  unfoldable pub step : Place → Brace → ℕ → (Place → Result Failure Str) → Result Failure Str
  unfolding lit
  step in_text open_brace c next = next opened
  step in_text close_brace c next = next closed
  step in_text no_brace c next = before (c ∷ []) (next in_text)
  step opened open_brace c next = before (c ∷ []) (next in_text)
  step opened close_brace c next = raised (index_error (lit "Replacement index 0 out of range"))
  step opened no_brace c next = next (in_field (c ∷ []))
  step closed close_brace c next = before (c ∷ []) (next in_text)
  step closed _ c next = raised (value_error (lit "Single '}' encountered in format string"))
  step (in_field name) open_brace c next = raised (value_error (lit "unexpected '{' in field name"))
  step (in_field name) close_brace c next = fill (Dict.lookup name variables) (next in_text)
  step (in_field name) no_brace c next = next (in_field (name ++ c ∷ []))

  -- `prompt.format(**kwargs)`, where fields are names: conversions, formats, attributes and indices
  -- are not among them.
  unfoldable pub format_from : Place → Str → Result Failure Str
  format_from place [] = at_end place
  format_from place (c ∷ s) = step place (brace_of c) c (λ p. format_from p s)

-- `prompt.format(**variables)`
unfoldable pub format : Dict Str Str → Str → Result Failure Str
format variables template = format_from variables in_text template
