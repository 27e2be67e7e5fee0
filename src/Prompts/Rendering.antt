-- ===== src/Prompts/Rendering.antt =====
-- What a prompt renders to.
use mathlib.Core.Path.{subst}
use mathlib.Core.Bool.{true≢false}
use juris_mind_ai.Base.Dict
use juris_mind_ai.Base.Text.{Str}
use juris_mind_ai.Rows.Constraints.{all}
use juris_mind_ai.Prompts.{
  format, ok, value_error, raised, all_in, Failure, render, Result, Dict, PromptDefinition, is_name,
  is_name_char, is_name_rest, is_small,
}
use juris_mind_ai.StrFormat.{brace_of, no_brace}
use juris_mind_ai.StrFormat.Pieces.{
  format-print, values_in, print, field, literal, IsFilled, Piece, brace_of-no_brace,
}
use juris_mind_ai.Base.{
  ap, ◌∙◌, some, sym, ◌⊎◌, arith, true, false, ◌||◌, ◌==◌, refl, ◌≡◌, [], All, ◌∷◌, ℕ, List,
  list_eq, nat_eq, contains, eq_refl, Bool-cases, inl, inr, Bool,
}

is_name_char-plain : (c : ℕ) → (is_name_char c || c == b'\n') ≡ true → brace_of c ≡ no_brace
unfolding is_name_char is_small
is_name_char-plain c h = brace_of-no_brace c (ground arith) (ground arith)

is_name_rest-plain : (s : Str) → is_name_rest s ≡ true → All (λ (c : ℕ). brace_of c ≡ no_brace) s
unfolding is_name_rest
is_name_rest-plain [] h = tt
is_name_rest-plain (c ∷ []) h = (is_name_char-plain c h, tt)
is_name_rest-plain (c ∷ d ∷ s) h =
    (is_name_char-plain c (ground (arith, h)), is_name_rest-plain (d ∷ s) (ground (arith, h)))

is_name-plain :
    (c : ℕ) (s : Str)
    → is_name (c ∷ s) ≡ true
    → (brace_of c ≡ no_brace) × All (λ (c : ℕ). brace_of c ≡ no_brace) s
unfolding is_name is_name_char
is_name-plain c s h =
    (is_name_char-plain c (ground (arith, h)), is_name_rest-plain s (ground (arith, h)))

is_name-nil : is_name [] ≡ false
unfolding is_name
is_name-nil = refl

-- Either `p` holds of each, or there is one that it does not hold of.
all-cases :
    (p : Str → Bool) (xs : List Str)
    → ((all p xs ≡ true) × All (λ (x : Str). p x ≡ true) xs)
      ⊎ ((all p xs ≡ false) × ((x : Str) × (contains xs x ≡ true) × (p x ≡ false)))
unfolding all contains
all-cases p [] = inl (refl, tt)
all-cases p (x ∷ xs) = elim (Bool-cases (p x)) [
  | inl e ↦ elim (all-cases p xs) [
    | inl (h, each) ↦ inl (rw e h, (e, each))
    | inr (h, (y, found, fails)) ↦ inr (rw e h, (y, ground (arith, found), fails))
  ]
  | inr e ↦ inr (rw e refl, (x, rw (eq_refl x) refl, e))
]

contains-All : (P : Str → Type 0) (xs : List Str) (a : Str) → All P xs → contains xs a ≡ true → P a
unfolding contains
contains-All P [] a h found = absurd (true≢false (sym found))
contains-All P (x ∷ xs) a (here, h) found = elim (Bool-cases (x == a)) [
  | inl e ↦ subst P ((list_eq.beq_iff x a).0 e) here
  | inr e ↦ contains-All P xs a h (sym (rw e refl) ∙ found)
]

Bool-same : (x y : Bool) → (x ≡ true → y ≡ true) → (y ≡ true → x ≡ true) → x ≡ y
Bool-same x true h h' = h' refl
Bool-same true false h h' = sym (h refl)
Bool-same false false h h' = refl

contains-keys :
    (variables : Dict Str Str) (name : Str)
    → contains (Dict.keys variables) name ≡ true
    → (value : Str) × (Dict.lookup name variables ≡ some value)
unfolding contains Dict.lookup
contains-keys [] name found = absurd (true≢false (sym found))
contains-keys ((j, v) ∷ variables) name found = elim (Bool-cases (j == name)) [
  | inl e ↦ (v, rw e refl)
  | inr e ↦
      let (value, h) = contains-keys variables name (sym (rw e refl) ∙ found) in (value, rw e h)
]

-- The field is a declared variable, with a name of small letters, digits and underscores, a letter
-- first.
abbrev pub IsDeclared : List Str → Piece → Type 0
IsDeclared declared (literal c) = Unit
IsDeclared declared (field name) = (is_name name ≡ true) × (contains declared name ≡ true)

module _ (declared : List Str) (variables : Dict Str Str) where
  IsDeclared-IsFilled :
      (ps : List Piece)
      → ((name : Str) → contains declared name ≡ contains (Dict.keys variables) name)
      → All (IsDeclared declared) ps
      → All (IsFilled variables) ps
  IsDeclared-IsFilled [] same h = tt
  IsDeclared-IsFilled (literal c ∷ ps) same (_, h) = (tt, IsDeclared-IsFilled ps same h)
  IsDeclared-IsFilled (field [] ∷ ps) same ((named, _), h) =
      absurd (true≢false (sym named ∙ is_name-nil))
  IsDeclared-IsFilled (field (c ∷ name) ∷ ps) same ((named, found), h) =
      let (plain, names) = is_name-plain c name named in
      (
        (plain, names, contains-keys variables (c ∷ name) (sym (same (c ∷ name)) ∙ found)),
        IsDeclared-IsFilled ps same h,
      )

  -- What comes of a template of these pieces: an error for a declared variable that is not given or
  -- for a given one that is not declared, or the text with the values of the fields.
  pub data Rendering (ps : List Piece) : Result Failure Str → Type 0 where
    missing :
        (name m : Str)
        → contains declared name ≡ true
        → contains (Dict.keys variables) name ≡ false
        → Rendering ps (raised (value_error m))
    undeclared :
        (name m : Str)
        → contains (Dict.keys variables) name ≡ true
        → contains declared name ≡ false
        → Rendering ps (raised (value_error m))
    filled :
        ((name : Str) → contains declared name ≡ contains (Dict.keys variables) name)
        → Rendering ps (ok (values_in variables ps))

module _ {Num : Type 0} (d : PromptDefinition Num) (variables : Dict Str Str) where
  -- A prompt whose template has only its declared variables as fields renders, if just these are
  -- given, to its text, with each double brace as one brace, and the values, which are not read as
  -- templates themselves. It raises a ValueError only where a declared variable is not given or a
  -- given one is not declared.
  pub render-Rendering :
      (ps : List Piece)
      → d.prompt ≡ print ps
      → All (IsDeclared d.variables) ps
      → Rendering d.variables variables ps (render d variables)
  unfolding render all_in
  render-Rendering ps printed fields =
      let keys = Dict.keys variables in
      elim (all-cases (contains keys) d.variables) [
        | inr (e, (name, found, absent)) ↦ rw e (missing name _ found absent)
        | inl (e, given) ↦ elim (all-cases (contains d.variables) keys) [
          | inr (e', (name, found, absent)) ↦ rw (e, e') (undeclared name _ found absent)
          | inl (e', known) ↦
              let same : (name : Str) → contains d.variables name ≡ contains keys name = λ name.
                Bool-same _ _ (contains-All _ d.variables name given)
                  (contains-All _ keys name known) in
              rw (e, e')
                (subst (Rendering d.variables variables ps)
                  (sym (
                    ap (format variables) printed
                    ∙ format-print variables ps
                        (IsDeclared-IsFilled d.variables variables ps same fields)))
                  (filled same))
        ]
      ]
