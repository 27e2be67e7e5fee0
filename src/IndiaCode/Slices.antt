-- ===== src/IndiaCode/Slices.antt =====
-- What a slice of the text holds.
use Prim.Native.Nat.{zero}
use mathlib.Core.Bool.{true≢false}
use mathlib.Core.Option.{none-ne-some, some-injective}
use mathlib.Core.Path.{subst}
use mathlib.Core.List.{[]}
use juris_mind_ai.IndiaCode.{
  text_between, find_end, slice_between_markers, Failure, find, find_from, starts_with,
}
use juris_mind_ai.Base.{
  ◌-◌, Option-cases, ◌⊎◌, nat_beq_iff, take-append-drop, ◌==◌, ◌∙◌, ap, length-take, none,
  drop-drop, sym, take, refl, suc, arith, inr, inl, Bool-cases, length, ◌∷◌, false, ◌≤◌, ◌<◌, ◌+◌,
  ◌++◌, some, true, drop, ◌≡◌, ℕ, nat_eq,
}
use juris_mind_ai.Base.Text.{Str}
use juris_mind_ai.Base.Result.{Result, ok, raised}

starts_with-append : (p s : Str) → starts_with p s ≡ true → (rest : Str) × (s ≡ p ++ rest)
unfolding starts_with
starts_with-append [] s h = (s, refl)
starts_with-append (c ∷ p) [] h = absurd (true≢false (sym h))
starts_with-append (c ∷ p) (d ∷ s) h = elim (Bool-cases (c == d)) [
  | inl e ↦
      let (rest, same) = starts_with-append p s (sym (rw e refl) ∙ h) in
      let head : c ≡ d = (nat_beq_iff c d).0 e in
      (rest, ap (λ b. b ∷ s) (sym head) ∙ ap (◌∷◌ c) same)
  | inr e ↦ absurd (true≢false (sym (sym (rw e refl) ∙ h)))
]

-- The needle stands at the place that was found, and at none before it.
abbrev pub IsFirst : Str → Str → ℕ → Type 0
IsFirst needle s i =
    (starts_with needle (drop i s) ≡ true)
    × ((j : ℕ) → j < i → starts_with needle (drop j s) ≡ false)

not_before :
    (needle : Str) (c : ℕ) (s : Str) (i : ℕ)
    → starts_with needle (c ∷ s) ≡ false
    → ((j : ℕ) → j < i → starts_with needle (drop j s) ≡ false)
    → (j : ℕ) → j < suc i
    → starts_with needle (drop j (c ∷ s)) ≡ false
not_before needle c s i here before zero less = here
not_before needle c s i here before (suc j) less = before j (omega (arith, less))

find_from-IsFirst :
    (needle : Str) (at : ℕ) (s : Str) (found : ℕ)
    → find_from needle at s ≡ some found
    → (i : ℕ) × (found ≡ at + i) × (i ≤ length s) × IsFirst needle s i
unfolding find_from
find_from-IsFirst needle at [] found h = elim (Bool-cases (starts_with needle [])) [
  | inl e ↦ (
    0,
    omega (arith, some-injective at found (sym (rw e refl) ∙ h)),
    omega arith,
    (e, λ j less. absurd (omega (arith, less))),
  )
  | inr e ↦ absurd (none-ne-some found (sym (rw e refl) ∙ h))
]
find_from-IsFirst needle at (c ∷ s) found h = elim (Bool-cases (starts_with needle (c ∷ s))) [
  | inl e ↦ (
    0,
    omega (arith, some-injective at found (sym (rw e refl) ∙ h)),
    omega arith,
    (e, λ j less. absurd (omega (arith, less))),
  )
  | inr e ↦
      let (i, place, within, (here, before)) =
        find_from-IsFirst needle (suc at) s found (sym (rw e refl) ∙ h) in
      (suc i, omega (arith, place), omega (arith, within), (here, not_before needle c s i e before))
]

-- The slice `out` of `s`, with what stands before its start marker and after the end marker. Both
-- markers stand at their first place, the end marker's after the start marker.
pub record IsSlice (s start_marker end_marker out : Str) : Type 0 where
  pub before : Str
  pub body : Str
  pub after : Str
  pub whole : s ≡ before ++ (start_marker ++ (body ++ (end_marker ++ after)))
  pub is_out : out ≡ start_marker ++ body
  pub first_start : IsFirst start_marker s (length before)
  pub first_end : IsFirst end_marker (body ++ (end_marker ++ after)) (length body)

drop-length-append : (p s : Str) → drop (length p) (p ++ s) ≡ s
drop-length-append [] s = refl
drop-length-append (c ∷ p) s = drop-length-append p s

take-append : (p s : Str) (n : ℕ) → take (length p + n) (p ++ s) ≡ p ++ take n s
take-append [] s n = ap (λ k. take k s) (omega arith)
take-append (c ∷ p) s n =
    let e : suc (length p) + n ≡ suc (length p + n) = omega arith in
    rw e (ap (◌∷◌ c) (take-append p s n))

length-take-le : (n : ℕ) (s : Str) → n ≤ length s → length (take n s) ≡ n
length-take-le n s h = omega (arith, length-take n s, h)

-- What is found from `n` on.
found_from :
    (needle s : Str) (n found : ℕ)
    → find s needle n ≡ some found
    → (i : ℕ) × (found ≡ n + i) × (i ≤ length (drop n s)) × IsFirst needle (drop n s) i
unfolding find
found_from needle s n found h = find_from-IsFirst needle n (drop n s) found h

-- The slice from `start`, where the end marker comes `i` characters after the start marker.
text_between-IsSlice :
    (s start_marker end_marker : Str) (start i : ℕ)
    → start ≤ length s
    → IsFirst start_marker s start
    → i ≤ length (drop (start + length start_marker) s)
    → IsFirst end_marker (drop (start + length start_marker) s) i
    → IsSlice s start_marker end_marker (take (length start_marker + i) (drop start s))
text_between-IsSlice s start_marker end_marker start i inside first within first' =
    let (rest, begins) = starts_with-append start_marker (drop start s) first.0 in
    let left : drop (start + length start_marker) s ≡ rest =
      sym (drop-drop (length start_marker) start s)
      ∙ ap (drop (length start_marker)) begins
      ∙ drop-length-append start_marker rest in
    let within_rest : i ≤ length rest = subst (λ r. i ≤ length r) left within in
    let first_rest : IsFirst end_marker rest i = subst (λ r. IsFirst end_marker r i) left first' in
    let (after, ends) = starts_with-append end_marker (drop i rest) first_rest.0 in
    let split_rest : rest ≡ take i rest ++ (end_marker ++ after) =
      sym (take-append-drop i rest) ∙ ap (◌++◌ (take i rest)) ends in
    record {
      before = take start s;
      body = take i rest;
      after = after;
      whole =
          sym (take-append-drop start s)
          ∙ ap (◌++◌ (take start s)) (begins ∙ ap (◌++◌ start_marker) split_rest);
      is_out = ap (take (length start_marker + i)) begins ∙ take-append start_marker rest i;
      first_start = subst (IsFirst start_marker s) (sym (length-take-le start s inside)) first;
      first_end =
          subst (IsFirst end_marker (take i rest ++ (end_marker ++ after)))
            (sym (length-take-le i rest within_rest))
            (subst (λ r. IsFirst end_marker r i) split_rest first_rest);
    }

-- What the slice of a text is, or that a marker is missing: the start marker anywhere, or the end
-- marker after the first start marker.
abbrev pub IsSliceOf : Str → Str → Str → Result Failure Str → Type 0
IsSliceOf s start_marker end_marker (ok out) = IsSlice s start_marker end_marker out
IsSliceOf s start_marker end_marker (raised e) =
    (find s start_marker 0 ≡ none)
    ⊎ ((start : ℕ) × (find s start_marker 0 ≡ some start)
        × (find s end_marker (start + length start_marker) ≡ none))

-- `slice_between_markers` returns the text from the first start marker up to the first end marker
-- after it, without the end marker, or it raises because there is no start marker, or no end
-- marker after the first start marker.
pub slice_between_markers-IsSliceOf :
    (s start_marker end_marker : Str)
    → IsSliceOf s start_marker end_marker (slice_between_markers s start_marker end_marker)
unfolding slice_between_markers find_end text_between
slice_between_markers-IsSliceOf s start_marker end_marker =
    elim (Option-cases (find s start_marker 0)) [
      | inl missing ↦ rw missing (inl missing)
      | inr (start, found) ↦ elim (Option-cases (find s end_marker (start + length start_marker))) [
        | inl missing ↦ rw found (rw missing (inr (start, found, missing)))
        | inr (end, found') ↦
            let (i, e, inside, first) = found_from start_marker s 0 start found in
            let (j, e', within, first') =
              found_from end_marker s (start + length start_marker) end found' in
            rw found (
              rw found' (
                let same : end - start ≡ length start_marker + j = omega (arith, e') in
                let zero_plus : i ≡ start = omega (arith, e) in
                rw same (
                  text_between-IsSlice s start_marker end_marker start j
                    (subst (λ k. k ≤ length s) zero_plus inside)
                    (subst (IsFirst start_marker s) zero_plus first) within first')))
      ]
    ]
