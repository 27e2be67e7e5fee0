-- ===== src/Base/Numerals.antt =====
-- A decimal numeral reads as the number that it shows.
use Prim.Native.Nat.{ℕ, zero, suc, ◌+◌, ◌-◌, ◌*◌, ◌/◌, ◌%◌, ◌≤◌, ◌<◌}
use mathlib.Core.Path.{◌≡◌, refl, ap, ◌∙◌}
use mathlib.Core.Logic.{inl, inr}
use mathlib.Core.Bool.{true, false}
use mathlib.Core.Option.{some, none-ne-some}
use mathlib.Core.List.{[], ◌∷◌, ◌++◌}
use native.Mathlib.Omega.{arith}
use juris_mind_ai.Base.Tests.{leb, ltb, ltb→lt, Bool-cases}
use juris_mind_ai.Base.Equality.{contains, nat_eq, nat_beq, nat_beq_of_ne}
use juris_mind_ai.Base.Text.{Str, digits_onto, show_ℕ, read_onto, read_ℕ, zeros, zfill}

read_onto-digit :
    (m n : ℕ) (s : Str) → n < 10 → read_onto m ((48 + n) ∷ s) ≡ read_onto (m * 10 + n) s
unfolding read_onto
read_onto-digit m n s small =
    let low : leb 48 (48 + n) ≡ true = ground arith in
    let high : leb (48 + n) 57 ≡ true = ground (arith, small) in
    let value : 48 + n - 48 ≡ n = omega arith in rw low (rw high (rw value refl))

one_digit :
    (fuel n : ℕ) (rest : Str) → n < 10 → read_ℕ (digits_onto (suc fuel) n rest) ≡ read_onto n rest
unfolding read_ℕ digits_onto
one_digit fuel n rest less =
    let small : ltb n 10 ≡ true = ground (arith, less) in
    let value : 0 * 10 + n % 10 ≡ n = omega (arith, less) in
    rw small (read_onto-digit 0 (n % 10) rest (omega arith) ∙ ap (λ k. read_onto k rest) value)

-- The digits of `n` in front of `rest`, where there are rounds enough.
read-digits_onto :
    (fuel n : ℕ) (rest : Str) → n ≤ fuel → read_ℕ (digits_onto (suc fuel) n rest) ≡ read_onto n rest
unfolding digits_onto
read-digits_onto zero n rest enough = one_digit zero n rest (omega (arith, enough))
read-digits_onto (suc fuel) n rest enough = elim (Bool-cases (ltb n 10)) [
  | inl small ↦ one_digit (suc fuel) n rest (ltb→lt n 10 small)
  | inr big ↦
      let many : 10 ≤ n = ground (arith, big) in
      let value : n / 10 * 10 + n % 10 ≡ n = omega arith in
      rw big (
        read-digits_onto fuel (n / 10) ((48 + n % 10) ∷ rest) (omega (arith, many, enough))
        ∙ read_onto-digit (n / 10) (n % 10) rest (omega arith)
        ∙ ap (λ k. read_onto k rest) value)
]

pub read-show : (n : ℕ) → read_ℕ (show_ℕ n) ≡ some n
unfolding show_ℕ read_onto
read-show n = read-digits_onto n n [] (omega arith)

read_onto-zeros : (k : ℕ) (s : Str) → read_onto 0 (zeros k ++ s) ≡ read_onto 0 s
unfolding zeros
read_onto-zeros zero s = refl
read_onto-zeros (suc k) s = read_onto-digit 0 0 (zeros k ++ s) (omega arith) ∙ read_onto-zeros k s

read-zeros : (k : ℕ) (s : Str) (n : ℕ) → read_ℕ s ≡ some n → read_ℕ (zeros k ++ s) ≡ some n
unfolding read_ℕ zeros
read-zeros k [] n h = absurd (none-ne-some n h)
read-zeros zero (c ∷ s) n h = h
read-zeros (suc k) (c ∷ s) n h =
    read_onto-digit 0 0 (zeros k ++ c ∷ s) (omega arith) ∙ read_onto-zeros k (c ∷ s) ∙ h

-- Zeros in front do not change what is read.
pub read-zfill : (width : ℕ) (s : Str) (n : ℕ) → read_ℕ s ≡ some n → read_ℕ (zfill width s) ≡ some n
unfolding zfill
read-zfill width s n h = read-zeros _ s n h

digits_onto-plain :
    (fuel n c : ℕ) (rest : Str)
    → 58 ≤ c
    → contains rest c ≡ false
    → contains (digits_onto fuel n rest) c ≡ false
unfolding digits_onto contains
digits_onto-plain zero n c rest high h = h
digits_onto-plain (suc fuel) n c rest high h =
    let other : nat_beq (48 + n % 10) c ≡ false = nat_beq_of_ne _ c (λ e. omega (arith, e, high)) in
    let more : contains ((48 + n % 10) ∷ rest) c ≡ false = rw other h in
    let later = digits_onto-plain fuel (n / 10) c ((48 + n % 10) ∷ rest) high more in
    elim (Bool-cases (ltb n 10)) [ inl small ↦ rw small more | inr big ↦ rw big later ]

-- A numeral has no character behind the digits.
pub show-plain : (n c : ℕ) → 58 ≤ c → contains (show_ℕ n) c ≡ false
unfolding show_ℕ contains
show-plain n c high = digits_onto-plain (suc n) n c [] high refl
