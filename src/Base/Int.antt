-- ===== src/Base/Int.antt =====
-- The integers that a model may answer with: an index is checked before it is used.
use Prim.Native.Nat.{ℕ, suc, ◌+◌, ◌-◌}
use mathlib.Core.Path.{◌≡◌}
use mathlib.Core.Logic.{◌↔◌}
use mathlib.Core.Bool.{Bool, true, false}
use mathlib.Core.Option.{Option, none}
use mathlib.Core.List.{List}
use native.Mathlib.Omega.{arith}
use juris_mind_ai.Base.Tests.{ltb, if◌then◌else◌}
use juris_mind_ai.Base.Lists.{get_elem?}
use juris_mind_ai.Base.Equality.{Eq, nat_beq}

-- `negsuc n` is -(n + 1).
pub data ℤ : Type 0 where
  pos : ℕ → ℤ
  negsuc : ℕ → ℤ

-- `i + n` with `n` not negative.
unfoldable pub add_ℕ : ℤ → ℕ → ℤ
add_ℕ (pos i) n = pos (i + n)
add_ℕ (negsuc i) n = if ltb i n then pos (n - suc i) else negsuc (i - n)

-- `0 <= i < n`
unfoldable pub in_range : ℤ → ℕ → Bool
in_range (pos i) n = ltb i n
in_range (negsuc i) n = false

unfoldable pub ℤ_beq : ℤ → ℤ → Bool
ℤ_beq (pos a) (pos b) = nat_beq a b
ℤ_beq (negsuc a) (negsuc b) = nat_beq a b
ℤ_beq _ _ = false

pub ℤ_beq_iff : (a b : ℤ) → (ℤ_beq a b ≡ true) ↔ (a ≡ b)
unfolding ℤ_beq
ℤ_beq_iff (pos a) (pos b) = ground arith
ℤ_beq_iff (negsuc a) (negsuc b) = ground arith
ℤ_beq_iff (pos a) (negsuc b) = ground arith
ℤ_beq_iff (negsuc a) (pos b) = ground arith

instance abbrev pub ℤ_eq : Eq ℤ
ℤ_eq = record { beq = ℤ_beq; beq_iff = ℤ_beq_iff }

-- `xs[i]` behind its guard `0 <= i < len(xs)`.
unfoldable pub item_at {ℓ} : {A : Type ℓ} → List A → ℤ → Option A
item_at xs (pos i) = get_elem? xs i
item_at xs (negsuc i) = none
