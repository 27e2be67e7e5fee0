-- ===== src/Score.antt =====
-- The floating-point numbers that scores are, as a parameter: the operations the source uses on
-- them and, separately, what is assumed of their order.
use juris_mind_ai.Base.{ℕ, Bool, true, false, ◌≡◌}

pub record Score : Type 1 where
  pub Num : Type 0
  -- `0.0`, `a + b`, `1.0 / n`, `a < b`, `a == b`
  pub zero : Num
  pub add : Num → Num → Num
  pub recip : ℕ → Num
  pub less : Num → Num → Bool
  pub same : Num → Num → Bool

-- `<` on numbers that are not NaN: what is not less one way round is a total preorder.
pub record IsOrdered (S : Score) : Type 0 where
  pub asym : (a b : S.Num) → S.less a b ≡ true → S.less b a ≡ false
  pub trans : (a b c : S.Num) → S.less a b ≡ false → S.less b c ≡ false → S.less a c ≡ false
