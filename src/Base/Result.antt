-- ===== src/Base/Result.antt =====
-- A call that returns or raises.
use mathlib.Core.Bool.{Bool, true, false, true≢false}
use mathlib.Core.Path.{◌≡◌, refl, sym, ap}
use mathlib.Core.Logic.{◌≢◌}

pub data Result {ℓ κ} (E : Type ℓ) (A : Type κ) : Type (ℓ ⊔ κ) where
  ok : A → Result E A
  raised : E → Result E A

infixl 5 ◌>>=◌
abbrev pub ◌>>=◌ {ℓ κ μ} :
    {E : Type ℓ} {A : Type κ} {B : Type μ} → Result E A → (A → Result E B) → Result E B
ok a >>= f = f a
raised e >>= f = raised e

module _ {ℓ κ} {E : Type ℓ} {A : Type κ} where
  is_ok : Result E A → Bool
  is_ok (ok a) = true
  is_ok (raised e) = false

  pub raised-ne-ok : {e : E} {a : A} → ◌≢◌ {A = Result E A} (raised e) (ok a)
  unfolding is_ok
  raised-ne-ok h = true≢false (ap is_ok (sym h))

  ok_or : A → Result E A → A
  ok_or d (ok a) = a
  ok_or d (raised e) = d

  pub ok-injective : {a b : A} → ◌≡◌ {A = Result E A} (ok a) (ok b) → a ≡ b
  unfolding ok_or
  ok-injective {a} h = ap (ok_or a) h

module _ {ℓ κ μ} {E : Type ℓ} {A : Type κ} {B : Type μ} where
  -- What the first of two calls returned, when the second returns.
  pub bind-ok :
      (m : Result E A) (f : A → Result E B) (b : B)
      → (m >>= f) ≡ ok b
      → (a : A) × (m ≡ ok a) × (f a ≡ ok b)
  bind-ok (ok a) f b h = (a, refl, h)
  bind-ok (raised e) f b h = absurd (raised-ne-ok h)
