-- ===== src/Base/Sorting.antt =====
-- Python's `sort` with `reverse=True`: stable, by falling keys.
use Prim.Native.Nat.{◌+◌, ℕ}
use mathlib.Core.Logic.{inr, inl}
use mathlib.Core.Path.{◌≡◌, refl}
use mathlib.Core.Bool.{Bool, true, false}
use mathlib.Core.List.{List, [], ◌∷◌, Perm}
use mathlib.Core.List.Perm
use native.Mathlib.Omega.{arith}
use juris_mind_ai.Base.Tests.{if◌then◌else◌, Bool-cases}
use juris_mind_ai.Base.Lists.{All, All-weaken}

-- A sum over the members.
abbrev pub total {ℓ} : {A : Type ℓ} → (A → ℕ) → List A → ℕ
total f [] = 0
total f (x ∷ xs) = f x + total f xs

module _ {ℓ} {A : Type ℓ} (before : A → A → Bool) where
  -- `x` stood in front of `ys`, and goes behind those that it is less than.
  place : A → List A → List A
  place x [] = x ∷ []
  place x (y ∷ ys) = if before x y then y ∷ place x ys else x ∷ y ∷ ys

  unfoldable pub sort_falling : List A → List A
  unfolding place
  sort_falling [] = []
  sort_falling (x ∷ xs) = place x (sort_falling xs)

  -- No member is less than one that stands behind it.
  abbrev pub IsFalling : List A → Type ℓ
  IsFalling [] = Unit
  IsFalling (x ∷ xs) = All (λ y. before x y ≡ false) xs × IsFalling xs

  module _ {κ} (P : A → Type κ) where
    All-place : (x : A) (ys : List A) → P x → All P ys → All P (place x ys)
    unfolding place
    All-place x [] hx h = (hx, tt)
    All-place x (y ∷ ys) hx h = elim (Bool-cases (before x y)) [
      | inl less ↦ rw less (h.0, All-place x ys hx h.1)
      | inr rest ↦ rw rest (hx, h)
    ]

    pub All-sort_falling : (xs : List A) → All P xs → All P (sort_falling xs)
    unfolding sort_falling
    All-sort_falling [] h = tt
    All-sort_falling (x ∷ xs) h = All-place x (sort_falling xs) h.0 (All-sort_falling xs h.1)

  module _ (f : A → ℕ) where
    total-place : (x : A) (ys : List A) → total f (place x ys) ≡ f x + total f ys
    unfolding place
    total-place x [] = refl
    total-place x (y ∷ ys) = elim (Bool-cases (before x y)) [
      | inl less ↦ rw less (omega (arith, total-place x ys))
      | inr rest ↦ rw rest refl
    ]

    -- Sorting keeps the members, each as often as it was there.
    pub total-sort_falling : (xs : List A) → total f (sort_falling xs) ≡ total f xs
    unfolding sort_falling
    total-sort_falling [] = refl
    total-sort_falling (x ∷ xs) =
        omega (arith, total-place x (sort_falling xs), total-sort_falling xs)

  place-Perm : (x : A) (ys : List A) → Perm (place x ys) (x ∷ ys)
  unfolding place
  place-Perm x [] = Perm.rfl
  place-Perm x (y ∷ ys) = elim (Bool-cases (before x y)) [
    | inl less ↦ rw less (Perm.trans (Perm.cons y (place-Perm x ys)) (Perm.swap x y ys))
    | inr rest ↦ rw rest Perm.rfl
  ]

  pub sort_falling-Perm : (xs : List A) → Perm (sort_falling xs) xs
  unfolding sort_falling
  sort_falling-Perm [] = Perm.rfl
  sort_falling-Perm (x ∷ xs) =
      Perm.trans (place-Perm x (sort_falling xs)) (Perm.cons x (sort_falling-Perm xs))

  module _ (asym : (x y : A) → before x y ≡ true → before y x ≡ false)
      (trans : (x y z : A) → before x y ≡ false → before y z ≡ false → before x z ≡ false) where
    place-IsFalling : (x : A) (ys : List A) → IsFalling ys → IsFalling (place x ys)
    unfolding place
    place-IsFalling x [] h = (tt, tt)
    place-IsFalling x (y ∷ ys) h = elim (Bool-cases (before x y)) [
      | inl less ↦
          rw less
            (All-place (λ z. before y z ≡ false) x ys (asym x y less) h.0, place-IsFalling x ys h.1)
      | inr rest ↦
          rw rest ((rest, All-weaken _ _ ys (λ z not_less. trans x y z rest not_less) h.0), h)
    ]

    pub sort_falling-IsFalling : (xs : List A) → IsFalling (sort_falling xs)
    unfolding sort_falling
    sort_falling-IsFalling [] = tt
    sort_falling-IsFalling (x ∷ xs) =
        place-IsFalling x (sort_falling xs) (sort_falling-IsFalling xs)
