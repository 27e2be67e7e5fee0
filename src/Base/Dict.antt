-- ===== src/Base/Dict.antt =====
-- Python's `dict`: an association list in insertion order, where a write to a present key keeps
-- the key's place.
use mathlib.Core.Path.{◌≡◌, refl, sym, subst, ◌∙◌}
use mathlib.Core.Logic.{inl, inr}
use mathlib.Core.Option.{Option, none, some, some-injective}
use mathlib.Core.List.{List, [], ◌∷◌, map}
use native.Mathlib.Omega.{arith}
use juris_mind_ai.Base.Lists.{All, All-weaken}
use juris_mind_ai.Base.Tests.{if◌then◌else◌, Bool-cases}
use juris_mind_ai.Base.Equality.{Eq, ◌==◌}

abbrev pub Dict {ℓ κ} : Type ℓ → Type κ → Type (ℓ ⊔ κ)
Dict K V = List (K × V)

abbrev pub keys {ℓ κ} : {K : Type ℓ} {V : Type κ} → Dict K V → List K
keys = map (λ e. e.0)

abbrev pub values {ℓ κ} : {K : Type ℓ} {V : Type κ} → Dict K V → List V
values = map (λ e. e.1)

module _ {ℓ κ} {K : Type ℓ} {V : Type κ} ⦃e : Eq K⦄ where
  -- `d.get(k)`
  unfoldable pub lookup : K → Dict K V → Option V
  lookup k [] = none
  lookup k ((j, v) ∷ d) = if j == k then some v else lookup k d

  -- `d[k] = v`
  unfoldable pub insert : K → V → Dict K V → Dict K V
  insert k v [] = (k, v) ∷ []
  insert k v ((j, w) ∷ d) = if j == k then (j, v) ∷ d else (j, w) ∷ insert k v d

  -- `d.setdefault(k, v)`, for its effect
  unfoldable pub set_default : K → V → Dict K V → Dict K V
  set_default k v [] = (k, v) ∷ []
  set_default k v ((j, w) ∷ d) = if j == k then (j, w) ∷ d else (j, w) ∷ set_default k v d

  pub lookup-nil : (k : K) → lookup k [] ≡ none
  unfolding lookup
  lookup-nil k = refl

  pub lookup-insert :
      (j k : K) (v : V) (d : Dict K V)
      → lookup j (insert k v d) ≡ (if k == j then some v else lookup j d)
  unfolding lookup insert
  lookup-insert j k v [] = refl
  lookup-insert j k v ((i, w) ∷ d) =
      ground (arith, lookup-insert j k v d, e.beq_iff i k, e.beq_iff i j, e.beq_iff k j)

  pub lookup-set_default :
      (j k : K) (v : V) (d : Dict K V)
      → lookup j (set_default k v d)
        ≡ elim (lookup j d) [ some w ↦ some w | none ↦ if k == j then some v else none ]
  unfolding lookup set_default
  lookup-set_default j k v [] = refl
  lookup-set_default j k v ((i, w) ∷ d) =
      ground (arith, lookup-set_default j k v d, e.beq_iff i k, e.beq_iff i j, e.beq_iff k j)

  -- The keys of a dict are distinct.
  abbrev pub NodupKeys : Dict K V → Type κ
  NodupKeys [] = Unit
  NodupKeys ((k, _) ∷ d) = (lookup k d ≡ none) × NodupKeys d

  pub insert-NodupKeys : (k : K) (v : V) (d : Dict K V) → NodupKeys d → NodupKeys (insert k v d)
  unfolding insert
  insert-NodupKeys k v [] _ = (lookup-nil k, tt)
  insert-NodupKeys k v ((j, w) ∷ d) (fresh, u) =
      ground (arith, insert-NodupKeys k v d u, lookup-insert j k v d, e.beq_iff j k, e.beq_iff k j)

  -- The items of a dict are what its lookups find.
  pub All-lookup : (d : Dict K V) → NodupKeys d → All (λ (k, v). lookup k d ≡ some v) d
  unfolding lookup
  All-lookup [] _ = tt
  All-lookup ((j, w) ∷ d) (fresh, u) = (
    ground (arith, e.beq_iff j j),
    All-weaken _ _ d (λ (k, v) h. ground (arith, e.beq_iff j k)) (All-lookup d u),
  )

  -- What holds of every item still holds after the insertion of one of which it holds.
  pub insert-Holds {μ} :
      (P : K → V → Type μ) (k : K) (v : V) (d : Dict K V)
      → P k v
      → ((j : K) (w : V) → lookup j d ≡ some w → P j w)
      → (j : K) (w : V) → lookup j (insert k v d) ≡ some w
      → P j w
  insert-Holds P k v d new old j w h = elim (Bool-cases (k == j)) [
    | inl same ↦
        let found : some v ≡ some w = sym (lookup-insert j k v d ∙ rw same refl) ∙ h in
        subst (λ i. P i w) ((e.beq_iff k j).0 same) (subst (P k) (some-injective v w found) new)
    | inr other ↦ old j w (sym (lookup-insert j k v d ∙ rw other refl) ∙ h)
  ]
