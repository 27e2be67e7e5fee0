-- ===== src/ClaimCheck/Pairing.antt =====
-- Which evidence the loop over `zip(claim_draft.evidence_indices, cited, strict=False)` pairs with
-- an index: `cited` leaves out the indices that do not resolve, `evidence_indices` does not.
use juris_mind_ai.Base.{suc, none, some, List, [], ◌∷◌, ◌≡◌, refl, ap, length, All}
use juris_mind_ai.Base.Int.{ℤ, item_at}
use juris_mind_ai.ClaimCheck.{resolve, zip}

module _ {A : Type 0} (verified : List A) where
  abbrev pub Resolves : ℤ → Type 0
  Resolves i = (ve : A) × (item_at verified i ≡ some ve)

  -- Where every index of a draft resolves, each is paired with its own item, and none is left out.
  pub zip-resolve :
      (indices : List ℤ)
      → All Resolves indices
      → All (λ (i, ve). item_at verified i ≡ some ve) (zip indices (resolve verified indices))
        × (length (zip indices (resolve verified indices)) ≡ length indices)
  unfolding resolve zip
  zip-resolve [] h = (tt, refl)
  zip-resolve (i ∷ rest) ((ve, found), h) =
      let (right, count) = zip-resolve rest h in rw (found, resolve) ((found, right), ap suc count)

  -- An index that does not resolve shifts what follows: it takes the item of the next index, and
  -- the next index takes the item of the one after.
  pub zip-resolve_shifted :
      (bad i j : ℤ) (ve ve' : A) (rest : List ℤ)
      → item_at verified bad ≡ none
      → item_at verified i ≡ some ve
      → item_at verified j ≡ some ve'
      → zip (bad ∷ i ∷ j ∷ rest) (resolve verified (bad ∷ i ∷ j ∷ rest))
        ≡ (bad, ve) ∷ (i, ve') ∷ zip (j ∷ rest) (resolve verified rest)
  unfolding resolve zip
  zip-resolve_shifted bad i j ve ve' rest none_there there there' =
      rw (none_there, resolve) (rw (there, resolve) (rw (there', resolve) refl))
