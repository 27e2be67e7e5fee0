-- ===== src/Dedup/Versions.antt =====
-- The version that a document gets, against all the versions before it.
use mathlib.Core.Bool.{false, true}
use Prim.Native.Nat.{zero}
use juris_mind_ai.Dedup.{latest, determine_version, ExistingVersion}
use juris_mind_ai.Base.{
  All-weaken, ◌<◌, ltb→lt, All, ltb, ◌≤◌, ◌+◌, suc, Bool, get_elem?, arith, ℕ, some, List, [], ◌∷◌,
  ◌≡◌, refl, if◌then◌else◌,
}

-- A version of `best ∷ rest` that none exceeds.
abbrev IsLatest : ExistingVersion → List ExistingVersion → ExistingVersion → Type 0
IsLatest best rest newest =
    ((i : ℕ) × (get_elem? (best ∷ rest) i ≡ some newest))
    × (best.version ≤ newest.version)
    × All (λ (v : ExistingVersion). v.version ≤ newest.version) rest

second :
    (best v w : ExistingVersion) (rest : List ExistingVersion) (i : ℕ)
    → get_elem? (best ∷ rest) i ≡ some w
    → (j : ℕ) × (get_elem? (best ∷ v ∷ rest) j ≡ some w)
second best v w rest zero found = (0, found)
second best v w rest (suc i) found = (suc (suc i), found)

IsLatest-step :
    (best v : ExistingVersion) (rest : List ExistingVersion) (b : Bool)
    → ltb best.version v.version ≡ b
    → IsLatest v rest (latest v rest)
    → IsLatest best rest (latest best rest)
    → IsLatest best (v ∷ rest) (latest (if b then v else best) rest)
IsLatest-step best v rest true e ((i, found), above, all_above) _ =
    ((suc i, found), omega (arith, ltb→lt best.version v.version e, above), (above, all_above))
IsLatest-step best v rest false e _ ((i, found), above, all_above) =
    (second best v _ rest i found, above, (ground (arith, above), all_above))

latest-IsLatest :
    (best : ExistingVersion) (rest : List ExistingVersion) → IsLatest best rest (latest best rest)
unfolding latest
latest-IsLatest best [] = ((0, refl), omega arith, tt)
latest-IsLatest best (v ∷ rest) =
    IsLatest-step best v rest _ refl (latest-IsLatest v rest) (latest-IsLatest best rest)

-- With versions before it, a document gets the number after the greatest of theirs, more than
-- each, and supersedes a document that has this greatest number.
pub determine_version-latest :
    (v : ExistingVersion) (rest : List ExistingVersion)
    → (newest : ExistingVersion) × ((i : ℕ) × (get_elem? (v ∷ rest) i ≡ some newest))
      × ((determine_version (v ∷ rest)).supersedes_id ≡ some newest.document_id)
      × ((determine_version (v ∷ rest)).version ≡ newest.version + 1)
      × All (λ (w : ExistingVersion). w.version < (determine_version (v ∷ rest)).version) (v ∷ rest)
unfolding determine_version
determine_version-latest v rest =
    let (place, above, all_above) = latest-IsLatest v rest in
    (
      latest v rest,
      place,
      refl,
      refl,
      (omega (arith, above), All-weaken _ _ rest (λ w h. omega (arith, h)) all_above),
    )
