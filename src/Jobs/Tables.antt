-- ===== src/Jobs/Tables.antt =====
-- Tests on the rows of a table when some of them are deleted.
use juris_mind_ai.Base.{sym, if◌then◌else◌}
use juris_mind_ai.Base.Text.{truthy}
use mathlib.Core.Bool.{true≢false}
use mathlib.Core.List.{[]}
use juris_mind_ai.Jobs.{truthy, ResearchJob, Uuid, ClaimEvidence, select, delete}
use juris_mind_ai.Rows.Constraints.{same_link, links_distinct, all}
use juris_mind_ai.Base.{
  ◌||◌, nat_beq_iff, ◌==◌, ap, refl, arith, map, not, ◌∷◌, ◌≡◌, List, contains, Bool, true, false,
  nat_eq,
}

-- Tests on a list of rows.
module _ {ℓ} {A : Type ℓ} where
  pub all-delete :
      (p fits fits' : A → Bool) (xs : List A)
      → ((x : A) → p x ≡ false → fits x ≡ true → fits' x ≡ true)
      → all fits xs ≡ true
      → all fits' (delete p xs) ≡ true
  unfolding all delete
  all-delete p fits fits' [] step h = refl
  all-delete p fits fits' (x ∷ xs) step h = ground (arith, all-delete p fits fits' xs step, step x)

  pub all-delete_same :
      (p fits : A → Bool) (xs : List A) → all fits xs ≡ true → all fits (delete p xs) ≡ true
  all-delete_same p fits xs = all-delete p fits fits xs (λ x _ h. h)

  pub all-not : (p : A → Bool) (xs : List A) → all (λ x. not (p x)) (delete p xs) ≡ true
  unfolding all delete
  all-not p [] = refl
  all-not p (x ∷ xs) = ground (arith, all-not p xs)

  -- A key of a row that is deleted is among the keys selected.
  pub contains-delete :
      (p : A → Bool) (key : A → Uuid) (xs : List A) (k : Uuid)
      → contains (map key xs) k ≡ true
      → contains (map key (select p xs)) k ≡ false
      → contains (map key (delete p xs)) k ≡ true
  unfolding contains select delete
  contains-delete p key [] k h out = h
  contains-delete p key (x ∷ xs) k h out = ground (arith, contains-delete p key xs k)

pub links_distinct-delete :
    (p : ClaimEvidence → Bool) (ls : List ClaimEvidence)
    → links_distinct ls ≡ true
    → links_distinct (delete p ls) ≡ true
unfolding links_distinct delete
links_distinct-delete p [] h = h
links_distinct-delete p (l ∷ ls) h =
    ground (arith, links_distinct-delete p ls, all-delete_same p (λ m. not (same_link l m)) ls)

pub delete-none {ℓ} :
    {A : Type ℓ} (p : A → Bool) (xs : List A) → ((x : A) → p x ≡ false) → delete p xs ≡ xs
unfolding delete
delete-none p [] h = refl
delete-none p (x ∷ xs) h = rw (h x) (ap (◌∷◌ x) (delete-none p xs h))

pub guarded-delete {ℓ} :
    {A : Type ℓ} (p : A → Bool) (xs : List A) (b : Bool)
    → (b ≡ false → (x : A) → p x ≡ false)
    → (if b then delete p xs else xs) ≡ delete p xs
guarded-delete p xs true h = refl
guarded-delete p xs false h = sym (delete-none p xs (h refl))

pub contains-falsy :
    (ks ms : List Uuid) (k m : Uuid)
    → (truthy ks || truthy ms) ≡ false
    → (contains ks k || contains ms m) ≡ false
unfolding contains truthy
contains-falsy [] [] k m h = refl
contains-falsy (_ ∷ _) ms k m h = absurd (true≢false h)
contains-falsy [] (_ ∷ _) k m h = absurd (true≢false h)

-- The other jobs stay.
pub contains-other :
    (id k : Uuid) (jobs : List ResearchJob)
    → (k == id) ≡ false
    → contains (map (λ (j : ResearchJob). j.id) jobs) k ≡ true
    → contains (map (λ (j : ResearchJob). j.id) (delete (λ (j : ResearchJob). j.id == id) jobs)) k
      ≡ true
unfolding contains delete
contains-other id k [] other h = h
contains-other id k (j ∷ jobs) other h = ground (
  arith,
  contains-other id k jobs other,
  nat_beq_iff j.id k,
  nat_beq_iff j.id id,
  nat_beq_iff k id,
)
