-- ===== src/Jobs/Listing.antt =====
-- The pages of the history.
use mathlib.Core.Bool.{Bool-set}
use mathlib.Core.Logic.Or
use mathlib.Core.List.{not-mem-nil}
use mathlib.Core.List.Perm
use mathlib.Core.List.{
  map-append, Mem, mem-cons_self, mem-cons_of_mem, eq-or-mem_of_mem-cons, Perm, perm-cons,
}
use mathlib.Core.Path.{subst}
use juris_mind_ai.Base.Sorting.{IsFalling}
use juris_mind_ai.Queries.{Sql, IsSql, key_below}
use Prim.Native.Nat.{zero}
use juris_mind_ai.Jobs.{JobSummary, summary, ok, Database, list_jobs}
use juris_mind_ai.Rows.{ResearchJob}
use juris_mind_ai.Base.{
  drop-drop, leb_of_le, map, ◌∷◌, ◌≤◌, ◌∙◌, refl, sym, ap, suc, ◌+◌, ◌++◌, ◌≡◌, false, ℕ, List, [],
  take, drop, arith, All, All-weaken, ltb,
}

take-nil {ℓ} : (A : Type ℓ) (n : ℕ) → take {A = A} n [] ≡ []
take-nil A zero = refl
take-nil A (suc n) = refl

take-take-drop {ℓ} :
    {A : Type ℓ} (n m : ℕ) (xs : List A) → take n xs ++ take m (drop n xs) ≡ take (n + m) xs
take-take-drop zero m xs = let e : 0 + m ≡ m = omega arith in ap (λ k. take k xs) (sym e)
take-take-drop {A} (suc n) m [] = take-nil A m ∙ sym (take-nil A (suc n + m))
take-take-drop (suc n) m (x ∷ xs) =
    let e : suc n + m ≡ suc (n + m) = omega arith in
    ap (◌∷◌ x) (take-take-drop n m xs) ∙ ap (λ k. take k (x ∷ xs)) (sym e)

module _ {A : Type 0} (key : A → ℕ) where
  -- Rows with one key are one row.
  abbrev pub IsKey : List A → Type 0
  IsKey xs = (a b : A) → Mem a xs → Mem b xs → key a ≡ key b → a ≡ b

  All-Mem :
      (x : A) (xs : List A) (y : A)
      → All (λ z. ltb (key x) (key z) ≡ false) xs
      → Mem y xs
      → ltb (key x) (key y) ≡ false
  All-Mem x [] y h m = absurd (not-mem-nil m)
  All-Mem x (z ∷ xs) y (here, h) m =
      Or.elim (Bool-set _ _) (eq-or-mem_of_mem-cons m)
        (λ same. ap (λ t. ltb (key x) (key t)) same ∙ here) (λ later. All-Mem x xs y h later)

  -- The first of falling keys is the greatest.
  pub first_greatest :
      (x : A) (xs : List A) (y : A)
      → All (λ z. ltb (key x) (key z) ≡ false) xs
      → Mem y (x ∷ xs)
      → ltb (key x) (key y) ≡ false
  first_greatest x xs y h m = All-Mem x (x ∷ xs) y (ground arith, h) m

  -- There is one way only to order rows with different keys.
  falling_unique :
      (xs ys : List A)
      → Perm xs ys
      → IsKey xs
      → IsFalling (key_below key) xs
      → IsFalling (key_below key) ys
      → xs ≡ ys
  falling_unique [] ys p k h h' = Perm.nil-eq p
  falling_unique (x ∷ xs) [] p k h h' = Perm.eq-nil p
  falling_unique (x ∷ xs) (y ∷ ys) p k (greatest, h) (greatest', h') =
      let in_x : Mem y (x ∷ xs) = (Perm.mem_iff p).1 mem-cons_self in
      let in_y : Mem x (y ∷ ys) = (Perm.mem_iff p).0 mem-cons_self in
      let low = first_greatest x xs y greatest in_x in
      let low' = first_greatest y ys x greatest' in_y in
      let keys : key x ≡ key y = ground (arith, low, low') in
      let same : x ≡ y = k x y mem-cons_self in_x keys in
      let rest : Perm xs ys = (perm-cons x).0 (subst (λ z. Perm (x ∷ xs) (z ∷ ys)) (sym same) p) in
      ap (λ z. z ∷ xs) same
      ∙ ap (◌∷◌ y) (
          falling_unique xs ys rest (λ a b m m'. k a b (mem-cons_of_mem _ m) (mem-cons_of_mem _ m'))
            h h')

-- Each job is at least as new as those after it.
abbrev pub IsNewestFirst : List ResearchJob → Type 0
IsNewestFirst [] = Unit
IsNewestFirst (x ∷ xs) =
    All (λ (y : ResearchJob). y.created_at ≤ x.created_at) xs × IsNewestFirst xs

falling-IsNewestFirst :
    (xs : List ResearchJob)
    → IsFalling (key_below (λ (j : ResearchJob). j.created_at)) xs
    → IsNewestFirst xs
falling-IsNewestFirst [] h = tt
falling-IsNewestFirst (x ∷ xs) (first, h) =
    (All-weaken _ _ xs (λ y below. ground (arith, below)) first, falling-IsNewestFirst xs h)

-- Where no two jobs have one time, the history is one list of all jobs, from the newest to the
-- oldest, whatever the database does in each query. With limits of at least 1 and at most 100
-- together, a page is a part of it, and the page that starts where the one before it ends goes on
-- with it: the two are the page of both limits.
pub list_jobs-pages :
    (first second both : Sql) (d : Database) (n m offset : ℕ)
    → IsSql first
    → IsSql second
    → IsSql both
    → IsKey (λ (j : ResearchJob). j.created_at) d.jobs
    → 1 ≤ n
    → 1 ≤ m
    → n + m ≤ 100
    → (history : List ResearchJob) × IsNewestFirst history
      × Perm history d.jobs
      × (page : List JobSummary) × (next : List JobSummary) × (page
          ≡ map summary (take n (drop offset history)))
      × (list_jobs first n offset d ≡ ok page)
      × (list_jobs second m (offset + n) d ≡ ok next)
      × (list_jobs both (n + m) offset d ≡ ok (page ++ next))
unfolding list_jobs
list_jobs-pages first second both d n m offset is_first is_second is_both dated low low' high =
    let time : ResearchJob → ℕ = λ j. j.created_at in
    let history = first.descending time d.jobs in
    let perm : Perm history d.jobs = is_first.descending_perm time d.jobs in
    let unique : (q : Sql) → IsSql q → q.descending time d.jobs ≡ history = λ q is. sym (
      falling_unique time history (q.descending time d.jobs)
        (Perm.trans perm (Perm.symm (is.descending_perm time d.jobs)))
        (λ a b x y. dated a b ((Perm.mem_iff perm).0 x) ((Perm.mem_iff perm).0 y))
        (is_first.descending_order time d.jobs) (is.descending_order time d.jobs)) in
    (
      history,
      falling-IsNewestFirst history (is_first.descending_order time d.jobs),
      perm,
      map summary (take n (drop offset history)),
      map summary (take m (drop (offset + n) history)),
      refl,
      rw (leb_of_le 1 n low, leb_of_le n 100 (omega arith)) refl,
      rw (leb_of_le 1 m low', leb_of_le m 100 (omega arith))
          (ap (λ h. ok (map summary (take m (drop (offset + n) h)))) (unique second is_second)),
      rw (leb_of_le 1 (n + m) (omega arith), leb_of_le (n + m) 100 high)
          (ap (λ h. ok (map summary (take (n + m) (drop offset h)))) (unique both is_both)
            ∙ ap (λ t. ok (map summary t)) (sym (take-take-drop n m (drop offset history)))
            ∙ ap ok (map-append summary (take n (drop offset history)) _)
            ∙ ap (λ t. ok (map summary (take n (drop offset history)) ++ map summary (take m t)))
                (drop-drop n offset history)),
    )
