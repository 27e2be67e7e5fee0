-- ===== src/Queries.antt =====
-- The order in which a query of tradegraph/apps/api/routers/jobs.py returns its rows, which is the
-- database's choice where `order_by` leaves one: rows with one key in any order, and all of them
-- without `order_by`.
use mathlib.Core.List.{Perm}
use juris_mind_ai.Base.{ℕ, Bool, List, ltb}
use juris_mind_ai.Base.Sorting.{IsFalling}
use juris_mind_ai.Rows.{Claim, Report}

-- What a query does; the columns `created_at` that the rows leave out are in it too.
pub record Sql : Type 1 where
  pub ascending : {A : Type 0} → (A → ℕ) → List A → List A
  pub descending : {A : Type 0} → (A → ℕ) → List A → List A
  pub unordered : {A : Type 0} → List A → List A
  pub claim_created_at : Claim → ℕ
  pub report_created_at : Report → ℕ

abbrev pub key_below : {A : Type 0} → (A → ℕ) → A → A → Bool
key_below key a b = ltb (key a) (key b)

abbrev pub key_above : {A : Type 0} → (A → ℕ) → A → A → Bool
key_above key a b = ltb (key b) (key a)

-- A query returns the rows that there are, in the order of its key.
pub record IsSql (q : Sql) : Type 1 where
  pub ascending_perm : {A : Type 0} (key : A → ℕ) (xs : List A) → Perm (q.ascending key xs) xs
  pub ascending_order :
      {A : Type 0} (key : A → ℕ) (xs : List A) → IsFalling (key_above key) (q.ascending key xs)
  pub descending_perm : {A : Type 0} (key : A → ℕ) (xs : List A) → Perm (q.descending key xs) xs
  pub descending_order :
      {A : Type 0} (key : A → ℕ) (xs : List A) → IsFalling (key_below key) (q.descending key xs)
  pub unordered_perm : {A : Type 0} (xs : List A) → Perm (q.unordered xs) xs
