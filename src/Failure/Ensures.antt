-- ===== src/Failure/Ensures.antt =====
-- What a run ensures: one statement for a return and one for an exception, with the rule for a
-- sequence of two steps.
use mathlib.Core.Path.{◌≡◌, refl, subst}
use juris_mind_ai.Base.Result.{Result, ok, raised}
use juris_mind_ai.Failure.{Failure, Exec, ◌>>=◌, continue, or_raise}
use juris_mind_ai.Base.{Option, none, some}

module _ {S A : Type 0} where
  abbrev pub Case : (A → S → Type 0) → (Failure → S → Type 0) → Result Failure A × S → Type 0
  Case Q E (ok a, s) = Q a s
  Case Q E (raised e, s) = E e s

  pub record Ensures (r : Result Failure A × S) (Q : A → S → Type 0) (E : Failure → S → Type 0)
      : Type 0 where
    pub case : Case Q E r

  pub Ensures-weaken :
      (r : Result Failure A × S) {Q Q' : A → S → Type 0} {E E' : Failure → S → Type 0}
      → ((a : A) (s : S) → Q a s → Q' a s)
      → ((e : Failure) (s : S) → E e s → E' e s)
      → Ensures r Q E
      → Ensures r Q' E'
  Ensures-weaken (ok a, s) f g h = record { case = f a s h.case }
  Ensures-weaken (raised e, s) f g h = record { case = g e s h.case }

  pub Ensures-both :
      (r : Result Failure A × S) {Q Q' : A → S → Type 0} {E E' : Failure → S → Type 0}
      → Ensures r Q E
      → Ensures r Q' E'
      → Ensures r (λ a s. Q a s × Q' a s) (λ e s. E e s × E' e s)
  Ensures-both (ok a, s) h h' = record { case = (h.case, h'.case) }
  Ensures-both (raised e, s) h h' = record { case = (h.case, h'.case) }

  pub Ensures-or_raise :
      (e : Failure) (o : Option A) (s : S) {Q : A → S → Type 0} {E : Failure → S → Type 0}
      → ((a : A) → o ≡ some a → Q a s)
      → (o ≡ none → E e s)
      → Ensures (or_raise e o s) Q E
  unfolding or_raise
  Ensures-or_raise e none s f g = record { case = g refl }
  Ensures-or_raise e (some a) s f g = record { case = f a refl }

module _ {S A B : Type 0} where
  Ensures-continue :
      (r : Result Failure A × S) (f : A → Exec S B) {Q : B → S → Type 0} {E : Failure → S → Type 0}
      → Ensures r (λ a s. Ensures (f a s) Q E) E
      → Ensures (continue r f) Q E
  unfolding continue
  Ensures-continue (ok a, s) f h = h.case
  Ensures-continue (raised e, s) f h = record { case = h.case }

  pub Ensures-bind :
      (m : Exec S A) (f : A → Exec S B) (s : S) {Q : B → S → Type 0} {E : Failure → S → Type 0}
      → Ensures (m s) (λ a s'. Ensures (f a s') Q E) E
      → Ensures ((m >>= f) s) Q E
  unfolding ◌>>=◌
  Ensures-bind m f s h = Ensures-continue (m s) f h

module _ {S A : Type 0} {Q : A → S → Type 0} {E : Failure → S → Type 0} where
  -- A run that may do anything, with the result that it had.
  pub Ensures-result :
      (r : Result Failure A × S)
      → ((a : A) (s : S) → r.0 ≡ ok a → Q a s)
      → ((e : Failure) (s : S) → E e s)
      → Ensures r Q E
  Ensures-result (ok a, s) q e = record { case = q a s refl }
  Ensures-result (raised x, s) q e = record { case = e x s }

  -- What a run that returned ensures.
  pub Ensures-ok :
      (r : Result Failure A × S) (a : A) (s : S) → r ≡ (ok a, s) → Ensures r Q E → Q a s
  Ensures-ok r a s e h = (subst (λ r. Ensures r Q E) e h).case
