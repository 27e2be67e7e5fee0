-- ===== src/Session/Keeps.antt =====
-- Steps that leave alone what is observed of a session, whether they return or raise.
use juris_mind_ai.Failure.{◌>>=◌, or_raise}
use juris_mind_ai.Failure.Ensures.{Ensures-weaken, Ensures-bind, Ensures-or_raise, Ensures}
use juris_mind_ai.Session.Rules.{
  Ensures-report_progress, Ensures-outside, Ensures-on_db, Ensures-pure, Ensures-flush,
  Ensures-new_id,
}
use juris_mind_ai.Session.{
  on_db, outside, report_progress, Uuid, pure, new_id, flush, Database, Failure, Exec, Str, Result,
  Session, Services,
}
use juris_mind_ai.Base.{suc, Option, ◌≡◌, refl, ◌∙◌}

-- An observation that a service and a new id do not touch.
pub record IsStored {W B : Type 0} (see : Session W → B) : Type 0 where
  pub world_free : (s : Session W) (w : W) → see (record s { world = w }) ≡ see s
  pub fresh_free : (s : Session W) (n : Uuid) → see (record s { fresh = n }) ≡ see s

module _ {W B : Type 0} (see : Session W → B) where
  pub record Keeps {A : Type 0} (m : Exec (Session W) A) : Type 0 where
    pub keeps : (s : Session W) → Ensures (m s) (λ _ s'. see s' ≡ see s) (λ _ s'. see s' ≡ see s)

  pub Keeps-bind :
      {A C : Type 0} {m : Exec (Session W) A} {f : A → Exec (Session W) C}
      → Keeps m
      → ((a : A) → Keeps (f a))
      → Keeps (m >>= f)
  Keeps-bind first next = record {
    keeps = λ s. Ensures-bind _ _ s (
        Ensures-weaken _
          (λ a s1 same.
            Ensures-weaken _ (λ _ _ same'. same' ∙ same) (λ _ _ same'. same' ∙ same)
              ((next a).keeps s1))
          (λ _ _ same. same) (first.keeps s));
  }

  pub Keeps-pure : {A : Type 0} (a : A) → Keeps (pure a)
  Keeps-pure a = record { keeps = λ s. Ensures-pure a s refl }

  pub Keeps-or_raise : {A : Type 0} (e : Failure) (o : Option A) → Keeps (or_raise e o)
  Keeps-or_raise e o = record { keeps = λ s. Ensures-or_raise e o s (λ _ _. refl) (λ _. refl) }

  pub Keeps-flush : Keeps flush
  Keeps-flush = record { keeps = λ s. Ensures-flush s (λ _. refl) (λ _. refl) }

  pub Keeps-on_db :
      (f : Database → Database)
      → ((s : Session W) → see (record s { db = f s.db }) ≡ see s)
      → Keeps (on_db f)
  Keeps-on_db f same = record { keeps = λ s. Ensures-on_db f s (same s) }

  module _ (stored : IsStored see) where
    pub Keeps-outside : {A : Type 0} (f : W → Result Failure A × W) → Keeps (outside f)
    Keeps-outside f = record {
      keeps =
          λ s. Ensures-outside f s (λ _ w. stored.world_free s w) (λ _ w. stored.world_free s w);
    }

    pub Keeps-new_id : Keeps new_id
    Keeps-new_id = record { keeps = λ s. Ensures-new_id s (stored.fresh_free s (suc s.fresh)) }

module _ (V : Services) {B : Type 0} (see : Session V.World → B) (stored : IsStored see) where
  pub Keeps-report_progress : (msg : Str) → Keeps see (report_progress V msg)
  Keeps-report_progress msg = record {
    keeps = λ s.
        Ensures-report_progress V msg s (λ w. stored.world_free s w) (λ _ w. stored.world_free s w);
  }
