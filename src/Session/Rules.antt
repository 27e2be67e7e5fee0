-- ===== src/Session/Rules.antt =====
-- What the steps of a session ensure.
use mathlib.Core.Path.{◌≡◌, refl}
use juris_mind_ai.Base.{suc, Bool, true, false, Option, none, some}
use juris_mind_ai.Base.Result.{Result, ok, raised}
use juris_mind_ai.Base.Text.{Str, text as lit}
use juris_mind_ai.Failure.{from_result, gets, Failure, integrity_error, pure}
use juris_mind_ai.Failure.Ensures.{Ensures}
use juris_mind_ai.Rows.{Uuid, Database}
use juris_mind_ai.Rows.Constraints.{is_consistent}
use juris_mind_ai.Session.{
  Services, Session, flush_with, outside, new_id, flush, on_db, report_to, report_progress,
}

module _ {S A : Type 0} {Q : A → S → Type 0} {E : Failure → S → Type 0} where
  pub Ensures-pure : (a : A) (s : S) → Q a s → Ensures (pure a s) Q E
  unfolding pure
  Ensures-pure a s h = record { case = h }

  pub Ensures-gets : (f : S → A) (s : S) → Q (f s) s → Ensures (gets f s) Q E
  unfolding gets
  Ensures-gets f s h = record { case = h }

  pub Ensures-from_result_answer :
      (r : Result Failure A) (s : S)
      → ((a : A) → r ≡ ok a → Q a s)
      → ((e : Failure) → E e s)
      → Ensures (from_result r s) Q E
  unfolding from_result
  Ensures-from_result_answer (ok a) s q e = record { case = q a refl }
  Ensures-from_result_answer (raised x) s q e = record { case = e x }

  pub Ensures-from_result :
      (r : Result Failure A) (s : S)
      → ((a : A) → Q a s)
      → ((e : Failure) → E e s)
      → Ensures (from_result r s) Q E
  Ensures-from_result r s q e = Ensures-from_result_answer r s (λ a _. q a) e

module _ {W : Type 0} where
  -- A service may answer anything, raise anything and do anything to the world.
  pub Ensures-outside :
      {A : Type 0} {Q : A → Session W → Type 0} {E : Failure → Session W → Type 0}
      (f : W → Result Failure A × W) (s : Session W)
      → ((a : A) (w : W) → Q a (record s { world = w }))
      → ((e : Failure) (w : W) → E e (record s { world = w }))
      → Ensures (outside f s) Q E
  unfolding outside
  Ensures-outside {A} {Q} {E} f s q e = from (f s.world)
    where
      from : (r : Result Failure A × W) → Ensures (r.0, record s { world = r.1 }) Q E
      from (ok a, w) = record { case = q a w }
      from (raised x, w) = record { case = e x w }

  -- The same, with what the service did.
  pub Ensures-outside_answer :
      {A : Type 0} {Q : A → Session W → Type 0} {E : Failure → Session W → Type 0}
      (f : W → Result Failure A × W) (s : Session W)
      → ((a : A) (w : W) → f s.world ≡ (ok a, w) → Q a (record s { world = w }))
      → ((e : Failure) (w : W) → E e (record s { world = w }))
      → Ensures (outside f s) Q E
  unfolding outside
  Ensures-outside_answer {A} {Q} {E} f s q e = from (f s.world) refl
    where
      from :
          (r : Result Failure A × W) → f s.world ≡ r → Ensures (r.0, record s { world = r.1 }) Q E
      from (ok a, w) same = record { case = q a w same }
      from (raised x, w) same = record { case = e x w }

  module _ {Q : Unit {0} → Session W → Type 0} {E : Failure → Session W → Type 0} where
    pub Ensures-on_db :
        (f : Database → Database) (s : Session W)
        → Q tt (record s { db = f s.db })
        → Ensures (on_db f s) Q E
    unfolding on_db
    Ensures-on_db f s h = record { case = h }

    pub Ensures-flush :
        (s : Session W)
        → (is_consistent s.db ≡ true → Q tt s)
        → (is_consistent s.db ≡ false → E (integrity_error (lit "constraint violated")) s)
        → Ensures (flush s) Q E
    unfolding flush
    Ensures-flush s q e = from (is_consistent s.db) q e
      where
        from :
            (b : Bool)
            → (b ≡ true → Q tt s)
            → (b ≡ false → E (integrity_error (lit "constraint violated")) s)
            → Ensures (flush_with b s) Q E
        from true q e = record { case = q refl }
        from false q e = record { case = e refl }

  pub Ensures-new_id :
      {Q : Uuid → Session W → Type 0} {E : Failure → Session W → Type 0} (s : Session W)
      → Q s.fresh (record s { fresh = suc s.fresh })
      → Ensures (new_id s) Q E
  unfolding new_id
  Ensures-new_id s h = record { case = h }

module _ (V : Services) where
  pub Ensures-report_progress :
      {Q : Unit {0} → Session V.World → Type 0} {E : Failure → Session V.World → Type 0} (msg : Str)
      (s : Session V.World)
      → ((w : V.World) → Q tt (record s { world = w }))
      → ((e : Failure) (w : V.World) → E e (record s { world = w }))
      → Ensures (report_progress V msg s) Q E
  unfolding report_progress
  Ensures-report_progress {Q} {E} msg s q e = from V.on_progress
    where
      from :
          (o : Option (Str → V.World → Result Failure (Unit {0}) × V.World))
          → Ensures (report_to V o msg s) Q E
      from none = Ensures-pure tt s (q s.world)
      from (some f) = Ensures-outside (f msg) s (λ a w. q w) e

  -- What the progress callback, if there is one, does to the world.
  abbrev pub TellsBy :
      Option (Str → V.World → Result Failure (Unit {0}) × V.World)
      → Str
      → V.World
      → V.World
      → Type 0
  TellsBy none msg w w' = w' ≡ w
  TellsBy (some f) msg w w' = f msg w ≡ (ok tt, w')

  pub Ensures-report_progress_told :
      {Q : Unit {0} → Session V.World → Type 0} {E : Failure → Session V.World → Type 0} (msg : Str)
      (s : Session V.World)
      → ((w : V.World) → TellsBy V.on_progress msg s.world w → Q tt (record s { world = w }))
      → ((e : Failure) (w : V.World) → E e (record s { world = w }))
      → Ensures (report_progress V msg s) Q E
  unfolding report_progress
  Ensures-report_progress_told {Q} {E} msg s q e = from V.on_progress q
    where
      from :
          (o : Option (Str → V.World → Result Failure (Unit {0}) × V.World))
          → ((w : V.World) → TellsBy o msg s.world w → Q tt (record s { world = w }))
          → Ensures (report_to V o msg s) Q E
      from none told = Ensures-pure tt s (told s.world refl)
      from (some f) told = Ensures-outside_answer (f msg) s (λ a w. told w) e
