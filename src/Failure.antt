-- ===== src/Failure.antt =====
-- The exceptions that pass through a research job, with their messages, and code that changes a
-- state and may raise. What was written before a raise stays written.
pub mod Ensures
use juris_mind_ai.Base.{Option, none, some}
use juris_mind_ai.Base.Result.{Result, ok, raised}
use juris_mind_ai.Base.Text.{Str}

pub data Failure : Type 0 where
  -- `LLMCallError`, `EmbeddingError`, `RerankerError`, `SecEdgarError`, `ParseError`
  llm_call_error embedding_error reranker_error edgar_error parse_error : Str → Failure
  -- `httpx.HTTPError`, and what else a client library raises
  http_error other_error : Str → Failure
  -- `ValueError`, `KeyError`, `IndexError`, SQLAlchemy's `IntegrityError`
  value_error key_error index_error integrity_error : Str → Failure

-- `str(exc)`
abbrev pub message : Failure → Str
message (llm_call_error m) = m
message (embedding_error m) = m
message (reranker_error m) = m
message (edgar_error m) = m
message (parse_error m) = m
message (http_error m) = m
message (other_error m) = m
message (value_error m) = m
message (key_error m) = m
message (index_error m) = m
message (integrity_error m) = m

abbrev pub Exec : Type 0 → Type 0 → Type 0
Exec S A = S → Result Failure A × S

module _ {S A : Type 0} where
  unfoldable pub pure : A → Exec S A
  pure a s = (ok a, s)

  unfoldable pub raise : Failure → Exec S A
  raise e s = (raised e, s)

  unfoldable pub gets : (S → A) → Exec S A
  gets f s = (ok (f s), s)

  -- `some a`, or the exception
  unfoldable pub or_raise : Failure → Option A → Exec S A
  or_raise e none s = (raised e, s)
  or_raise e (some a) s = (ok a, s)

  unfoldable pub from_result : Result Failure A → Exec S A
  from_result r s = (r, s)

unfoldable pub modify : {S : Type 0} → (S → S) → Exec S (Unit {0})
modify f s = (ok tt, f s)

module _ {S A B : Type 0} where
  unfoldable pub continue : Result Failure A × S → (A → Exec S B) → Result Failure B × S
  continue (ok a, s) f = f a s
  continue (raised e, s) f = (raised e, s)

  infixl 5 ◌>>=◌ ◌>>◌
  unfoldable pub ◌>>=◌ : Exec S A → (A → Exec S B) → Exec S B
  unfolding continue
  ◌>>=◌ m f s = continue (m s) f

  abbrev pub ◌>>◌ : Exec S A → Exec S B → Exec S B
  m >> n = m >>= λ _. n
