-- ===== src/LlmClient/Attempts.antt =====
-- What a call of the model returns or raises, and after how many requests.
use mathlib.Core.Option.{none}
use juris_mind_ai.Failure.Ensures.{Ensures, Ensures-weaken}
use juris_mind_ai.Base.Result.{ok-injective, raised-ne-ok}
use juris_mind_ai.Base.{sym}
use juris_mind_ai.Failure.{other_error}
use juris_mind_ai.LlmClient.{
  malformed, Field, absent, null, present, content_of, metrics_from, with_metrics, request_of,
}
use Prim.Native.Nat.{zero}
use juris_mind_ai.Base.{
  ◌∙◌, ap, true, some, Option, refl, inr, ◌+◌, Bool-cases, ◌⊎◌, ◌≤◌, inl, arith, suc, ◌≡◌,
}
use juris_mind_ai.Failure.{value_error, llm_call_error, Failure}
use juris_mind_ai.LlmClient.{
  metrics_of, generate_once, check_content, LlmCallMetrics, check_answer, generate_structured,
  parsed, normalised, Output, Schema, ChatAnswer, ChatRequest, call_error, not_json,
  is_transient_ollama_error, status_error, transport_error, retry, ℕ, normalise, CallError,
}
use juris_mind_ai.Base.Result.{Result, ok, raised}
use juris_mind_ai.Base.Text.{strip, truthy, Str}

-- `LLMCallError`, or the error of an answer that is not JSON or has a null where the client reads
-- an object or a number; no error of the HTTP client.
abbrev pub IsCallFailure : Failure → Type 0
IsCallFailure e = (m : Str) × ((e ≡ llm_call_error m) ⊎ ((e ≡ value_error m) ⊎ (e ≡ other_error m)))

normalise-IsCallFailure : (e : CallError) → IsCallFailure (normalise e)
unfolding normalise
normalise-IsCallFailure (transport_error m) = (m, inl refl)
normalise-IsCallFailure (status_error code m) = (m, inl refl)
normalise-IsCallFailure (not_json m) = (m, inr (inl refl))
normalise-IsCallFailure (malformed m) = (m, inr (inr refl))
normalise-IsCallFailure (call_error m) = (m, inl refl)

module _ {W A : Type 0} (call_once : W → Result CallError A × W) where
  -- What holds of each attempt holds of the attempts together.
  retry-keeps :
      (P : Result CallError A × W → Type 0) (left : ℕ) (out : Result CallError A × W)
      → ((w : W) → P (call_once w))
      → P out
      → P (retry call_once left out)
  unfolding retry
  retry-keeps P zero (r, w) each here = here
  retry-keeps P (suc left) (ok a, w) each here = here
  retry-keeps P (suc left) (raised e, w) each here =
      elim (Bool-cases (is_transient_ollama_error e)) [
        | inl again ↦ rw again (retry-keeps P left (call_once w) each (each w))
        | inr over ↦ rw over here
      ]

  -- The requests of the attempts after an outcome.
  retry-bounds :
      (requests : W → ℕ) (left : ℕ) (out : Result CallError A × W)
      → ((w : W) → requests (call_once w).1 ≡ suc (requests w))
      → (requests out.1 ≤ requests (retry call_once left out).1)
        × (requests (retry call_once left out).1 ≤ requests out.1 + left)
  unfolding retry
  retry-bounds requests zero (r, w) counts = (omega arith, omega arith)
  retry-bounds requests (suc left) (ok a, w) counts = (omega arith, omega arith)
  retry-bounds requests (suc left) (raised e, w) counts =
      elim (Bool-cases (is_transient_ollama_error e)) [
        | inl again ↦
            let (low, high) = retry-bounds requests left (call_once w) counts in
            let one = counts w in rw again (omega (arith, low, one), omega (arith, high, one))
        | inr over ↦ rw over (omega arith, omega arith)
      ]

module _ {W Num : Type 0} (model : Str)
    (post : ChatRequest Num → W → Result CallError ChatAnswer × W)
    (validate : (s : Schema) → Str → Option (Output s)) (milliseconds : ℕ → Num) where
  -- The output is what the schema makes of a content that is not blank; the metrics are the model's.
  abbrev pub IsOutput : (s : Schema) → Output s × LlmCallMetrics Num → Type 0
  IsOutput s (out, metrics) =
      ((content : Str) × (validate s content ≡ some out) × (truthy (strip content) ≡ true))
      × (metrics.model ≡ model)

  -- The output and the metrics are those of this answer.
  pub record IsOf (s : Schema) (answer : ChatAnswer) (out : Output s) (metrics : LlmCallMetrics Num)
      : Type 0 where
    pub content : Str
    pub is_content : answer.message ≡ present (some content)
    pub is_valid : validate s content ≡ some out
    pub not_blank : truthy (strip content) ≡ true
    pub is_metrics : metrics_of model post validate milliseconds answer ≡ ok metrics

  abbrev IsChecked :
      (s : Schema) → ChatAnswer → Result CallError (Output s × LlmCallMetrics Num) → Type 0
  IsChecked s answer (raised e) = Unit
  IsChecked s answer (ok (out, metrics)) = IsOf s answer out metrics

  with_metrics-IsChecked :
      (s : Schema) (answer : ChatAnswer) (content : Str) (out : Output s)
      (o : Result CallError (LlmCallMetrics Num))
      → metrics_of model post validate milliseconds answer ≡ o
      → answer.message ≡ present (some content)
      → validate s content ≡ some out
      → truthy (strip content) ≡ true
      → IsChecked s answer (with_metrics model post validate milliseconds out o)
  unfolding with_metrics
  with_metrics-IsChecked s answer content out (raised x) is said e there = tt
  with_metrics-IsChecked s answer content out (ok metrics) is said e there = record {
    content = content;
    is_content = said;
    is_valid = e;
    not_blank = there;
    is_metrics = is;
  }

  parsed-IsChecked :
      (s : Schema) (answer : ChatAnswer) (content : Str) (o : Option (Output s))
      → validate s content ≡ o
      → answer.message ≡ present (some content)
      → truthy (strip content) ≡ true
      → IsChecked s answer (parsed model post validate milliseconds s answer o)
  unfolding parsed
  parsed-IsChecked s answer content none e said there = tt
  parsed-IsChecked s answer content (some out) e said there =
      with_metrics-IsChecked s answer content out _ refl said e there

  check_content-IsChecked :
      (s : Schema) (answer : ChatAnswer) (m : Field (Option Str))
      → answer.message ≡ m
      → IsChecked s answer (check_content model post validate milliseconds s answer (content_of m))
  unfolding check_content content_of
  check_content-IsChecked s answer absent said = tt
  check_content-IsChecked s answer null said = tt
  check_content-IsChecked s answer (present none) said = tt
  check_content-IsChecked s answer (present (some content)) said =
      elim (Bool-cases (truthy (strip content))) [
        | inl e ↦ rw e (parsed-IsChecked s answer content _ refl said e)
        | inr e ↦ rw e tt
      ]

  -- The answer that an output is of came from the last request, which was this one.
  abbrev pub IsAnswered :
      (s : Schema) → ChatRequest Num → Output s × LlmCallMetrics Num → W → Type 0
  IsAnswered s request (out, metrics) w' =
      (v : W) × (answer : ChatAnswer) × (post request v ≡ (ok answer, w'))
      × IsOf s answer out metrics

  abbrev Answers :
      (s : Schema) → ChatRequest Num → Result CallError (Output s × LlmCallMetrics Num) × W → Type 0
  Answers s request (raised e, w') = Unit
  Answers s request (ok a, w') = IsAnswered s request a w'

  when_answered :
      (s : Schema) (request : ChatRequest Num) (v w' : W) (answer : ChatAnswer)
      (o : Result CallError (Output s × LlmCallMetrics Num))
      → post request v ≡ (ok answer, w')
      → IsChecked s answer o
      → Answers s request (o, w')
  when_answered s request v w' answer (raised e) posted h = tt
  when_answered s request v w' answer (ok a) posted h = (v, answer, posted, h)

  check_answer-Answers :
      (s : Schema) (request : ChatRequest Num) (v : W) (out : Result CallError ChatAnswer × W)
      → post request v ≡ out
      → Answers s request (check_answer model post validate milliseconds s out)
  unfolding check_answer
  check_answer-Answers s request v (raised e, w) posted = tt
  check_answer-Answers s request v (ok answer, w) posted =
      when_answered s request v w answer _ posted
        (check_content-IsChecked s answer answer.message refl)

  check_answer-world :
      (s : Schema) (out : Result CallError ChatAnswer × W)
      → (check_answer model post validate milliseconds s out).1 ≡ out.1
  unfolding check_answer
  check_answer-world s (raised e, w) = refl
  check_answer-world s (ok answer, w) = refl

  metrics_from-model :
      (i o d : Result CallError ℕ) (metrics : LlmCallMetrics Num)
      → metrics_from model post validate milliseconds i o d ≡ ok metrics
      → metrics.model ≡ model
  unfolding metrics_from
  metrics_from-model (ok i) (ok o) (ok d) metrics h =
      ap (λ (m : LlmCallMetrics Num). m.model) (sym (ok-injective h))
  metrics_from-model (raised e) o d metrics h = absurd (raised-ne-ok h)
  metrics_from-model (ok i) (raised e) d metrics h = absurd (raised-ne-ok h)
  metrics_from-model (ok i) (ok o) (raised e) metrics h = absurd (raised-ne-ok h)

  IsOf-IsOutput :
      (s : Schema) (answer : ChatAnswer) (out : Output s) (metrics : LlmCallMetrics Num)
      → IsOf s answer out metrics
      → IsOutput s (out, metrics)
  unfolding metrics_of
  IsOf-IsOutput s answer out metrics is =
      ((is.content, is.is_valid, is.not_blank), metrics_from-model _ _ _ metrics is.is_metrics)

  normalised-Ensures :
      (s : Schema) (request : ChatRequest Num)
      (out : Result CallError (Output s × LlmCallMetrics Num) × W) {P : W → Type 0}
      → Answers s request out
      → P out.1
      → Ensures
          (normalised model post validate milliseconds out)
          (λ a w'. IsAnswered s request a w' × P w')
          (λ e w'. IsCallFailure e × P w')
  unfolding normalised
  normalised-Ensures s request (ok a, w) answers p = record { case = (answers, p) }
  normalised-Ensures s request (raised e, w) answers p = record {
    case = (normalise-IsCallFailure e, p);
  }

  abbrev request : (s : Schema) → Str → Num → Option ℕ → ChatRequest Num
  request s prompt temperature max_tokens =
      request_of model post validate milliseconds s prompt temperature max_tokens

  attempts-Answers :
      (s : Schema) (prompt : Str) (temperature : Num) (max_tokens : Option ℕ) (w : W)
      → Answers s (request s prompt temperature max_tokens) (
          retry
            (generate_once model post validate milliseconds s prompt temperature max_tokens)
            2
            (generate_once model post validate milliseconds s prompt temperature max_tokens w))
  unfolding generate_once
  attempts-Answers s prompt temperature max_tokens w =
      let this = request s prompt temperature max_tokens in
      retry-keeps (generate_once model post validate milliseconds s prompt temperature max_tokens)
        (Answers s this) 2 _ (λ v. check_answer-Answers s this v (post this v) refl)
        (check_answer-Answers s this w (post this w) refl)

  -- A call of the model that returns has the output and the metrics of the answer to its last
  -- request, which is the one of this model, prompt, schema, temperature and limit.
  pub generate_structured-IsAnswered :
      (s : Schema) (prompt : Str) (temperature : Num) (max_tokens : Option ℕ) (w : W)
      → Ensures
          (generate_structured model post validate milliseconds s prompt temperature max_tokens w)
          (IsAnswered s (request s prompt temperature max_tokens))
          (λ e _. IsCallFailure e)
  unfolding generate_structured
  generate_structured-IsAnswered s prompt temperature max_tokens w =
      Ensures-weaken _ (λ a v h. h.0) (λ e v h. h.0)
        (normalised-Ensures s (request s prompt temperature max_tokens) _ {P = λ _. Unit {0}}
          (attempts-Answers s prompt temperature max_tokens w) tt)

  -- Where `requests` counts the POSTs, a call of the model makes at least one and at most three of
  -- them. If it returns, the output is what the schema makes of a content that is not blank, with
  -- metrics of the model; if it raises, then `LLMCallError`, or the error of an answer that is not
  -- JSON or has a null where the client reads an object or a number, and no error of the HTTP
  -- client.
  pub generate_structured-IsOutput :
      (requests : W → ℕ) (s : Schema) (prompt : Str) (temperature : Num) (max_tokens : Option ℕ)
      (w : W)
      → ((r : ChatRequest Num) (v : W) → requests (post r v).1 ≡ suc (requests v))
      → Ensures
          (generate_structured model post validate milliseconds s prompt temperature max_tokens w)
          (λ a w'.
            IsOutput s a × ((suc (requests w) ≤ requests w') × (requests w' ≤ requests w + 3)))
          (λ e w'.
            IsCallFailure e × ((suc (requests w) ≤ requests w') × (requests w' ≤ requests w + 3)))
  unfolding generate_structured generate_once
  generate_structured-IsOutput requests s prompt temperature max_tokens w counts =
      let once = generate_once model post validate milliseconds s prompt temperature max_tokens in
      let this = request s prompt temperature max_tokens in
      let one : (v : W) → requests (once v).1 ≡ suc (requests v) =
        λ v. ap requests (check_answer-world s (post this v)) ∙ counts this v in
      let (low, high) = retry-bounds once requests 2 (once w) one in
      let first = one w in
      Ensures-weaken _
        (λ a w' ((v, answer, posted, is), bounds). (IsOf-IsOutput s answer a.0 a.1 is, bounds))
        (λ e w' h. h)
        (normalised-Ensures s this (retry once 2 (once w))
          {P = λ v. (suc (requests w) ≤ requests v) × (requests v ≤ requests w + 3)}
          (attempts-Answers s prompt temperature max_tokens w)
          (omega (arith, low, first), omega (arith, high, first)))
