-- ===== src/Edgar/Pace.antt =====
-- The pace of the requests to EDGAR, `_RateLimiter` of tradegraph/src/rag/ingestion/sec_edgar.py. The
-- lock makes each `wait` one step; times are ticks of the monotonic clock.
use mathlib.Core.Path.{subst}
use mathlib.Core.Option.{none-ne-some, some-injective}
use juris_mind_ai.Base.{
  ℕ, zero, suc, ◌+◌, ◌-◌, ◌*◌, ◌≤◌, Option, none, some, List, [], ◌∷◌, ◌≡◌, arith, get_elem?,
}

-- The time left to sleep.
unfoldable pub remaining : ℕ → Option ℕ → ℕ → ℕ
remaining min_interval none now = 0
remaining min_interval (some last) now = min_interval - (now - last)

-- `wait` at the time `now`, where the sleep lasts `late` ticks longer than asked: the time that
-- becomes `_last_request_at`.
unfoldable pub wait : ℕ → Option ℕ → ℕ → ℕ → ℕ
unfolding remaining
wait min_interval last now late = now + remaining min_interval last now + late

-- The times of a sequence of requests, each made `gap` ticks after the one before.
unfoldable pub request_times : ℕ → Option ℕ → ℕ → List (ℕ × ℕ) → List ℕ
unfolding wait
request_times min_interval last clock [] = []
request_times min_interval last clock ((gap, late) ∷ calls) =
    let at = wait min_interval last (clock + gap) late in
    at ∷ request_times min_interval (some at) at calls

module _ (min_interval : ℕ) where
  spaced_from :
      (calls : List (ℕ × ℕ)) (last k t : ℕ)
      → get_elem? (request_times min_interval (some last) last calls) k ≡ some t
      → last + suc k * min_interval ≤ t
  unfolding request_times wait remaining
  spaced_from [] last k t h = absurd (none-ne-some t h)
  spaced_from ((gap, late) ∷ calls) last zero t h = let e = some-injective _ t h in omega (arith, e)
  spaced_from ((gap, late) ∷ calls) last (suc k) t h =
      let at = wait min_interval (some last) (last + gap) late in
      let later = spaced_from calls at k t h in omega (arith, later)

  -- Between a request and the one that comes `suc n` requests later lie at least `suc n` times the least
  -- interval, however long the callers wait and the sleeps last.
  pub request_times-spaced :
      (calls : List (ℕ × ℕ)) (last : Option ℕ) (clock i j n t u : ℕ)
      → get_elem? (request_times min_interval last clock calls) i ≡ some t
      → get_elem? (request_times min_interval last clock calls) j ≡ some u
      → j ≡ i + suc n
      → t + suc n * min_interval ≤ u
  unfolding request_times
  request_times-spaced [] last clock i j n t u h h' e = absurd (none-ne-some t h)
  request_times-spaced ((gap, late) ∷ calls) last clock i zero n t u h h' e =
      absurd (omega (arith, e))
  request_times-spaced ((gap, late) ∷ calls) last clock zero (suc j) n t u h h' e =
      let at = wait min_interval last (clock + gap) late in
      let later = spaced_from calls at j u h' in
      let first = some-injective at t h in
      let same : j ≡ n = omega (arith, e) in
      let far : at + suc n * min_interval ≤ u =
        subst (λ k. at + suc k * min_interval ≤ u) same later in
      omega (arith, far, first)
  request_times-spaced ((gap, late) ∷ calls) last clock (suc i) (suc j) n t u h h' e =
      let at = wait min_interval last (clock + gap) late in
      request_times-spaced calls (some at) at i j n t u h h' (omega (arith, e))
