-- ===== src/IndiaCode/Clean.antt =====
-- What is left of a text that is cut where it stops to be decoded.
use juris_mind_ai.Base.{ltb→lt}
use Prim.Native.Nat.{zero}
use juris_mind_ai.IndiaCode.{
  truncate_at_contamination, contamination_step, contamination_window, is_mostly_ascii,
  truncate_from,
}
use juris_mind_ai.Base.Text.{Str}
use juris_mind_ai.Base.{
  refl, inr, ltb, false, Bool-cases, arith, ◌<◌, ◌⊎◌, suc, inl, ◌*◌, drop, ◌+◌, true, ◌≤◌, length,
  ◌≡◌, take, ℕ, nat_eq,
}

-- The window at the place `start`.
abbrev pub window_at : Str → ℕ → Str
window_at s start = take contamination_window (drop start s)

-- `out` is the text up to `cut`: each window of the steps before it is mostly ASCII, and the one at
-- it is not, unless the whole text is left.
pub record IsClean (s out : Str) (start : ℕ) : Type 0 where
  pub steps : ℕ
  pub cut : ℕ
  pub is_cut : cut ≡ start + steps * contamination_step
  pub is_prefix :
      ((out ≡ s) × (length s ≤ cut))
      ⊎ ((out ≡ take cut s) × (cut < length s) × (is_mostly_ascii (window_at s cut) ≡ false))
  pub is_clean :
      (j : ℕ) → j < steps → is_mostly_ascii (window_at s (start + j * contamination_step)) ≡ true

module _ (s : Str) where
  clean_before :
      (start n : ℕ)
      → is_mostly_ascii (window_at s start) ≡ true
      → ((j : ℕ)
          → j < n
          → is_mostly_ascii (window_at s (start + contamination_step + j * contamination_step))
            ≡ true)
      → (j : ℕ) → j < suc n
      → is_mostly_ascii (window_at s (start + j * contamination_step)) ≡ true
  clean_before start n here rest zero less =
      let e : start + 0 * contamination_step ≡ start = omega arith in rw e here
  clean_before start n here rest (suc j) less =
      let e : start + suc j * contamination_step
          ≡ start + contamination_step + j * contamination_step =
        omega arith in
      rw e (rest j (omega (arith, less)))

  -- The loop stops at `start`.
  stop_at :
      (start : ℕ) (out : Str)
      → (((out ≡ s) × (length s ≤ start))
          ⊎ ((out ≡ take start s)
              × (start < length s)
              × (is_mostly_ascii (window_at s start) ≡ false)))
      → IsClean s out start
  stop_at start out h = record {
    steps = 0;
    cut = start;
    is_cut = omega arith;
    is_prefix = h;
    is_clean = λ j less. absurd (omega (arith, less));
  }

  one_step_on :
      (start : ℕ) (out : Str)
      → is_mostly_ascii (window_at s start) ≡ true
      → IsClean s out (start + contamination_step)
      → IsClean s out start
  one_step_on start out here h = record {
    steps = suc h.steps;
    cut = h.cut;
    is_cut = omega (arith, h.is_cut);
    is_prefix = h.is_prefix;
    is_clean = clean_before start h.steps here h.is_clean;
  }

  truncate_from-IsClean :
      (fuel start : ℕ)
      → length s ≤ start + fuel * contamination_step
      → IsClean s (truncate_from fuel s start) start
  unfolding truncate_from
  truncate_from-IsClean zero start enough = stop_at start s (inl (refl, omega (arith, enough)))
  truncate_from-IsClean (suc fuel) start enough = elim (Bool-cases (ltb start (length s))) [
    | inr past ↦ rw past (stop_at start s (inl (refl, ground (arith, past))))
    | inl inside ↦ elim (Bool-cases (is_mostly_ascii (window_at s start))) [
      | inl clean ↦
          let later = truncate_from fuel s (start + contamination_step) in
          rw inside (
            rw clean (
              one_step_on start later clean
                (truncate_from-IsClean fuel (start + contamination_step) (omega (arith, enough)))))
      | inr dirty ↦ rw inside (
          rw dirty
            (stop_at start (take start s) (inr (refl, ltb→lt start (length s) inside, dirty))))
    ]
  ]

  -- What `_truncate_at_contamination` returns: the text up to a multiple of the step, where each
  -- window at a multiple before is mostly ASCII and the window at it is not, or the whole text, when
  -- all its windows are mostly ASCII.
  pub truncate_at_contamination-IsClean : IsClean s (truncate_at_contamination s) 0
  unfolding truncate_at_contamination
  truncate_at_contamination-IsClean = truncate_from-IsClean (length s) 0 (omega arith)
