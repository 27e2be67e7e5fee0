-- ===== src/Chunking/Windows.antt =====
-- The windows that the loop of `_chunk_section` cuts, by a plain description of them.
use juris_mind_ai.Base.{
  All, ◌*◌, nat_beq_iff, ltb_of_le, nat_beq_of_ne, length-take, take-append-drop, drop-append, sym,
  refl, ◌∙◌, drop-drop, length-drop, take_of_length-le, arith, ap, ◌≡◌, ◌-◌, ◌≤◌, min, ◌++◌, ◌<◌, ℕ,
  zero, suc, ◌+◌, List, [], ◌∷◌, ltb, lt→ltb, if◌then◌else◌, length, take, drop,
}
use native.Mathlib.Decide.{dec_lt}
use mathlib.Core.List.{flat_map, append-nil}
use juris_mind_ai.Base.Text.{Str}
use juris_mind_ai.Chunking.{section_loop, TextChunk, Encoding}

-- The windows that start at the head of `rest`, each `stride` behind the one before.
abbrev pub windows : ℕ → ℕ → ℕ → List ℕ → List (List ℕ)
windows zero size stride rest = []
windows (suc fuel) size stride rest =
    let later = windows fuel size stride (drop stride rest) in
    take size rest ∷ (if ltb size (length rest) then later else [])

-- The chunks of the windows, numbered on from `index`.
abbrev pub number {ℓ} : {A : Type ℓ} → (A → ℕ → TextChunk) → ℕ → List A → List TextChunk
number f index [] = []
number f index (w ∷ ws) = f w index ∷ number f (index + 1) ws

abbrev pub as_chunk : Encoding → Str → List ℕ → ℕ → TextChunk
as_chunk encoding name window index = record {
  section = name;
  chunk_index = index;
  text = encoding.decode window;
  token_count = length window;
}

-- What the windows hold, the overlap read once.
abbrev pub reassemble : ℕ → List (List ℕ) → List ℕ
reassemble overlap [] = []
reassemble overlap (w ∷ ws) = w ++ flat_map (drop overlap) ws

take-min :
    (size start : ℕ) (tokens : List ℕ)
    → take (min (start + size) (length tokens) - start) (drop start tokens)
      ≡ take size (drop start tokens)
take-min size start tokens = elim (dec_lt (start + size) (length tokens)) [
  | yes h ↦ ap (λ k. take k (drop start tokens)) (omega arith)
  | no h ↦
      take_of_length-le _ (drop start tokens) (omega (arith, length-drop start tokens))
      ∙ sym (take_of_length-le size (drop start tokens) (omega (arith, length-drop start tokens)))
]

module _ (encoding : Encoding) (name : Str) (size stride : ℕ) (small : stride ≤ size) where
  pub section_loop-eq-windows :
      (fuel index start : ℕ) (tokens : List ℕ)
      → start < length tokens
      → section_loop encoding fuel name size stride tokens index start
        ≡ number (as_chunk encoding name) index (windows fuel size stride (drop start tokens))
  unfolding section_loop
  section_loop-eq-windows zero index start tokens h = refl
  section_loop-eq-windows (suc fuel) index start tokens h =
      let left = length-drop start tokens in
      let step = start + stride in
      let stop = min (start + size) (length tokens) in
      let n = length tokens in
      let m = length (drop start tokens) in
      rw (take-min size start tokens, drop-drop stride start tokens, lt→ltb _ _ h)
        (elim (dec_lt (start + size) (length tokens)) [
          | yes more ↦
              rw (nat_beq_of_ne stop n (omega arith), lt→ltb size m (omega (arith, left)))
                (ap (◌∷◌ (as_chunk encoding name (take size (drop start tokens)) index))
                  (section_loop-eq-windows fuel (index + 1) step tokens (omega arith)))
          | no last ↦
              rw ((nat_beq_iff stop n).1 (omega arith), ltb_of_le size m (omega (arith, left)))
        ])

later_windows :
    (fuel size stride overlap : ℕ) (rest : List ℕ)
    → overlap ≤ size
    → overlap < length rest
    → length rest ≤ fuel
    → flat_map (drop overlap) (windows fuel size stride rest)
      ≡ drop overlap (reassemble overlap (windows fuel size stride rest))
unfolding flat_map
later_windows zero size stride overlap rest _ some_left enough = absurd (omega arith)
later_windows (suc fuel) size stride overlap rest fits some_left enough =
    sym (drop-append overlap (take size rest) _ (omega (arith, length-take size rest)))

-- Every token is in the windows, in order, and none is there twice but in the overlaps.
pub reassemble-windows :
    (fuel size overlap : ℕ) (rest : List ℕ)
    → overlap < size
    → length rest ≤ fuel
    → reassemble overlap (windows fuel size (size - overlap) rest) ≡ rest
unfolding flat_map
reassemble-windows zero size overlap [] h enough = refl
reassemble-windows zero size overlap (x ∷ rest) h enough = absurd (omega arith)
reassemble-windows (suc fuel) size overlap rest h enough = elim (dec_lt size (length rest)) [
  | yes more ↦
      let stride = size - overlap in
      let shorter = length-drop stride rest in
      let e : stride + overlap ≡ size = omega arith in
      rw (lt→ltb _ _ more) (
        rw
          (later_windows fuel size stride overlap (drop stride rest) (omega arith)
            (omega (arith, shorter)) (omega (arith, shorter)))
          (rw
            (
              reassemble-windows fuel size overlap (drop stride rest) h (omega (arith, shorter)),
              drop-drop overlap stride rest,
              e,
            )
            (take-append-drop size rest)))
  | no last ↦
      rw (ltb_of_le size (length rest) (omega arith))
        (append-nil (take size rest) ∙ take_of_length-le size rest (omega arith))
]

-- No window is longer than `size`, and none is empty.
pub windows-sizes :
    (fuel size stride : ℕ) (rest : List ℕ)
    → 0 < size
    → stride ≤ size
    → 0 < length rest
    → All (λ w. (0 < length w) × (length w ≤ size)) (windows fuel size stride rest)
windows-sizes zero size stride rest some_room small some_left = tt
windows-sizes (suc fuel) size stride rest some_room small some_left = (
  (omega (arith, length-take size rest), omega (arith, length-take size rest)),
  elim (dec_lt size (length rest)) [
    | yes more ↦ rw (lt→ltb _ _ more) (
        windows-sizes fuel size stride (drop stride rest) some_room small
          (omega (arith, length-drop stride rest)))
    | no last ↦ rw (ltb_of_le size (length rest) (omega arith)) tt
  ],
)

-- Rounds past the last window change nothing.
pub windows-fuel :
    (fuel more size stride : ℕ) (rest : List ℕ)
    → 0 < stride
    → stride ≤ size
    → 0 < length rest
    → length rest ≤ fuel
    → windows (fuel + more) size stride rest ≡ windows fuel size stride rest
windows-fuel zero more size stride rest moves small some_left enough = absurd (omega arith)
windows-fuel (suc fuel) more size stride rest moves small some_left enough =
    let e : suc fuel + more ≡ suc (fuel + more) = omega arith in
    rw e (elim (dec_lt size (length rest)) [
      | yes further ↦
          let shorter = length-drop stride rest in
          rw (lt→ltb _ _ further) (
            ap (◌∷◌ (take size rest)) (
              windows-fuel fuel more size stride (drop stride rest) moves small
                (omega (arith, shorter)) (omega (arith, shorter))))
      | no last ↦ rw (ltb_of_le size (length rest) (omega arith))
    ])

one_more :
    (m size stride left : ℕ)
    → size < left + stride
    → (0 < m → size + m * stride < left + stride)
    → size + suc m * stride < left + stride + stride
one_more zero size stride left h short = omega arith
one_more (suc m) size stride left h short =
    let bound : size + suc m * stride < left + stride = short (omega arith) in omega arith

-- How many windows there are: with `m + 1` of them, `m` strides and a window reach the end, and
-- `m - 1` strides and a window do not.
pub length-windows :
    (fuel size stride : ℕ) (rest : List ℕ)
    → 0 < stride
    → stride ≤ size
    → 0 < length rest
    → length rest ≤ fuel
    → (m : ℕ) × (length (windows fuel size stride rest) ≡ suc m)
      × (length rest ≤ size + m * stride)
      × (0 < m → size + m * stride < length rest + stride)
length-windows zero size stride rest moves small some_left enough = absurd (omega arith)
length-windows (suc fuel) size stride rest moves small some_left enough =
    elim (dec_lt size (length rest)) [
      | yes further ↦
          let shorter = length-drop stride rest in
          let (m, count, reach, short) =
            length-windows fuel size stride (drop stride rest) moves small (omega (arith, shorter))
              (omega (arith, shorter)) in
          rw (lt→ltb _ _ further) (
            suc m,
            ap suc count,
            omega (arith, shorter),
            λ _. omega (
              arith,
              shorter,
              one_more m size stride (length (drop stride rest)) (omega (arith, shorter)) short,
            ),
          )
      | no last ↦
          rw (ltb_of_le size (length rest) (omega arith)) (0, refl, omega arith, λ h. elim h [ ])
    ]
