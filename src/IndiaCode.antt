-- ===== src/IndiaCode.antt =====
-- The text of the Constitution, tradegraph/src/rag/ingestion/india_code.py: the slice of a Part and the
-- cut at undecodable text. The articles are in the module below.
pub mod Slices
pub mod Clean
pub mod Articles
use juris_mind_ai.Base.{
  ℕ, zero, suc, ◌+◌, ◌-◌, ◌*◌, Bool, true, false, Option, none, some, List, [], ◌∷◌, ltb, leb, ◌&&◌,
  if◌then◌else◌, ◌==◌, nat_eq, length, take, drop,
}
use juris_mind_ai.Base.Result.{Result, ok, raised}
use juris_mind_ai.Base.Text.{Str, text as lit}
use juris_mind_ai.Failure.{Failure, parse_error}

-- `s.startswith(prefix)`
unfoldable pub starts_with : Str → Str → Bool
starts_with [] s = true
starts_with (p ∷ ps) [] = false
starts_with (p ∷ ps) (c ∷ s) = p == c && starts_with ps s

-- The first place of `needle` in `s`, which starts at the place `at` of the text.
unfoldable pub find_from : Str → ℕ → Str → Option ℕ
unfolding starts_with
find_from needle at [] = if starts_with needle [] then some at else none
find_from needle at (c ∷ s) =
    let later = find_from needle (suc at) s in if starts_with needle (c ∷ s) then some at else later

-- `text.find(needle, start)`; `none` is -1.
unfoldable pub find : Str → Str → ℕ → Option ℕ
unfolding find_from
find haystack needle start = find_from needle start (drop start haystack)

-- `find(end_marker, start + len(start_marker) if start >= 0 else 0)`
pub find_end : Str → Str → Str → Option ℕ → Option ℕ
unfolding find
find_end haystack start_marker end_marker none = find haystack end_marker 0
find_end haystack start_marker end_marker (some start) =
    find haystack end_marker (start + length start_marker)

pub text_between : Str → Option ℕ → Option ℕ → Result Failure Str
unfolding lit
text_between haystack (some start) (some end) = ok (take (end - start) (drop start haystack))
text_between haystack _ _ = raised (parse_error (lit "could not find bounds in extracted text"))

unfoldable pub slice_between_markers : Str → Str → Str → Result Failure Str
unfolding find find_end text_between
slice_between_markers haystack start_marker end_marker =
    let start = find haystack start_marker 0 in
    text_between haystack start (find_end haystack start_marker end_marker start)

unfoldable pub ascii_count : Str → ℕ
ascii_count [] = 0
ascii_count (c ∷ s) = let rest = ascii_count s in if ltb c 128 then suc rest else rest

-- `ascii_count / len(text) >= 0.9`, and true of the empty text
unfoldable pub is_mostly_ascii : Str → Bool
unfolding ascii_count
is_mostly_ascii s = leb (9 * length s) (10 * ascii_count s)

abbrev pub contamination_window : ℕ
contamination_window = 60

abbrev pub contamination_step : ℕ
contamination_step = 20

-- The loop over `range(start, len(text), step)`, with as many rounds as characters.
pub truncate_from : ℕ → Str → ℕ → Str
unfolding is_mostly_ascii
truncate_from zero s start = s
truncate_from (suc fuel) s start =
    let later = truncate_from fuel s (start + contamination_step) in
    if ltb start (length s)
    then if is_mostly_ascii (take contamination_window (drop start s)) then later else take start s
    else s

unfoldable pub truncate_at_contamination : Str → Str
unfolding truncate_from
truncate_at_contamination s = truncate_from (length s) s 0
