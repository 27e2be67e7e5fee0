-- ===== src/Base/Text.antt =====
-- Python's `str` as the sequence of its code points, and what the program uses of its methods.
use Prim.Native.Char.{code}
use Prim.Native.Nat.{ℕ, zero, suc, ◌+◌, ◌-◌, ◌*◌, ◌/◌, ◌%◌}
use Prim.Native.String.{String}
use mathlib.Core.Bool.{Bool, true, false, ◌&&◌, ◌||◌}
use mathlib.Core.List.{List, [], ◌∷◌, ◌++◌, reverse}
use mathlib.Core.Option.{Option, none, some}
use juris_mind_ai.Base.Lists.{length}
use juris_mind_ai.Base.Tests.{ltb, leb, if◌then◌else◌}
use juris_mind_ai.Base.Equality.{◌==◌, nat_eq}

abbrev pub Str : Type 0
Str = List ℕ

-- A literal. It stays shut, so that a proof does not read its characters.
unfoldable pub text : String → Str
text String.[] = []
text (String.◌∷◌ c s) = code c ∷ text s

-- The truth value of a text or a list.
unfoldable pub truthy {ℓ} : {A : Type ℓ} → List A → Bool
truthy [] = false
truthy (x ∷ xs) = true

-- `sep.join(parts)`
unfoldable pub join : Str → List Str → Str
join sep [] = []
join sep (s ∷ []) = s
join sep (s ∷ rest) = s ++ (sep ++ join sep rest)

-- The characters that `str.strip` and the regular expression `\s` take for space, in ASCII and
-- Latin-1, and the separators of Unicode.
unfoldable pub is_space : ℕ → Bool
is_space c =
    (leb 9 c && leb c 13)
    || (leb 28 c && leb c 32)
    || c == 0x85
    || c == 0xa0
    || c == 0x1680
    || (leb 0x2000 c && leb c 0x200a)
    || c == 0x2028
    || c == 0x2029
    || c == 0x202f
    || c == 0x205f
    || c == 0x3000

unfoldable pub lstrip : Str → Str
unfolding is_space
lstrip [] = []
lstrip (c ∷ s) = let rest = lstrip s in if is_space c then rest else c ∷ s

unfoldable pub strip : Str → Str
unfolding lstrip
strip s = reverse (lstrip (reverse (lstrip s)))

unfoldable pub digits_onto : ℕ → ℕ → Str → Str
digits_onto zero n rest = rest
digits_onto (suc fuel) n rest =
    let c = 48 + n % 10 in
    let more = digits_onto fuel (n / 10) (c ∷ rest) in if ltb n 10 then c ∷ rest else more

-- `str(n)`; the number of its digits is at most `n + 1`.
unfoldable pub show_ℕ : ℕ → Str
show_ℕ n = digits_onto (suc n) n []

-- `s.upper()` on ASCII; other characters stay.
unfoldable pub upper : Str → Str
upper [] = []
upper (c ∷ s) = (if leb b'a' c && leb c b'z' then c - 32 else c) ∷ upper s

-- `s.replace(c, "")`
unfoldable pub without : ℕ → Str → Str
without c [] = []
without c (d ∷ s) = let rest = without c s in if d == c then rest else d ∷ rest

-- `s.lstrip(c)`
unfoldable pub lstrip_of : ℕ → Str → Str
lstrip_of c [] = []
lstrip_of c (d ∷ s) = let rest = lstrip_of c s in if d == c then rest else d ∷ s

onto_head : ℕ → List Str → List Str
onto_head c [] = (c ∷ []) ∷ []
onto_head c (part ∷ parts) = (c ∷ part) ∷ parts

-- `s.split(sep)` at a separator of one character
unfoldable pub split : ℕ → Str → List Str
unfolding onto_head
split sep [] = [] ∷ []
split sep (c ∷ s) = let parts = split sep s in if c == sep then [] ∷ parts else onto_head c parts

-- The decimal numeral `s`, read on from `n`; `none` at another character.
unfoldable pub read_onto : ℕ → Str → Option ℕ
read_onto n [] = some n
read_onto n (c ∷ s) =
    let rest = read_onto (n * 10 + (c - b'0')) s in if leb b'0' c && leb c b'9' then rest else none

-- `int(s)` of a numeral without sign or space; `none` is the `ValueError`.
unfoldable pub read_ℕ : Str → Option ℕ
unfolding read_onto
read_ℕ [] = none
read_ℕ (c ∷ s) = read_onto 0 (c ∷ s)

unfoldable pub zeros : ℕ → Str
zeros zero = []
zeros (suc n) = b'0' ∷ zeros n

-- `s.zfill(width)` of a text without a sign
unfoldable pub zfill : ℕ → Str → Str
unfolding zeros
zfill width s = zeros (width - length s) ++ s
