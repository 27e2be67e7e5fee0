-- ===== src/Payload.antt =====
-- The payload of a point in the vector store, `dict[str, object]`, and the texts of UUIDs.
use juris_mind_ai.Base.{
  ◌^◌, ℕ, zero, suc, ◌+◌, ◌-◌, ◌*◌, ◌/◌, ◌%◌, Option, none, some, [], ◌∷◌, ltb, leb, ◌&&◌,
  if◌then◌else◌, ◌==◌, nat_eq, list_eq,
}
use juris_mind_ai.Base.Dict
use juris_mind_ai.Base.Dict.{Dict}
use juris_mind_ai.Base.Text.{Str, text as lit, show_ℕ}
use juris_mind_ai.Rows.{Uuid}

pub data Value : Type 0 where
  str : Str → Value
  int : ℕ → Value
  null : Value

abbrev pub Payload : Type 0
Payload = Dict Str Value

-- `str(payload.get(key))`; an absent key is `None`.
str_of : Option Value → Str
unfolding show_ℕ lit
str_of none = lit "None"
str_of (some (str s)) = s
str_of (some (int n)) = show_ℕ n
str_of (some null) = lit "None"

unfoldable pub get_str : Str → Payload → Str
unfolding str_of Dict.lookup
get_str key p = str_of (Dict.lookup key p)

-- `str(payload.get("text", ""))`
text_or_empty : Option Value → Str
unfolding str_of
text_or_empty none = []
text_or_empty (some v) = str_of (some v)

unfoldable pub payload_text : Payload → Str
unfolding text_or_empty Dict.lookup
payload_text p = text_or_empty (Dict.lookup (lit "text") p)

hex_value : ℕ → Option ℕ
hex_value c =
    if leb b'0' c && leb c b'9'
    then some (c - b'0')
    else if leb b'a' c && leb c b'f'
    then some (c - b'a' + 10)
    else if leb b'A' c && leb c b'F'
    then some (c - b'A' + 10)
    else none

-- The digits of a hexadecimal numeral, hyphens dropped, and how many there are.
read_hex : Str → ℕ → ℕ → Option (ℕ × ℕ)
unfolding hex_value
read_hex [] count n = some (count, n)
read_hex (c ∷ s) count n =
    let skip = read_hex s count n in
    if c == b'-'
    then skip
    else elim (hex_value c) [ none ↦ none | some d ↦ read_hex s (count + 1) (n * 16 + d) ]

if_32 : Option (ℕ × ℕ) → Option Uuid
if_32 none = none
if_32 (some (count, n)) = if count == 32 then some n else none

-- `uuid.UUID(s)`, on what `str` of a UUID writes, upper case too: 32 digits and hyphens.
unfoldable pub parse_uuid : Str → Option Uuid
unfolding read_hex if_32
parse_uuid s = if_32 (read_hex s 0 0)

hex_digit : ℕ → ℕ
hex_digit d = if ltb d 10 then b'0' + d else b'a' + (d - 10)

-- The last `count` digits of `n`, in front of `rest`.
write_hex : ℕ → ℕ → Str → Str
unfolding hex_digit
write_hex zero n rest = rest
write_hex (suc count) n rest = write_hex count (n / 16) (hex_digit (n % 16) ∷ rest)

-- `str(id)`: groups of 8, 4, 4, 4 and 12 digits.
unfoldable pub show_uuid : Uuid → Str
unfolding write_hex
show_uuid n = write_hex 8 (n / 16 ^ 24) (
    b'-'
    ∷ write_hex 4 (n / 16 ^ 20) (
        b'-'
        ∷ write_hex 4 (n / 16 ^ 16) (b'-' ∷ write_hex 4 (n / 16 ^ 12) (b'-' ∷ write_hex 12 n []))))
