-- ===== src/Dictionary/Parse.antt =====
-- `parseDictionary`, `unescapeValue` and `Metadata.HexUint` of
-- internal/zerotier/networkconfig/request.go.
use ztgotroller.Base.{
  ℕ, zero, suc, ◌+◌, ◌-◌, ◌*◌, ◌^◌, Bool, false, ◌&&◌, ◌||◌, List, [], ◌∷◌, ◌++◌, Bytes, Option,
  none, some, length, take, drop, ltb, leb, ◌==◌, if◌then◌else◌, bytes_eq, Result, ok, err, ◌>>=◌,
  ◌>>◌, fail_if, bit_or, ◌%◌,
}
use ztgotroller.Dictionary.{max_dictionary_length}

pub data ParseError : Type 0 where
  null_byte length_exceeded incomplete_escape : ParseError
  no_separator invalid_key_on_line : ℕ → ParseError

-- A Go map that is only filled where a key is missing, with its entries in insertion order.
abbrev pub Metadata : Type 0
Metadata = List (Bytes × Bytes)

unfoldable pub lookup : Bytes → Metadata → Option Bytes
lookup k [] = none
lookup k ((j, v) ∷ m) = if bytes_eq j k then some v else lookup k m

-- `bytes.IndexByte`; `none` is -1.
unfoldable pub index_byte : Bytes → ℕ → Option ℕ
index_byte [] b = none
index_byte (c ∷ cs) b =
    if c == b then some 0 else elim (index_byte cs b) [ none ↦ none | some i ↦ some (suc i) ]

unfoldable pub is_line_break : ℕ → Bool
is_line_break c = c == b'\r' || c == b'\n'

abbrev pub flush : Bytes → List Bytes → List Bytes
flush [] lines = lines
flush (c ∷ cs) lines = (c ∷ cs) ∷ lines

-- `bytes.FieldsFunc`: the runs between line breaks, without the empty ones. The first argument is
-- the run read so far.
unfoldable pub split_lines_from : Bytes → Bytes → List Bytes
unfolding is_line_break
split_lines_from run [] = flush run []
split_lines_from run (c ∷ cs) =
    let closed = flush run (split_lines_from [] cs) in
    let longer = split_lines_from (run ++ (c ∷ [])) cs in if is_line_break c then closed else longer

unfoldable pub split_lines : Bytes → List Bytes
unfolding split_lines_from
split_lines = split_lines_from []

unfoldable pub unescape_byte : ℕ → ℕ
unescape_byte c =
    if c == b'0'
    then 0
    else if c == b'r'
    then b'\r'
    else if c == b'n'
    then b'\n'
    else if c == b'e'
    then b'='
    else if c == b'\\'
    then b'\\'
    else c

-- The loop of `unescapeValue`; the first argument is `result`.
unfoldable pub unescape_from : Bytes → Bytes → Result ParseError Bytes
unfolding unescape_byte
unescape_from result [] = ok result
unescape_from result (c ∷ []) =
    if c == b'\\' then err incomplete_escape else ok (result ++ (c ∷ []))
unescape_from result (c ∷ d ∷ rest) =
    let escaped = unescape_from (result ++ (unescape_byte d ∷ [])) rest in
    let plain = unescape_from (result ++ (c ∷ [])) (d ∷ rest) in
    if c == b'\\' then escaped else plain

unfoldable pub unescape_value : Bytes → Result ParseError Bytes
unfolding unescape_from
unescape_value = unescape_from []

unfoldable pub has_invalid_byte : Bytes → Bool
has_invalid_byte [] = false
has_invalid_byte (c ∷ cs) = (ltb c 0x21 || ltb 0x7e c || c == b'\\') || has_invalid_byte cs

-- The key and the value of a line, whose number counts from 0.
unfoldable pub parse_line : ℕ → Bytes → Result ParseError (Bytes × Bytes)
unfolding index_byte has_invalid_byte unescape_value
parse_line number line = elim (index_byte line b'=') [
  | none ↦ err (no_separator (number + 1))
  | some zero ↦ err (no_separator (number + 1))
  | some (suc i) ↦ do
    let separator = suc i
    let key = take separator line
    fail_if (has_invalid_byte key) (invalid_key_on_line (number + 1))
    value ← unescape_value (drop (separator + 1) line)
    ok (key, value)
]

-- The first of two entries with one key stays.
unfoldable pub insert_first : Bytes × Bytes → Metadata → Metadata
unfolding lookup
insert_first (k, v) m = elim (lookup k m) [ none ↦ m ++ ((k, v) ∷ []) | some _ ↦ m ]

unfoldable pub parse_lines : ℕ → List Bytes → Metadata → Result ParseError Metadata
unfolding parse_line insert_first
parse_lines number [] m = ok m
parse_lines number ([] ∷ lines) m = parse_lines (number + 1) lines m
parse_lines number ((c ∷ cs) ∷ lines) m = do
  entry ← parse_line number (c ∷ cs)
  parse_lines (number + 1) lines (insert_first entry m)

unfoldable pub parse_entries : Bytes → Result ParseError Metadata
unfolding index_byte split_lines parse_lines
parse_entries serialized = elim (index_byte serialized 0) [
  | some _ ↦ err null_byte
  | none ↦ parse_lines 0 (split_lines serialized) []
]

abbrev pub max_metadata_length : ℕ
max_metadata_length = 1023

unfoldable pub parse_metadata : Bytes → Result ParseError Metadata
unfolding parse_entries
parse_metadata serialized = do
  fail_if (ltb max_metadata_length (length serialized)) length_exceeded
  parse_entries serialized

unfoldable pub parse_dictionary : Bytes → Result ParseError Metadata
unfolding parse_entries
parse_dictionary serialized = do
  fail_if (ltb max_dictionary_length (length serialized)) length_exceeded
  parse_entries serialized

-- The switch of `HexUint`.
unfoldable pub nibble_of : ℕ → Option ℕ
nibble_of c =
    if leb b'0' c && leb c b'9'
    then some (c - b'0')
    else if leb b'a' c && leb c b'f'
    then some (c - b'a' + 10)
    else if leb b'A' c && leb c b'F'
    then some (c - b'A' + 10)
    else none

-- `result << 4 | nibble`, refused where the top four bits would be lost.
unfoldable pub hex_uint_from : ℕ → Bytes → Option ℕ
unfolding nibble_of
hex_uint_from result [] = some result
hex_uint_from result (c ∷ cs) = elim (nibble_of c) [
  | none ↦ none
  | some nibble ↦
      let rest = hex_uint_from (bit_or (result * 16 % 2 ^ 64) nibble) cs in
      if ltb (2 ^ 60 - 1) result then none else rest
]

unfoldable pub hex_uint_value : Bytes → Option ℕ
hex_uint_value [] = none
hex_uint_value (c ∷ cs) = hex_uint_from 0 (c ∷ cs)

unfoldable pub hex_uint : Metadata → Bytes → Option ℕ
hex_uint m key = elim (lookup key m) [ none ↦ none | some value ↦ hex_uint_value value ]
