-- ===== src/Dictionary.antt =====
-- `DictionaryBuilder` of internal/zerotier/networkconfig/dictionary.go: the escaped key/value text
-- that carries a network configuration. A Go string or byte slice is the list of its bytes.
pub mod Parse
mod Lines
pub mod RoundTrip
pub mod Hex
mod Examples
use ztgotroller.Base.{
  ℕ, zero, suc, ◌+◌, ◌-◌, ◌%◌, ◌/◌, Bool, true, false, ◌||◌, List, [], ◌∷◌, ◌++◌, Bytes, length,
  ltb, ◌==◌, if◌then◌else◌, Result, ok, err, ◌>>=◌, ◌>>◌, fail_if, hex_digit, format_hex,
}

pub data Error : Type 0 where
  empty_key invalid_key dictionary_too_long : Error

abbrev pub max_dictionary_length : ℕ
max_dictionary_length = 65535

-- The field `data` of the builder.
pub record Builder : Type 0 where
  pub buffer : Bytes

abbrev pub new_builder : Builder
new_builder = record { buffer = [] }

unfoldable pub is_key_byte_invalid : ℕ → Bool
is_key_byte_invalid c = ltb c 0x21 || ltb 0x7e c || c == b'\\' || c == b'='

unfoldable pub has_invalid_key_byte : Bytes → Bool
unfolding is_key_byte_invalid
has_invalid_key_byte [] = false
has_invalid_key_byte (c ∷ cs) = is_key_byte_invalid c || has_invalid_key_byte cs

unfoldable pub validate_dictionary_key : Bytes → Result Error (Unit {0})
unfolding has_invalid_key_byte
validate_dictionary_key [] = err empty_key
validate_dictionary_key (c ∷ cs) = fail_if (has_invalid_key_byte (c ∷ cs)) invalid_key

-- The bytes that the first switch of `Add` counts for one byte of the value.
unfoldable pub escaped_size : ℕ → ℕ
escaped_size c = if c == 0 || c == b'\r' || c == b'\n' || c == b'\\' || c == b'=' then 2 else 1

unfoldable pub added_size : Bytes → ℕ
unfolding escaped_size
added_size [] = 0
added_size (c ∷ cs) = escaped_size c + added_size cs

-- The bytes that the second switch of `Add` appends for one byte of the value.
unfoldable pub escape_byte : ℕ → Bytes
escape_byte c =
    if c == 0
    then b'\\' ∷ b'0' ∷ []
    else if c == b'\r'
    then b'\\' ∷ b'r' ∷ []
    else if c == b'\n'
    then b'\\' ∷ b'n' ∷ []
    else if c == b'\\'
    then b'\\' ∷ b'\\' ∷ []
    else if c == b'='
    then b'\\' ∷ b'e' ∷ []
    else c ∷ []

unfoldable pub append_escaped : Bytes → Bytes → Bytes
unfolding escape_byte
append_escaped out [] = out
append_escaped out (c ∷ cs) = append_escaped (out ++ escape_byte c) cs

unfoldable pub add : Builder → Bytes → Bytes → Result Error Builder
unfolding validate_dictionary_key added_size append_escaped
add builder key value = do
  validate_dictionary_key key
  let added = length key + 2 + added_size value
  fail_if (ltb max_dictionary_length (length builder.buffer + added)) dictionary_too_long
  let headed = builder.buffer ++ key ++ (b'=' ∷ [])
  ok (record { buffer = append_escaped headed value ++ (b'\n' ∷ []) })

-- A series of calls of `Add`, as `BuildDictionary` makes them, up to the first error.
unfoldable pub add_all : Builder → List (Bytes × Bytes) → Result Error Builder
unfolding add
add_all builder [] = ok builder
add_all builder ((key, value) ∷ entries) = do next ← add builder key value; add_all next entries

unfoldable pub add_hex_uint : Builder → Bytes → ℕ → Result Error Builder
add_hex_uint builder key value = add builder key (format_hex 15 value)
