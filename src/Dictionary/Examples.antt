-- ===== src/Dictionary/Examples.antt =====
-- Runs of the dictionary code on concrete input, and its theorems at concrete input.
use ztgotroller.Base.{
  format_hex, ◌≡◌, refl, arith, List, [], ◌∷◌, Bytes, ascii, none, some, ok, err, hex_digit,
}
use ztgotroller.Dictionary.{Builder, new_builder, add, add_all, add_hex_uint, invalid_key}
use ztgotroller.Dictionary.Hex.{hex_uint-add_hex_uint}
use ztgotroller.Dictionary.Parse.{
  Metadata, lookup, hex_uint, parse_dictionary, parse_metadata, no_separator, incomplete_escape,
}
use ztgotroller.Dictionary.RoundTrip.{parse_dictionary-add_all}

abbrev entries : List (Bytes × Bytes)
entries = (ascii "id", ascii "8056c2e21c") ∷ (ascii "n", b'a' ∷ b'=' ∷ 0 ∷ b'\\' ∷ b'\n' ∷ []) ∷ []

abbrev built : Builder
built = record { buffer = ascii "id=8056c2e21c\nn=a\\e\\0\\\\\\n\n" }

add_all-entries : add_all new_builder entries ≡ ok built
unfolding add_all
add_all-entries = refl

add_bad_key : add new_builder (ascii "a b") [] ≡ err invalid_key
unfolding add
add_bad_key = refl

parse_bad_line : parse_metadata (ascii "a=1\n=2\n") ≡ err (no_separator 2)
unfolding parse_metadata
parse_bad_line = refl

parse_bad_escape : parse_metadata (ascii "a=1\\") ≡ err incomplete_escape
unfolding parse_metadata
parse_bad_escape = refl

parse_dictionary-add_all_example :
    (m : Metadata) × (parse_dictionary built.buffer ≡ ok m)
    × ((k : Bytes) → lookup k m ≡ lookup k entries)
parse_dictionary-add_all_example = parse_dictionary-add_all entries add_all-entries

abbrev with_revision : Builder
with_revision = record { buffer = ascii "id=8056c2e21c\nn=a\\e\\0\\\\\\n\nr=1f\n" }

add_revision : add_hex_uint built (ascii "r") 0x1f ≡ ok with_revision
unfolding add_hex_uint add format_hex hex_digit
add_revision = refl

no_revision : lookup (ascii "r") entries ≡ none
unfolding lookup
no_revision = refl

hex_uint-add_hex_uint_example :
    (m : Metadata) × (parse_dictionary with_revision.buffer ≡ ok m)
    × (hex_uint m (ascii "r") ≡ some 0x1f)
hex_uint-add_hex_uint_example =
    hex_uint-add_hex_uint entries (ascii "r") 0x1f (omega arith) no_revision add_all-entries
      add_revision
