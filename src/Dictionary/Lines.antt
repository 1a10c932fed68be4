-- ===== src/Dictionary/Lines.antt =====
-- The text that a builder holds, as one line for each entry, and how the parser reads one line.
use mathlib.Core.List.{append-nil, append_assoc}
use ztgotroller.Base.{
  ℕ, ◌+◌, ◌≤◌, ◌≡◌, ◌≢◌, refl, sym, ap, ◌∙◌, arith, false, List, [], ◌∷◌, ◌++◌, Bytes, some, length,
  length-append, drop, take-append_length, drop-append_length, All, ltb, Bool-cases, inl, inr, ok,
  Result-cases, >>=-eq-ok,
}
use ztgotroller.Dictionary.{
  Builder, max_dictionary_length, has_invalid_key_byte, validate_dictionary_key, escaped_size,
  added_size, escape_byte, append_escaped, add, add_all,
}
use ztgotroller.Dictionary.Parse.{
  index_byte, unescape_from, unescape_value, has_invalid_byte, parse_line,
}

abbrev pub escaped : Bytes → Bytes
escaped [] = []
escaped (c ∷ cs) = escape_byte c ++ escaped cs

abbrev pub line : Bytes → Bytes → Bytes
line key value = key ++ (b'=' ∷ escaped value)

abbrev pub render : List (Bytes × Bytes) → Bytes
render [] = []
render ((k, v) ∷ es) = line k v ++ (b'\n' ∷ render es)

abbrev pub IsKey : Bytes → Type 0
IsKey k = (has_invalid_key_byte k ≡ false) × (k ≢ [])

abbrev pub HasKey : Bytes × Bytes → Type 0
HasKey e = IsKey e.0

append_escaped-escaped : (v out : Bytes) → append_escaped out v ≡ out ++ escaped v
unfolding append_escaped
append_escaped-escaped [] out = sym (append-nil out)
append_escaped-escaped (c ∷ cs) out =
    append_escaped-escaped cs (out ++ escape_byte c) ∙ append_assoc out (escape_byte c) (escaped cs)

length-escape_byte : (c : ℕ) → length (escape_byte c) ≡ escaped_size c
unfolding escape_byte escaped_size
length-escape_byte c = ground arith

pub length-escaped : (v : Bytes) → length (escaped v) ≡ added_size v
unfolding added_size
length-escaped [] = refl
length-escaped (c ∷ cs) =
    omega
      (arith, length-append (escape_byte c) (escaped cs), length-escape_byte c, length-escaped cs)

-- What a successful `Add` has checked and written.
pub record Added (b : Builder) (k v : Bytes) (b' : Builder) : Type 0 where
  pub key : IsKey k
  pub fits : length b'.buffer ≤ max_dictionary_length
  pub written : b'.buffer ≡ b.buffer ++ (line k v ++ (b'\n' ∷ []))

validate-IsKey : (k : Bytes) {u : Unit {0}} → validate_dictionary_key k ≡ ok u → IsKey k
unfolding validate_dictionary_key
validate-IsKey [] h = cc
validate-IsKey (c ∷ cs) h = (ground arith, ground arith)

written_lem :
    (b k v : Bytes)
    → append_escaped (b ++ k ++ (b'=' ∷ [])) v ++ (b'\n' ∷ []) ≡ b ++ (line k v ++ (b'\n' ∷ []))
written_lem b k v = simp (append_escaped-escaped, append_assoc)

length-line : (k v : Bytes) → length (line k v ++ (b'\n' ∷ [])) ≡ length k + 2 + added_size v
length-line k v = omega (
  arith,
  length-append (line k v) (b'\n' ∷ []),
  length-append k (b'=' ∷ escaped v),
  length-escaped v,
)

pub add-Added : (b : Builder) (k v : Bytes) {b' : Builder} → add b k v ≡ ok b' → Added b k v b'
unfolding add
add-Added b k v {b'} h = elim (Result-cases (validate_dictionary_key k)) [
  | inr (e, bad) ↦ absurd (ground arith)
  | inl (u, valid) ↦ elim (Bool-cases (ltb max_dictionary_length size)) [
    | inl over ↦ absurd (ground arith)
    | inr within ↦
        let written : b'.buffer ≡ b.buffer ++ (line k v ++ (b'\n' ∷ [])) =
          ground (arith, written_lem b.buffer k v) in
        record {
          key = validate-IsKey k valid;
          fits = ground (
            arith,
            ap length written,
            length-append b.buffer (line k v ++ (b'\n' ∷ [])),
            length-line k v,
          );
          written = written;
        }
  ]
]
  where
    size : ℕ
    size = length b.buffer + (length k + 2 + added_size v)

pub add_all-render :
    (es : List (Bytes × Bytes)) (b : Builder) {b' : Builder}
    → length b.buffer ≤ max_dictionary_length
    → add_all b es ≡ ok b'
    → (b'.buffer ≡ b.buffer ++ render es)
      × (length b'.buffer ≤ max_dictionary_length)
      × All HasKey es
unfolding add_all
add_all-render [] b fits h = (ground (arith, append-nil b.buffer), ground arith, tt)
add_all-render ((k, v) ∷ es) b {b'} fits h =
    let (c, added, rest) = >>=-eq-ok (add b k v) (λ c. add_all c es) h in
    let one = add-Added b k v added in
    let (all, fits', keys) = add_all-render es c one.fits rest in
    (all ∙ rw one.written (simp append_assoc), fits', (one.key, keys))

-- Reading one line back.

unescape_from-escape_byte :
    (c : ℕ) (out rest : Bytes)
    → unescape_from out (escape_byte c ++ rest) ≡ unescape_from (out ++ (c ∷ [])) rest
unfolding unescape_from escape_byte
unescape_from-escape_byte c out [] = ground arith
unescape_from-escape_byte c out (d ∷ rest) = ground arith

unescape_from-escaped : (v out : Bytes) → unescape_from out (escaped v) ≡ ok (out ++ v)
unescape_from-escaped [] out = unfold unescape_from in rw append-nil
unescape_from-escaped (c ∷ cs) out =
    unescape_from-escape_byte c out (escaped cs)
    ∙ unescape_from-escaped cs (out ++ (c ∷ []))
    ∙ ap ok (append_assoc out (c ∷ []) cs)

-- `unescapeValue` reads back what `Add` writes for a value.
pub unescape_value-escaped : (v : Bytes) → unescape_value (escaped v) ≡ ok v
unfolding unescape_value
unescape_value-escaped v = unescape_from-escaped v []

index_byte_key :
    (k rest : Bytes)
    → has_invalid_key_byte k ≡ false
    → index_byte (k ++ (b'=' ∷ rest)) b'=' ≡ some (length k)
unfolding index_byte has_invalid_key_byte
index_byte_key [] rest h = refl
index_byte_key (c ∷ cs) rest h = ground (arith, index_byte_key cs rest)

key_bytes_valid : (k : Bytes) → has_invalid_key_byte k ≡ false → has_invalid_byte k ≡ false
unfolding has_invalid_key_byte has_invalid_byte
key_bytes_valid [] h = refl
key_bytes_valid (c ∷ cs) h = ground (arith, key_bytes_valid cs)

drop-past : (k rest : Bytes) (x : ℕ) → drop (length k + 1) (k ++ (x ∷ rest)) ≡ rest
drop-past k rest x = rw (← append_assoc k (x ∷ []) rest) (
    drop-append_length (k ++ (x ∷ [])) rest (length k + 1)
      (omega (arith, length-append k (x ∷ []))))

pub parse_line-line :
    (number : ℕ) (k v : Bytes) → IsKey k → parse_line number (line k v) ≡ ok (k, v)
unfolding parse_line
parse_line-line number [] v h = absurd (h.1 refl)
parse_line-line number (c ∷ cs) v h = ground (
  arith,
  index_byte_key (c ∷ cs) (escaped v) h.0,
  take-append_length (c ∷ cs) (b'=' ∷ escaped v) (length (c ∷ cs)) refl,
  key_bytes_valid (c ∷ cs) h.0,
  drop-past (c ∷ cs) (escaped v) b'=',
  unescape_value-escaped v,
)
