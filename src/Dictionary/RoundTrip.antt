-- ===== src/Dictionary/RoundTrip.antt =====
-- `parseDictionary` on what a `DictionaryBuilder` has written.
use mathlib.Core.List.{append-nil, append_assoc}
use ztgotroller.Base.{
  ℕ, ◌+◌, ◌≡◌, ◌≢◌, refl, sym, ap, ◌∙◌, arith, false, true, List, [], ◌∷◌, ◌++◌, Bytes, Option,
  none, some, All, if◌then◌else◌, ok, map, All-append, bytes_eq, bytes_eq_iff,
}
use ztgotroller.Dictionary.{Builder, new_builder, has_invalid_key_byte, escape_byte, add_all}
use ztgotroller.Dictionary.Lines.{
  escaped, line, render, IsKey, HasKey, add_all-render, parse_line-line,
}
use ztgotroller.Dictionary.Parse.{
  Metadata, lookup, index_byte, is_line_break, flush, split_lines_from, split_lines, insert_first,
  parse_lines, parse_entries, parse_dictionary,
}

-- Neither a line break nor a null byte.
abbrev Inner : ℕ → Type 0
Inner c = (is_line_break c ≡ false) × (c ≢ 0)

key-Inner : (k : Bytes) → has_invalid_key_byte k ≡ false → All Inner k
unfolding has_invalid_key_byte is_line_break
key-Inner [] h = tt
key-Inner (c ∷ cs) h = ((ground arith, ground arith), key-Inner cs (ground arith))

escape_byte-Inner : (c : ℕ) → All Inner (escape_byte c)
unfolding escape_byte is_line_break
escape_byte-Inner c = ground arith

escaped-Inner : (v : Bytes) → All Inner (escaped v)
escaped-Inner [] = tt
escaped-Inner (c ∷ cs) =
    All-append Inner (escape_byte c) (escaped cs) (escape_byte-Inner c) (escaped-Inner cs)

line-Inner : (k v : Bytes) → IsKey k → All Inner (line k v)
unfolding is_line_break
line-Inner k v h =
    All-append Inner k (b'=' ∷ escaped v) (key-Inner k h.0) ((refl, omega arith), escaped-Inner v)

split_lines_from-line :
    (l run rest : Bytes)
    → All Inner l
    → split_lines_from run (l ++ (b'\n' ∷ rest)) ≡ flush (run ++ l) (split_lines_from [] rest)
unfolding split_lines_from
split_lines_from-line [] run rest h = unfold is_line_break in rw append-nil
split_lines_from-line (c ∷ cs) run rest h =
    rw h.0.0 (split_lines_from-line cs (run ++ (c ∷ [])) rest h.1 ∙ rw append_assoc)

abbrev lines : List (Bytes × Bytes) → List Bytes
lines = map (λ e. line e.0 e.1)

flush-line : (k v : Bytes) (rest : List Bytes) → flush (line k v) rest ≡ line k v ∷ rest
flush-line [] v rest = refl
flush-line (c ∷ cs) v rest = refl

split_lines-render :
    (es : List (Bytes × Bytes)) → All HasKey es → split_lines (render es) ≡ lines es
unfolding split_lines
split_lines-render [] h = unfold split_lines_from in refl
split_lines-render ((k, v) ∷ es) h =
    split_lines_from-line (line k v) [] (render es) (line-Inner k v h.0)
    ∙ flush-line k v _
    ∙ ap (◌∷◌ (line k v)) (split_lines-render es h.1)

abbrev insert_all : List (Bytes × Bytes) → Metadata → Metadata
insert_all [] m = m
insert_all (e ∷ es) m = insert_all es (insert_first e m)

parse_lines_step :
    (number : ℕ) (k v : Bytes) (rest : List Bytes) (m : Metadata)
    → IsKey k
    → parse_lines number (line k v ∷ rest) m ≡ parse_lines (number + 1) rest (insert_first (k, v) m)
unfolding parse_lines
parse_lines_step number [] v rest m h = absurd (h.1 refl)
parse_lines_step number (c ∷ cs) v rest m h = rw (parse_line-line number (c ∷ cs) v h)

parse_lines-lines :
    (es : List (Bytes × Bytes)) (number : ℕ) (m : Metadata)
    → All HasKey es
    → parse_lines number (lines es) m ≡ ok (insert_all es m)
parse_lines-lines [] number m h = unfold parse_lines in refl
parse_lines-lines ((k, v) ∷ es) number m h =
    parse_lines_step number k v (lines es) m h.0
    ∙ parse_lines-lines es (number + 1) (insert_first (k, v) m) h.1

no_null :
    (l rest : Bytes) → All Inner l → index_byte rest 0 ≡ none → index_byte (l ++ rest) 0 ≡ none
unfolding index_byte
no_null [] rest h k = k
no_null (c ∷ cs) rest h k = ground (arith, no_null cs rest h.1)

line_break_no_null : (rest : Bytes) → index_byte rest 0 ≡ none → index_byte (b'\n' ∷ rest) 0 ≡ none
unfolding index_byte
line_break_no_null rest h = ground arith

render_no_null : (es : List (Bytes × Bytes)) → All HasKey es → index_byte (render es) 0 ≡ none
render_no_null [] h = unfold index_byte in refl
render_no_null ((k, v) ∷ es) h =
    no_null (line k v) _ (line-Inner k v h.0) (line_break_no_null _ (render_no_null es h.1))

abbrev pub or_else : Option Bytes → Option Bytes → Option Bytes
or_else none o = o
or_else (some v) o = some v

pub lookup-append :
    (k : Bytes) (m n : Metadata) → lookup k (m ++ n) ≡ or_else (lookup k m) (lookup k n)
unfolding lookup
lookup-append k [] n = refl
lookup-append k ((j, v) ∷ m) n = ground (arith, lookup-append k m n)

lookup_same : (k j : Bytes) (m : Metadata) → bytes_eq j k ≡ true → lookup k m ≡ lookup j m
lookup_same k j m h = ap (λ x. lookup x m) (sym ((bytes_eq_iff j k).0 h))

lookup-insert_first :
    (k j v : Bytes) (m : Metadata)
    → lookup k (insert_first (j, v) m)
      ≡ or_else (lookup k m) (if bytes_eq j k then some v else none)
unfolding insert_first
lookup-insert_first k j v m =
    ground (arith, lookup-append k m ((j, v) ∷ []), lookup_same k j m, lookup-one)
  where
    lookup-one : lookup k ((j, v) ∷ []) ≡ (if bytes_eq j k then some v else none)
    lookup-one = unfold lookup in refl

lookup-insert_all :
    (k : Bytes) (es : List (Bytes × Bytes)) (m : Metadata)
    → lookup k (insert_all es m) ≡ or_else (lookup k m) (lookup k es)
unfolding lookup
lookup-insert_all k [] m = ground arith
lookup-insert_all k ((j, v) ∷ es) m =
    ground (arith, lookup-insert_all k es (insert_first (j, v) m), lookup-insert_first k j v m)

-- Every dictionary that a series of `Add` calls builds without an error is read back by
-- `ParseDictionary`, and each key then has the first value that was added for it.
pub parse_dictionary-add_all :
    (entries : List (Bytes × Bytes)) {b : Builder}
    → add_all new_builder entries ≡ ok b
    → (m : Metadata) × (parse_dictionary b.buffer ≡ ok m)
      × ((k : Bytes) → lookup k m ≡ lookup k entries)
unfolding parse_dictionary parse_entries
parse_dictionary-add_all entries {b} h =
    let (all, fits, keys) = add_all-render entries new_builder (omega arith) h in
    (
      insert_all entries [],
      ground (
        arith,
        render_no_null entries keys,
        split_lines-render entries keys,
        parse_lines-lines entries 0 [] keys,
      ),
      λ k. lookup-insert_all k entries [],
    )
