-- ===== src/Packet/Compression/Blocks.antt =====
-- LZ4 blocks as lists of sequences: what they mean, how they are written, and that the decoder
-- reads them.
use mathlib.Core.List.{append_assoc, append-nil}
use native.Mathlib.Nat.{mod-eq_of_lt, mod-eq-sub-mod}
use ztgotroller.Base.{
  ℕ, zero, suc, ◌+◌, ◌-◌, ◌*◌, ◌/◌, ◌%◌, ◌≤◌, ◌<◌, ◌≡◌, refl, sym, ap, ◌∙◌, arith, List, [], ◌∷◌,
  ◌++◌, Bytes, length, take, drop, replicate, get_or, length-append, length-drop, take-append-drop,
  get_or-append, dec_lt, if◌then◌else◌, ltb,
}
use ztgotroller.Packet.Compression.{copy_match}

-- Literal bytes, and then `match_length` bytes that repeat the output from `offset` bytes before
-- its end.
pub record Sequence : Type 0 where
  pub literals : Bytes
  pub offset : ℕ
  pub match_length : ℕ

-- `n` bytes of the endless repetition of `window`, from position `i` on.
abbrev pub cycle : ℕ → ℕ → Bytes → Bytes
cycle zero i window = []
cycle (suc n) i window = get_or window (i % length window) 0 ∷ cycle n (i + 1) window

abbrev pub repeated : Sequence → Bytes → Bytes
repeated s output = output ++ cycle s.match_length 0 (drop (length output - s.offset) output)

-- What a block expands to: its sequences, and the literals at its end.
abbrev pub meaning : Bytes → List Sequence → Bytes → Bytes
meaning output [] last = output ++ last
meaning output (s ∷ block) last = meaning (repeated s (output ++ s.literals)) block last

-- The four bits of a length in the token, and the bytes that extend it.
abbrev pub nibble : ℕ → ℕ
nibble n = if ltb n 15 then n else 15

abbrev pub extension : ℕ → Bytes
extension n = if ltb n 15 then [] else (replicate ((n - 15) / 255) 255 ++ ((n - 15) % 255 ∷ []))

abbrev pub encode_block : List Sequence → Bytes → Bytes
encode_block [] last = nibble (length last) * 16 ∷ (extension (length last) ++ last)
encode_block (s ∷ block) last =
    (nibble (length s.literals) * 16 + nibble (s.match_length - 4))
    ∷ (extension (length s.literals)
        ++ (s.literals
            ++ (s.offset % 256
                ∷ s.offset / 256
                ∷ (extension (s.match_length - 4) ++ encode_block block last))))

-- Offsets that fit two bytes and the output so far, and matches of at least four bytes.
abbrev pub IsBlock : Bytes → List Sequence → Type 0
IsBlock output [] = Unit
IsBlock output (s ∷ block) =
    (0 < s.offset)
    × (s.offset < 65536)
    × (s.offset ≤ length (output ++ s.literals))
    × (4 ≤ s.match_length)
    × IsBlock (repeated s (output ++ s.literals)) block

cycle-concat :
    (n i : ℕ) (w : Bytes)
    → cycle n i w ++ (get_or w ((i + n) % length w) 0 ∷ []) ≡ cycle (suc n) i w
cycle-concat zero i w = ap (λ k. get_or w (k % length w) 0 ∷ []) {x = i + 0} {y = i} (omega arith)
cycle-concat (suc n) i w =
    let shift : i + suc n ≡ i + 1 + n = omega arith in
    ap (◌∷◌ (get_or w (i % length w) 0)) (rw shift (cycle-concat n (i + 1) w))

pub length-cycle : (n i : ℕ) (w : Bytes) → length (cycle n i w) ≡ n
length-cycle zero i w = refl
length-cycle (suc n) i w = omega (arith, length-cycle n (i + 1) w)

get_or-cycle :
    (n i k : ℕ) (w : Bytes) → k < n → get_or (cycle n i w) k 0 ≡ get_or w ((i + k) % length w) 0
get_or-cycle zero i k w h = absurd (omega arith)
get_or-cycle (suc n) i zero w h =
    ap (λ j. get_or w (j % length w) 0) {x = i} {y = i + 0} (omega arith)
get_or-cycle (suc n) i (suc k) w h =
    get_or-cycle n (i + 1) k w (omega arith)
    ∙ ap (λ j. get_or w (j % length w) 0) {x = i + 1 + k} {y = i + suc k} (omega arith)

get_or-append_front :
    (xs ys : Bytes) (i : ℕ) → i < length xs → get_or (xs ++ ys) i 0 ≡ get_or xs i 0
get_or-append_front [] ys i h = absurd (omega arith)
get_or-append_front (x ∷ xs) ys zero h = refl
get_or-append_front (x ∷ xs) ys (suc i) h = get_or-append_front xs ys i (omega arith)

-- The window with its repetitions behind it is periodic.
get_or-window :
    (n k : ℕ) (w : Bytes)
    → 0 < length w
    → k < length w + n
    → get_or (w ++ cycle n 0 w) k 0 ≡ get_or w (k % length w) 0
get_or-window n k w some_window h = elim (dec_lt k (length w)) [
  | yes inside ↦
      get_or-append_front w (cycle n 0 w) k inside
      ∙ ap (λ j. get_or w j 0) (sym (mod-eq_of_lt inside))
  | no beyond ↦
      let split : length w + (k - length w) ≡ k = omega arith in
      ap (λ j. get_or (w ++ cycle n 0 w) j 0) (sym split)
      ∙ (get_or-append w (cycle n 0 w) (length w) (k - length w) 0 refl
          ∙ (get_or-cycle n 0 (k - length w) w (omega arith)
              ∙ ap (λ j. get_or w j 0)
                  (ap (λ j. j % length w) {x = 0 + (k - length w)} {y = k - length w} (omega arith)
                    ∙ sym (mod-eq-sub-mod (omega arith)))))
]

copy_match-window :
    (n done : ℕ) (front w : Bytes)
    → 0 < length w
    → copy_match n (length w) (front ++ (w ++ cycle done 0 w))
      ≡ front ++ (w ++ cycle (done + n) 0 w)
unfolding copy_match
copy_match-window zero done front w h =
    ap (λ k. front ++ (w ++ cycle k 0 w)) {x = done} {y = done + 0} (omega arith)
copy_match-window (suc n) done front w h =
    let output = front ++ (w ++ cycle done 0 w) in
    let sizes = length-append front (w ++ cycle done 0 w) in
    let inner = length-append w (cycle done 0 w) in
    let at : length output - length w ≡ length front + done =
      omega (arith, sizes, inner, length-cycle done 0 w) in
    let byte : get_or output (length output - length w) 0 ≡ get_or w ((0 + done) % length w) 0 =
      ap (λ k. get_or output k 0) at
      ∙ (get_or-append front (w ++ cycle done 0 w) (length front) done 0 refl
          ∙ (get_or-window done done w h (omega arith)
              ∙ ap (λ k. get_or w (k % length w) 0) {x = done} {y = 0 + done} (omega arith))) in
    let longer : output ++ (get_or output (length output - length w) 0 ∷ [])
        ≡ front ++ (w ++ cycle (suc done) 0 w) =
      ap (λ b. output ++ (b ∷ [])) byte
      ∙ (append_assoc front (w ++ cycle done 0 w) _
          ∙ ap (λ t. front ++ t)
              (append_assoc w (cycle done 0 w) _ ∙ ap (λ t. w ++ t) (cycle-concat done 0 w))) in
    ap (copy_match n (length w)) longer
    ∙ (copy_match-window n (suc done) front w h
        ∙ ap (λ k. front ++ (w ++ cycle k 0 w)) {x = suc done + n} {y = done + suc n} (omega arith))

-- A match that overlaps what it writes repeats the last `offset` bytes over and over.
pub copy_match-cycle :
    (n offset : ℕ) (output : Bytes)
    → 0 < offset
    → offset ≤ length output
    → copy_match n offset output ≡ output ++ cycle n 0 (drop (length output - offset) output)
copy_match-cycle n offset output h k =
    let front = take (length output - offset) output in
    let w = drop (length output - offset) output in
    let size : length w ≡ offset = omega (arith, length-drop (length output - offset) output) in
    let whole : front ++ w ≡ output = take-append-drop (length output - offset) output in
    let start : front ++ (w ++ cycle 0 0 w) ≡ output =
      ap (λ t. front ++ t) (append-nil w) ∙ whole in
    ap (λ o. copy_match n o output) (sym size)
    ∙ (ap (copy_match n (length w)) (sym start)
        ∙ (copy_match-window n 0 front w (omega (arith, size))
            ∙ (ap (λ m. front ++ (w ++ cycle m 0 w)) {x = 0 + n} {y = n} (omega arith)
                ∙ (sym (append_assoc front w (cycle n 0 w)) ∙ ap (λ t. t ++ cycle n 0 w) whole))))
