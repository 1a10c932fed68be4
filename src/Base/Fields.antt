-- ===== src/Base/Fields.antt =====
-- The parts of a byte layout: what stands where in parts written one behind the other.
use Prim.Native.Nat.{ℕ, zero, suc, ◌+◌, ◌-◌, ◌<◌, ◌^◌}
use mathlib.Core.List.{List, [], ◌∷◌, ◌++◌, append_assoc}
use mathlib.Core.Path.{◌≡◌, refl, sym, ap, ◌∙◌}
use native.Mathlib.Omega.{arith}
use ztgotroller.Base.Lists.{
  length, take, drop, get_or, length-append, take-append_length, drop-append_length, drop-drop,
  get_or-append,
}
use ztgotroller.Base.ByteStrings.{Bytes, put_be, get_be, get_be-put_be, length-put_be}

-- `bytes[from:to]`
abbrev pub slice : ℕ → ℕ → Bytes → Bytes
slice from to bytes = take (to - from) (drop from bytes)

-- `bytes[i]`, where the length was checked before.
abbrev pub byte_at : Bytes → ℕ → ℕ
byte_at bytes i = get_or bytes i 0

abbrev pub concat : List Bytes → Bytes
concat [] = []
concat (part ∷ parts) = part ++ concat parts

abbrev pub size_of : List Bytes → ℕ
size_of [] = 0
size_of (part ∷ parts) = length part + size_of parts

pub length-concat : (parts : List Bytes) → length (concat parts) ≡ size_of parts
length-concat [] = refl
length-concat (part ∷ parts) = omega (arith, length-append part (concat parts), length-concat parts)

pub concat-append : (xs ys : List Bytes) → concat (xs ++ ys) ≡ concat xs ++ concat ys
concat-append [] ys = refl
concat-append (x ∷ xs) ys =
    ap (λ t. x ++ t) (concat-append xs ys) ∙ sym (append_assoc x (concat xs) (concat ys))

-- The rest behind the first parts.
pub drop-parts :
    (before after : List Bytes) (from : ℕ)
    → size_of before ≡ from
    → drop from (concat (before ++ after)) ≡ concat after
drop-parts [] after zero h = refl
drop-parts [] after (suc from) h = absurd (omega arith)
drop-parts (part ∷ before) after from h =
    let split : length part + size_of before ≡ from = h in
    rw (← split) (
      sym (drop-drop (length part) (size_of before) (part ++ concat (before ++ after)))
      ∙ (ap (drop (size_of before))
            (drop-append_length part (concat (before ++ after)) (length part) refl)
          ∙ drop-parts before after (size_of before) refl))

-- The part behind the first parts.
pub slice-part :
    (before : List Bytes) (part : Bytes) (after : List Bytes) (from to : ℕ)
    → size_of before ≡ from
    → from + length part ≡ to
    → slice from to (concat (before ++ (part ∷ after))) ≡ part
slice-part before part after from to h k =
    let size : length part ≡ to - from = omega arith in
    ap (take (to - from)) (drop-parts before (part ∷ after) from h)
    ∙ take-append_length part (concat after) (to - from) size

-- A single byte behind the first parts.
pub byte-part :
    (before : List Bytes) (b : ℕ) (after : List Bytes) (from : ℕ)
    → size_of before ≡ from
    → byte_at (concat (before ++ ((b ∷ []) ∷ after))) from ≡ b
byte-part [] b after zero h = refl
byte-part [] b after (suc from) h = absurd (omega arith)
byte-part (part ∷ before) b after from h =
    let split : length part + size_of before ≡ from = h in
    rw (← split) (
      get_or-append part (concat (before ++ ((b ∷ []) ∷ after))) (length part) (size_of before) 0
        refl
      ∙ byte-part before b after (size_of before) refl)

split_parts :
    (parts : List Bytes) (k : ℕ)
    → k < length parts
    → take k parts ++ (get_or parts k [] ∷ drop (suc k) parts) ≡ parts
split_parts [] k h = absurd (omega arith)
split_parts (part ∷ parts) zero h = refl
split_parts (part ∷ parts) (suc k) h = ap (◌∷◌ part) (split_parts parts k (omega arith))

-- The part of a number, the byte of a part of one, and the big-endian number of a part.
module _ (parts : List Bytes) (k from : ℕ) (h : k < length parts)
    (s : size_of (take k parts) ≡ from) where
  pub slice-at :
      (to : ℕ)
      → from + length (get_or parts k []) ≡ to
      → slice from to (concat parts) ≡ get_or parts k []
  slice-at to l =
      ap (λ p. slice from to (concat p)) (sym (split_parts parts k h))
      ∙ slice-part (take k parts) (get_or parts k []) (drop (suc k) parts) from to s l

  pub byte-at : (b : ℕ) → get_or parts k [] ≡ b ∷ [] → byte_at (concat parts) from ≡ b
  byte-at b is =
      ap (λ p. byte_at (concat p) from) (sym (split_parts parts k h))
      ∙ (ap (λ p. byte_at (concat (take k parts ++ (p ∷ drop (suc k) parts))) from) is
          ∙ byte-part (take k parts) b (drop (suc k) parts) from s)

  pub number-at :
      (to w v : ℕ)
      → get_or parts k [] ≡ put_be w v
      → from + w ≡ to
      → v < 256 ^ w
      → get_be (slice from to (concat parts)) ≡ v
  number-at to w v is l small =
      ap get_be (slice-at to (omega (arith, ap length is, length-put_be w v)) ∙ is)
      ∙ get_be-put_be w v small

  pub drop-at : drop from (concat parts) ≡ get_or parts k [] ++ concat (drop (suc k) parts)
  drop-at =
      ap (λ p. drop from (concat p)) (sym (split_parts parts k h))
      ∙ drop-parts (take k parts) (get_or parts k [] ∷ drop (suc k) parts) from s
