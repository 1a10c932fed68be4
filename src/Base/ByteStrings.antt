-- ===== src/Base/ByteStrings.antt =====
-- Byte strings, and the fixed-width big-endian numbers of `encoding/binary`.
use Prim.Native.Nat.{ℕ, zero, suc, ◌+◌, ◌*◌, ◌/◌, ◌%◌, ◌^◌, ◌<◌}
use mathlib.Core.Bool.{Bool, true, false, ◌&&◌}
use mathlib.Core.List.{List, [], ◌∷◌, ◌++◌}
use mathlib.Core.Logic.{◌↔◌}
use mathlib.Core.Path.{◌≡◌, refl, ap, ◌∙◌}
use native.Mathlib.Nat.{pow-suc}
use native.Mathlib.Omega.{arith}
use Prim.Native.Char.{code}
use Prim.Native.String.{String}
use ztgotroller.Base.Lists.{length, length-append, All, All-append}
use ztgotroller.Base.Tests.{◌==◌}

abbrev pub Bytes : Type 0
Bytes = List ℕ

abbrev pub IsByte : ℕ → Type 0
IsByte b = b < 256

abbrev pub AreBytes : Bytes → Type 0
AreBytes = All IsByte

-- The bytes of an ASCII literal.
abbrev pub ascii : String → Bytes
ascii String.[] = []
ascii (String.◌∷◌ c s) = code c ∷ ascii s

-- `bytes.Equal`, and `==` on strings.
abbrev pub bytes_eq : Bytes → Bytes → Bool
bytes_eq [] [] = true
bytes_eq [] (y ∷ ys) = false
bytes_eq (x ∷ xs) [] = false
bytes_eq (x ∷ xs) (y ∷ ys) = x == y && bytes_eq xs ys

pub bytes_eq_iff : (a b : Bytes) → (bytes_eq a b ≡ true) ↔ (a ≡ b)
bytes_eq_iff [] [] = ground arith
bytes_eq_iff [] (y ∷ b) = ground arith
bytes_eq_iff (x ∷ a) [] = ground arith
bytes_eq_iff (x ∷ a) (y ∷ b) = ground (arith, bytes_eq_iff a b)

pub bytes_eq_refl : (a : Bytes) → bytes_eq a a ≡ true
bytes_eq_refl a = (bytes_eq_iff a a).1 refl

-- `binary.BigEndian.PutUint16`, `PutUint32` and `PutUint64` at the widths 2, 4 and 8.
unfoldable pub put_be : ℕ → ℕ → Bytes
put_be zero v = []
put_be (suc k) v = put_be k (v / 256) ++ (v % 256 ∷ [])

-- `binary.BigEndian.Uint16`, `Uint32` and `Uint64` on a slice of that width.
unfoldable pub get_be_from : ℕ → Bytes → ℕ
get_be_from acc [] = acc
get_be_from acc (b ∷ bs) = get_be_from (acc * 256 + b) bs

abbrev pub get_be : Bytes → ℕ
get_be = get_be_from 0

pub length-put_be : (k v : ℕ) → length (put_be k v) ≡ k
unfolding put_be
length-put_be zero v = refl
length-put_be (suc k) v =
    omega (arith, length-append (put_be k (v / 256)) (v % 256 ∷ []), length-put_be k (v / 256))

pub put_be-AreBytes : (k v : ℕ) → AreBytes (put_be k v)
unfolding put_be
put_be-AreBytes zero v = tt
put_be-AreBytes (suc k) v =
    All-append IsByte (put_be k (v / 256)) (v % 256 ∷ []) (put_be-AreBytes k (v / 256))
      (omega arith)

get_be_from-concat :
    (xs : Bytes) (acc b : ℕ) → get_be_from acc (xs ++ (b ∷ [])) ≡ get_be_from acc xs * 256 + b
unfolding get_be_from
get_be_from-concat [] acc b = refl
get_be_from-concat (x ∷ xs) acc b = get_be_from-concat xs (acc * 256 + x) b

-- Reading back a number that fits the width.
pub get_be-put_be : (k v : ℕ) → v < 256 ^ k → get_be (put_be k v) ≡ v
unfolding put_be
get_be-put_be zero v h = unfold get_be_from in omega arith
get_be-put_be (suc k) v h =
    let small : v / 256 < 256 ^ k = omega (arith, pow-suc 256 k) in
    get_be_from-concat (put_be k (v / 256)) 0 (v % 256)
    ∙ omega (arith, get_be-put_be k (v / 256) small)

get_be_from-lt :
    (xs : Bytes) (acc m : ℕ) → AreBytes xs → acc < m → get_be_from acc xs < m * 256 ^ length xs
unfolding get_be_from
get_be_from-lt [] acc m h k = omega arith
get_be_from-lt (x ∷ xs) acc m h k =
    let smaller : acc * 256 + x < m * 256 = omega arith in
    let tail = get_be_from-lt xs (acc * 256 + x) (m * 256) h.1 smaller in
    omega (arith, tail, ap (λ (t : ℕ). m * t) (pow-suc 256 (length xs)))

pub get_be-lt : (xs : Bytes) → AreBytes xs → get_be xs < 256 ^ length xs
get_be-lt xs h = omega (arith, get_be_from-lt xs 0 1 h (omega arith))
