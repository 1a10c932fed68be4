-- ===== src/Base/Maps.antt =====
-- Go maps as association lists, over keys with a Boolean equality.
use Prim.Native.Nat.{ℕ, suc, ◌≤◌}
use mathlib.Core.Bool.{Bool, true, false}
use mathlib.Core.List.{List, [], ◌∷◌}
use mathlib.Core.Logic.{◌↔◌, inl, inr}
use mathlib.Core.Option.{Option, none, some}
use mathlib.Core.Path.{◌≡◌, refl, subst}
use native.Mathlib.Omega.{arith}
use ztgotroller.Base.ByteStrings.{Bytes, bytes_eq, bytes_eq_iff}
use ztgotroller.Base.Lists.{length}
use ztgotroller.Base.Tests.{Bool-cases, ◌==◌, ==_iff, if◌then◌else◌}

pub record Eq {ℓ} (K : Type ℓ) : Type ℓ where
  pub same : K → K → Bool
  pub same_iff : (a b : K) → (same a b ≡ true) ↔ (a ≡ b)

instance abbrev pub nat_eq : Eq ℕ
nat_eq = record { same = ◌==◌; same_iff = ==_iff }

instance abbrev pub bytes_keys : Eq Bytes
bytes_keys = record { same = bytes_eq; same_iff = bytes_eq_iff }

pub same_refl {ℓ} : {K : Type ℓ} ⦃e : Eq K⦄ (k : K) → e.same k k ≡ true
same_refl ⦃e⦄ k = (e.same_iff k k).1 refl

module _ {ℓ κ} {K : Type ℓ} {V : Type κ} ⦃e : Eq K⦄ where
  -- `value, ok := m[key]`
  unfoldable pub find : K → List (K × V) → Option V
  find k [] = none
  find k ((j, v) ∷ m) = if e.same j k then some v else find k m

  -- `m[key] = value`
  unfoldable pub put : K → V → List (K × V) → List (K × V)
  put k v [] = (k, v) ∷ []
  put k v ((j, w) ∷ m) = if e.same j k then (k, v) ∷ m else (j, w) ∷ put k v m

  -- `delete(m, key)`
  unfoldable pub remove : K → List (K × V) → List (K × V)
  remove k [] = []
  remove k ((j, w) ∷ m) = if e.same j k then remove k m else (j, w) ∷ remove k m

  -- What a loop over the map leaves that deletes the entries failing a test.
  unfoldable pub keep : (K → V → Bool) → List (K × V) → List (K × V)
  keep p [] = []
  keep p ((j, w) ∷ m) = if p j w then (j, w) ∷ keep p m else keep p m

  abbrev pub IsFresh : K → List (K × V) → Type (ℓ ⊔ κ)
  IsFresh k [] = Unit
  IsFresh k ((j, w) ∷ m) = (e.same j k ≡ false) × IsFresh k m

  -- No key stands twice.
  abbrev pub IsDistinct : List (K × V) → Type (ℓ ⊔ κ)
  IsDistinct [] = Unit
  IsDistinct ((j, w) ∷ m) = IsFresh j m × IsDistinct m

  pub find-put :
      (k j : K) (v : V) (m : List (K × V))
      → find j (put k v m) ≡ (if e.same k j then some v else find j m)
  unfolding find put
  find-put k j v [] = refl
  find-put k j v ((i, w) ∷ m) =
      ground (arith, e.same_iff i k, e.same_iff i j, e.same_iff k j, find-put k j v m)

  pub find-put_self : (k : K) (v : V) (m : List (K × V)) → find k (put k v m) ≡ some v
  find-put_self k v m = ground (arith, find-put k k v m, same_refl k)

  pub find-remove :
      (k j : K) (m : List (K × V)) → find j (remove k m) ≡ (if e.same k j then none else find j m)
  unfolding find remove
  find-remove k j [] = ground arith
  find-remove k j ((i, w) ∷ m) =
      ground (arith, e.same_iff i k, e.same_iff i j, e.same_iff k j, find-remove k j m)

  pub length-remove : (k : K) (m : List (K × V)) → length (remove k m) ≤ length m
  unfolding remove
  length-remove k [] = omega arith
  length-remove k ((i, w) ∷ m) = ground (arith, length-remove k m)

  pub length-keep : (p : K → V → Bool) (m : List (K × V)) → length (keep p m) ≤ length m
  unfolding keep
  length-keep p [] = omega arith
  length-keep p ((i, w) ∷ m) = ground (arith, length-keep p m)

  pub length-put :
      (k : K) (v : V) (m : List (K × V))
      → length (put k v m) ≡ (elim (find k m) [ none ↦ suc (length m) | some _ ↦ length m ])
  unfolding find put
  length-put k v [] = refl
  length-put k v ((i, w) ∷ m) = ground (arith, length-put k v m)

  IsFresh-put :
      (j k : K) (v : V) (m : List (K × V))
      → e.same k j ≡ false
      → IsFresh j m
      → IsFresh j (put k v m)
  unfolding put
  IsFresh-put j k v [] h f = (h, tt)
  IsFresh-put j k v ((i, w) ∷ m) h f = ground (arith, IsFresh-put j k v m)

  pub IsDistinct-put : (k : K) (v : V) (m : List (K × V)) → IsDistinct m → IsDistinct (put k v m)
  unfolding put
  IsDistinct-put k v [] d = (tt, tt)
  IsDistinct-put k v ((i, w) ∷ m) d =
      ground (arith, e.same_iff i k, e.same_iff k i, IsFresh-put i k v m, IsDistinct-put k v m)

  IsFresh-remove : (j k : K) (m : List (K × V)) → IsFresh j m → IsFresh j (remove k m)
  unfolding remove
  IsFresh-remove j k [] f = tt
  IsFresh-remove j k ((i, w) ∷ m) f = ground (arith, IsFresh-remove j k m)

  pub IsDistinct-remove : (k : K) (m : List (K × V)) → IsDistinct m → IsDistinct (remove k m)
  unfolding remove
  IsDistinct-remove k [] d = tt
  IsDistinct-remove k ((i, w) ∷ m) d = ground (arith, IsFresh-remove i k m, IsDistinct-remove k m)

  IsFresh-keep : (p : K → V → Bool) (j : K) (m : List (K × V)) → IsFresh j m → IsFresh j (keep p m)
  unfolding keep
  IsFresh-keep p j [] f = tt
  IsFresh-keep p j ((i, w) ∷ m) f = ground (arith, IsFresh-keep p j m)

  pub IsDistinct-keep : (p : K → V → Bool) (m : List (K × V)) → IsDistinct m → IsDistinct (keep p m)
  unfolding keep
  IsDistinct-keep p [] d = tt
  IsDistinct-keep p ((i, w) ∷ m) d = ground (arith, IsFresh-keep p i m, IsDistinct-keep p m)

  find-IsFresh : (k : K) (m : List (K × V)) → IsFresh k m → find k m ≡ none
  unfolding find
  find-IsFresh k [] f = refl
  find-IsFresh k ((i, w) ∷ m) f = ground (arith, find-IsFresh k m)

  -- The loop that deletes does not disturb the other keys.
  pub find-keep :
      (p : K → V → Bool) (k : K) (m : List (K × V))
      → IsDistinct m
      → find k (keep p m)
        ≡ (elim (find k m) [ none ↦ none | some v ↦ if p k v then some v else none ])
  unfolding find keep
  find-keep p k [] d = refl
  find-keep p k ((i, w) ∷ m) d = ground (
    arith,
    e.same_iff i k,
    same_key i k,
    find-keep p k m,
    find-IsFresh i (keep p m) (IsFresh-keep p i m d.0),
  )
    where
      same_key : (i k : K) → e.same i k ≡ true → find k (keep p m) ≡ find i (keep p m)
      same_key i k h = rw ((e.same_iff i k).0 h)

module _ {ℓ κ ι} {K : Type ℓ} {V : Type κ} ⦃e : Eq K⦄ (P : V → Type ι) where
  -- Every value of the map.
  abbrev pub AllValues : List (K × V) → Type ι
  AllValues [] = Unit
  AllValues ((j, w) ∷ m) = P w × AllValues m

  pub AllValues-find : (k : K) (m : List (K × V)) {v : V} → AllValues m → find k m ≡ some v → P v
  unfolding find
  AllValues-find k [] a h = cc
  AllValues-find k ((j, w) ∷ m) {v} a h = elim (Bool-cases (e.same j k)) [
    | inl here ↦ subst P (ground arith) a.0
    | inr later ↦ AllValues-find k m a.1 (rw later at h)
  ]

  pub AllValues-put : (k : K) (v : V) (m : List (K × V)) → AllValues m → P v → AllValues (put k v m)
  unfolding put
  AllValues-put k v [] a h = (h, tt)
  AllValues-put k v ((j, w) ∷ m) a h = ground (arith, AllValues-put k v m)

  pub AllValues-remove : (k : K) (m : List (K × V)) → AllValues m → AllValues (remove k m)
  unfolding remove
  AllValues-remove k [] a = tt
  AllValues-remove k ((j, w) ∷ m) a = ground (arith, AllValues-remove k m a.1)

  pub AllValues-keep : (p : K → V → Bool) (m : List (K × V)) → AllValues m → AllValues (keep p m)
  unfolding keep
  AllValues-keep p [] a = tt
  AllValues-keep p ((j, w) ∷ m) a = ground (arith, AllValues-keep p m a.1)
