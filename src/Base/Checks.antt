-- ===== src/Base/Checks.antt =====
-- Chains of checks that return the first error, and the search for duplicates with a set.
use mathlib.Core.Bool.{Bool, true, false, ◌||◌}
use mathlib.Core.List.{List, [], ◌∷◌}
use mathlib.Core.Logic.{◌↔◌}
use mathlib.Core.Path.{◌≡◌, refl}
use native.Mathlib.Omega.{arith}
use ztgotroller.Base.Lists.{All}
use ztgotroller.Base.Maps.{Eq}
use ztgotroller.Base.Results.{Result, ok, err, ◌>>◌, fail_if}

-- `if err := ...; err != nil { return err }` before the rest.
pub >>-ok_iff :
    {E : Type 0} (m k : Result E (Unit {0})) → ((m >> k) ≡ ok tt) ↔ ((m ≡ ok tt) × (k ≡ ok tt))
>>-ok_iff (ok tt) k = (λ h. (refl, h), λ h. h.1)
>>-ok_iff (err e) k = (λ h. absurd (cc), λ h. absurd (cc))

pub fail_if-ok_iff : {E : Type 0} (b : Bool) (e : E) → (fail_if b e ≡ ok tt) ↔ (b ≡ false)
fail_if-ok_iff true e = (λ h. absurd (cc), λ h. absurd (cc))
fail_if-ok_iff false e = (λ h. refl, λ h. refl)

-- A series of checks, up to the first error.
abbrev pub chain : {E : Type 0} → List (Result E (Unit {0})) → Result E (Unit {0})
chain [] = ok tt
chain (m ∷ []) = m
chain (m ∷ n ∷ ms) = m >> chain (n ∷ ms)

pub chain-ok_iff :
    {E : Type 0} (ms : List (Result E (Unit {0}))) → (chain ms ≡ ok tt) ↔ All (λ m. m ≡ ok tt) ms
chain-ok_iff [] = (λ h. tt, λ h. refl)
chain-ok_iff (m ∷ []) = (λ h. (h, tt), λ h. h.0)
chain-ok_iff (m ∷ n ∷ ms) =
    let this = >>-ok_iff m (chain (n ∷ ms)) in
    let rest = chain-ok_iff (n ∷ ms) in
    (λ h. ((this.0 h).0, rest.0 (this.0 h).1), λ h. this.1 (h.0, rest.1 h.1))

-- A loop that returns the first error of its body.
unfoldable pub check_each {ℓ} :
    {E : Type 0} {A : Type ℓ} → (A → Result E (Unit {0})) → List A → Result E (Unit {0})
check_each check [] = ok tt
check_each check (x ∷ xs) = do check x; check_each check xs

pub check_each-ok_iff {ℓ} :
    {E : Type 0} {A : Type ℓ} (check : A → Result E (Unit {0})) (xs : List A)
    → (check_each check xs ≡ ok tt) ↔ All (λ x. check x ≡ ok tt) xs
unfolding check_each
check_each-ok_iff check [] = (λ h. tt, λ h. refl)
check_each-ok_iff check (x ∷ xs) =
    let this = >>-ok_iff (check x) (check_each check xs) in
    let rest = check_each-ok_iff check xs in
    (λ h. ((this.0 h).0, rest.0 (this.0 h).1), λ h. this.1 (h.0, rest.1 h.1))

module _ {ℓ} {K : Type ℓ} ⦃e : Eq K⦄ where
  unfoldable pub is_among : K → List K → Bool
  is_among k [] = false
  is_among k (j ∷ js) = e.same j k || is_among k js

  -- The loop over keys with the set of those before.
  unfoldable pub has_duplicate : List K → List K → Bool
  has_duplicate seen [] = false
  has_duplicate seen (k ∷ ks) = is_among k seen || has_duplicate (k ∷ seen) ks

  -- No two of the keys are the same.
  abbrev pub AreDistinct : List K → Type 0
  AreDistinct [] = Unit
  AreDistinct (k ∷ ks) = All (λ j. e.same k j ≡ false) ks × AreDistinct ks

  is_among_cons :
      (j k : K) (seen : List K) → is_among j (k ∷ seen) ≡ (e.same k j || is_among j seen)
  unfolding is_among
  is_among_cons j k seen = refl

  unseen_cons_iff :
      (k : K) (seen ks : List K)
      → All (λ j. is_among j (k ∷ seen) ≡ false) ks
        ↔ (All (λ j. e.same k j ≡ false) ks × All (λ j. is_among j seen ≡ false) ks)
  unseen_cons_iff k seen [] = (λ h. (tt, tt), λ h. tt)
  unseen_cons_iff k seen (j ∷ ks) =
      let rest = unseen_cons_iff k seen ks in
      let this = is_among_cons j k seen in
      (
        λ h. ((ground (arith, this), (rest.0 h.1).0), (ground (arith, this), (rest.0 h.1).1)),
        λ h. (ground (arith, this), rest.1 (h.0.1, h.1.1)),
      )

  has_duplicate-from :
      (seen ks : List K)
      → (has_duplicate seen ks ≡ false) ↔ (All (λ j. is_among j seen ≡ false) ks × AreDistinct ks)
  unfolding has_duplicate
  has_duplicate-from seen [] = (λ h. (tt, tt), λ h. refl)
  has_duplicate-from seen (k ∷ ks) =
      let rest = has_duplicate-from (k ∷ seen) ks in
      let new = unseen_cons_iff k seen ks in
      (
        λ h.
            let (fresh, distinct) = rest.0 (ground arith) in
            ((ground arith, (new.0 fresh).1), ((new.0 fresh).0, distinct)),
        λ h. ground (arith, rest.1 (new.1 (h.1.0, h.0.1), h.1.1)),
      )

  nothing_seen : (ks : List K) → All (λ j. is_among j [] ≡ false) ks
  unfolding is_among
  nothing_seen [] = tt
  nothing_seen (k ∷ ks) = (refl, nothing_seen ks)

  pub has_duplicate-AreDistinct : (ks : List K) → (has_duplicate [] ks ≡ false) ↔ AreDistinct ks
  has_duplicate-AreDistinct ks =
      let both = has_duplicate-from [] ks in (λ h. (both.0 h).1, λ h. both.1 (nothing_seen ks, h))
