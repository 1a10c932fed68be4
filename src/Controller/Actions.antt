-- ===== src/Controller/Actions.antt =====
-- Calls that read and write the store: a result, and the store that is left, on an error too.
use ztgotroller.Base.{Bool, true, false, Result, ok, err}
use ztgotroller.Domain.Ids.{IdError}
use ztgotroller.Domain.Networks.{DomainError}
use ztgotroller.Chunks
use ztgotroller.Request
use ztgotroller.Store.{Store, StoreError}

-- An error with the texts that wrap it left out.
pub data Error : Type 0 where
  store_error : StoreError → Error
  invalid_identifier : IdError → Error
  invalid_value : DomainError → Error
  foreign_network sequence_too_large no_randomness no_free_identifier : Error
  invalid_request : ztgotroller.Request.Error → Error
  invalid_reply : ztgotroller.Chunks.Error → Error
  source_mismatch other_destination signer_mismatch : Error
  zero_revision revision_overflow cannot_issue : Error

abbrev pub Action : Type 0 → Type 0
Action A = Store → Result Error A × Store

abbrev pub continue :
    {A B : Type 0} → (A → Action B) → Result Error A × Store → Result Error B × Store
continue f (ok a, s) = f a s
continue f (err e, s) = (err e, s)

infixl 5 ◌>>=◌ ◌>>◌
abbrev pub ◌>>=◌ : {A B : Type 0} → Action A → (A → Action B) → Action B
m >>= f = λ s. continue f (m s)

abbrev pub ◌>>◌ : {B : Type 0} → Action (Unit {0}) → Action B → Action B
m >> k = m >>= λ _. k

abbrev pub return : {A : Type 0} → A → Action A
return a s = (ok a, s)

abbrev pub fail : {A : Type 0} → Error → Action A
fail e s = (err e, s)

abbrev pub fail_when : Bool → Error → Action (Unit {0})
fail_when true e s = (err e, s)
fail_when false e s = (ok tt, s)

abbrev pub read_result : {A : Type 0} → Result StoreError A → Action A
read_result (ok a) s = (ok a, s)
read_result (err e) s = (err (store_error e), s)

-- A call of the store that reads.
abbrev pub reading : {A : Type 0} → (Store → Result StoreError A) → Action A
reading f s = read_result (f s) s

abbrev pub write_result : Result StoreError Store → Action (Unit {0})
write_result (ok t) s = (ok tt, t)
write_result (err e) s = (err (store_error e), s)

-- A call of the store that writes, and that leaves the store as it is when it fails.
abbrev pub writing : (Store → Result StoreError Store) → Action (Unit {0})
writing f s = write_result (f s) s

abbrev pub caught : {A : Type 0} → Result Error A × Store → Result Error (Result Error A) × Store
caught (r, s) = (ok r, s)

-- A call whose error the caller looks at.
abbrev pub attempt : {A : Type 0} → Action A → Action (Result Error A)
attempt m s = caught (m s)

abbrev pub checked : Result IdError (Unit {0}) → Action (Unit {0})
checked (ok _) s = (ok tt, s)
checked (err e) s = (err (invalid_identifier e), s)

abbrev pub checked_value : Result DomainError (Unit {0}) → Action (Unit {0})
checked_value (ok _) s = (ok tt, s)
checked_value (err e) s = (err (invalid_value e), s)

-- A computation without the store, with its errors as errors of the action.
abbrev pub computed : {E A : Type 0} → (E → Error) → Result E A → Action A
computed f (ok a) s = (ok a, s)
computed f (err e) s = (err (f e), s)
