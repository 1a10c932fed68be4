-- ===== src/Controller/Outcomes.antt =====
-- What an action that succeeds went through.
use ztgotroller.Base.{
  ◌≡◌, refl, ap, arith, Bool, true, false, not, Result, ok, err, bytes_eq, bytes_eq_iff,
}
use ztgotroller.Controller.{Service, match_owner, validate_owned_network}
use ztgotroller.Controller.Actions.{
  Action, Error, continue, fail_when, read_result, write_result, checked, checked_value,
}
use ztgotroller.Domain.Ids.{IdError, NetworkId, NodeId, controller_id}
use ztgotroller.Domain.Networks.{DomainError}
use ztgotroller.Store.{Store, StoreError}

pub continue-ok :
    {A B : Type 0} (f : A → Action B) (r : Result Error A × Store) {b : B} {t : Store}
    → continue f r ≡ (ok b, t)
    → (a : A) × (s : Store) × (r ≡ (ok a, s)) × (f a s ≡ (ok b, t))
continue-ok f (ok a, s) h = (a, s, refl, h)
continue-ok f (err e, s) h = absurd (ground arith)

pub fail_when-ok :
    (b : Bool) (e : Error) (s : Store) {u : Unit {0}} {t : Store}
    → fail_when b e s ≡ (ok u, t)
    → (b ≡ false) × (s ≡ t)
fail_when-ok true e s h = absurd (ground arith)
fail_when-ok false e s h = (refl, ap (λ r. r.1) h)

pub checked-ok :
    (r : Result IdError (Unit {0})) (s : Store) {u : Unit {0}} {t : Store}
    → checked r s ≡ (ok u, t)
    → (r ≡ ok tt) × (s ≡ t)
checked-ok (ok tt) s h = (refl, ap (λ r. r.1) h)
checked-ok (err e) s h = absurd (ground arith)

pub checked_value-ok :
    (r : Result DomainError (Unit {0})) (s : Store) {u : Unit {0}} {t : Store}
    → checked_value r s ≡ (ok u, t)
    → (r ≡ ok tt) × (s ≡ t)
checked_value-ok (ok tt) s h = (refl, ap (λ r. r.1) h)
checked_value-ok (err e) s h = absurd (ground arith)

pub read_result-ok :
    {A : Type 0} (r : Result StoreError A) (s : Store) {a : A} {t : Store}
    → read_result r s ≡ (ok a, t)
    → (r ≡ ok a) × (s ≡ t)
read_result-ok (ok a) s h = (ground arith, ground arith)
read_result-ok (err e) s h = absurd (ground arith)

pub write_result-ok :
    (r : Result StoreError Store) (s : Store) {u : Unit {0}} {t : Store}
    → write_result r s ≡ (ok u, t)
    → r ≡ ok t
write_result-ok (ok x) s h = ground arith
write_result-ok (err e) s h = absurd (ground arith)

match_owner-ok :
    (v : Service) (r : Result IdError NodeId) (s : Store) {u : Unit {0}} {t : Store}
    → match_owner v r s ≡ (ok u, t)
    → (r ≡ ok v.controller) × (s ≡ t)
match_owner-ok v (err e) s h = absurd (ground arith)
match_owner-ok v (ok owner) s h =
    let (same, store) = fail_when-ok (not (bytes_eq owner v.controller)) _ s h in
    (ap ok ((bytes_eq_iff owner v.controller).0 (ground arith)), store)

pub validate_owned_network-ok :
    (v : Service) (id : NetworkId) (s : Store) {u : Unit {0}} {t : Store}
    → validate_owned_network v id s ≡ (ok u, t)
    → (controller_id id ≡ ok v.controller) × (s ≡ t)
unfolding validate_owned_network
validate_owned_network-ok v id s h = match_owner-ok v (controller_id id) s h
