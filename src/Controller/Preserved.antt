-- ===== src/Controller/Preserved.antt =====
-- What each action of the controller keeps: a well-formed store whose networks are all its own.
use ztgotroller.Base.{
  if◌then◌else◌, ℕ, zero, suc, not, ◌≡◌, arith, Bool, true, false, Bytes, Option, none, some,
  Result, ok, err, find, bytes_keys, bytes_eq, bytes_eq_iff, find-put, find-remove, Result-cases,
  inl, inr,
}
use ztgotroller.Controller.{
  Service, validate_owned_network, bump_network_revision, bump_if, create_random_loop,
  is_already_exists, sequence_of, match_owner, retry, again_if, with_random,
}
use ztgotroller.Controller.Actions.{
  ◌>>◌, return, Action, Error, foreign_network, continue, ◌>>=◌, fail_when, reading, writing,
  attempt, checked, checked_value,
}
use ztgotroller.Domain.Ids.{IdError, NetworkId, NodeId, controller_id}
use ztgotroller.Domain.Networks.{Network, DomainError}
use ztgotroller.Netip.{Time}
use ztgotroller.Store.{Context, Store, StoreError, new_store, next_revision, get_network}
use ztgotroller.Store.Invariant.{IsStore}
use ztgotroller.Store.Outcomes.{
  create_network-ok, save_network-ok, delete_network-ok, create_member-ok, save_member-ok,
  delete_member-ok, upsert_agent_metadata-ok,
}
use ztgotroller.Store.Steps.{
  Operation, creates_network, saves_network, deletes_network, creates_member, saves_member,
  deletes_member, upserts_metadata, apply, apply-IsStore, new_store-IsStore,
}

-- A well-formed store, and the controller of each network's identifier is this one.
pub record IsControlled (service : Service) (s : Store) : Type 0 where
  pub is_store : IsStore s
  pub owned :
      (id : NetworkId) (n : Network)
      → find id s.networks ≡ some n
      → controller_id id ≡ ok service.controller

pub new_store-IsControlled : (service : Service) → IsControlled service new_store
unfolding find
new_store-IsControlled service = record {
  is_store = new_store-IsStore;
  owned = λ id n e. absurd (cc);
}

-- A network that is created is the controller's.
abbrev pub IsOwn : Service → Operation → Type 0
IsOwn service (creates_network n) = controller_id n.id ≡ ok service.controller
IsOwn service _ = Unit

apply-owned :
    (service : Service) (c : Context) (op : Operation) (s : Store) {t : Store}
    → IsControlled service s
    → IsOwn service op
    → apply c op s ≡ ok t
    → (id : NetworkId) (k : Network) → find id t.networks ≡ some k
    → controller_id id ≡ ok service.controller
unfolding apply
apply-owned service c (creates_network n) s h own e id k f =
    let (valid, new, is) = create_network-ok c n s e in
    ground (
      arith,
      find-put n.id id (record n { revision = 1 }) s.networks,
      bytes_eq_iff n.id id,
      h.owned id k,
    )
apply-owned service c (saves_network n) s h own e id k f =
    let (current, valid, present, agrees, is) = save_network-ok c n s e in
    let stored = h.owned n.id current present in
    let saved = record n { revision = next_revision n.revision } in
    ground (arith, find-put n.id id saved s.networks, bytes_eq_iff n.id id, h.owned id k)
apply-owned service c (deletes_network n revision) s h own e id k f =
    let (current, present, agrees, is) = delete_network-ok c n revision s e in
    ground (arith, find-remove n id s.networks, h.owned id k)
apply-owned service c (creates_member m) s h own e id k f =
    let (network, valid, present, new, is) = create_member-ok c m s e in
    ground (arith, h.owned id k)
apply-owned service c (saves_member m) s h own e id k f =
    let (current, valid, present, agrees, is) = save_member-ok c m s e in
    ground (arith, h.owned id k)
apply-owned service c (deletes_member n node revision) s h own e id k f =
    let (current, present, agrees, is) = delete_member-ok c n node revision s e in
    ground (arith, h.owned id k)
apply-owned service c (upserts_metadata a) s h own e id k f =
    let (member, valid, present, is) = upsert_agent_metadata-ok c a s e in
    ground (arith, h.owned id k)

-- The invariant after an action, on an error too.
abbrev pub Preserves : {A : Type 0} → Service → Action A → Type 0
Preserves service m = (s : Store) → IsControlled service s → IsControlled service (m s).1

module _ (service : Service) where
  pub writing-Preserves :
      (c : Context) (op : Operation) → IsOwn service op → Preserves service (writing (apply c op))
  writing-Preserves c op own s h = elim (Result-cases (apply c op s)) [
    | inr (e, bad) ↦ rw bad h
    | inl (t, good) ↦ rw good (record {
      is_store = apply-IsStore c op s h.is_store good;
      owned = apply-owned service c op s h own good;
    })
  ]

  continue-IsControlled :
      {A B : Type 0} (f : A → Action B) (r : Result Error A × Store)
      → IsControlled service r.1
      → ((a : A) → Preserves service (f a))
      → IsControlled service (continue f r).1
  continue-IsControlled f (ok a, s) h k = k a s h
  continue-IsControlled f (err e, s) h k = h

  pub bind-Preserves :
      {A B : Type 0} (m : Action A) (f : A → Action B)
      → Preserves service m
      → ((a : A) → Preserves service (f a))
      → Preserves service (m >>= f)
  bind-Preserves m f hm hf s h = continue-IsControlled f (m s) (hm s h) hf

  pub then_Preserves :
      {B : Type 0} (m : Action (Unit {0})) (k : Action B)
      → Preserves service m
      → Preserves service k
      → Preserves service (m >> k)
  then_Preserves m k hm hk = bind-Preserves m (λ _. k) hm (λ _. hk)

  pub if-Preserves :
      {B : Type 0} (b : Bool) (m k : Action B)
      → Preserves service m
      → Preserves service k
      → Preserves service (if b then m else k)
  if-Preserves true m k hm hk = hm
  if-Preserves false m k hm hk = hk

  pub return-Preserves : {B : Type 0} (b : B) → Preserves service (return b)
  return-Preserves b s h = h

  pub reading-Preserves :
      {A : Type 0} (f : Store → Result StoreError A) → Preserves service (reading f)
  reading-Preserves f s h = elim (Result-cases (f s)) [
    | inl (a, good) ↦ rw good h
    | inr (e, bad) ↦ rw bad h
  ]

  pub attempt-Preserves :
      {A : Type 0} (m : Action A) → Preserves service m → Preserves service (attempt m)
  attempt-Preserves m hm s h = hm s h

  pub fail_when-Preserves : (b : Bool) (e : Error) → Preserves service (fail_when b e)
  fail_when-Preserves true e s h = h
  fail_when-Preserves false e s h = h

  pub checked-Preserves : (r : Result IdError (Unit {0})) → Preserves service (checked r)
  checked-Preserves (ok u) s h = h
  checked-Preserves (err e) s h = h

  pub checked_value-Preserves :
      (r : Result DomainError (Unit {0})) → Preserves service (checked_value r)
  checked_value-Preserves (ok u) s h = h
  checked_value-Preserves (err e) s h = h

  match_owner-Preserves : (r : Result IdError NodeId) → Preserves service (match_owner service r)
  match_owner-Preserves (err e) s h = h
  match_owner-Preserves (ok owner) s h =
      fail_when-Preserves (not (bytes_eq owner service.controller)) foreign_network s h

  pub validate_owned_network-Preserves :
      (id : NetworkId) → Preserves service (validate_owned_network service id)
  unfolding validate_owned_network
  validate_owned_network-Preserves id = match_owner-Preserves (controller_id id)

  pub bump_network_revision-Preserves :
      (c : Context) (id : NetworkId) (now : Time)
      → Preserves service (bump_network_revision c id now)
  unfolding bump_network_revision apply
  bump_network_revision-Preserves c id now =
      bind-Preserves (reading (get_network c id)) _ (reading-Preserves (get_network c id))
        (λ n. writing-Preserves c (saves_network (record n { updated_at = now })) tt)

  pub bump_if-Preserves :
      (b : Bool) (c : Context) (id : NetworkId) (now : Time)
      → Preserves service (bump_if b c id now)
  bump_if-Preserves true c id now s h = bump_network_revision-Preserves c id now s h
  bump_if-Preserves false c id now s h = h

  again_if-Preserves :
      (b : Bool) (again : Action Network) (e : Error)
      → Preserves service again
      → Preserves service (again_if b again e)
  again_if-Preserves true again e h s k = h s k
  again_if-Preserves false again e h s k = k

  retry-Preserves :
      (again : Action Network) (r : Result Error Network)
      → Preserves service again
      → Preserves service (retry again r)
  retry-Preserves again (ok n) h = λ s k. k
  retry-Preserves again (err e) h = again_if-Preserves (is_already_exists e) again e h

  with_random-Preserves :
      (drawn : Option Bytes) (next : Bytes → Action Network)
      → ((bytes : Bytes) → Preserves service (next bytes))
      → Preserves service (with_random drawn next)
  with_random-Preserves none next h = λ s k. k
  with_random-Preserves (some bytes) next h = h bytes

  pub create_random_loop-Preserves :
      (random : ℕ → Option Bytes) (create : ℕ → ℕ → Action Network)
      → ((number sequence : ℕ) → Preserves service (create number sequence))
      → (number attempts : ℕ) → Preserves service (create_random_loop random create number attempts)
  unfolding create_random_loop
  create_random_loop-Preserves random create hc number zero = λ s h. h
  create_random_loop-Preserves random create hc number (suc attempts) =
      let again = create_random_loop random create (suc number) attempts in
      let kept = create_random_loop-Preserves random create hc (suc number) attempts in
      with_random-Preserves (random number) _ (λ bytes.
        bind-Preserves (attempt (create number (sequence_of bytes))) (retry again)
          (hc number (sequence_of bytes)) (λ r. retry-Preserves again r kept))
