-- ===== src/Controller/Members.antt =====
-- The registration of members.
use mathlib.Core.Path.{subst}
use ztgotroller.Base.{
  ◌≡◌, refl, sym, ap, arith, false, Result, ok, err, bytes_keys, bytes_eq_refl, ◌⊎◌, inl, inr,
}
use ztgotroller.Controller.{
  Service, validate_owned_network, register_member, created_or_found, existing_or_created,
}
use ztgotroller.Controller.Actions.{
  Action, continue, caught, read_result, write_result, reading, writing, attempt, checked, ◌>>=◌,
}
use ztgotroller.Controller.Outcomes.{
  continue-ok, checked-ok, read_result-ok, validate_owned_network-ok,
}
use ztgotroller.Domain.Ids.{NetworkId, NodeId, controller_id, validate_hex_id}
use ztgotroller.Domain.Members.{Member, new_member}
use ztgotroller.Netip.{Time}
use ztgotroller.Store.{
  Context, Store, StoreError, get_member, create_member, conflict, not_found, already_exists,
  context_error, invalid,
}
use ztgotroller.Store.Reads.{get_member-created}

-- What a registration that succeeds has found and left.
pub record IsLookedUp (c : Context) (id : NetworkId) (node : NodeId) (now : Time) (s t : Store)
    (m : Member) : Type 0 where
  pub read_back : get_member c id node t ≡ ok m
  pub known : (k : Member) → get_member c id node s ≡ ok k → (m ≡ k) × (t ≡ s)
  pub new :
      {e : StoreError}
      → get_member c id node s ≡ err e
      → (m ≡ record (new_member id node now) { revision = 1 })
        × (create_member c (new_member id node now) s ≡ ok t)

after_lookup :
    (create : Action Member) (r : Result StoreError Member) (s : Store) {m : Member} {t : Store}
    → continue (existing_or_created create) (caught (read_result r s)) ≡ (ok m, t)
    → ((r ≡ ok m) × (s ≡ t)) ⊎ ((r ≡ err not_found) × (create s ≡ (ok m, t)))
after_lookup create (ok k) s h = inl (ground arith, ground arith)
after_lookup create (err not_found) s h = inr (refl, h)
after_lookup create (err already_exists) s h = absurd (ground arith)
after_lookup create (err conflict) s h = absurd (ground arith)
after_lookup create (err (context_error e)) s h = absurd (ground arith)
after_lookup create (err (invalid e)) s h = absurd (ground arith)

after_create :
    (get : Store → Result StoreError Member) (w : Result StoreError Store) (s : Store) {m : Member}
    {t : Store}
    → continue (created_or_found (reading get)) (caught (write_result w s)) ≡ (ok m, t)
    → ((w ≡ ok t) × (get t ≡ ok m)) ⊎ ((get s ≡ ok m) × (s ≡ t))
after_create get (ok x) s {m} h =
    let (read, same) = read_result-ok (get x) x h in
    inl (ap ok same, subst (λ y. get y ≡ ok m) same read)
after_create get (err not_found) s h = absurd (ground arith)
after_create get (err already_exists) s h = inr (read_result-ok (get s) s h)
after_create get (err conflict) s h = absurd (ground arith)
after_create get (err (context_error e)) s h = absurd (ground arith)
after_create get (err (invalid e)) s h = absurd (ground arith)

new_ids :
    (id : NetworkId) (node : NodeId) (now : Time)
    → ((new_member id node now).network_id ≡ id) × ((new_member id node now).node_id ≡ node)
unfolding new_member
new_ids id node now = (refl, refl)

-- Behind the checks.
registered :
    (c : Context) (id : NetworkId) (node : NodeId) (now : Time) (s : Store) {m : Member} {t : Store}
    → ((get_member c id node s ≡ ok m) × (s ≡ t))
      ⊎ ((get_member c id node s ≡ err not_found)
          × (continue
                (created_or_found (reading (get_member c id node)))
                (caught (write_result (create_member c (new_member id node now) s) s))
              ≡ (ok m, t)))
    → IsLookedUp c id node now s t m
registered c id node now s {m} {t} (inl (found, same)) = record {
  read_back = rw (← same) found;
  known = λ k g. (ground arith, sym same);
  new = λ g. absurd (ground arith);
}
registered c id node now s {m} {t} (inr (missing, rest)) =
    let member = new_member id node now in
    elim (after_create (get_member c id node) (create_member c member s) s rest) [
      | inr (found, same) ↦ absurd (ground arith)
      | inl (made, read) ↦
          let (i, n) = new_ids id node now in
          let back = get_member-created c member id node s i n made in
          record {
            read_back = read;
            known = λ k g. absurd (ground arith);
            new = λ g. (ground (arith, back), made);
          }
    ]

pub register_member-IsRegistered :
    (v : Service) (c : Context) (id : NetworkId) (node : NodeId) (now : Time) (s : Store)
    {m : Member} {t : Store}
    → register_member v c id node now s ≡ (ok m, t)
    → (controller_id id ≡ ok v.controller)
      × (validate_hex_id node 10 ≡ ok tt)
      × IsLookedUp c id node now s t m
unfolding register_member
register_member-IsRegistered v c id node now s {m} {t} h =
    let get = reading (get_member c id node) in
    let create =
      attempt (writing (create_member c (new_member id node now))) >>= created_or_found get in
    let (u, s1, first, rest) = continue-ok _ (validate_owned_network v id s) h in
    let (own, same1) = validate_owned_network-ok v id s first in
    let (w, s2, second, last) = continue-ok _ (checked (validate_hex_id node 10) s1) rest in
    let (valid, same2) = checked-ok (validate_hex_id node 10) s1 second in
    let is = registered c id node now s2 (after_lookup create (get_member c id node s2) s2 last) in
    (own, valid, rw (same1, same2) is)

-- `RegisterMember` is idempotent: once it has succeeded, calling it again, at any time, returns the
-- same member and leaves the store as it is.
pub register_member-idempotent :
    (v : Service) (c : Context) (id : NetworkId) (node : NodeId) (now later : Time) (s : Store)
    {m : Member} {t : Store}
    → register_member v c id node now s ≡ (ok m, t)
    → register_member v c id node later t ≡ (ok m, t)
unfolding register_member validate_owned_network
register_member-idempotent v c id node now later s {m} {t} h =
    let (own, valid, is) = register_member-IsRegistered v c id node now s h in
    let same = bytes_eq_refl v.controller in rw (own, same, valid, is.read_back) refl

-- A member that `RegisterMember` creates is not authorized.
pub register_member-unauthorized :
    (v : Service) (c : Context) (id : NetworkId) (node : NodeId) (now : Time) (s : Store)
    {m : Member} {t : Store} {e : StoreError}
    → get_member c id node s ≡ err e
    → register_member v c id node now s ≡ (ok m, t)
    → (m.authorized ≡ false) × (get_member c id node t ≡ ok m)
unfolding new_member
register_member-unauthorized v c id node now s {m} g h =
    let (own, valid, is) = register_member-IsRegistered v c id node now s h in
    (ap (λ (x : Member). x.authorized) (is.new g).0, is.read_back)
