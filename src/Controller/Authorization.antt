-- ===== src/Controller/Authorization.antt =====
-- The authorization of members.

use ztgotroller.Base.{
  ℕ, ◌≡◌, refl, sym, ap, ◌∙◌, arith, Bool, true, false, not, ◌&&◌, Option, none, some, ok,
  bytes_keys, ◌==◌, Bool-cases, inl, inr, if◌then◌else◌,
}
use ztgotroller.Controller.{
  Service, Clock, validate_owned_network, save_authorized, set_member_authorization,
  with_authorization, bool_eq, bump_if, bump_network_revision, member_has_specialist_role,
  Deauthorization,
}
use ztgotroller.Controller.Actions.{fail_when, store_error, reading, writing}
use ztgotroller.Controller.Outcomes.{
  continue-ok, fail_when-ok, read_result-ok, write_result-ok, validate_owned_network-ok,
}
use ztgotroller.Domain.Ids.{NetworkId, NodeId}
use ztgotroller.Domain.Members.{Member}
use ztgotroller.Netip.{Time}
use ztgotroller.Store.{
  next_revision, get_network, save_network, Context, Store, get_member, save_member, conflict,
}
use ztgotroller.Store.Invariant.{IsStore}
use ztgotroller.Store.Reads.{get_member-saved, get_member-members, filed}
use ztgotroller.Store.Outcomes.{save_network-ok}

bump_if-members :
    (b : Bool) (c : Context) (id : NetworkId) (now : Time) (s : Store) {u : Unit {0}} {t : Store}
    → bump_if b c id now s ≡ (ok u, t)
    → t.members ≡ s.members
unfolding bump_network_revision
bump_if-members false c id now s h = ground arith
bump_if-members true c id now s h =
    let (n, s1, first, rest) = continue-ok _ (reading (get_network c id) s) h in
    let (found, same) = read_result-ok (get_network c id s) s first in
    let saved = write_result-ok (save_network c (record n { updated_at = now }) s1) s1 rest in
    let (current, valid, present, agrees, is) =
      save_network-ok c (record n { updated_at = now }) s1 saved in
    ap (λ (x : Store). x.members) is ∙ ap (λ (x : Store). x.members) (sym same)

-- What an authorization that succeeds has found and left.
pub record IsAuthorized (v : Service) (c : Context) (id : NetworkId) (node : NodeId)
    (authorized : Bool) (revision : ℕ) (s t : Store) (m : Member) (notice : Option Deauthorization)
    : Type 0 where
  pub before : Member
  pub was : get_member c id node s ≡ ok before
  pub expected : before.revision ≡ revision
  pub set : m.authorized ≡ authorized
  pub read_back : get_member c id node t ≡ ok m
  pub notified :
      (n : Deauthorization) → notice ≡ some n → (authorized ≡ false) × (before.authorized ≡ true)

flag_of : (a b : Bool) → bool_eq a b ≡ true → a ≡ b
flag_of true b h = sym h
flag_of false b h = ground arith

with_authorization-fields :
    (b : Bool) (clock : Clock) (m : Member)
    → ((with_authorization b clock m).authorized ≡ b)
      × ((with_authorization b clock m).network_id ≡ m.network_id)
      × ((with_authorization b clock m).node_id ≡ m.node_id)
with_authorization-fields true clock m = (refl, refl, refl)
with_authorization-fields false clock m = (refl, refl, refl)

flag_differs : (a b : Bool) → bool_eq a b ≡ false → b ≡ false → a ≡ true
flag_differs true b h k = refl
flag_differs false b h k = ground arith

notice_off :
    (authorized notifies : Bool) (d n : Deauthorization)
    → (if not authorized && notifies then some d else none) ≡ some n
    → authorized ≡ false
notice_off true notifies d n h = absurd (ground arith)
notice_off false notifies d n h = refl

-- Behind the checks, where the flag changes.
authorized_rest :
    (v : Service) (c : Context) (id : NetworkId) (node : NodeId) (authorized : Bool) (clock : Clock)
    (s : Store) (k : Member) {m : Member} {notice : Option Deauthorization} {t : Store}
    → IsStore s
    → get_member c id node s ≡ ok k
    → save_authorized v c id node authorized clock k s ≡ (ok (m, notice), t)
    → (m.authorized ≡ authorized)
      × (get_member c id node t ≡ ok m)
      × ((n : Deauthorization) → notice ≡ some n → authorized ≡ false)
unfolding save_authorized
authorized_rest v c id node authorized clock s k {m} {notice} {t} is was h =
    let changed = with_authorization authorized clock k in
    let (i, n) = filed c id node s is was in
    let fields = with_authorization-fields authorized clock k in
    let (u, s1, first, rest) = continue-ok _ (writing (save_member c changed) s) h in
    let saved = write_result-ok (save_member c changed s) s first in
    let back = get_member-saved c changed id node s (fields.1 ∙ i) (fields.2 ∙ n) saved in
    let special = member_has_specialist_role changed in
    let (w, s2, second, more) = continue-ok _ (bump_if special c id (clock 2) s1) rest in
    let kept =
      get_member-members c id node s1 s2 (bump_if-members special c id (clock 2) s1 second) in
    let (r, s3, third, last) = continue-ok _ (reading (get_member c id node) s2) more in
    let (read, same) = read_result-ok (get_member c id node s2) s2 third in
    let call : Deauthorization = record {
      network_id = id;
      node_id = node;
      at = changed.updated_at;
    } in
    let result : r ≡ m = ground arith in
    let store : s3 ≡ t = ground arith in
    let stored : record changed { revision = next_revision changed.revision } ≡ r =
      ground (arith, back, kept, read) in
    (
      ap (λ (x : Member). x.authorized) (sym (stored ∙ result)) ∙ fields.0,
      rw (← store, ← same, ← result) read,
      λ d e. notice_off authorized v.notifies call d (ground arith),
    )

-- `SetMemberAuthorization` on a well-formed store, when it succeeds: the stored member had the
-- expected revision, the member that is returned and read back from the store has the wanted
-- authorization, and the handler is called only for a member that was authorized and no longer is.
pub set_member_authorization-IsAuthorized :
    (v : Service) (c : Context) (id : NetworkId) (node : NodeId) (authorized : Bool) (revision : ℕ)
    (clock : Clock) (s : Store) {m : Member} {notice : Option Deauthorization} {t : Store}
    → IsStore s
    → set_member_authorization v c id node authorized revision clock s ≡ (ok (m, notice), t)
    → IsAuthorized v c id node authorized revision s t m notice
unfolding set_member_authorization
set_member_authorization-IsAuthorized v c id node authorized revision clock s {m} {notice} {t} is
      h =
    let (u, s1, first, rest) = continue-ok _ (validate_owned_network v id s) h in
    let (own, same1) = validate_owned_network-ok v id s first in
    let (k, s2, second, more) = continue-ok _ (reading (get_member c id node) s1) rest in
    let (found, same2) = read_result-ok (get_member c id node s1) s1 second in
    let (w, s3, third, last) =
      continue-ok _ (fail_when (not (k.revision == revision)) (store_error conflict) s2) more in
    let (agrees, same3) = fail_when-ok (not (k.revision == revision)) _ s2 third in
    let here : s ≡ s3 = same1 ∙ (same2 ∙ same3) in
    let was : get_member c id node s ≡ ok k = rw same1 found in
    elim (Bool-cases (bool_eq k.authorized authorized)) [
      | inl settled ↦
          let same : k ≡ m = ground arith in
          let store : s3 ≡ t = ground arith in
          record {
            before = k;
            was = was;
            expected = ground arith;
            set = rw (← same) (flag_of k.authorized authorized settled);
            read_back = rw (← store, ← here, ← same) was;
            notified = λ n e. absurd (ground arith);
          }
      | inr changes ↦
          let done =
            authorized_rest v c id node authorized clock s3 k (rw (← here) is) (rw (← here) was)
              (rw changes at last) in
          record {
            before = k;
            was = was;
            expected = ground arith;
            set = done.0;
            read_back = done.1;
            notified = λ n e.
                let off = done.2 n e in (off, flag_differs k.authorized authorized changes off);
          }
    ]
