-- ===== src/Store/Steps.antt =====
-- Calls of the store's operations, one after the other, and what holds after any series of them.
use mathlib.Core.Path.{subst}
use ztgotroller.Base.{
  ℕ, ◌≡◌, sym, List, [], ◌∷◌, find, bytes_keys, Result, ok, err, inl, inr, Result-cases,
}
use ztgotroller.Domain.Ids.{NetworkId, NodeId}
use ztgotroller.Domain.Members.{
  Member, AgentMetadata, validate_member, validate_unique_member_values,
}
use ztgotroller.Domain.Networks.{Network, validate_network, validate_collection_sizes}
use ztgotroller.Store.{
  Store, StoreError, Context, new_store, next_revision, create_network, save_network,
  delete_network, create_member, save_member, delete_member, upsert_agent_metadata,
}
use ztgotroller.Store.Invariant.{
  IsStore, with_network-IsStore, without_network-IsStore, with_member-IsStore,
  without_member-IsStore, with_metadata-IsStore,
}
use ztgotroller.Store.Outcomes.{
  create_network-ok, save_network-ok, delete_network-ok, create_member-ok, save_member-ok,
  delete_member-ok, upsert_agent_metadata-ok,
}

-- A call that may change the store.
pub data Operation : Type 0 where
  creates_network saves_network : Network → Operation
  deletes_network : NetworkId → ℕ → Operation
  creates_member saves_member : Member → Operation
  deletes_member : NetworkId → NodeId → ℕ → Operation
  upserts_metadata : AgentMetadata → Operation

unfoldable pub apply : Context → Operation → Store → Result StoreError Store
apply c (creates_network n) s = create_network c n s
apply c (saves_network n) s = save_network c n s
apply c (deletes_network id revision) s = delete_network c id revision s
apply c (creates_member m) s = create_member c m s
apply c (saves_member m) s = save_member c m s
apply c (deletes_member id node revision) s = delete_member c id node revision s
apply c (upserts_metadata a) s = upsert_agent_metadata c a s

-- A call that fails leaves the store as it is.
abbrev pub or_same : Store → Result StoreError Store → Store
or_same s (ok s') = s'
or_same s (err _) = s

unfoldable pub run : List (Context × Operation) → Store → Store
run [] s = s
run ((c, op) ∷ calls) s = run calls (or_same s (apply c op s))

-- The revision is no part of what is validated.
revised_network :
    (n : Network) (r : ℕ)
    → validate_network n ≡ ok tt
    → validate_network (record n { revision = r }) ≡ ok tt
unfolding validate_network validate_collection_sizes
revised_network n r h = h

revised_member :
    (m : Member) (r : ℕ)
    → validate_member m ≡ ok tt
    → validate_member (record m { revision = r }) ≡ ok tt
unfolding validate_member validate_unique_member_values
revised_member m r h = h

pub apply-IsStore :
    (c : Context) (op : Operation) (s : Store) {s' : Store}
    → IsStore s
    → apply c op s ≡ ok s'
    → IsStore s'
unfolding apply
apply-IsStore c (creates_network n) s h e =
    let (valid, new, is) = create_network-ok c n s e in
    subst IsStore (sym is)
      (with_network-IsStore (record n { revision = 1 }) s h (revised_network n 1 valid))
apply-IsStore c (saves_network n) s h e =
    let (current, valid, present, agrees, is) = save_network-ok c n s e in
    subst IsStore (sym is) (
      with_network-IsStore (record n { revision = next_revision n.revision }) s h
        (revised_network n _ valid))
apply-IsStore c (deletes_network id revision) s h e =
    let (current, present, agrees, is) = delete_network-ok c id revision s e in
    subst IsStore (sym is) (without_network-IsStore id s h)
apply-IsStore c (creates_member m) s h e =
    let (network, valid, present, new, is) = create_member-ok c m s e in
    subst IsStore (sym is)
      (with_member-IsStore (record m { revision = 1 }) s h (revised_member m 1 valid) present)
apply-IsStore c (saves_member m) s h e =
    let (current, valid, present, agrees, is) = save_member-ok c m s e in
    let (network, stored) = h.member_network m.network_id m.node_id current present in
    subst IsStore (sym is) (
      with_member-IsStore (record m { revision = next_revision m.revision }) s h
        (revised_member m _ valid) stored)
apply-IsStore c (deletes_member id node revision) s h e =
    let (current, present, agrees, is) = delete_member-ok c id node revision s e in
    subst IsStore (sym is) (without_member-IsStore id node s h)
apply-IsStore c (upserts_metadata a) s h e =
    let (member, valid, present, is) = upsert_agent_metadata-ok c a s e in
    subst IsStore (sym is) (with_metadata-IsStore a s h valid present)

pub new_store-IsStore : IsStore new_store
unfolding find
new_store-IsStore = record {
  network_filed = λ id n e. absurd (cc);
  member_filed = λ id node m e. absurd (cc);
  member_network = λ id node m e. absurd (cc);
  metadata_filed = λ id node a e. absurd (cc);
  metadata_member = λ id node a e. absurd (cc);
}

or_same-IsStore :
    (c : Context) (op : Operation) (s : Store) → IsStore s → IsStore (or_same s (apply c op s))
or_same-IsStore c op s h = elim (Result-cases (apply c op s)) [
  | inl (s', success) ↦ rw success (apply-IsStore c op s h success)
  | inr (e, failure) ↦ rw failure h
]

run_from-IsStore :
    (calls : List (Context × Operation)) (s : Store) → IsStore s → IsStore (run calls s)
unfolding run
run_from-IsStore [] s h = h
run_from-IsStore ((c, op) ∷ calls) s h = run_from-IsStore calls _ (or_same-IsStore c op s h)

-- After any series of calls on a new store, failed ones among them, each network, member and
-- report is valid and stands under its own identifiers, each member belongs to a stored network,
-- and each report to a stored member.
pub run-IsStore : (calls : List (Context × Operation)) → IsStore (run calls new_store)
run-IsStore calls = run_from-IsStore calls new_store new_store-IsStore
