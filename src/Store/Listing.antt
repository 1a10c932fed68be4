-- ===== src/Store/Listing.antt =====
-- `ListNetworks` and `ListMembers` of memory.go. The order of a range over a map is left open by Go;
-- the sort by distinct identifiers leaves one result.
use ztgotroller.Base.{
  List, [], ◌∷◌, Bytes, find, bytes_keys, Result, ok, ◌>>=◌, ◌>>◌, if◌then◌else◌,
}
use ztgotroller.Domain.Ids.{NetworkId}
use ztgotroller.Domain.Members.{Member}
use ztgotroller.Domain.Networks.{Network}
use ztgotroller.Netip.{bytes_lt}
use ztgotroller.Store.{Context, Store, StoreError, context_err, inner, or_fail, not_found}

module _ {A : Type 0} (key : A → Bytes) where
  abbrev pub insert_by : A → List A → List A
  insert_by x [] = x ∷ []
  insert_by x (y ∷ ys) =
      let later = insert_by x ys in if bytes_lt (key y) (key x) then y ∷ later else x ∷ y ∷ ys

  -- `sort.Slice` on the key.
  abbrev pub sort_by : List A → List A
  sort_by [] = []
  sort_by (x ∷ xs) = insert_by x (sort_by xs)

abbrev pub values : {K V : Type 0} → List (K × V) → List V
values [] = []
values ((k, v) ∷ m) = v ∷ values m

unfoldable pub list_networks : Context → Store → Result StoreError (List Network)
list_networks context s = do
  context_err context
  ok (sort_by (λ (n : Network). n.id) (values s.networks))

unfoldable pub list_members : Context → NetworkId → Store → Result StoreError (List Member)
list_members context network_id s = do
  context_err context
  _ ← or_fail (find network_id s.networks) not_found
  ok (sort_by (λ (m : Member). m.node_id) (values (inner network_id s.members)))
