-- ===== src/Store/Entries.antt =====
-- Lookups in the maps of maps of the store.
use ztgotroller.Base.{
  Option-cases, inl, inr, ◌&&◌, ◌≡◌, refl, arith, List, [], Option, none, some, bytes_keys,
  bytes_eq, bytes_eq_iff, find, put, remove, find-put, find-remove, if◌then◌else◌,
}
use ztgotroller.Domain.Ids.{NetworkId, NodeId}
use ztgotroller.Store.{inner, remove_inner}

module _ {V : Type 0} where
  -- `outer[id][node]`
  abbrev pub entry : NetworkId → NodeId → List (NetworkId × List (NodeId × V)) → Option V
  entry id node outer = find node (inner id outer)

  inner-put :
      (k j : NetworkId) (v : List (NodeId × V)) (m : List (NetworkId × List (NodeId × V)))
      → inner j (put k v m) ≡ (if bytes_eq k j then v else inner j m)
  inner-put k j v m = ground (arith, find-put k j v m)

  inner-remove :
      (k j : NetworkId) (m : List (NetworkId × List (NodeId × V)))
      → inner j (remove k m) ≡ (if bytes_eq k j then [] else inner j m)
  inner-remove k j m = ground (arith, find-remove k j m)

  pub entry-put :
      (k j : NetworkId) (node n : NodeId) (v : V) (m : List (NetworkId × List (NodeId × V)))
      → entry j n (put k (put node v (inner k m)) m)
        ≡ (if bytes_eq k j && bytes_eq node n then some v else entry j n m)
  entry-put k j node n v m = ground (
    arith,
    inner-put k j (put node v (inner k m)) m,
    find-put node n v (inner k m),
    bytes_eq_iff k j,
  )

  pub entry-remove :
      (k j : NetworkId) (n : NodeId) (m : List (NetworkId × List (NodeId × V)))
      → entry j n (remove k m) ≡ (if bytes_eq k j then none else entry j n m)
  unfolding find
  entry-remove k j n m = ground (arith, inner-remove k j m)

  find_nothing : (n : NodeId) → find {V = V} n [] ≡ none
  unfolding find
  find_nothing n = refl

  pub entry-remove_inner :
      (k j : NetworkId) (node n : NodeId) (m : List (NetworkId × List (NodeId × V)))
      → entry j n (remove_inner k node m)
        ≡ (if bytes_eq k j && bytes_eq node n then none else entry j n m)
  entry-remove_inner k j node n m = elim (Option-cases (find k m)) [
    | inl absent ↦ ground (arith, bytes_eq_iff k j, find_nothing n)
    | inr (found, present) ↦
        ground
          (arith, find-put k j (remove node found) m, find-remove node n found, bytes_eq_iff k j)
  ]
