-- ===== src/Transport/Reassembly/Budget.antt =====
-- The loop of `complete`: what it yields within the byte budget.
use mathlib.Core.Path.{subst}
use ztgotroller.Base.{
  ℕ, zero, suc, ◌+◌, ◌≤◌, ◌<◌, ◌≡◌, refl, sym, ◌∙◌, arith, List, [], ◌∷◌, ◌++◌, Bytes, none, some,
  length, length-append, find, put, remove, nat_eq, inl, inr, Option-cases, find-remove,
}
use ztgotroller.Packet.Header.{max_packet_length}
use ztgotroller.Transport.Reassembly.{
  reassembly_keys, Assembly, assembled, fragment_missing, overflow, assemble,
}

-- The bytes of all payloads of a map.
abbrev pub payload_bytes : List (ℕ × Bytes) → ℕ
payload_bytes [] = 0
payload_bytes ((n, p) ∷ m) = length p + payload_bytes m

pub payload_bytes-put :
    (n : ℕ) (p : Bytes) (m : List (ℕ × Bytes))
    → find n m ≡ none
    → payload_bytes (put n p m) ≡ payload_bytes m + length p
unfolding find put
payload_bytes-put n p [] h = omega arith
payload_bytes-put n p ((j, q) ∷ m) h = ground (arith, payload_bytes-put n p m)

payload_bytes-remove-le :
    (n : ℕ) (m : List (ℕ × Bytes)) → payload_bytes (remove n m) ≤ payload_bytes m
unfolding remove
payload_bytes-remove-le n [] = omega arith
payload_bytes-remove-le n ((j, q) ∷ m) = ground (arith, payload_bytes-remove-le n m)

payload_bytes-remove :
    (n : ℕ) (m : List (ℕ × Bytes)) {p : Bytes}
    → find n m ≡ some p
    → length p + payload_bytes (remove n m) ≤ payload_bytes m
unfolding find remove
payload_bytes-remove n [] h = cc
payload_bytes-remove n ((j, q) ∷ m) {p} h =
    ground (arith, payload_bytes-remove n m {p = p}, payload_bytes-remove-le n m)

-- Entries below the numbers that are still looked up do not matter.
assemble-remove :
    (m : List (ℕ × Bytes)) (k rounds number : ℕ) (out : Bytes)
    → k < number
    → assemble (remove k m) rounds number out ≡ assemble m rounds number out
unfolding assemble
assemble-remove m k zero number out h = refl
assemble-remove m k (suc rounds) number out h =
    let same_entry : find number (remove k m) ≡ find number m =
      ground (arith, find-remove k number m) in
    elim (Option-cases (find number m)) [
      | inl absent ↦ ground arith
      | inr (p, present) ↦ ground (arith, assemble-remove m k rounds (number + 1) (out ++ p))
    ]

-- Within the byte budget the assembly of a packet never overflows, and its result is within it too.
abbrev pub IsWithin : Assembly → Type 0
IsWithin (assembled packet) = length packet ≤ max_packet_length
IsWithin fragment_missing = Unit
IsWithin overflow = ⊥

pub assemble_found :
    (m : List (ℕ × Bytes)) (rounds number : ℕ) (out p : Bytes)
    → find number m ≡ some p
    → length out + length p ≤ max_packet_length
    → assemble m (suc rounds) number out ≡ assemble m rounds (number + 1) (out ++ p)
unfolding assemble
assemble_found m rounds number out p h k = ground arith

assemble_absent :
    (m : List (ℕ × Bytes)) (rounds number : ℕ) (out : Bytes)
    → find number m ≡ none
    → assemble m (suc rounds) number out ≡ fragment_missing
unfolding assemble
assemble_absent m rounds number out h = ground arith

pub assemble-IsWithin :
    (rounds number : ℕ) (m : List (ℕ × Bytes)) (out : Bytes)
    → length out + payload_bytes m ≤ max_packet_length
    → IsWithin (assemble m rounds number out)
assemble-IsWithin zero number m out h = unfold assemble in omega arith
assemble-IsWithin (suc rounds) number m out h = elim (Option-cases (find number m)) [
  | inl absent ↦ subst IsWithin (sym (assemble_absent m rounds number out absent)) tt
  | inr (p, present) ↦
      let room = payload_bytes-remove number m present in
      let step = assemble_found m rounds number out p present (omega arith) in
      let skip = assemble-remove m number rounds (number + 1) (out ++ p) (omega arith) in
      subst IsWithin (skip ∙ sym step) (
        assemble-IsWithin rounds (number + 1) (remove number m) (out ++ p)
          (omega (arith, length-append out p)))
]
