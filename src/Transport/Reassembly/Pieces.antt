-- ===== src/Transport/Reassembly/Pieces.antt =====
-- What a packet holds that is being collected, from the numbers that have arrived, and how each
-- new datagram of it and `complete` change that.
use mathlib.Core.List.{append_assoc, append-nil}
use ztgotroller.Base.{
  ℕ, zero, suc, ◌+◌, ◌-◌, ◌*◌, ◌≤◌, ◌<◌, ◌≡◌, ◌⊎◌, inr, refl, sym, ap, ◌∙◌, arith, List, [], ◌∷◌,
  ◌++◌, Bytes, true, false, ◌||◌, ◌==◌, none, some, length, length-append, find, put, remove,
  find-put, length-put, nat_eq, if◌then◌else◌, is_among,
}
use ztgotroller.Netip.{Time}
use ztgotroller.Packet.Header.{Fragment, max_packet_length}
use ztgotroller.Transport.Reassembly.{
  assembled, assemble, conclude, complete, add_fragment, add_first, PartialPacket, Reassembler,
  ReassemblyKey, reassembly_keys, incomplete, complete_packet,
}
use ztgotroller.Transport.Reassembly.Budget.{assemble_found}

module _ (payload : ℕ → Bytes) where
  -- The payloads of `rounds` fragments from `number` on.
  abbrev pub gather : ℕ → ℕ → Bytes
  gather number zero = []
  gather number (suc rounds) = payload number ++ gather (number + 1) rounds

  -- With every payload at hand under its number, the loop of `complete` joins them all.
  pub assemble-gather :
      (m : List (ℕ × Bytes)) (rounds number : ℕ) (out : Bytes)
      → ((i : ℕ) → number ≤ i → i < number + rounds → find i m ≡ some (payload i))
      → length (out ++ gather number rounds) ≤ max_packet_length
      → assemble m rounds number out ≡ assembled (out ++ gather number rounds)
  assemble-gather m zero number out h k = unfold assemble in ap assembled (sym (append-nil out))
  assemble-gather m (suc rounds) number out h k =
      let this = h number (omega arith) (omega arith) in
      let rest = gather (number + 1) rounds in
      let whole : (out ++ payload number) ++ rest ≡ out ++ (payload number ++ rest) =
        append_assoc out (payload number) rest in
      let sizes = length-append (out ++ payload number) rest in
      let front = length-append out (payload number) in
      assemble_found m rounds number out (payload number) this
        (omega (arith, sizes, front, ap length whole))
      ∙ (assemble-gather m rounds (number + 1) (out ++ payload number)
            (λ i low high. h i (omega arith) (omega arith)) (rw whole k)
          ∙ ap assembled whole)

-- `numbers` have arrived of the packet with `total` datagrams.
pub record Holds (total : ℕ) (first : Bytes) (payload : ℕ → Bytes) (since : Time) (numbers : List ℕ)
    (p : PartialPacket) : Type 0 where
  pub first_held : p.first ≡ (if is_among 0 numbers then first else [])
  pub fragment_held :
      (n : ℕ) → 0 < n → find n p.fragments ≡ (if is_among n numbers then some (payload n) else none)
  pub total_held : (p.total ≡ 0) ⊎ (p.total ≡ total)
  pub total_known : (length p.fragments ≡ 0) ⊎ (p.total ≡ total)
  pub counted : length p.fragments + (if is_among 0 numbers then 1 else 0) ≡ length numbers
  pub budget : p.bytes ≤ 1432 * length numbers
  pub recent : since ≤ p.created

module _ (total : ℕ) (first : Bytes) (payload : ℕ → Bytes) (since : Time) where
  among_cons :
      (n k : ℕ) (numbers : List ℕ) → is_among n (k ∷ numbers) ≡ (k == n || is_among n numbers)
  unfolding is_among
  among_cons n k numbers = refl

  abbrev pub stored_fragment : Fragment → PartialPacket → PartialPacket
  stored_fragment f p = record p {
    total = f.total_fragments;
    bytes = p.bytes + length f.payload;
    fragments = put f.number f.payload p.fragments;
  }

  pub add_fragment-Holds :
      (numbers : List ℕ) (key : ReassemblyKey) (f : Fragment) (p : PartialPacket) (r : Reassembler)
      → Holds total first payload since numbers p
      → 0 < f.number
      → is_among f.number numbers ≡ false
      → length numbers < 7
      → f.total_fragments ≡ total
      → f.payload ≡ payload f.number
      → length f.payload ≤ 1432
      → (add_fragment key f p r
          ≡ complete (put key (stored_fragment f p) r) key (stored_fragment f p))
        × Holds total first payload since (f.number ∷ numbers) (stored_fragment f p)
  add_fragment-Holds numbers key f p r h pos new few same_total same_payload small =
      let absent : find f.number p.fragments ≡ none = rw (h.fragment_held f.number pos, new) refl in
      (
        unfold add_fragment in ground (arith, h.total_held, h.budget),
        record {
          first_held = ground (arith, among_cons 0 f.number numbers, h.first_held);
          fragment_held = λ n positive. ground (
            arith,
            among_cons n f.number numbers,
            h.fragment_held n,
            find-put f.number n f.payload p.fragments,
          );
          total_held = inr same_total;
          total_known = inr same_total;
          counted = ground (
            arith,
            among_cons 0 f.number numbers,
            h.counted,
            length-put f.number f.payload p.fragments,
          );
          budget = omega (arith, h.budget);
          recent = h.recent;
        },
      )

  abbrev pub stored_first : PartialPacket → PartialPacket
  stored_first p = record p { first = first; bytes = p.bytes + length first }

  pub add_first-Holds :
      (numbers : List ℕ) (key : ReassemblyKey) (p : PartialPacket) (r : Reassembler)
      → Holds total first payload since numbers p
      → is_among 0 numbers ≡ false
      → length numbers < 7
      → length first ≤ 1432
      → (add_first key first p r ≡ complete (put key (stored_first p) r) key (stored_first p))
        × Holds total first payload since (0 ∷ numbers) (stored_first p)
  add_first-Holds numbers key p r h new few small =
      let nothing : p.first ≡ [] = rw (h.first_held, new) refl in
      (
        unfold add_first in ground (arith, h.budget, ap length nothing),
        record {
          first_held = ground (arith, among_cons 0 0 numbers);
          fragment_held = λ n positive. ground (arith, among_cons n 0 numbers, h.fragment_held n);
          total_held = h.total_held;
          total_known = h.total_known;
          counted = ground (arith, among_cons 0 0 numbers, h.counted);
          budget = omega (arith, h.budget);
          recent = h.recent;
        },
      )

  pub complete_waits :
      (numbers : List ℕ) (key : ReassemblyKey) (p : PartialPacket) (r : Reassembler)
      → Holds total first payload since numbers p
      → length numbers < total
      → complete r key p ≡ (r, incomplete)
  unfolding complete
  complete_waits numbers key p r h more = ground (arith, h.first_held, h.counted, h.total_held)

  pub complete_joins :
      (numbers : List ℕ) (key : ReassemblyKey) (p : PartialPacket) (r : Reassembler)
      → Holds total first payload since numbers p
      → 2 ≤ total
      → length numbers ≡ total
      → ((i : ℕ) → i < total → is_among i numbers ≡ true)
      → 0 < length first
      → length (first ++ gather payload 1 (total - 1)) ≤ max_packet_length
      → complete r key p ≡ (remove key r, complete_packet (first ++ gather payload 1 (total - 1)))
  unfolding complete conclude
  complete_joins numbers key p r h two all here some_first fits =
      let first_is : p.first ≡ first = rw (h.first_held, here 0 (omega arith)) refl in
      let total_is : p.total ≡ total =
        ground (arith, h.total_known, h.counted, here 0 (omega arith)) in
      let found : (i : ℕ) → 1 ≤ i → i < 1 + (total - 1) → find i p.fragments ≡ some (payload i) =
        λ i low high. rw (h.fragment_held i low, here i (omega arith)) refl in
      let joined : assemble p.fragments (p.total - 1) 1 p.first
          ≡ assembled (first ++ gather payload 1 (total - 1)) =
        rw (total_is, first_is)
          (assemble-gather payload p.fragments (total - 1) 1 first found fits) in
      ground (arith, joined, h.counted, here 0 (omega arith), total_is, ap length first_is)
