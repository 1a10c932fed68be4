-- ===== src/Netip.antt =====
-- The parts of Go's `net/netip` and `time` that the program uses.
use ztgotroller.Base.{
  [], ◌∷◌, ◌||◌, ltb, ℕ, ◌+◌, ◌-◌, ◌/◌, ◌^◌, if◌then◌else◌, ◌≡◌, arith, Bool, true, false, ◌&&◌,
  ◌↔◌, ◌==◌, leb, Bytes, bytes_eq, bytes_eq_iff, Eq,
}

-- `netip.Addr`: the zero value, an IPv4 address by its 32 bits, an IPv6 address by its 128 bits and
-- its zone.
pub data Addr : Type 0 where
  zero_addr : Addr
  ip4 : ℕ → Addr
  ip6 : ℕ → Bytes → Addr

unfoldable pub addr_eq : Addr → Addr → Bool
addr_eq zero_addr zero_addr = true
addr_eq (ip4 a) (ip4 b) = a == b
addr_eq (ip6 a z) (ip6 b y) = a == b && bytes_eq z y
addr_eq _ _ = false

pub addr_eq_iff : (a b : Addr) → (addr_eq a b ≡ true) ↔ (a ≡ b)
unfolding addr_eq
addr_eq_iff zero_addr zero_addr = ground arith
addr_eq_iff zero_addr (ip4 b) = ground arith
addr_eq_iff zero_addr (ip6 b y) = ground arith
addr_eq_iff (ip4 a) zero_addr = ground arith
addr_eq_iff (ip4 a) (ip4 b) = ground arith
addr_eq_iff (ip4 a) (ip6 b y) = ground arith
addr_eq_iff (ip6 a z) zero_addr = ground arith
addr_eq_iff (ip6 a z) (ip4 b) = ground arith
addr_eq_iff (ip6 a z) (ip6 b y) = ground (arith, bytes_eq_iff z y)

instance abbrev pub addr_keys : Eq Addr
addr_keys = record { same = addr_eq; same_iff = addr_eq_iff }

unfoldable pub is_valid : Addr → Bool
is_valid zero_addr = false
is_valid _ = true

-- `Is4` holds of no IPv6 address, an IPv4-mapped one neither.
unfoldable pub is4 : Addr → Bool
is4 (ip4 _) = true
is4 _ = false

-- `a < b` on strings.
unfoldable pub bytes_lt : Bytes → Bytes → Bool
bytes_lt _ [] = false
bytes_lt [] (y ∷ ys) = true
bytes_lt (x ∷ xs) (y ∷ ys) = ltb x y || (x == y && bytes_lt xs ys)

-- `a.Compare(b) > 0`: the zero value is the least, then the IPv4 addresses, and an IPv6 address goes
-- by its number and then by its zone.
unfoldable pub addr_above : Addr → Addr → Bool
addr_above zero_addr b = false
addr_above (ip4 a) zero_addr = true
addr_above (ip4 a) (ip4 b) = ltb b a
addr_above (ip4 a) (ip6 b y) = false
addr_above (ip6 a z) (ip6 b y) = ltb b a || (a == b && bytes_lt y z)
addr_above (ip6 a z) _ = true

-- `netip.Prefix`, with its zero value, which is not valid.
pub data Prefix : Type 0 where
  zero_prefix : Prefix
  prefix : Addr → ℕ → Prefix

abbrev pub prefix_is_valid : Prefix → Bool
prefix_is_valid zero_prefix = false
prefix_is_valid (prefix _ _) = true

abbrev pub prefix_addr : Prefix → Addr
prefix_addr zero_prefix = zero_addr
prefix_addr (prefix a _) = a

-- `Next`: the zero value behind the last address. The zone stays.
unfoldable pub addr_next : Addr → Addr
addr_next zero_addr = zero_addr
addr_next (ip4 a) = if a + 1 == 4294967296 then zero_addr else ip4 (a + 1)
addr_next (ip6 a z) = if a + 1 == 2 ^ 128 then zero_addr else ip6 (a + 1) z

-- `Contains`: the leading bits agree. No address with a zone is contained.
unfoldable pub prefix_contains : Prefix → Addr → Bool
prefix_contains (prefix (ip4 a) bits) (ip4 b) = a / 2 ^ (32 - bits) == b / 2 ^ (32 - bits)
prefix_contains (prefix (ip6 a y) bits) (ip6 b z) =
    bytes_eq z [] && a / 2 ^ (128 - bits) == b / 2 ^ (128 - bits)
prefix_contains _ _ = false

-- `netip.AddrPort`.
pub record AddrPort : Type 0 where
  pub address : Addr
  pub port : ℕ

unfoldable pub addr_port_eq : AddrPort → AddrPort → Bool
addr_port_eq a b = addr_eq a.address b.address && a.port == b.port

pub addr_port_eq_iff : (a b : AddrPort) → (addr_port_eq a b ≡ true) ↔ (a ≡ b)
unfolding addr_port_eq
addr_port_eq_iff a b = ground (arith, addr_eq_iff a.address b.address)

-- An instant in nanoseconds; 0 is Go's zero time. No program value lies before it.
abbrev pub Time : Type 0
Time = ℕ

abbrev pub second : ℕ
second = 1_000_000_000

-- `now.Sub(before) >= span`. Where `now` lies before `before` the difference is negative; Go's
-- saturation at 292 years does not change a comparison with a short span.
abbrev pub has_elapsed : Time → Time → ℕ → Bool
has_elapsed now before span = leb (before + span) now
