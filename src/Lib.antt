-- ===== src/Lib.antt =====
-- A model of the ZTGotroller network controller, and what holds of it.
--
-- The program is a ZeroTier network controller in Go. Datagrams arrive over UDP; fragments are put
-- together by the reassembler (internal/zerotier/transport); the packets are framed by
-- internal/zerotier/packet; a network configuration is written and read as a dictionary
-- (internal/zerotier/networkconfig), and goes out in chunks that the controller's identity
-- (internal/zerotier/identity) signs, as it signs the certificates of membership and their
-- revocations; networks and members with their identifiers are records of internal/domain, which a
-- store (internal/store) keeps under optimistic revisions, and on which the service of
-- internal/controller works.
--
-- Base: shared helpers: Boolean tests, lists, results with Go's early returns, chains of checks,
--   byte strings, bits, hexadecimal text, and association lists for Go's maps.
-- Netip: `netip.Addr`, `netip.Prefix`, `netip.AddrPort`, and instants in nanoseconds.
-- Domain.Ids: internal/domain/id.go (`ParseNodeID`, `ParseNetworkID`, `NewNetworkID`,
--   `ControllerID`, `validateHexID`).
-- Domain.Networks, Domain.Members: internal/domain/network.go and internal/domain/member.go (the
--   records, `NewNetwork`, `NewMember` and `Validate`).
-- Store: internal/store/memory/memory.go (the operations of the interface `Store` of
--   internal/store/store.go, but `Ping`; the sorted lists are in Store.Listing). The calls take a
--   lock for their whole body, so that Store.Steps runs them one after the other.
-- Controller: internal/controller/service.go; Controller.Admin: internal/controller/admin.go;
--   Controller.Addresses: internal/controller/ipam.go; Controller.Config: `HandleConfigRequest` of
--   internal/controller/config.go. An operation is an action on the store: it returns a result and
--   leaves a store, on an error too (Controller.Actions). Controller.Calls runs them one after the
--   other.
-- Identity: internal/zerotier/identity/identity.go (`Parse`, `ParseBinary`, `String`,
--   `SecretString`, `MarshalBinary`, `Sign`, `Verify`, `Agree`, `AgreeRawPublic`), over the
--   cryptography of Identity.Primitives.
-- Chunks: internal/zerotier/networkconfig/chunk.go (`BuildSignedChunks`, `ParseSignedChunk`,
--   `WrapOK`, `WrapError`), signed with Identity.
-- Dictionary: internal/zerotier/networkconfig/dictionary.go (`Add`, `AddHexUint`).
-- Dictionary.Parse: internal/zerotier/networkconfig/request.go (`ParseMetadata`,
--   `ParseDictionary`, `HexUint`, `splitLines`, `unescapeValue`).
-- Request: `ParseRequest` and `AgentMetadata` of internal/zerotier/networkconfig/request.go, read
--   with Dictionary.Parse from what Packet.Header decodes, for Controller.Config.
-- Membership: internal/zerotier/networkconfig/membership.go (`NewCertificateOfMembership`,
--   `Verify`, `MarshalBinary`, `ParseCertificateOfMembership`), signed with Identity.
-- Revocation: internal/zerotier/networkconfig/revocation.go (`NewCOMRevocation`, `MarshalBinary`,
--   `Verify`) and its helpers of internal/zerotier/networkconfig/policy_credentials.go.
-- Packet.Header: internal/zerotier/packet/packet.go (`ParseRouting`, `ParseDecoded`, `IsFragment`,
--   `ParseFragment`) and `Build` of internal/zerotier/packet/armor.go.
-- Packet.Fragment: `fragmentArmored` of internal/zerotier/packet/fragment.go.
-- Packet.Compression: `Decompress` of internal/zerotier/packet/compression.go;
--   Packet.Compression.Blocks says what a block means and how it is written.
-- Transport.Reassembly: internal/zerotier/transport/reassembly.go (`push`, `slot`, `complete`,
--   `expire`). It reads datagrams with Packet.Header; Transport.Reassembly.Delivery joins it to
--   Packet.Fragment.
-- Peer: internal/zerotier/peer/registry.go (`RegisterConfigured`, `LearnHello`,
--   `LearnValidatedHello`, `Prune`, `Get`); the check behind `LocallyValidate` is a parameter.
--
-- A byte is a number below 256, a string the list of its bytes, and a 64-bit integer is a number
-- with its wrap-around written out. A Go map is an association list. An error is a value of the
-- module's error type, without the message's text. State that Go changes in place is passed on and
-- returned. The loops of `fragmentArmored` and `complete` recurse on the number of their rounds,
-- which Go fixes before the loop; `format_hex 15` writes at most sixteen digits, which hold 64
-- bits. The loops of `Decompress`, `BuildSignedChunks` and `AgreeRawPublic` have as many rounds as
-- there are bytes to read or to write, and each round takes one at least. The search for an
-- address recurses on how many addresses it may still scan, and the search for a random network
-- identifier on its attempts.
--
-- SHA-512, Ed25519 and X25519 are Go's and are parameters (Identity.Primitives); what a theorem
-- needs of them is a named hypothesis: the sizes, that a signature is accepted under the public
-- half of its key, and that X25519 is symmetric. The random bytes and the clock are parameters
-- too.
--
-- `IssueAuthorizedConfig` of internal/zerotier/networkconfig/issue.go is a parameter of
-- Controller.Config, with nothing assumed of it: it has no state, and its result only goes into
-- the replies.
--
-- Not modelled: the ciphers and the armor of the packets; the generation of identities and the
-- proof of work behind them; the certificates of ownership, the tags and capabilities, the rules
-- and the dictionary of a network configuration, and so how `IssueAuthorizedConfig` makes one; the
-- packet handler; the limiter, which counts in floating point; the HTTP interface, the SQLite
-- store, the commands and the sockets.
pub mod Base
pub mod Chunks
pub mod Controller
pub mod Dictionary
pub mod Domain
pub mod Identity
pub mod Membership
pub mod Netip
pub mod Packet
pub mod Peer
pub mod Request
pub mod Revocation
pub mod Store
pub mod Transport
