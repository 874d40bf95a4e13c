-- ===== src/Lib.antt =====
-- Verification of QMux, a layer 4 NAT traversal tool: a server with public listeners forwards TCP
-- connections and UDP packets over QUIC sessions to clients behind NAT, and its mesh servers forward
-- between each other.
--
-- Base holds what the parts share: Boolean tests, lists, byte strings in network order and Go maps as
-- association lists over keys with a Boolean equality.
--
-- Datagram models the wire format of protocol/udp_fragment.go: the split of a payload into datagrams
-- (FragmentUDPPooled), their decoding (DecodeUDPDatagram) and the epochs of fragment IDs
-- (AllocateUDPEpoch). Strings and packets are lists of byte values. The pooled send buffers, which
-- keep their previous content, are a parameter, and so is the flag that turns fragmentation on.
--
-- Assembler models ShardedFragmentAssembler of the same file: 16 shards that hold the groups of
-- fragments under way, the shared counters of retained groups and bytes, the cleanup loop and Close.
-- AddFragment, a tick of the cleanup and Close are each one step on the whole state. Where other
-- goroutines move a counter between the loads of a compare-and-swap loop (reserveFragmentCapacity,
-- AllocateUDPEpoch), the loop runs over the list of the values that it meets, and the theorem holds
-- for every such list.
--
-- Pool models server/pool/pool.go and server/pool/balancer.go: the registration of client
-- generations (BeginPending, Reserve, Commit, Abort), their retirement (BeginRetire, Done, Remove),
-- TCP admission with its leases, UDP sessions and the two balancers. A pointer is a number into the
-- store of its objects, and every method is one step under the pool's lock, with the pool passed on.
-- Pool.Run composes the methods into arbitrary histories; the balancer is a parameter there. Values
-- of Go maps are visited in the order of insertion where the runtime's order is unspecified; since
-- a history takes any admission and any balancer, its theorems do not depend on that order.
-- The int64 counters of a pool are natural numbers and wrap nowhere; its uint64 counters wrap.
--
-- Message models the framing of protocol/codec.go over byte streams, with JSON as a parameter, the
-- decoding of the drain messages over the tokens of jsontext, and the negotiation of
-- protocol/message.go. Transcript models the canonical bytes that auth/token/token.go signs;
-- HMAC and the TLS exporter are parameters. Tickets models the key rotation of
-- server/tls/stek/rotate.go, its random source being a parameter.
--
-- Admission models mesh/admission.go: the limits on the flows, setups and HTTP requests of one TCP
-- source of a mesh server.
--
-- ControlQueue models controlQueue of mesh/control_state.go, the bounded queue of frames towards one
-- mesh peer.
--
-- Outbound models internal/outbound: the endpoint with its published generation, retry state and
-- reconnect intent (Current, Retry, Endpoint), the owner of a generation's resources, whose calls of
-- its callbacks are a log, and the reconnect delay, whose random source is a parameter. Durations are
-- nanoseconds, and a retry stage is not negative.
--
-- MeshRegistry models mesh/registry.go and the part of mesh/selection.go that keeps the availability
-- of groups: State its data, Steps how generations enter and are published, Removal how they retire
-- and leave, Groups the publications. A generation is named by its ID; its record is what the
-- registry's map of all generations holds. Where the code takes the first match of a map's iteration,
-- the model takes the first in the order of insertion. Run composes the operations into histories;
-- Slots, Vacating, Retiring, Moves and Refinement relate the entries to abstract places, and Shrinks,
-- Drops, Leaves, Joins, Entered and Bounded count the generations.
--
-- ClientUdp models the sessions of client/udp_handler.go: Sessions the state of one session, Budget the
-- permits, Handler the table and the dispatch of packets. What the local sockets and the lifecycle of
-- the handler answer are arguments; Run puts the operations of its goroutines in any order. A close
-- with its accounting, which take two locks one after the other, is one step.
--
-- Manager models client/connection_manager.go: State its data, with a connection and an endpoint named
-- by their index, Generations how a connection enters, changes and leaves the phases that the counters
-- of its endpoint count, Publication the operations on these, each a step under the manager's lock,
-- Run their histories. The counters are natural numbers, since none can pass the number of
-- connections. Whether a context has ended is an argument. Tallied, Kept, Moves, Counted and Accounting
-- relate the counters to the connections; Published, Stays, Replaced, Replacing, Exclusive and
-- Histories the registered connections to the published ones.
--
-- Three definitions run on fuel. delay_loop, the loop of ReconnectDelay, has fuel for five rounds, since
-- the delay reaches its maximum after four doublings. remove_on, the recursion of removeLocked
-- through finishArbitrationLocked, has fuel for one more level than there are arbitrations, each level
-- forgetting one. dispatch_rounds has the two rounds that dispatchPayload makes. Every other loop of the modelled code is a recursion on the list that it walks.
-- Not modelled: sockets, QUIC, TLS, configuration files, logging, metrics, the command line,
-- and the parts of mesh/, client/ and server/ that schedule these.
pub mod Base
pub mod Datagram
pub mod Assembler
pub mod Pool
pub mod Message
pub mod Transcript
pub mod Tickets
pub mod Admission
pub mod ControlQueue
pub mod Outbound
pub mod MeshRegistry
pub mod ClientUdp
pub mod Manager
