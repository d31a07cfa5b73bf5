-- ===== src/Lib.antt =====
-- AntiNAT Agent: a verification library of the agent that opens a service behind NAT to the
-- internet.
--
-- The program. The agent keeps one activation for each forwarded service. It owns the sockets that
-- it listens on (the port registry), asks the gateway for mappings (NAT-PMP, PCP, UPnP, STUN), and
-- lets the Controller prove from outside that the mapped endpoint is open: the Controller sends an
-- arm, a WAN provider sends a signed frame to the endpoint, the agent accepts it once and answers
-- on the same path and on the control channel, and the Controller joins the three. Only such a
-- proof lets the activation publish the endpoint as verified. The forwarders charge a session
-- budget. What the Controller commands goes through a durable journal: a command is received once,
-- its operation goes through the phases of the inbox machine, and its result waits in an outbox
-- until the Controller's receipt. Deleted Forwards are fenced by durable intents and tombstones,
-- and the decommission of an agent by a terminal marker, a recovery quarantine and a latch on new
-- actors.
--
-- The files and the code that they model (paths from the repository's root):
--   Base                     numbers, lists, byte strings, maps, results and panics of Go
--   Forward/Budget           internal/forward/budget.go: NewBudget, Reserve, Release, Snapshot
--   Traversal/PortRegistry   internal/traversal/portregistry.go: Acquire, AcquireUDP, release
--   Traversal/NatPmp         internal/traversal/natpmp/natpmp.go and the requests of client.go
--   Traversal/Pcp            internal/traversal/pcp/pcp.go: the packets and mapped addresses
--   Protocol/States          internal/protocol/domain.go: the state axes and their truth rules
--   Protocol/Transitions     internal/protocol/domain.go: the durable control state machines
--   Protocol/Endpoint        internal/protocol/endpoint.go: ClassifyIP, IsGlobalEndpoint
--   Protocol/Platform        internal/security/framecrypto/framecrypto.go: Sign, Verify
--   Protocol/Frames          internal/protocol/probe.go: the five frames, their parsers and checks
--   Protocol/ProbeAgent      internal/protocol/probe.go: ProbeAgent and VerifyProbeJoin
--   Traversal/Stun           internal/traversal/stun/message.go: types, ParseMessage, Marshal; the
--                            child module Attributes has the addresses, error codes and type lists
--   Agent/Activation         internal/agent/reconcile/activation.go and state_machine.go
--   Agent/Localstate         internal/agent/localstate, with the modules
--     Storage                the rows, and what the store takes from bbolt and encoding/json
--     Fences                 forward_delete.go and tombstone.go
--     Command                journal.go: the keys, the links of a command, its new journal
--     Journal                journal.go: sessions and the receipt of commands
--     Outbox                 journal.go: the outbox, from QueueResult to AcceptReceipt, and requeue
--     Operations             journal.go: the phases of an operation, and the recovery
--     Slots                  the abstract state of one operation and its moves
--     Events                 sequences of the journal's calls
--     Memory                 an instance of Storage in memory, for runs
--     Lifecycle              marker.go, recovery.go and latch.go
-- A component's operations stand in its own file, in the order of the source; its child modules are
-- named for what they prove, and its Tests holds runs and witnesses. A child uses its parent.
--
-- How Go is modelled. A struct that methods change is a record, and a method is a function from the
-- record to the record and the answer. A mutex makes concurrent calls a sequence of critical
-- sections, so a history is a list of calls; the two sections of the registry's release are
-- separate steps of it. An int64 or a time.Duration is its 64-bit pattern. A Go array is a byte
-- string, whose length a hypothesis states where it matters. A call that can panic returns a Result
-- with a third case for the panic; slicing and indexing have Go's bounds. A map with array keys is
-- an association list; maps of strings are lists of pairs. A time is a count of nanoseconds. A bolt
-- transaction is a function from the buckets to a result with the buckets: an error leaves them as
-- they were. A call that changes a file of the state directory takes what the file system does as
-- an argument, an error before or after the change included. An IP address has no zone, but for
-- those that STUN writes into a message.
--
-- Bounds. The budget counts sessions below 2 ^ 47, where its byte counter of 64 bits cannot wrap;
-- the registry's generations are those of fewer than 2 ^ 64 calls. Only the attribute loop of
-- ParseMessage runs on fuel, as many rounds as the section has bytes: a round takes four or more,
-- and the end of the fuel would be a panic. Every other loop is over a list. The theorems on
-- journals are about operation identities without the prefixes of the bucket's own keys (is_plain).
--
-- Parameters. SHA-256, Ed25519 and the parsers of endpoints (net.SplitHostPort, netip.ParseAddr,
-- strconv.Atoi) are the fields of the record Platform; no law of them is assumed. A bucket of bbolt
-- is a map with the laws of the record Storage, whose Put may refuse a row; the JSON of a row is
-- read back as it was written, for strings of valid UTF-8. The hash of a payload and the strict
-- decoder of a desired state are arguments. A requeue visits the rows that the bucket has at its
-- start. The clock's reading is an argument.
--
-- Not modelled: sockets, TLS, timers and goroutines; the files behind the store; the composition of
-- the agent (app.go), the session with the Controller, the applied state, probe rows and mapping
-- journal of the local store, the reconciler's workers, MESSAGE-INTEGRITY and FINGERPRINT of STUN
-- and its observers, UPnP, the forwarding loops, and the installation scripts.
pub mod Agent
pub mod Base
pub mod Forward
pub mod Protocol
pub mod Traversal
