-- ===== src/Lib.antt =====
-- Verification library of the 6in4 tunnel daemon, whose server is cmd/server.
--
-- The daemon keeps an IPv6-in-IPv4 tunnel in the state that its configuration asks for. A
-- configuration document (internal/config) holds the switch of the tunnel, the profiles, one of
-- them active, and the settings of the server. The control service (internal/control) holds the
-- document, the effective configuration, and the state that it last observed; an update validates
-- a document, reconciles the system with it, saves it, and rolls back where one of these fails. A
-- reconcile stops the router advertiser (internal/ra), calls the backend, starts the advertiser
-- again, observes and probes the tunnel, and saves the state. A health loop checks the tunnel and
-- repairs it.
--
-- Files and code:
--   Prelude: names of the libraries, and small helpers. Prelude/Tests has the Boolean tests,
--     Prelude/Lists the lists over the native numbers, Prelude/Int the integers for Go's int, and
--     Prelude/Order that the order of the native numbers is well-founded.
--   Text: the functions of strings, strconv and fmt that the code uses, over native texts. itoa,
--     the `%d` of an index, runs on fuel one above its number, which is more than it has digits.
--   Errors: Go's error values, with fmt.Errorf's wrapping and errors.As, and results.
--   Heap: arrays behind slices, for the Clone methods.
--   Net: the addresses of net/netip; parsing and printing are fields of the record NetIp.
--   Config: internal/config/config.go. Config/Types has its structs, Config/Defaults the
--     applyDefaults methods, Config/Validation the reasons against a configuration,
--     Config/Documents the document with its profiles, Config/Raw the raw JSON documents,
--     Config/Storage Parse, ParseDocument, ParseUpdate, ParseUpdateDocument, Save, SaveDocument,
--     Load and LoadDocument, Config/Pointers what they do with nil, and Config/Clone the Clone
--     methods over a heap. What stands below Config/Clone, Config/Defaults/Laws,
--     Config/Documents/Effective, Config/Documents/Uniqueness, Config/Documents/Validity,
--     Config/Storage/Roundtrip, Config/Storage/Settling and Config/Storage/Updating are the proofs.
--   Tunnel: the status types and constants of internal/tunnel/manager.go, and in Tunnel/Client
--     the client of the daemon, which cmd/server uses for its command `ctl`; Tunnel/Transport is
--     how NewClient has it connect.
--   Fileutil: WriteAtomically of internal/fileutil/atomic.go. Fileutil/Atomicity is what it leaves
--     on the disk, and Fileutil/Storage that this is what Config/Storage asks of a file.
--   Logging: internal/logging/logging.go. Logging/Lines has the lines of a text, Logging/Tail the
--     loop of tailFile, Logging/Logger the rest. Logging/Suffix, Logging/Reading and
--     Logging/Rotation are the proofs.
--   Api: internal/api. Api/Http, Api/Limit and Api/Handler are handler.go, Api/Server is
--     server.go, and Api/Daemon gives the handlers the control service and the logger. Api/Auth,
--     Api/Updates, Api/Logs and Api/ReadOnly are the proofs, Api/Routes has the routes as a table
--     with what they serve, Api/Keeping is what the servers keep where their handlers do, and
--     Api/Local has the proofs about the client against the control server.
--   Ra: internal/ra/advertiser.go, the message and the connections of an advertiser; Ra/Loops has
--     its goroutines sendLoop and listenLoop, and Stop, as a step relation. Ra/Connections,
--     Ra/Message and what stands below Ra/Loops are the proofs.
--   Control: internal/control. Control/State is state.go, Control/Platform the interface Backend
--     of backend.go and what else the service is given. Control/Reasons, Control/Outcome,
--     Control/Reconcile, Control/Service and Control/Health are service.go: the degraded reasons,
--     reconcileLocked, the updates with rollbackConfigUpdateLocked, and runHealthCheck with the
--     health loop's round. Control/Backend is SystemBackend of backend.go: Control/Backend/Exec
--     the command runner, Control/Backend/Addresses the managed addresses,
--     Control/Backend/Dataplane, Control/Backend/Firewall and Control/Backend/Converge the rest;
--     Traces, States and Laws beside them are the proofs; Control/Backend/Chains is what iptables
--     documents of its chains, and Control/Backend/Filtering leads from there to Reconcile.
--     Control/Clone has the Clone methods of the state and the status. Control/Interleaving makes a
--     run of the service's critical sections, and Control/Loop has the health loop and Stop as
--     steps. Control/Service/Creation is NewService from its parameters; the other children are the
--     proofs, and Control/Lifetime follows the service from NewService on over SystemBackend.
--   Server: cmd/server/main.go, the choice of the command, runCtl and listenUnixSocket;
--     Server/Startup is runServe up to its listening. Server/Socket, Server/Readiness and
--     Server/Ctl are the proofs; the last one leads from runCtl through the client to the service.
--     Server/Traffic is what the requests do to the daemon once it serves.
--   Tests: a small platform (Tests/Fixtures) and the theorems applied to it.
--
-- How the code is modelled: a struct is a record, a nil pointer is none, a slice is a list, Go's
-- int is an integer without bounds but where it is converted: uint32, uint8 and time.Duration wrap
-- around as in Go. A method that changes the service takes and returns the record Service, whose
-- field `world` is what the backend, the files, the clock and the network hold; a call out of the
-- program is a field of the record Platform, which returns the world after it. A loop over a slice
-- is a recursion on the list, so no function but itoa has fuel. Where a Go function returns early,
-- the rest is a function of its own (after_validate, after_save, after_rollback), in the source's
-- order. Where one runs under an `if`, its result is computed and taken only if the test holds.
-- The mutex of the service makes its critical sections atomic: an Event is one of them, and a run
-- a list. The health loop gives the mutex back between its steps, and the others may run there.
--
-- The loop of tailFile is a recursion on the offset, which falls. The goroutines of the advertiser
-- are steps of loops in any order, of which Stop is one more party.
--
-- Not modelled: the loops of net/http that serve once runServe listens, its connections, the
-- headers that net/http adds by itself, signals, and log lines. Outside of Config/Pointers, the
-- tests for nil arguments that no caller passes are left out. encoding/json, flag, net, net/http,
-- the parsers of net/netip, ndp, os, os/exec, path/filepath, regexp and time are parameters, and so
-- is what iptables accepts as a rule; a theorem that relies on what they do names it as a
-- hypothesis. The web page and the scripts are no code of the daemon.
pub mod Prelude
pub mod Text
pub mod Errors
pub mod Heap
pub mod Net
pub mod Config
pub mod Fileutil
pub mod Logging
pub mod Api
pub mod Tunnel
pub mod Ra
pub mod Control
pub mod Server
pub mod Tests
