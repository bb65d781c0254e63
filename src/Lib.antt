-- ===== src/Lib.antt =====
-- Verification of ocpi-mock-hub, a mock OCPI 2.2.1 hub for testing an eMSP's integration.
--
-- The program. A client shakes hands with the hub (handlers/credentials.go), is given a Token B, and
-- sends it with every request; the middleware of hub/auth.go checks it. Commands (handlers/commands.go)
-- put session and reservation records into a store, as JSON. A tick of the simulator
-- (simulation/lifecycle.go) takes every session a step on, sends the command callbacks, pushes the
-- session to the client and writes the CDR at its end. The list endpoints page and filter what is
-- stored (ocpiutil/response.go, handlers/ocpi_headers.go). All state is behind the interface
-- handlers.Store, of which hub/store_memory.go is the in-memory implementation.
--
-- A correctness session (correctness/) tests one eMSP: an instance of a suite, with the traffic that
-- belongs to it as events, the tester's answers, and actions that are started in order. The manager
-- (manager.go) rebuilds the verdicts, the summary and the next step after every change, and keeps all
-- of it in one blob. Each session has a sandbox, an overlay of the store (overlay.go), which
-- hub/store_correctness.go puts in the place of the store for the requests of the active session.
--
-- The files.
--   Prelude       the libraries' names, Boolean tests, lists, Go's maps and sets, text, int
--   Json          encoding/json as the program uses it: values, maps, structs read by field
--   Store         handlers.Store (handlers/handlers.go): a record of operations on a state type; an
--                 operation is `none` where the method returns an error
--   MemoryStore   hub/store_memory.go: one record of maps, one function per method; Instance makes it a
--                 Store; Parties and Lookup are about the index from Token B to parties
--   Auth          ocpiutil/auth.go and hub/auth.go; Laws is about whom the middleware admits
--   Response      OK, Error (ocpiutil/response.go), resolveScheme, resolveHost (handlers/versions.go),
--                 and what a handler leaves: the store, the reply, the requests it sends out
--   Credentials   handlers/credentials.go and resetHandshakeState (handlers/connection_state.go)
--   Versions      handlers/versions.go and PostCredentials; Laws is about whom verifyTokenA lets in
--   Paging        paging and date filters of ocpiutil/response.go and parsePaging of
--                 handlers/ocpi_headers.go; Bounds, Walk, Window are about them
--   PartyFilter   filterRawByParty (handlers/ocpi_headers.go)
--   Records       ocpiutil/records.go and the two reservation records; RoundTrip
--   Seed          the lookups of fakegen/seed.go on the types of fakegen/types.go
--   Commands      handlers/commands.go: payloads and records, Handlers, Laws, and Stop and Lifespan,
--                 where a command meets the simulator
--   Sessions      handlers/sessions.go; Tokens, Cdrs, Profiles and Preferences are the other receivers
--                 (handlers/tokens.go, cdrs.go, charging_profiles.go, charging_preferences.go);
--                 Tokens/Sender has the list and the real-time authorization of
--                 handlers/tokens_sender.go
--   Locations     the lookups of handlers/locations.go, with the overlay of occupied EVSEs
--   Overlay       OverlayStore (correctness/overlay.go) on its decoded state; Laws is about its party
--                 index, Instance makes it a Store, and Scoped is CorrectnessStore
--                 (hub/store_correctness.go), and its Laws are about the sandboxes
--   RequestLog    the ring of handlers/requestlog.go; Ring is about it
--   Correctness   correctness/: Types has types.go, and the rest of it
--     Blobs       the in-memory state store of state.go, two steps for an update
--     NextStep, Rebuild, Manager
--                 nextStep, rebuildSession and the operations of manager.go on the manager in memory;
--                 Manager/Induction is the rule for invariants of sessions; Manager/Invariant,
--                 Reachable, Anchored and Start are about the reachable states
--     Persist     loading and saving the manager's blob around each operation; Refines relates
--                 the blob to the manager in memory, and the other children lead to it
--     Scope       scope.go: which requests belong to the active session
--     Eval        the evaluators of eval.go: Window has the traffic of an action, Requests, Responses
--                 and Payloads the checks, Flows the evaluators and their map; Verdicts is about every
--                 verdict, Window/Exact about the window, and Passed about what was seen where an
--                 evaluator passes
--     Suite       the tables of definitions.go; Coherent, Backed and Reachable join them with Eval,
--                 Rebuild and Manager
--   Lifecycle     simulation/lifecycle.go: Numbers, Advance, Complete, Reservations and Tick translate
--                 it; Machine, Progress, Billing, Callbacks, Entries, Round and Expiry are about it
--   Examples      the theorems at concrete inputs
--
-- How the code is read. A handler is a function from the store's state and the decoded request to
-- the new state, the reply and the pushes; the clock's reading, UUIDs and random draws are
-- arguments. A write whose error the code drops keeps the old state where it fails. A []byte is nil,
-- a document, or a text that is none; a document is the value it parses to, so the order of members
-- is not kept. A float64 is its bit pattern, and its arithmetic, the package time, base64 and fmt's
-- %.2f are parameters (Numbers, Clock, Base64); so are the JSON codec of the manager's blob and what
-- eval.go takes from Go's libraries (Tools: the JSON of recorded texts, times, URLs, formats,
-- sort.Slice, of which some theorems assume that it only permutes). The manager's theorems hold for
-- any evaluators. Upper and lower case and trimming are those of ASCII. A range over a map visits
-- the association list in order, but each request of a walk over pages finds an order of its own
-- (Paging/Walk). Each method of the in-memory store holds the store's lock for its
-- whole body and is one step; the theorems on a handler or a tick are about one that runs alone. No
-- definition needs fuel but the client in Paging/Walk, whose bound is in its theorem.
--
-- Not modelled. The Redis store (a remote service); of correctness/, the capture of traffic in
-- http.go, ListSuites and the getters that only copy; the handlers around the manager; the
-- middleware that fills the request log, and an Add to it between the updates of another; the fault
-- middleware, the admin API, the outgoing handshake, the pusher, the lists of locations and tariffs,
-- the generators of mock data, routing and configuration.
pub mod Prelude
pub mod Json
pub mod Paging
pub mod PartyFilter
pub mod Store
pub mod MemoryStore
pub mod Auth
pub mod Response
pub mod Credentials
pub mod Versions
pub mod Records
pub mod Seed
pub mod Sessions
pub mod Cdrs
pub mod Profiles
pub mod Locations
pub mod Tokens
pub mod Preferences
pub mod Overlay
pub mod RequestLog
pub mod Correctness
pub mod Commands
pub mod Lifecycle
pub mod Examples
