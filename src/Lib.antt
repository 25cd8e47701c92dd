-- ===== src/Lib.antt =====
-- Senix, a gateway with an administration console: the console (web/src) and the benchmark of event
-- streams (benchmarks), in JavaScript, and the runtime of the gateway (crates/senix-core), in Rust.
--
-- Parts of the program, and the files that model them:
--
-- * web/src/locale.js, the messages of the console. `translate` picks a template by the Chinese
--   source message and puts values into its `{name}` fields; `chooseLocale` picks the language.
--   Locale (Catalog: the dictionary `english`, entry by entry).
-- * web/src/i18n.jsx, the language provider: the choice saved in the browser, `setLocale`, and the
--   effect that writes it into the document. Language.
-- * web/src/main.jsx, the console, a folder per component of the page below Console. Api: `api`,
--   `errorMessage`, `stateTone`. Effects: what handlers do outside of their own state. Uri:
--   `encodeURIComponent`. Number: the doubles that the forms compute with. Screen: the texts and
--   controls that a component returns, from which its `…screen` or `…view` is made (Coverage:
--   whether the dictionary has its messages). Maintenance: `MaintenancePanel`, with `run` and the
--   four handlers cut at their `await`s (Forms: up to the request; Events: what comes after, the
--   polling effect, and `step` over all events; Paths; Screen). Keys: `KeyForm`, with the tables
--   `ACTIONS` and `KEY_PRESETS`. Credentials: `CredentialRow` and `Credentials`. Certificates:
--   `certificateState`, `CertificateRow`, `issueDomains`, the reading of the domains and the runs
--   of `Certificates` (Page). Changes: `ChangeCard` and `Changes`. Diagnostics, Overview, Audit,
--   Login, Secret: the components of these names. Desk: `loadAll`, with Session (`App`, the login
--   and the logout), Toast (`notify` and its timer), Shell (`Sidebar`, the keyboard, the head of
--   the page) and Whole (all that `ControlDesk` and `App` show).
-- * benchmarks/sse-backend.mjs, the fixture server of the event streams. Sse/Frame: the frames it
--   prepares. Sse/Backend: the request handler, its statistics and its writing loop.
-- * benchmarks/sse-load.mjs, the load generator that reads and checks them. Sse/Reader:
--   `oneStream` from the response on. Sse/Load: the workers, which call it, and what they count
--   (Log: the list of ended streams that the counters stand for). Sse/Delivery: both ends
--   together.
-- * crates/senix-core/src/state.rs and runtime.rs, the runtime of the gateway, which the console's
--   requests change in the end. Gateway/State: the configuration and the states of instances.
--   Gateway/Instance: `InstanceGate` with `try_acquire`, and what the operations and the end of a
--   lease do to it. Gateway/Schedule: the weighted choice of a backend in `acquire`.
--   Gateway/Routes: `route_match_score`. Gateway/Runtime: `drain`, `rejoin`, `set_weight`,
--   `disable`, `restore_control_state`, `report_health` and the leases, with Acquire (`acquire`),
--   Publish (`publish`, and `load_instance_states` of store.rs) and History (all operations, one
--   after the other).
--
-- How they interact: the console's components call `api`, show errors by `errorMessage`, and hand
-- every message to `translate` as an `Entry`; the provider passes the chosen locale on. The load
-- generator reads what the fixture server writes. The runtime publishes a snapshot of the routes;
-- requests get leases of instances by the snapshot of the time, and the gates outlive snapshots.
--
-- Conventions. A text is the list of its UTF-16 code units, a byte a natural number below 256, and
-- a user-visible constant a `String`. A component is a record of its state with a step per event;
-- effects (requests, notices, reloading) are returned in order. One event is handled together with
-- the rendering and the effects it causes before the next; an answer of the server is an event.
-- Counters are natural numbers, and stay far below what a double counts exactly. A request of the
-- maintenance panel, the key form or the certificates is named by what it asks for
-- (Maintenance/Paths gives the panel's calls); the others have their path, method and body. A
-- handler that awaits an answer in a page that stands still (a confirmation) has the answer in its
-- event.
--
-- In the runtime an i64 is the natural number of its distance from i64::MIN, so that 0 is 2^63 and
-- saturation is at 0 and 2^64 - 1. Hosts and paths are lists of UTF-8 bytes. The mutex of a gate is
-- its place in a list of all gates, which snapshots and leases name. An operation that looks an
-- instance up and then holds the lock of its gate is one step. `acquire` has what others do between
-- its selection and its admission as a parameter, and `drain` what they do from its check to the
-- closing of the gate. The state that an operation answers is that of its own change. The counts of
-- leases are natural numbers: as many exist at a time, and do not reach 2^64.
--
-- Parameters, in place of code that is not in the repository: `StringDecoder`, `JSON.parse` and
-- the clock (Sse.Reader.Platform), `Number(text)`, `String(n)` and the product of a double
-- (Console.Number.Doubles), the joining of an array in `String(array)`, the substring test of
-- `explain`, `toUpperCase` and `JSON.stringify` (Console.Desk.Whole.Browser). What theorems rely
-- on is named there: Sse.Reader.Faithful.IsFaithful, Console.Number.AreIeee. Sse/Reference and the
-- tests have concrete instances.
--
-- Fuel: `drain` takes the length of the buffer, and each event it cuts off shortens the buffer by
-- two code units at least; `digits` takes the number itself plus one, and each round divides it by
-- ten. The attempts of `acquire` are bounded in the code.
--
-- Not modelled: the elements of the markup with their class names and icons, and the drawing;
-- `fetch`; the transport and the report files of the load generator; the k6 script; the build
-- configuration; of the Rust crates all but the runtime (the state store, the stored
-- operations of traffic.rs, the plans, the credentials, the proxy); the Python and the shell scripts.
pub mod Prelude
pub mod Decimal
pub mod Locale
pub mod Language
pub mod Sse
pub mod Console
pub mod Gateway
