-- ===== src/Lib.antt =====
-- Edge is a reverse proxy. This library models the core of crates/edge-core, the types of
-- crates/edge-domain that it stands on and services of crates/edge-application, and proves what makes
-- these parts correct.
--
-- The parts and their files:
--   Prelude      tests on numbers, lists, 64-bit words, ordered maps (`Table` for `BTreeMap`)
--   Text         the functions of `str` that the code uses, over lists of bytes and code points, with
--                their laws: Text/Split, Text/Decimal
--   Domain       crates/edge-domain/src/lib.rs: `ErrorCode` and `AppError` (Domain/Errors), the runtime
--                resource policy (Resources), upstream URLs (Endpoint), TLS policies (Tls), routes and
--                their choice (Routing), the records of a snapshot (Config), availability and the round
--                robin (Availability, Upstreams), active and passive health (Health), the retry policy
--                (Retry), the lock of the data directory (Lock), the states of an offline upgrade in
--                operational_upgrade.rs (Upgrade), the audit records and states of audit.rs (Audit);
--                Domain/Exec is the shape of a
--                `&mut self` method that returns a `Result`: the new state stands beside the error too,
--                and `?` is the bind
--   Application  crates/edge-application/src: Validation is config_validation.rs, Drain is drain.rs,
--                PassiveHealth is passive_health.rs, Entries the map that the two keep; Audit is audit.rs:
--                Audit/Calls and Audit/Mutation an audited mutation, Audit/Startup the start of the ledger with
--                Audit/Reconciliation, Audit/Sampler the sampler of failed logins
--   Payload      the accounting of bytes in flight: Payload/Ledger with its children is
--                payload_budget_ledger.rs, Slot is payload_charge_slot.rs and
--                tls_pending_payload_charge.rs, RequestCharge is request_payload_charge.rs, RetryPair is
--                upstream_retry_charge_pair.rs, ClientResponse is client_response_charge_transaction.rs
--   Http         http_request.rs: Http/Request the parser, Http/Request/Buffer the buffer that collects a
--                request; upstream_response_framing.rs: Http/Response the headers, Http/Response/Framing
--                the framer; http_forwarding_policy.rs: Http/Forwarding the headers, with
--                Forwarding/Sanitizer the sanitizer of response heads; Http/Wire is the request that
--                lib.rs sends to the selected upstream, and its planned length
--   Connection   State is connection_state.rs, Attempt upstream_attempt.rs, WriteBuffer
--                write_buffer.rs, Table connection_table.rs, Io connection_io.rs with all calls of the
--                event loop on it (Io/Retry), those on its public state machine included
--   Runtime      Timers is timer_queue.rs, Tokens token_allocator.rs, Commands command_queue.rs,
--                Admission resource_admission_policy.rs, Selector the `RuntimeUpstreamSelector` of lib.rs
-- (all under crates/edge-core/src where no other path is given). A connection (`HttpConnectionIo`) holds
-- a request buffer, an attempt and two write buffers; the charges of its buffers are slots into the one
-- ledger; the event loop of crates/edge-core/src/lib.rs owns the table, the timers, the tokens and
-- the queues. It selects a route and an upstream of a configuration snapshot for a request, forwards
-- the headers that the forwarding policy leaves, and frames and sanitizes the response.
--
-- Names are those of the source. A method of the ledger and of the records around it is a function of the
-- same name whose last argument is the state; a `match` with an early return inside a method is a helper
-- by clauses. Maps keyed by a charge or a connection are tables in the order of their keys. Numbers
-- are natural numbers; `checked_add`, `checked_sub` and `saturating_add` are those of 64 bits
-- (Prelude/Words), which is the width of `usize` on the supported targets. The one loop that is not over
-- a list is that of the response framer: it runs on fuel, one more than the bytes of the input, and
-- it never runs out, since every turn consumes a byte.
--
-- Parameters: reading a socket address (`loopback_of` in Application/Validation), which the code
-- leaves to the standard library; the ledger, the inspector and the effect of an audited mutation,
-- which audit.rs takes as parameters too (`AuditLedgerWriter`, `AuditLedgerReader`, with
-- `Publishes` for what a ledger owes); whether the allocator grants a reservation (`reserved` in
-- WriteBuffer and Io, `grows` and `reserves` in the framer, the sanitizer and Http/Wire), since
-- the allocator is not code of the repository. Not modelled: vector capacities; sockets, TLS
-- sessions and the event loop that drives them; the publishing of a status; the adapters (the
-- files of the audit ledger among them), the administration interface and the command-line
-- programs, which are input and output around the core.
pub mod Prelude
pub mod Text
pub mod Domain
pub mod Application
pub mod Payload
pub mod Http
pub mod Connection
pub mod Runtime
