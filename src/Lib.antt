-- ===== src/Lib.antt =====
-- llm_notch: a desktop companion that follows the sessions of coding agents. Hooks report what an
-- agent does over a local socket; the core keeps a registry of sessions and their events, evaluates
-- alerts, and streams frames to a renderer; a decision broker lets a hook wait until a person has
-- allowed or denied what the agent asks for; a metrics engine attributes processes to sessions;
-- relays on remote hosts stream their agents' events to the core.
--
-- The parts, their files and how they correspond to the code:
-- - Protocol: the wire types and limits of crates/notch-protocol/src/types.rs, decision.rs and
--   constants.rs, and the limits of crates/notch-core/src/constants.rs. A struct is a record and an
--   enum a data type with the source's names; `None` of an enum is `absent`. A UUID is a number, an
--   `f64` its bit pattern (Protocol.Float), on which the order and the rounding that the core uses
--   are written out.
-- - Core: crates/notch-core/src. Core.Registry is `SessionRegistry` with its hash maps; a method
--   takes the registry and returns the one it leaves beside its result, since a failing call may
--   leave a change. The panic of `expect` in `insert_new_session` is `none`. Core.Registry.Restore
--   and Core.Registry.Bootstrap are `restore` and `bootstrap_events`. Core.Transitions and
--   Core.Validation are domain/transitions.rs and domain/validation.rs, Core.Error is error.rs with
--   the data of a message in place of its text, Core.Stream is stream.rs and Core.Alerts alerts.rs.
--   Core.App is the state of app_core.rs under its lock, its `append_event` as `record_event`, and
--   its frames; a frame that `flush_pending` emits is part of the result. A handler is a function
--   of that state and of the repository, with `none` for the panic of an `expect`
--   (Core.App.Handler); Core.App.Commands is domain/ingest.rs, Core.App.Start `session_start`,
--   Core.App.Events the other commands about a session, Core.App.Ingest `ingest` and the operations
--   that are no commands, Core.App.Records the metrics, the retention and the snapshot,
--   Core.App.Staleness `mark_stale_sessions` and `tick`. Core.Repository is the trait
--   `SessionRepository`. Core.App.Steps follows each handler through the registry's own calls, and
--   Core.App.Served puts them in a row.
-- - Decision: crates/notch-decision/src. Decision.Broker holds `DecisionBroker`'s state and the
--   pieces of `handle_wait`: `register` up to the await, `expire_decision` where the timeout wins,
--   `reply_of`, `retire` and `wake_waiter`. `register` and `expire_decision` are one step where the
--   source takes its lock twice; Decision.Answers.Honest.Run has the halves as steps too.
--   Decision.Answers holds `submit_decision`, `confirm_delivery`, `fail_delivery`, `observe_effect`
--   and `list_pending`; where the source lets go of its lock between two writes, `mark_delivered`
--   and `mark_failed` are the part before.
--   Decision.Store is the audit table by its ids, with statements that SQLite may refuse.
--   Decision.Adapter, Decision.Claude and Decision.Version build the output for the vendor, from
--   crates/notch-decision/src/adapter.rs and crates/notch-adapters/claude-code/src.
-- - Metrics: crates/notch-metrics/src. Metrics.Graph is graph.rs, Metrics.History history.rs, and
--   aggregate.rs is Metrics.Quality (rates and qualities), Metrics.Aggregate (the figures of a
--   session's tree) and Metrics.Total (`compute_aggregate`). Metrics.Arithmetic writes out the sums
--   and quotients of `f64` that they use, on its bit patterns.
-- - Ipc: crates/notch-ipc/src. Ipc.Message and Ipc.Wire are the messages and checks of wire.rs,
--   Ipc.TerminalId a check of collector.rs, Ipc.Framing the frames of wire.rs and framing.rs on lists
--   of bytes, Ipc.Spool is spool.rs on a sorted list of files, Ipc.Error error.rs and limits.rs.
-- - Remote: crates/notch-remote/src. Remote.Session is `RelaySession` of session.rs, each operation
--   with the world that the transport changes, Remote.Manager `RemoteRelayManager`, Remote.Reconnect
--   reconnect.rs, Remote.Transport the traits of transport.rs. Remote.Protocol holds the frames and
--   checks of protocol.rs; Remote.HookNames and Remote.HookIngest are hook_ingest.rs, and
--   Remote.Supervisor is how `poll` of src-tauri/src/services/remote.rs takes a frame. The write of
--   `Backoff` that `tick_reconnect` itself overwrites is part of `attempting`.
-- - HashMap and BTreeMap: the standard library's maps as association lists. The order of a hash
--   map's list stands for its iteration order.
-- - Prelude: shared notation, lists measured by native numbers, sorting, texts, and the integers
--   for `i64`.
-- - Examples: concrete inputs for the results below.
--
-- The parts interact as in the source: the core calls the registry, the alerts and the coalescer
-- under one lock; the broker is shared by the tasks of the hooks, the renderer's commands and the
-- transport, whose steps are the constructors of Decision.Answers.Honest.Run.Act.
--
-- Bounds and fuel: a `u64` sequence counts modulo 2 ^ 64; `i64` times are integers, with saturation
-- where the source saturates and no overflow elsewhere. The walk over a process tree runs on fuel,
-- one more than the entries of the index, which is enough since each process is expanded once; the
-- loop that evicts files of the spool on one round more than there are files, since each round
-- removes one; the walk to an owner looks at 256 processes at most, as in the source. A float is
-- rounded within 11 doublings of the unit, all that a 64-bit number needs; a sum or a quotient
-- within 2100, since it has at most 2099 bits, or 2164 before its last 65 are rounded away.
--
-- Parameters: the repository (Core.Repository) and the transport to a remote host
-- (Remote.Transport), with whatever answers they give; the length of a relay's frame in JSON; the
-- printer and the parser of a message's JSON (Ipc.Framing.Json); the hash that makes a session id
-- (`session_id_for`, `internal_session_id`), and the printer of JSON (Decision.Adapter.Vendor).
--
-- Not modelled: the SQLite repository of the core, the socket server, the hook program, connectors,
-- the OpenSSH transport and what deploys a relay, the other adapters, the desktop shell, and the
-- renderer. The wake-up of a waiting task by the runtime is not part of the broker's state: a wait
-- may go on at any moment. The text of a database error is one text.
pub mod Prelude
pub mod HashMap
pub mod BTreeMap
pub mod Protocol
pub mod Core
pub mod Decision
pub mod Metrics
pub mod Ipc
pub mod Remote
pub mod Examples
