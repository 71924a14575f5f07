-- ===== src/Lib.antt =====
-- durable-acp: the life of a session, the journal of its records, and what replays and streams them.
--
-- The program keeps agent sessions durable. A session moves along a table of statuses
-- (session/session.go). Every event of a session becomes a record, and a journal (journal/) keeps the
-- records of a session in one file of JSON lines: a store hands out consecutive sequence numbers,
-- lets a reducer project the record, writes and syncs the line, and only then acknowledges it. When a
-- session is opened again, the store cuts a line that a crash left unfinished, reads the file, and
-- replays it through the reducer. When an agent resumes and replays its own history, a matcher
-- (journal/replay.go) recognises what the journal already holds.
-- The deltas of an assistant's message are gathered into snapshots of the message as far as it goes
-- (runtime/coalesce.go), each of which replaces the one before it under one source identifier.
-- A runtime (runtime/runtime.go) manages the live sessions. It gives a session one turn at a time,
-- and queues further ones up to a limit. Adapters report events; the runtime completes and numbers
-- them, passes them through the coalescer, moves the turn and the status of the session, suppresses
-- what a resumed agent replays, journals the rest, hands it to the host, and starts the next turn.
-- From the journal it makes a session again and ends the turn that was cut off.
--
-- Files, and the code they model:
--   Prelude           numbers, text, lists, results and maps that the components share
--   Session           session/session.go: Status, allowedTransitions, New, Transition
--   Session/Lifecycle the edges of the table as a relation, and runs of transitions
--   Journal/Record    journal/record.go: Record, and the JSON codec as an interface
--   Journal/File      journal/store.go: repairTornTail and readJournal over the bytes of a file
--   Journal/Paths     journal/store.go: safeSessionID and Store.path
--   Journal/Envelope  journal/store.go: what Append does to a record before it is written, and the
--                     replay of the reducer in writerLocked
--   Journal/Store     journal/store.go: Store with its writers and files, writerLocked, Append, Read,
--                     ReadAfter, Tail, LastSequence, Subscribe, Close
--   Journal/Events    journal/events.go: the names of the events, Translate, translatedEventName
--   Journal/Replay    journal/replay.go: ReplayMatcher, replayKeyFor, Match, MatchesCompletedTurn, Reset,
--                     Record
--   Host              host/types.go: Event, the requests and the configuration of a session
--   Runtime/Coalesce  runtime/coalesce.go: deltaCoalescer with Handle, Close, its timer and its helpers
--   Runtime/Coalesce/Emission
--                     runtime/coalesce.go: emit, by which calls deliver after they release the lock
--   Runtime/State     runtime/runtime.go, runtime/errors.go: Runtime, managedSession, the errors, and the
--                     effects on the outside
--   Runtime/Configuration
--                     runtime/runtime.go: the configuration of a session, what requests take from it, and
--                     what events report of it
--   Runtime/Turns     runtime/runtime.go: what deliverNow, failSubmission, Restart and Close do to a turn
--   Runtime/Delivery  runtime/runtime.go: deliver, deliverNow, emitQueue
--   Runtime/Sending   runtime/runtime.go: send, submitTurn, failSubmission, dispatchQueued
--   Runtime/Queueing  runtime/runtime.go: Interrupt, InterruptActive, ReconcileTurn, RespondInteraction,
--                     SetReplayHistory, SetConfiguration, QueueEntries, RemoveQueuedTurn,
--                     ReplaceQueuedTurn, BlockDispatch, UnblockDispatch
--   Runtime/Lifecycle runtime/runtime.go: Create, Start, Restart, Close, Forget
--   Runtime/Restoring runtime/runtime.go: Restore, reconcileRecoveredTurn
--   Runtime/Restoring/Recovery
--                     what the events of a turn mean, for the live session and for the restored one
--   Runtime/Shutdown  runtime/runtime.go: Shutdown
--   Runtime/Calls     runtime/runtime.go: New, and sequences of the calls
--   Runtime/Bounds    the queues of a runtime, after any calls
--   Tests             runs at concrete inputs
-- The child modules of a component hold its proofs, each named for what it proves.
--
-- How the code is rendered:
--   * A method that changes state is a function from the state before to the result and the state
--     after. A lock makes each method one step; histories of steps are the relation Reach.
--   * A failure of the operating system is an argument: RepairFaults, ReadFaults and Faults say which
--     call fails, and a write may stop after any number of bytes.
--   * encoding/json is an interface: Codec has marshal, unmarshal and compact, and IsCodec says that what
--     was encoded is read back as the same record, its raw JSON compacted, and that an encoding has no line
--     break. Json, for the matcher, decodes
--     an object and encodes a value, and the encoding of an event's data is a function that may
--     fail; nothing is assumed of them. The reducer is a function that may fail.
--   * A panic on an index out of range is a result: index_out_of_range, and none of Match.
--   * Numbers are natural. A sequence is a uint64, and the next one is taken modulo 2 ^ 64. The limit
--     of Tail is an integer. A time is a natural number, 0 being the zero time.
--   * A call of an adapter is an argument: the events that it delivers while it runs, and its answer.
--     They stand where the call is made, between the sections of the method that hold the lock; other
--     calls of the runtime that interleave with a method are not modelled. A goroutine that is started,
--     an event that is handed to the host, and a panic are effects in the order in which they come
--     about; the goroutine itself is a call of dispatch_queued, which runs on fuel, one more than the
--     length of the queue being enough. The journal of a runtime is a state with a function that
--     appends a record.
--   * filepath.Clean is that of Unix. Whether os.Stat fails, a fresh identifier, what Unmarshal reads
--     from the data of a record, and the clock are arguments.
--   * Text is the native string, which is valid UTF-8; a byte is a natural number. strings.ToLower is
--     only compared with words of small ASCII letters, and is modelled as far as that.
--   * The timer of the coalescer may run at any time, also when it has been stopped too late. A call of
--     the coalescer delivers its events after it has released the lock: Runtime/Coalesce/Emission takes
--     them one by one, in any order with those of other calls. In the runtime (through_coalescer) the
--     events of a call are delivered before the next call of the coalescer.
--   * repairTornTail searches backwards in windows of 32 KiB. Its loop runs on fuel, one more than the
--     size of the file, which is enough because every round goes back by at least one byte.
--     The digits of a number n are taken on fuel n, since n / 10 is less than n until 0.
--
-- Not modelled: the creation of the directory, the listing of sessions and options of a store, which
-- are calls of the operating system; of the runtime the catalog and its cache, Detect, ForkPrompt,
-- State and Sessions, which leave the sessions alone, and the texts of its errors; the
-- engine (engine.go), the worktrees (worktree/), the client (client/), the processes (transport/) and the adapters
-- (adapters/), which are the layers around these parts; the generated types of acp/.
pub mod Prelude
pub mod Session
pub mod Journal
pub mod Host
pub mod Runtime
mod Tests
