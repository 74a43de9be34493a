-- ===== src/Lib.antt =====
-- Verification of xrunner, a job runner with a control plane, workers and a remote daemon.
--
-- Parts and how they interact. A client submits a job to the control plane, which stores it and
-- dispatches it to a worker over gRPC. The worker runs a command, in a sandbox if asked for, and
-- streams its output back; the control plane numbers the chunks, keeps them as the job's log, sends
-- them to the log's subscribers, and mirrors every change to NATS JetStream, from which it rebuilds
-- the store when it starts. On a remote host a daemon keeps agent sessions, whose events are appended
-- to files, and durable shells in tmux, whose output it cuts markers out of, acknowledges and
-- searches.
--
-- Which file models what:
--   Control/Types       the messages of proto/xrunner/v1
--   Control/Store       internal/control/store/store.go. The record `Store` is the struct of that
--                       name, with its maps as association lists; every method holds the mutex, so
--                       it is one function from the store to the store: Put is `put`, AppendLogs
--                       `append_logs`, SubscribeLogs `subscribe_logs`, and so on. Log channels live
--                       on a heap, as a buffer of at most 128 chunks that is open or closed.
--   Control/Mirror      internal/control/store/jetstream.go and options.go: the events that are
--                       handed over and published, and the loops that replay them (drain, hydrate)
--   Control/JobSvc      internal/control/jobsvc/service.go: the handlers, dispatch, log streams
--   Worker/Docker       the docker command lines of internal/worker/runner.go
--   Worker/Sandbox      wrapWithSandbox of that file
--   Worker/Collect      collectStream of that file
--   Worker/Runner       Execute and the rest of that file
--   Worker/Server       internal/worker/server.go
--   Session             internal/remote/sessionstore/store.go: Session/Defs has the methods (Create is
--                       `create`, Append `append_event`, Replay `replay`, loadLocked `load_locked`),
--                       Session/Delimited the records behind their length, Session/Recording
--                       and Session/History what the files hold over time
--   Shell               internal/remote/shell.go: Shell/Markers the markers
--                       in a session's output (stripXRMarkers, flushablePrefixLen), Shell/Keys
--                       keys, quoting and the end marker, Shell/Acks acknowledged offsets and names,
--                       Shell/Stream StreamShell, Shell/Attach AttachShell, Shell/Run the
--                       handlers that drive tmux, Shell/Search searchLogRange, Shell/Queries
--                       SearchShell, the tail of a log and the command timeline; Shell/Bytes the
--                       functions of Go's bytes package
--   Agent               internal/remote/session_service.go, with internal/toolspec/bundle.go: Agent/Hub the
--                       subscribers of a session, Agent/Buffer limitedBuffer, Agent/Paths the paths a
--                       tool may use with the functions of path/filepath, Agent/Bundle tool bundles,
--                       Agent/Events and Agent/Os the events and the state that the tools use,
--                       Agent/Exec the tool `shell`, Agent/Edit the tool `write_file_atomic`, Agent/Tools
--                       execToolSync, handleToolInvoke and handleCancel, Agent/Chat the turn of a user
--                       message (buildLLMMessages, the loop of tool calls in Interact),
--                       Agent/Sessions the session requests and StreamEvents; Agent/Config is
--                       internal/llm/config.go, Agent/Openai internal/llm/openai_compat.go,
--                       Agent/Gemini internal/llm/gemini.go
--   Base                lists, options, texts and association lists that the parts share
--   Grpc                results with a gRPC status
--
-- Conventions. A text is the list of its code points, and a byte is a number. A counter of 64 bits
-- is a number with its wrap-around written out, but for the ids of a session's events: they count
-- up from 1 by one for each stored event, and the wrap of an int64 is left out. A Go panic in the
-- control plane is `none`, and so is an error of the session store. A message field of a generated
-- Go struct is a pointer, hence an `Option`.
--
-- Parameters. proto.Marshal and proto.Unmarshal, base64 decoding, the clock, fresh UUIDs, the
-- answers of a worker, the outcomes of a NATS fetch and the operating system (`Host` in
-- Worker/Runner, `Os` in Agent/Os, `Tmux` in Shell/Run) and a language model are arguments. What
-- the theorems assume of them is among their hypotheses: that every event is published with
-- success (`AllPublished`), that JetStream delivers what was published in the order of publication
-- (`Delivers`), that unmarshalling undoes marshalling (`round`), that sort.Slice sorts by a strict
-- weak ordering (`IsSort`), and that the operations on files do what is documented of them
-- (`FileLaws`). The record `Mirror` keeps what the changes hand over, in their order. The code
-- publishes after it has let go of the mutex, so the calls of Publish, their order and their
-- outcomes, are an argument of `published`: where they fail, or two calls that run at once publish
-- in the other order, the theorem on `hydrate` says nothing. The order in which the two collectors
-- of a run forward chunks, and which of these calls succeed, is a parameter too (`forwarded`).
--
-- Bounds and fuel. Theorems on offsets and versions assume that a counter stays below 2^64. The
-- loop of collectStream runs on fuel one above the length of the pipe, which is enough since
-- each turn reads a byte. The recursion of wrapWithSandbox takes the fuel as an argument; a run
-- that is out of fuel is `none`, and two calls are enough under the condition that its theorem
-- states. The stripping of markers, the search and the reading of events run on fuel one above
-- the length of what they read, since each turn uses a byte; ten bytes are enough for a varint
-- of 64 bits. StreamShell runs on fuel one above the bytes that are left of the log. The loop of
-- a turn with the language model runs as often as the configuration allows, as in the code. A
-- log channel holds at most 128 chunks, and a channel of a session 8192 events.
--
-- Not modelled. The generated code of gen, the command line tools of cmd, and the network,
-- process and terminal handling of the services; of the session service the select loop of
-- Interact, whose cases are modelled; HTTP, the file
-- and PTY services of the remote daemon, and in its shell service tmux, EnsureShellSession, a
-- StreamShell that follows the log and the artifacts. The events that the session service
-- appends are recorded as calls, without the errors of the session store, which it ignores.
-- Errors of the file system and cancelled contexts are left out where a definition does not name
-- them.
pub mod Base
pub mod Grpc
pub mod Control
pub mod Worker
pub mod Shell
pub mod Session
pub mod Agent
