-- ===== src/Lib.antt =====
-- GoKD: a debugger for Windows targets, served to language-model clients over MCP (cmd/gokd-mcp),
-- with a command line (cmd/gokd) and a library (gokd.go) over DbgEng. The server runs tools for its
-- client against one debugging session. A drainer stores the session's events and output in two
-- rings of bounded size, which clients poll. The output of raw commands that is too large for one
-- answer waits in a bounded cache and is read page by page. Flags of the server withhold tools, and
-- failed tools answer with an error envelope.
--
-- Files, with the code that each models (all in cmd/gokd-mcp unless named otherwise):
--   Prelude       shared names: Boolean tests on native numbers, slices as lists, Go's int.
--   Text          Go strings as lists of byte codes, with what is used of strings, fmt, encoding/hex.
--   Errors        errors.go: wrapErr and its tables; the error values of gokd.go.
--   Readonly      readonly.go: addToolMaybe, annotationsFor, denyRawCommand, firstToken.
--   Registry      tools.go: registerTools.
--   Ring          ring.go, type ring: newRing, Push, PushWith, Since, Len, Last.
--   LruCache      ring.go, type lruCache: newLRUCache, Put, Get, eviction.
--   RawOutput     tools.go: executeRaw, packExecuteRawOutput, getRawContinuation.
--   Events        events.go: pushEvent, pushOutput, sessionStatus.set; the event types of gokd.go.
--   Events/Batch  events.go: queueOutput, flushOutput, maybeStateChanged, and what run does per item.
--   Polling       session_state.go: getRecentEvents, getRecentOutput.
--   SessionState  session_state.go: probeStatus, getSessionState, recommendNext.
--   Auth          main.go: authenticateConn; proxy.go: authenticateRemoteStream, readAuthResp.
--   Memory        tools.go: readMemory, readPhysical, writeMemory; format.go: parseHexBytes.
--   Listing       tools.go: getModules, getStack; format.go, and gokd.go in the root: how they are shown.
--   Breakpoints   format.go: formatBreakpoint, parseBreakpointAccess.
--   ValueKinds    gokd.go in the root: ValueKindString, ParseValueKind.
--   Numbers       format.go: parseHexUint64, over strconv.ParseUint.
--   BugChecks     bugcheck_names.go in the root.
--   Session       gokd.go in the root: a call of the bindings (dbgcgo.Session), a program of such calls and
--                 its run; Calls, Points and Stops are the methods of session; OnlyCalls, Returns and
--                 Runs are the lemmas on programs.
--   Handlers      tools.go: the handlers as programs over Session (Target, Data, Faults, Points, Settings),
--                 the requests that reach them (Requests), and what they ask (Queries, Ended).
--   Workflows     workflows.go: walkStacksAll, triageCrash (Faults), summariseTarget (Summary).
--   Inspect       workflows.go: inspectStruct, walkInspectFields.
--   ReadString    workflows.go: readString, detectStringEncoding and the decoders.
--   DumpMemory    workflows.go: dumpMemory and its rows.
--   TypeWalk      dumptype.go in the root: DumpType, dumpTypeRec, walkField (Walk); the tool (Shown).
--   Listener      proxy.go: startRemoteListener, cancelStaleListeners, isTerminalStatus.
--   Repl          cmd/gokd in the root: parse.go, commands.go (Commands), the dispatch of repl.go (Lines).
--   Tests         the theorems at concrete inputs.
--
-- A mutex makes each method of the ring and of the cache one step, so a method is a function from
-- the old state to the new state and the result. Sequence numbers are uint64 and wrap at 2^64. Go's
-- int is an integer without a bound. The loop that evicts runs on fuel, one more than the number of
-- entries, and each round removes one.
--
-- A run of the drainer is a list of steps: an event, a line of output, the flush timer, or the sending of
-- a batch that a flush has taken, in any order. A batch is in flight between the step that takes it
-- under the lock and the one that sends it, and batches in flight may be sent in any order.
-- What the engine, a connection or a stream answers is an argument.
--
-- A handler of Handlers and a method of Session is a program: it returns, or makes one call of the
-- bindings and goes on with the answer. The bindings are an argument of the run, with a state of their
-- own, so a theorem on a program holds whatever they answer. The context of a request is asked for its
-- error by such a call. A walk over types is by recursion on the depth that is left, and the loop of a
-- disassembly on its count.
--
-- Not modelled: the C++ shim and its cgo bindings, the wire format of MCP, the gRPC transport to a
-- remote machine, prompts, logging and the wall clock.
pub mod Prelude
pub mod Text
pub mod Errors
pub mod Readonly
pub mod Registry
pub mod Ring
pub mod LruCache
pub mod RawOutput
pub mod Events
pub mod Polling
pub mod SessionState
pub mod Auth
pub mod Memory
pub mod Listing
pub mod Breakpoints
pub mod ValueKinds
pub mod Inspect
pub mod ReadString
pub mod DumpMemory
pub mod Numbers
pub mod BugChecks
pub mod Session
pub mod Handlers
pub mod Workflows
pub mod TypeWalk
pub mod Repl
pub mod Listener
pub mod Tests
