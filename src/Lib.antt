-- ===== src/Lib.antt =====
-- A model of ssmlib, a client library for sessions of the AWS Systems Manager: an agent message on
-- the wire, a session that numbers, acknowledges and resends messages over a websocket, and
-- feature flags by version.
--
-- The parts and their files:
-- * Version models version/version.go: `SupportsVersion` with `strings.Split` and `strconv.Atoi` on
--   64-bit ints. Version/Order compares it with the lexicographic order.
-- * Messages models messages/message.go and messages/types.go. Types, AgentMessageFlag, PayloadType
--   and PayloadTypeFlag hold the constants and the payload structs, Message the struct
--   `AgentMessage`, Create the constructors and `ParseAcknowledgment`, Wire the big-endian numbers
--   and the conversion of times, Text the labels of 32 bytes, and Codec `ValidateMessage`,
--   `UnmarshalBinary` and `MarshalBinary`. A method that mutates its receiver returns the new
--   record, also when it fails; a panic is an outcome of its own. RoundTrip with Layout, Malformed
--   with Stages, and Answers prove what is listed below.
-- * Session models session.go. Incoming is `handleIncomingMessages`: one round for each frame of the
--   socket, with the map of messages held back, the expected number and what went to the three
--   channels as its state. Outgoing is `handleOutgoingMessages`: one round for each event that its
--   `select` can choose, with the table of unacknowledged messages, the next number and what was
--   written as its state. The loops interact by the channels: what Incoming puts on `ackReceived`
--   and `outgoingControlMessages` are events of Outgoing. Verdict is how a round ends. Connect is
--   `Start` up to its first goroutine with `openDataChannel`. Life is `Start` from there on with
--   `Wait` and the signal of `Stop`: a step function on flags, one for each goroutine, with Sound,
--   Shutdown, Ending and Phases as its proofs, Waiting, a call of `Wait` with a context of its own,
--   and Starting, what `Start` returns. In Incoming, Arrival and Promises hold the theorems on what
--   is delivered, and in Outgoing, Frames those on what is written. Client is `Read`, `Write` and
--   `Stop` on the four channels that `init` makes, with the loops' ends of them, and Client/Fifo the
--   sequences of their calls. Setup is what `init` fills in. Nop is `NopHandler` of handler.go, the
--   handler of a session that was given none.
-- * Handler models the package handler: Handshake is `PerformHandshake` of handler/handshake.go,
--   Copy the two copy loops and `SetTerminalSize` of handler/misc.go, and Terminal the goroutine of
--   handler/stream.go that updates the terminal size. They read what the session's `Read` gives, as
--   a list of answers at whose end the call waits, and write by the session's `Write`, a parameter.
--   Life is `Start`, `Stop` and `Wait` of `Stream` and of `MuxPortForward`, which differ in two
--   errors. Stream is `getTerminalSize` with handler/termsize.go. MuxPortForward is
--   handler/muxPortForward.go: `Start` up to its goroutines, which uses Handshake and Version, and
--   one call of `Dial` with its goroutine, the server `handleDialRequests` and two contexts as a
--   step function on the points that each has reached; Dialling is how a call goes on and ends;
--   Starting, Lost and Answering prove what is listed below. MuxPortForward/Many has any number of
--   such calls at once, which share the server and the handler's context. Setup is what the `init`
--   methods fill in.
-- * Receiving puts the parts together for the agent's data: the frames, `handleIncomingMessages`,
--   the channel, `Read`, and `CopySessionReaderToWriter`. Sending does so for the reader's data:
--   `CopyReaderToSessionWriter`, `Write`, the channel, and `handleOutgoingMessages`. Acknowledging
--   follows an acknowledgement from `handleIncomingMessages` to the socket.
-- * System is a session together with its `Stream` or `MuxPortForward`: the two lives as one system
--   of steps, in which the session starts its handler, stops it and waits for it.
-- * Once is what `Session`, `Stream` and `MuxPortForward` have in common around `sync.Once`: `init`,
--   `signalStop` and the calls of them by `Start`, `Stop`, `Wait` and the other methods.
-- * Group is the interface of golang.org/x/sync/errgroup: its context is done once a function has
--   returned an error, and its cause is the first such error. Session/Life and Handler/Life take it
--   as a parameter.
-- * Common and Errors hold what the parts share, Examples runs on concrete input.
--
-- Numbers are natural numbers with the wrap-around written out: an int64 is its bit pattern below
-- 2^64, uint32 sums are taken modulo 2^32. A Go map is an association list with one entry for a
-- key. The order in which a map is ranged over, the clock, new ids, the context, the socket,
-- SHA-256 and encoding/json are parameters, about which nothing is assumed but what a theorem's
-- hypotheses say.
--
-- The inner loop of Incoming runs on fuel. Each round takes an entry out of the map, so that one
-- round for each entry and one more to find nothing are enough; the theorems on acknowledged
-- messages use that the loop has come to its end.
--
-- The goroutines are interleaved in any order. An event is called prompt where it needs nothing
-- from outside: a goroutine has what it waits for, a read of a closed socket fails, a handler that
-- was stopped returns from its `Wait` (in System these are the handler's own steps), and a copy
-- loop returns once the context is done. That prompt events happen is the assumption behind what
-- is said of an end; Common/Settle counts them: each prompt event lowers the number of returns to
-- come.
--
-- The table of Outgoing stores a message where the source stores the pointer that was passed to
-- `Write`. The two agree as long as no caller changes a message that it has passed, or passes one
-- pointer twice; the callers in the repository make a new message for each call.
--
-- Not modelled: logging, `String` of an agent message, which prints it for debugging, the payload
-- structs of messages/types.go that nothing reads, and the interfaces and adapters of functions in
-- handler/session.go, whose methods are the parameters and functions of the other parts. smux, net
-- and golang.org/x/term are not in this repository and are parameters.
pub mod Common
pub mod Errors
pub mod Group
pub mod Once
pub mod Version
pub mod Messages
pub mod Session
pub mod Handler
pub mod Receiving
pub mod Sending
pub mod Acknowledging
pub mod System
pub mod Examples
