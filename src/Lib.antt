-- ===== src/Lib.antt =====
-- Gorums (github.com/relab/gorums): quorum calls on configurations of nodes, over gRPC streams.
--
-- A call gives a request to each node of a configuration. A node has a channel, whose goroutines
-- send the requests on one stream, and a router, which gives each response to the call that waits
-- for it. A server receives on the other end of the stream, runs the handlers one at a time until
-- they release the next, and may itself make calls on the same stream, with message IDs of its own.
-- The caller reads the responses as a sequence, up to a threshold, or as a correctable.
--
-- Base                  tests, lists, maps with number keys, sorting, signed numbers
-- Errors                errors.go: error values, `errors.Is` on them
-- Stream/MessageId      internal/stream/message_id.go: the two spaces of message IDs
-- Stream/Types          internal/stream: messages, requests, responses, and what a call may do
-- Stream/Metadata       internal/stream/gorums_message.go: the metadata of a call
-- Stream/Deliver        internal/stream/channel.go: `deliver`, `replyError`; response channels
-- Stream/Router         internal/stream/router.go: `RouteMessage`, `RouteInboundMessage`,
--                       `DispatchLocalRequest`, `Register`, `CancelPending`, `RequeuePending`
-- Stream/Channel        internal/stream/channel.go: `Channel`, `Enqueue`, `ensureStream`,
--                       `clearStream`, `drainSendQ`, `Close`
-- Stream/Channel/Sender, Steps   the rounds of `sender` and `receiver`, and every goroutine that
--                       touches a channel as events; Ledger, Rounds,
--                       Receipts and Once count the requests
-- Stream/Server         internal/stream/server.go: `NodeStream` with its lock, as events
-- Node                  node.go: nodes, `attachStream` and its `detach`, the comparisons
-- Manager               mgr.go: `outboundManager`
-- Inbound               inbound_manager.go: `AcceptPeer`, the cleanup functions, `rebuildConfig`,
--                       `waitForConfig` as a step relation, `nilPeerNode`
--                       Exchange: requests in both directions on one stream
-- Integers              internal/strconv/number.go; `nodeID` and its metadata
-- Config                config.go: configurations as ordered lists of nodes, `Watch` as events,
--                       `Extend`; `Close` with that of mgr.go
-- System                system.go: what a system acquires and releases; `NewConfig` of config.go
-- Builder               config_opts.go: `nodeBuilder` over the interface `Registry`, which
--                       Inbound fills
-- Calls/Responses       responses.go: `Threshold`, `Majority`, `CollectN`, `CollectAll`
-- Calls/Correctable     correctable.go: `Watch`, `update` and the goroutine of a correctable call
-- Calls/Client          client_interceptor.go, multicast.go: `ClientCtx`, what `send` does for each
--                       node, the response sequences, `MapResponse`, the wait of `Multicast`
-- Calls/Single          rpc.go, unicast.go, multicast.go, callopts.go: whole calls
-- Calls/Invoke          quorumcall.go, client_interceptor.go: the interceptors of a quorum call
-- Calls/Futures         async.go: the futures of a quorum call
-- Handlers              handler.go, server.go: `HandleRequest`, `chainInterceptors`, the replies
-- Handlers/Examples     examples/interceptors/server_interceptors.go
-- Codec                 marshaling.go: payloads, by Protobuf's registries
-- Server                server.go, handler.go: the options of a server, `NewServer`, and the
--                       configurations that a handler asks for
-- Dial                  opts.go, mgr.go: dial options; Identity: how a server is seen by others
-- Generator             cmd/protoc-gen-gorums/gengorums/gorums.go: the call type of a method
-- Generator/Files       gorums.go: the guard, and the pieces of a generated file
-- Generator/Names       gorums_func_map.go: the names of types and packages in templates
-- Generator/Identifiers gorums_bundle.go: `findIdentifiers`
-- Storage               examples/storage/server.go, client.go: the replicated store and its client;
--                       Cluster (writes and reads of several servers), Register (one server's
--                       specification), Peers (`peerConfig`)
-- Storage/Text, Quoting, Indices, Repl, Replies   examples/storage/repl.go: `splitQuoted`,
--                       `parseIndices`, the commands up to their calls, and what they print
-- Storage/Start, Flags  examples/storage/main.go, server.go: the flags, and the start of servers
-- Benchmark             benchmark/stats.go, server.go, qspec.go, benchmark.go: what is recorded;
--                       Measured, Combined, Sorted
-- Tests                 the theorems at concrete inputs
--
-- State is passed explicitly. A call returns (`ok`), waits for ever where it stands (`blocks`) or
-- panics; a goroutine is a set of events, and a run is a list of events in any order. Numbers of a
-- fixed width wrap around where the code adds to them. Only `digits` of Integers/Strconv takes fuel,
-- one more than the number, which is enough since a quotient is smaller. Any other loop is a
-- recursion on a list, of messages, requests, nodes, events or characters, or counts down.
--
-- Parameters, since their code is not here: grpc's `status.ErrorProto` (`error_proto`) and
-- `status.FromError`, Protobuf's `Marshal` and `Unmarshal`, `net.ResolveTCPAddr` (`resolve`), the
-- order and the lower case of strings (`order`, `lower`), and the float arithmetic of
-- `updateLatency` (`average`). The errors of net.Listen, of outbound configurations and of closers
-- are functions. What gRPC answers (connections, streams, `Send`) and whether a context is done are
-- parts of the events. The results of the generated functions that the storage example calls are
-- arguments of what comes after the call. `strings.Split`, `strings.Index`,
-- `strconv.Atoi` and `unicode.IsSpace`, as the interactive loop uses them, are in Storage/Text, and
-- the rest of Go's strconv that the code uses, for bases from 2 to 36, is in Integers/Strconv.
--
-- For the generator, `QualifiedGoIdent` (`qualified`), the objects that go/packages loads, and the
-- generated list of reserved names are parameters, and so are grpc's `metadata.Join` (`join`) for
-- the dial options and the registries of Protobuf for the codec. The order in which Go reads a map
-- is an argument where the result could depend on it. The float64 of benchmarks is an argument, and
-- so are the times and the memory that they read.
--
-- Not modelled: the text forms of nodes and errors; logging, sleeps, subprocesses and the terminal
-- of the examples; generated code, the texts of the generator's templates and the printing of its
-- bundled files; the loops, flags and profiles of benchmarks; test support.
mod Base
pub mod Errors
pub mod Stream
pub mod Node
pub mod Manager
pub mod Config
pub mod Builder
pub mod Calls
pub mod Inbound
pub mod Integers
pub mod Codec
pub mod Generator
pub mod Handlers
pub mod Server
pub mod Dial
pub mod Benchmark
pub mod Storage
pub mod System
pub mod Tests
