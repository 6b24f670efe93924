-- ===== src/Lib.antt =====
-- The Go client of the QPub service: WebSocket pub/sub, REST channels and queues.
--
-- A `Socket` (socket.go) owns options, an auth manager, a connection and a manager of socket channels.
-- The connection's read loop hands each frame to the manager, which hands it to the channel that the
-- frame names; a channel sends its own frames through the connection's client. The connection listens to
-- the auth manager, which calls it back when a token expires. A `Rest` (rest.go) owns options, an auth
-- manager, REST channels and a queue manager, over one HTTP client. This library models these parts:
--
--   Prelude     shared names; Text is a Go string or []byte, as the list of its bytes; Dict is a Go
--               map with text keys; Decimal is the loop of the two functions `itoa`, Url
--               Go's query escaping, Duration its time.Duration, and Keys its order of strings.
--   Protocol    protocol/action.go, protocol/messages.go: the types of frames and messages.
--   Channel     channel/socket.go, `SocketChannel`. Types has its state and Monad the statements of a
--               method: a method is a function from the channel to a result and the channel after it,
--               or to a fault, such as a lock of the mutex that the caller holds. Subscribe,
--               Unsubscribe, Incoming, Delivery, Handlers, Wait and Calls have the methods, under the
--               names of the source in snake case; the other modules have the theorems.
--   Manager     channel/socket.go, `SocketManager`, over a heap of channels: Ops has the methods. A loop of
--               resubscriptions that waits gives the channels left to do, and goes on after the wait.
--   ApiKey      internal/apikey/apikey.go.
--   Options     option/option.go.
--   Jwt         internal/jwt/jwt.go: Base64 has its base64 functions, with the codecs of Go's
--               encoding/base64, and Token the decoding and signing of tokens.
--   Crypto      internal/crypto/hmac.go.
--   Auth        auth/manager.go: Tokens has the token and the credentials, Authenticate the calls that
--               obtain a token, Canonical the string that is signed for a token request, Issue the calls
--               that make or issue tokens and token requests, and Lifecycle the construction, `Reset` and
--               the timer; the other modules have the theorems. The events are in a log.
--   Emitter     internal/emitter/emitter.go.
--   Ws          transport/ws/client.go.
--   Connection  connection/connection.go. Types has the state, with what the connection asks of the
--               auth manager, the channel manager and the WebSocket library as a record of operations;
--               Ops, Pings and Backoff have the methods, and Steps the interleavings: a step is what
--               one goroutine (a caller, a read loop, a reconnection) does until it waits.
--   Session     auth/manager.go and connection/connection.go together: the calls of the auth manager
--               that emit `AuthTokenExpired`, with the connection's listener, which calls `Connect` before
--               they go on.
--   Http        internal/port/http.go: what the two parts below send requests with.
--   Queue       queue/manager.go and protocol/queue.go: Requests has the calls of the API, and Worker
--               the worker loop.
--   Rest        channel/rest.go. Wiring is what `NewRest` puts under its managers: the HTTP client and the
--               auth manager; Carried, Sent and Published have what then goes over the wire.
--   Transport   transport/httpclient/client.go.
--   Logger      internal/logger/logger.go, internal/instanceid/new.go.
--   Facade      socket.go, rest.go: the two clients.
--   Tests       inputs at which the theorems apply.
--
-- Modelling. A call that waits for an acknowledgement (`waitAck`) ends with the reply `waits`, and the
-- end of the wait is a call of its own (`wait_ack`), so that other calls may come between; the methods
-- themselves run without interruption. A call that waits for a mutex for ever is the fault `deadlock`; in
-- the histories of Channel.Held and Manager.Runs it leaves the mutex held, and the rest of the channel in
-- any state. What a channel does to the outside (frames, events, calls of
-- handlers) is in its log. A sender is what one call meets: whether it is connected, and the error
-- that it returns for each frame. A frame is given after `json.Unmarshal`, and one that is sent is
-- taken before `json.Marshal`. A closure has a code pointer and an environment, since the code compares
-- handlers by the pointer.
--
-- Bounds. The loops of `itoa` run over a buffer of eight or twelve bytes, which is the number of their
-- rounds; a number with more digits is the panic of the code. Counters (references, `done` channels)
-- are not bounded. The worker loop runs over a list of rounds, each with what its two selects find,
-- and tells when the rounds end before the loop does. In Session the fuel of `call` is the number of
-- calls of `Connect` that may be nested; where a call returns without another in it, as a theorem says,
-- one is enough.
--
-- Parameters. The HTTP server, net/http, the WebSocket library, the JSON codec, the bytes of the MAC,
-- the generator of UUIDs, the clock and `float64` are arguments of the definitions that use them; so are
-- the handlers of jobs and of events.
--
-- Not modelled: the mocks and the sample programs; interfaces.go and doc.go, which have no code that
-- runs; the five methods of a logger that are named for a level, and what the components log.
-- Interleavings inside a method of a channel, and what the listeners of a channel's or a connection's
-- events do themselves, are left out too; of the auth manager's events, only the expiry has a listener
-- here.
pub mod Prelude
pub mod Protocol
pub mod ApiKey
pub mod Options
pub mod Jwt
pub mod Crypto
pub mod Emitter
pub mod Ws
pub mod Connection
pub mod Auth
pub mod Http
pub mod Rest
pub mod Queue
pub mod Channel
pub mod Manager
pub mod Session
pub mod Transport
pub mod Logger
pub mod Facade
mod Tests
