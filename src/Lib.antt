-- ===== src/Lib.antt =====
-- Verification library of IM_System, an instant messaging server in Go. A client holds a
-- WebSocket connection to one of several server processes. A process stores messages in MySQL,
-- notes in Redis which process each user is connected to, delivers a message to the addressee's
-- connection or publishes it in Redis for the process that has it, and sends the last message
-- of a conversation through RabbitMQ to a consumer that writes it to the conversation's row.
--
-- The parts, and the files that model them:
--
-- * internal/model is Model: the rows of the tables. internal/ws/client.go and
--   internal/router/message.go declare the JSON messages of Wire.
-- * The libraries that pkg/mysql, pkg/redis and pkg/rabbitmq connect to (gorm, go-redis, amqp)
--   and encoding/json are not in the repository: they are the record Backend, of the operations
--   in Services. Each reads and changes a state of its own, and may fail at each call. IsTable,
--   IsCache and IsBroker state what their documentation says of a call that succeeds, and of
--   the answers "record not found" and redis.Nil; IsBroker asks for a queue that is there,
--   since RabbitMQ confirms also what it cannot route. A query without ORDER BY may find
--   another row each time: its number is an argument. A read is otherwise a function of the
--   state that it reads. IsForwardCodec is what is relied on of a round trip through
--   encoding/json, whose json.RawMessage is compacted and escaped. Services/Memory and
--   Services/Packed are services for which all of it holds; Tests/Fixture puts them together.
-- * internal/repository is Repository: Users (user.go), Conversations (conversation.go),
--   Members (conversationMember.go), Messages (message.go). A function of a Go file that takes
--   a pointer and fills it in returns what the pointer holds after the call. Keys is about the
--   Redis keys.
-- * internal/mq/publisher.go is Mq/Publisher: `publish_message_sent` is PublishMessageSent,
--   with its panic on a nil publishCh, and `publish_on_channel` what it does on a channel. The
--   goroutine of internal/mq/consumer.go is Mq/Consumer. time.Sleep adds its milliseconds to
--   the store's field `slept`.
-- * pkg/rabbitmq is Mq/Link: the global Conn and the channel of the publisher are the record
--   Link, over the amqp library as the record Amqp, whose log says what the broker has
--   accepted. Mq/Session is internal/mq/topology.go, mq.go and reconnect.go, with InitPublisher
--   and the opening calls of StartConversationUpdateConsumer. reconnectWithBackoff recurses on
--   its list of six pauses, so it needs no fuel; WatchAndReconnect recurses on the list of the
--   notices that it receives.
-- * internal/ws/manager.go is Ws/Manager, with DeliverTotalMsg, GetOnlineNode and
--   refreshOnlineTTL of internal/ws/client.go; Ws/State has its state. The rest of client.go is
--   Ws/Client: handleChatMsg is `handle_chat_msg`, cut into find_or_open, store_message,
--   after_store, after_publish and route, which stand for consecutive passages of the function;
--   handleACKMsg is `handle_ack_msg`; a round of ListenMsg is `handle_frame`. DeliverUnreadMsg
--   is Ws/Offline, over the record Conn for the connection of gorilla/websocket.
--   Ws/Client/Opened, Awaits, Unlost and Arrives follow a message from handleChatMsg through
--   the tables to DeliverUnreadMsg of the addressee; Repository/Members/Shared is what
--   CheckConversationExist finds for them, Ws/Client/HalfOpened what a failed AddMember leaves.
-- * internal/service/user.go is Accounts, over the record Crypt for bcrypt; register_check and
--   register_insert are Register up to CreateUser and from there on. pkg/jwt is Token, over the
--   record JwtLib for golang-jwt; times are nanoseconds since 1970, and the expiry wraps around
--   as an int64 of nanoseconds does.
-- * internal/handler/user.go is Handler: a handler is a function of what gin has bound from the
--   request to a reply. Handler/Routes is the table of routes in cmd/server/main.go: `serve`
--   answers any request by it, `unrouted` being gin's answer to a path that is not in it.
-- * cmd/server/main.go is Startup: `boot` is main up to the HTTP server, `shutdown` what
--   follows the signal; the goroutines that sample Redis and the channels are a function of a
--   round each. config/config.go is Config, pkg/node/node.go is Node; Stores has what
--   config.Init, pkg/mysql, pkg/redis and pkg/logger set up, with viper, gorm, go-redis and zap
--   as arguments.
-- * cmd/loadtest/main.go is LoadTest: the logins, the connections and the pairs as functions on
--   lists, a round of sendLoop (`begin_send`, `end_send`) and of receiveLoop (`receive`) on the
--   counters, and the percentiles that exportCSV writes; LoadTest/Run composes them as main
--   does, and LoadTest/Served sends the requests of the load test to the routes of the server.
--   cmd/loadtest/prepare.go is Prepare, its goroutines as a step relation.
-- * internal/router is Router: PublishForward and handlerForwardMsg. A process starts with
--   PublishForward registered in Ws, here the argument `fn` of `started`.
-- * Ws/System is a process with its goroutines, as a step relation: WsConnect up to Register,
--   frames, acknowledgements, pongs, the deferred function of ListenMsg, the rounds of
--   DeliverMsg, the goroutines that DeliverTotalMsg starts, messages from Redis, CloseAll,
--   WatchAndReconnect as far as it makes publishCh nil or a channel (the field publish_ch), and
--   any change of the services by others. A frame whose handling panics ends the process, and
--   is no step. Ws/System/NilChannel is what a nil publishCh does to a sender. Ws/Loops has the
--   loops of ListenMsg, DeliverMsg, pingLoop and, of internal/router/subscribe.go,
--   StartSubscribe, each on the list of what it receives.
--
-- Numbers: ids are the native ℕ; where 64 bits matter (strconv.Itoa(int(id))) the conversion is
-- written out, and strconv.ParseUint(_, 10, 32) has its bound. A Prometheus counter is a ℕ, the
-- gauge of online users a ℤ. Texts are lists of bytes. A decimal is printed with a fuel of n +
-- 1 digits, which is more than n has. PublishWithFallback has as many rounds as maxRetries
-- says. A `*Client` is its address in ClientRef; its channel is looked up by that address,
-- since the map and the goroutines share it. A Go map is an association list with one entry for
-- a key; Ws/Manager/Order ranges over the map of clients in any order.
--
-- Concurrency: each operation is one step of Ws/System. Of what happens between two accesses
-- inside one operation, Ws/System/Race describes a client that hangs up between its lookup in
-- the map and the send to its channel, and Ws/Manager/Steps has Register and Unregister in two
-- steps, the change of the map and what follows, which Ws/Manager/Visit interleaves with those
-- of other users. Accounts/Race has two registrations that both look up the name before either
-- inserts. The rest is not described. LoadTest/Counts lets the loops of all users interleave,
-- the sending of a message in two steps. Deadlines of contexts are errors of the calls. A send
-- on a closed channel is a panic, as in Go.
--
-- Not modelled: logging and timing, which only report; in cmd/loadtest the pauses, the progress
-- report, the formats of what is printed, and analyze.py; the templates.

pub mod Common
pub mod Config
pub mod Model
pub mod Services
pub mod Wire
pub mod Backend
pub mod Repository
pub mod Mq
pub mod Ws
pub mod Router
pub mod Accounts
pub mod Token
pub mod Handler
pub mod Node
pub mod Prepare
pub mod Startup
pub mod Stores
pub mod LoadTest
pub mod Tests
