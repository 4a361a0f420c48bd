-- ===== src/Lib.antt =====
-- The glider client: a publisher and subscriber of events that are routed by brokers.
--
-- How the parts of the program interact. pubsub.go makes a client (client/client.go), which asks a
-- control server for its brokers (broker/request.go, through httpclient, signed by authhmac), keeps
-- them in a store (broker/store.go), and opens a stream to each (broker/broker.go). A message that
-- arrives on a stream gets a context with its metadata (metadata, message) and goes to the handlers
-- of its event (sub) and to the channel of a waiting request (callback). An event that is published
-- (pub) takes the routing of the request whose context it is given, and is sent to one of the
-- brokers online, in turn.
--
-- Which file models which part:
--   Common       shared notation, lists, options, results, integers, strings as bytes, maps.
--   Std          what the code uses of Go's standard library: encoding/binary, encoding/hex, strconv,
--                time, context, as documented.
--   Auth         authhmac/authhmac.go. `validate`, `generate`, `build_payload` and the rest have the
--                names of the methods; the clock is an argument. `check_skew` and `check_ttl` are the
--                two clock checks within Validate.
--   Backoff      broker/utils.go (`fibo`) and httpclient/utils.go (`http_fibo`).
--   Sub          sub/sub.go and sub/store.go. The store maps events to pointers, and the
--                subscriptions stand on a heap, so that a pointer may be used after its entry is
--                gone; Sub.Race runs calls of several goroutines, one critical section a step.
--   Callback     callback/callback.go.
--   Proto        the message of proto/pubsub.pb.go that the client reads and writes.
--   Metadata     metadata/metadata.go, message/context.go, error.go, project.go, segment.go. A
--                context holds a pointer to its metadata, which several contexts may share:
--                operations take and return the heap.
--   Pub          pub/pub.go. `get_event` is GetEvent, `sub` is Sub with its deferred call, over a
--                `Registry` for RegisterCbFunc and UnregisterCbFunc, whose laws are in Pub.Wait and
--                which Client.Publish fills with the callbacks; Pub.Answer follows a response into
--                it; Pub.Exchange has the goroutines of one request.
--   HttpClient   httpclient/client.go, options.go, request.go, response.go. A panic is an error.
--   Broker       Broker.Info, Broker.Receive: broker/broker.go; Broker.Store: broker/store.go, with
--                Broker.Store.Order for the order of its loop; Broker.Request: broker/request.go,
--                with Broker.Request.Served for both ends of a request; Broker.Connection: the
--                connection of broker/broker.go, whose critical sections are the steps of a relation;
--                Broker.Lifecycle: the goroutines of all its calls of Start, with waits and nested
--                starts, and in Broker.Lifecycle.Notices the callback that each step ends with;
--                Broker.Dial: the transport of a connection and broker/file.go; Broker.Interceptor:
--                broker/interceptor.go.
--   Client       client/client.go: the list of online brokers and the calls that change it or read
--                it; Client.Publish has Pub and recv, Client.Subscriptions has Sub. Client.Reply
--                follows a request to its response, Client.Replies what a handler publishes, and
--                Client.Delivery an event to a stream. Client.Startup is the whole of Start.
--                Client.Handshake runs reset, disconnect, connect, owerstaying and Start against each
--                other, and Client.Locks the mutexes of client, store and broker, with their critical
--                sections in Client.Locks.Sections and the calls that take them in
--                Client.Locks.Calls. Client.Fleet joins Client.Handshake to the goroutines of every
--                broker by ConnectFunc, DisconnectFunc and ResetFunc, and Client.Launch has the loop
--                of Start in steps, while brokers that it started call back.
--   Pubsub       pubsub.go: the defaults of the options.
--
-- Parameters: HMAC-SHA256 (`mac`), crypto/rand (`rand_read`), net/url (`url_parse`), encoding/json
-- (`marshal`, `unmarshal`), the HTTP transport, path/filepath (`is_abs`, `join`) and os.Getwd
-- (`getwd`), the reading of a certificate (`cert_loads`), grpc.NewClient (`new_client`), and what a
-- broker or its stream answers to a send (`accepts`, `stream_sends`). Assumed of them, where a theorem
-- says so, is that JSON reads what it wrote, that a MAC yields bytes, 32 of them, that the random
-- source fills its buffer with bytes, and that a working directory is absolute and joining keeps a
-- path so.
--
-- Bounds and fuel. An int64 is an integer with its wrap-around written out where the code reaches it:
-- differences of times saturate, the counter of `next_broker`, the lengths in a payload and the sums of
-- the Fibonacci loops wrap. These loops run on `attempt + 1` rounds, which is proved enough for an
-- attempt below 2 ^ 62; the delays and counts of the code are far below. `send` recurses on fuel: as
-- many attempts as brokers are online are enough if one of them accepts. The loop of
-- broker/request.go runs over the sequence of attempts to come. Reconnections of a broker are bounded
-- by the distance of its delay from the largest one and by the overstay limit.
--
-- Not modelled: grpc and TLS themselves, generated code under proto beyond the message, and methods
-- that only print. A mutex is a list of its holders, a goroutine the phase it is in or the list of
-- what it still locks; fairness and the length of a wait are left out, and so a theorem says what
-- may happen, or what holds in every order. In Client.Handshake the Start of a reset or an overstay
-- is one step, and so is Store.Done, whose deadlock is in Client.Locks; a lookup in the store is one
-- step with the change of the online list. Client.Launch has the steps of the loop of Start; a run ends
-- there where the goroutine of a reset that was asked for in the loop goes on. The online list holds
-- brokers by their fields: which of the objects of one ID an entry points to is not part of it. In
-- Client.Fleet the first Start of a broker, its Done and the answer of OwerstayingFunc come at any
-- time, and not only when asked for; a broker of a former Start stays, with its ID, beside the one that
-- takes its place in the store.
pub mod Common
pub mod Std
pub mod Auth
pub mod Backoff
pub mod Sub
pub mod HttpClient
pub mod Callback
pub mod Proto
pub mod Metadata
pub mod Pub
pub mod Broker
pub mod Client
pub mod Pubsub
