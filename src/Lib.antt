-- ===== src/Lib.antt =====
-- The position engine: ticks come in over a feed, each instrument's actor fills its orders and
-- keeps its position, candles are aggregated and persisted, and websocket clients are kept up to
-- date.
--
-- How the parts work together: the tick loop (cmd/server/main.go) hands each tick of internal/feed
-- to the candle aggregator (internal/candle), persists the result (internal/storage) and sends the
-- price to the instrument's actor (internal/instrument), which the registry makes on first use.
-- The REST handlers (internal/httpapi) send orders, brackets and cancellations to the same actors.
-- An actor handles one message at a time, writes to the order store and publishes to the hub
-- (internal/ws).
--
-- Files:
-- - Common: numbers, Go's int64 and maps, texts and tests that all parts share. Int64 arithmetic
--   wraps.
-- - Float: float64 as an interface. Prices are any type with these operations; the examples use
--   whole cents.
-- - Order: internal/order/order.go. `validate` is Validate, `would_fill` WouldFill.
-- - Ledger: internal/instrument/ledger.go and publisher.go. `apply_fill` is ApplyFill; its
--   branches `extend`, `reduce` and `settle` are functions of their own. Ledger/Quantity is about the
--   quantity; Ledger/Branches puts
--   the branches of a fill into equations. Ledger/Exact, Ledger/Whole and Ledger/Worth do the
--   bookkeeping of profit in whole numbers; Ledger/Balance and Ledger/Value carry it over to the
--   program's prices, fill by fill, where none of its numbers is rounded.
-- - Actor: internal/instrument/actor_state.go, bracket.go, messages.go, store.go and the loop of
--   actor.go. Actor/State is the struct actorState, with the calls that it makes of its store and
--   its publisher as a list of effects; Actor/Filling is fillOrder, activateChildrenOf and
--   cancelSiblingOf; Actor/OrderHandlers and Actor/Handle have the handlers and `run`. A
--   `Schedule` stands for the order in which Go visits a map; it is a parameter of every handler
--   that ranges over the orders. Actor/Steps is the abstract machine; Refine, RefineHandle,
--   Admission and Cases carry the handlers over to it; Lifecycle, Fills, Settled, SettledRun,
--   OneCancels, Paired, NewPair, Oco, OcoRun, Bracket, Sound and Traded have the invariants; Placing and Cancelling
--   are about the answers to orders and cancellations, Rejected about what a rejection leaves, Known
--   about which orders an actor comes to know. Actor/Mailbox is actor.go as its goroutines see it:
--   a step relation over the inbox, the reply channels and the callers. Actor/Sequential says what
--   the handled messages, as one sequence, have to do with it; Actor/Interleaving,
--   Actor/Replies, Actor/Answering and Actor/Answered are about all its interleavings.
-- - Registry: internal/instrument/registry.go, and the calls of an actor in actor.go.
--   Registry/Exchanged is about one call, Registry/Isolation about the calls of several
--   instruments, Registry/Index about the index from order ids to tokens.
-- - Candle: internal/candle, and feed.Tick. Times are milliseconds since the epoch.
--   Candle/Replay is about ticks that come again, Candle/Bars about the bars that the open candles
--   stand for, Candle/Bounds about the prices within a candle.
-- - Ws: internal/ws, hub.go and client.go. Ws/Coalesce and Ws/Flush are about a client's buffer,
--   Ws/Filter about its subscriptions, Ws/Fanout about the hub over a sequence of events.
-- - Storage: internal/storage, order_store.go and candle_store.go. A table is a map from its
--   primary key; a statement that the database refuses changes nothing, as a transaction promises.
--   Storage/WriteThrough sets the orders table beside an actor's orders, Storage/Positions the
--   positions table beside its position; Storage/RoundTrip is about one row, Storage/Seeds and
--   Storage/Recovery about what a new process reads; Storage/Latest is about the latest candle of
--   a token, Storage/Bars about the rows of the candles table.
-- - Feed: internal/feed, parse.go and Run of consumer.go, over any JSON decoder. A connection is
--   the lines that it delivers and how it ends. Feed/Delivery is about the ticks that are handed
--   on.
-- - Wire: the requests and responses of internal/httpapi.
-- - Http: internal/httpapi, orders.go and positions.go, on decoded requests. Http/Routes is
--   router.go and health.go. Http/Cancel and Http/Bracket are about placing and cancelling
--   together, Http/Coded about the values and statuses of all answers; Http/Indexed and
--   Http/IndexedBracket are about the index behind each placement, Http/Serving and
--   Http/Cancellable about any sequence of requests and ticks.
-- - Server: cmd/server/main.go, the start from the tables and the tick loop. Server/InStep,
--   Server/Rows and Server/Resume keep tables and aggregator in step; Server/Restart and
--   Server/Recovered are about the next start, of the aggregator and of the actors;
--   Server/LostTick is about a tick whose transaction failed, Server/Bars about the candles that
--   the tick loop writes, Server/Startup about main up to its loops.
-- - Database: internal/storage/db.go, the configuration, the connection string and, in
--   Database/Migration, Migrate.
-- - Tickgen: tickgen/main.go over any pseudo-random generator. `stream` has a number of rounds
--   in place of a loop with no end. Tickgen/Replay is about the flag -from, Tickgen/Sequence about
--   the sequence numbers, Tickgen/Pace about the delays, Tickgen/Named about the names.
--   Tickgen/Session is what main does with one client, Tickgen/Served is about the lines that the
--   client is sent, Tickgen/Received about the ticks that internal/feed makes of them.
-- - Examples: small inputs, and the theorems applied to them.
--
-- Bounds: fillOrder and activateChildrenOf call each other. `fill_upto` has a bound on that
-- nesting, and `fill_order` takes the number of pending orders for it. That is enough since a
-- nested call is made only for a child that was pending and no longer is; Actor/Termination shows
-- it.
--
-- Not modelled: goroutines, channels and contexts outside the actor's (each other part is a
-- sequence of calls, and a call of the registry or the hub is one step under its mutex); timers;
-- sockets, TCP listeners and HTTP, with the matching of paths; JSON; the SQL driver (Open and Ping
-- of internal/storage/db.go: what the health check depends on is the ping's error); the random
-- source of order ids; logging; signals and shutdown. Which of several ready branches of a select
-- Go takes is left open, and so is when contexts end. Two texts for one constant of Side, Type or
-- Status do not arise: `side_of`, `kind_of` and `status_of` read a text. Store errors are logged by
-- the actor and change nothing there.
pub mod Common
pub mod Float
pub mod Order
pub mod Ledger
pub mod Actor
pub mod Candle
pub mod Registry
pub mod Wire
pub mod Http
pub mod Storage
pub mod Feed
pub mod Tickgen
pub mod Database
pub mod Server
pub mod Ws
pub mod Examples
