-- ===== src/Lib.antt =====
-- exaint is a market terminal: a server simulates the markets of a few symbols, and a browser keeps
-- copies of them that it must be able to trust. This is a model of the code that carries that trust,
-- with the theorems that make it correct.
--
-- How the parts interact. Each tick of the logical clock runs every symbol's market, which changes the
-- symbol's order book, makes trades and folds them into candles. What the tick emits (a book delta, the
-- trades, the candles) goes through the encoders to the connections that subscribe to the symbol:
-- deltas at once, trades and candles paced by the connection's tier. The browser takes a book snapshot
-- over REST, replays deltas on top of it, and asks for a new snapshot where a delta is missing.
--
-- Files and the code they model:
--   Base, Base/...           lists, JavaScript's Map and Array.sort, bigint as the integers
--   Protocol                 packages/protocol/src/market.ts, websocket.ts: enumerations, constants
--   Protocol/Decimal         packages/protocol/src/decimal.ts: parseDecimal, formatDecimal, identifiers
--   Config                   apps/api/src/config/env.ts, and what apps/api/src/app/create-app.ts loads
--   Market/Events            apps/api/src/market/events.ts, candles/candle.ts
--   Market/FixedPoint        apps/api/src/market/fixed-point.ts
--   Market/OrderBook         apps/api/src/market/orderbook/order-book.ts: class OrderBook
--   Market/Candles           apps/api/src/market/candles: ring-buffer.ts, aggregator.ts, symbol-candles.ts
--   Market/Clock             apps/api/src/market/simulator/clock.ts, market-engine.ts (runOwedTicks)
--   Market/Steps             code that changes a state, throws and draws, as steps
--   Market/Prng              apps/api/src/market/simulator/prng.ts
--   Market/Config            apps/api/src/market/symbol-config.ts
--   Market/Simulator         apps/api/src/market/simulator/generator.ts, in the parts Flow (trades),
--                            Quotes (the ladder) and Ticks
--   Market/Engine            apps/api/src/market/symbol-engine.ts
--   Market/Engine/Registry   apps/api/src/market: symbol-registry.ts, market-engine.ts (advance),
--                            market-repository.ts
--   App/Wire                 apps/api/src/app/wire.ts and the records of packages/protocol/src/market.ts
--   Auth/Tickets             apps/api/src/auth/ticket-service.ts
--   Delivery/Session         apps/api/src/websocket/connection-session.ts
--   Delivery/Tier            apps/api/src/websocket/tier-controller.ts
--   Delivery/Scheduler       apps/api/src/websocket/delivery-scheduler.ts
--   Delivery/RateLimiter     apps/api/src/websocket/rate-limiter.ts
--   Delivery/Dispatcher      apps/api/src/websocket/dispatcher.ts
--   Delivery/Gateway         apps/api/src/websocket/gateway.ts: one connection
--   Delivery/Frames          apps/api/src/websocket/frame-handler.ts
--   Web/CandleData           apps/web/features/market/chart/candle-data.ts
--   Web/Watchlist            apps/web/features/market/watchlist/order.ts
--   Web/OrderBookModel       apps/web/features/market/orderbook/order-book-model.ts
--   Web/Synchronizer         apps/web/features/market/orderbook/synchronizer.ts
--   Web/Chart                apps/web/features/market/chart: candle-history-controller.ts,
--                            candlestick-chart-adapter.ts
--   Web/RollingRate          apps/web/features/market/model/rolling-rate.ts
--   Web/UiModel              apps/web/features/market/model/market-ui-model.ts
--   Web/Socket               apps/web/features/market/socket: backoff.ts, desired-state.ts,
--                            latency-tracker.ts, socket-measurement.ts
--   Web/Socket/Client        apps/web/features/market/socket: market-socket-client.ts,
--                            visibility-controller.ts
--
-- How the code is translated. A class is a record of its fields, and a method a function of the same
-- name in snake case that takes the object last and returns it changed. A method that throws returns an
-- Option or a Result. A bigint that is a price, a quantity or a volume is an integer; identifiers,
-- sequences, counters and timestamps, which the code keeps non-negative, are native numbers. A text of
-- the wire is a list of bytes. Math.max(0, a - b) is subtraction on the natural numbers. A Map is an
-- association list in insertion order.
--
-- A step of the simulator is a function from a state to a new one, or to a fault. The socket client,
-- the connection of the gateway and the chart's controller are machines that take signals (a call, a
-- timer, an answer, an event of the socket) and give effects; an async method is cut at its waits.
--
-- Bounds and fuel. The printing of numbers has fuel: a number n is given n + 1 steps, one for each digit
-- at most, and `digits_value` in Protocol/Decimal/Digits shows that this is enough. The rejection loop
-- of the generator of random numbers has fuel, a parameter: each pass ends the loop unless the draw is
-- one of the fewer than `bound` top values of 2 ^ 64, and draw_below-returns says when the loop ends.
-- Running out of it is a fault of its own, apart from a thrown RangeError. The 64-bit arithmetic of
-- that generator has its wrap-around written out. JavaScript's other bigints have no bound. Numbers that
-- are not bigints are counters and millisecond times far below 2 ^ 53, and no bound is modelled for them;
-- where the code has a double that is a fraction (tokens of a bucket, the jitter of a delay) the model
-- has the exact fraction, and a probability is the threshold of the 53-bit draw that its double stands
-- for.
--
-- Parameters. The HMAC, base64url, JSON and the schema's check of tickets; the bytes of a symbol in
-- UTF-8; the type of round-trip times with its comparisons and averages; the work of a market's tick
-- under the clock; the decoder's verdict on a frame; the random secret of a process that has none.
--
-- Not modelled: the React interface, sockets, Fastify and timers, the zod schemas, the REST routes and
-- metrics, which are glue over other libraries; the chart library behind its adapter; the stores and the
-- runtime of the terminal; the controller of the selected market and the publisher of frames.
pub mod Base
pub mod Protocol
pub mod Config
pub mod Market
pub mod App
pub mod Auth
pub mod Delivery
pub mod Web
