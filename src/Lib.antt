-- ===== src/Lib.antt =====
-- Verification library of the Kalshi market maker: a bot that keeps one bid and one ask resting in
-- each market it trades on an exchange for binary contracts, within limits on its risk.
--
-- The parts, and the file that models each:
-- - source/core/quantity.hpp, source/core/types.hpp: Quantity.antt and Types.antt. Counts of
--   contracts are exact hundredths; prices are whole cents.
-- - source/engine/orderbook.cpp (LocalOrderbook): Book.antt, its prices in Book/Prices.antt. The
--   session feeds snapshots and deltas into it; the strategy reads best prices and fair prices.
-- - source/exchange/order_manager.cpp (OrderManager): Orders.antt for fills and lots,
--   Orders/Reads.antt for what is read off them, Orders/Remote.antt for placing, cancelling and
--   amending over the REST client. Orders/Implements.antt fills the interface IOrderManager of
--   Iface.antt, through which all others see it.
-- - source/engine/portfolio.cpp (Portfolio, reconcile): Portfolio.antt. It reads the order manager
--   and hands a snapshot to the risk manager.
-- - source/engine/risk_manager.cpp (RiskManager): Risk.antt. The strategy asks check_order before
--   each order; the snapshot can halt trading.
-- - source/engine/flow_imbalance.cpp (FlowImbalanceGuard): Flow.antt. Our fills of the last window.
-- - source/engine/trade_tape.cpp (TradeTape): Tape.antt. The public trades of the last window.
-- - source/engine/pricing_model.cpp (HeuristicModel, ClearingPriceModel, ViewBasedModel):
--   Pricing.antt. The quoter calls one of them through FairValueEngine.
-- - source/strategy/quoter.cpp (Quoter): Quoter.antt for its state and small functions,
--   Quoter/Wanted.antt for the prices of update, Quoter/Refresh.antt for refresh_bid and
--   refresh_ask, Quoter/Update.antt for update as a whole (update_quotes).
-- - source/engine/trading_session.cpp (TradingSession): Session.antt for its state,
--   Session/Feed.antt for book events, Session/Trades.antt for fills, Session/Safety.antt for
--   cancelling, dead feeds and rotation, Session/Reports.antt for what is read off it.
--   Session/Events.antt makes each call of the host an event. Session/Quoting.antt puts the quoter
--   in as the strategy, the way source/app/main.cpp does; each sees the other through Iface.antt.
-- - source/exchange/ticker_scanner.cpp (TickerScanner): Scanner.antt for its configuration and data,
--   Scanner/Dates.antt for the dates in tickers, Scanner/Ranking.antt for filters and scores,
--   Scanner/Tapes.antt and Scanner/Admission.antt for the probes, Scanner/Scan.antt for scan.
-- - source/net/websocket_client.cpp (WebSocketClient): Socket.antt for its state, Socket/Bodies.antt
--   for reading messages, Socket/Messages.antt for the handlers, Socket/Reconnect.antt for the delays.
--   Its callbacks are the events of the session.
--
-- Prelude.antt and its children hold what all share: integers, lists, dictionaries, texts, and the
-- outcomes of C++ calls: a value, an exception, or a panic. Float.antt holds
-- the operations on `double`. Witnesses.antt and its children apply the theorems
-- at concrete inputs.
--
-- How the code is read: `int` and `std::int64_t` are unbounded integers, since signed overflow is
-- undefined behaviour in C++ and no value of a session comes near it. `double` is a parameter with
-- its operations; a theorem that needs a law of rounding names it as a hypothesis. An
-- `std::unordered_map` is an association list, an `std::unordered_set` a list. `std::sort` is
-- insertion sort, `std::lower_bound` a scan. A deque is a list with its front first. A clock reading
-- is an argument. A mutable object is passed and returned. Log lines are left out.
--
-- A failed `ensure` (source/core/ensure.cpp) is a panic: it leaves all code at once, past every catch, and
-- what record_fill, place, update and update_portfolio leave behind is the state of that moment. The
-- panic handler gets that state before the process ends: Session/Events.antt wraps cancel_all_quotes
-- around every call of the host as source/app/main.cpp registers it. Every call of the strategy and
-- every writing call of the order manager may throw; a read of the order manager (a const method of
-- IOrderManager) is a function into values.
--
-- Fuel: the matching loop of record_fill runs on fuel one above the number of opposing lots, since
-- each round but the last takes a lot off the front. All other loops recurse on their list.
--
-- Not modelled: the network, files, threads and JSON (the rest of source/net, source/app, rest_client.cpp), the
-- log and analytics files, the offline backtest, and, so far, the theo grid, the
-- rate limiter and the paper transport.
pub mod Prelude
pub mod Float
pub mod Quantity
pub mod Types
pub mod Book
pub mod Orders
pub mod Iface
pub mod Portfolio
pub mod Risk
pub mod Flow
pub mod Tape
pub mod Witnesses
pub mod Pricing
pub mod Quoter
pub mod Session
pub mod Scanner
pub mod Socket
