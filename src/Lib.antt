-- ===== src/Lib.antt =====
-- A model of the trading backend's decision and execution path (src/modules), with the theorems that
-- make it safe to run: a signal is proposed by a strategy, judged by the risk agent and the
-- supervisor, approved by hand, and then traded on paper, as a dry run or, within limits, live.
--
-- The parts, and how they correspond to the code:
--   Base           Boolean tests, tables as lists and the lemmas that the parts share
--   Number         what the code does with JavaScript numbers, as an interface, and an instance with
--                  eight decimal places for the tests
--   Store          prisma/schema.prisma: enums, rows, events, and World, the state that all services
--                  share; an operation is an Action, which passes the state on and may throw
--   Auth           src/modules/auth: login, refresh with rotation, logout and me
--   MarketData     src/modules/market-data: the synchronisation of candles and its job
--   Technical      src/modules/agents: the analysis of a market, which becomes a decision
--   Generation     src/modules/strategies/application/signal-generation.service.ts and its job
--   Signals        src/modules/signals: findById, findByCandleKey, create and updateStatus
--   System         src/modules/system: getConfig and updateConfig, and what the kill switch stops
--   Fundamental    src/modules/fundamental, and src/modules/economic-events in Fundamental/Calendar
--   Risk           src/modules/risk: evaluateSignal, evaluateSignalById, the position size; and
--                  src/modules/risk-profile in Risk/Profile
--   Supervisor     src/modules/supervisor: decide and decideSignalById
--   Assisted       src/modules/assisted-trading: approval, rejection and execution by hand
--   Broker         src/modules/broker: dry runs, live orders and the log of each call
--   Live           src/modules/live-trading: the guard, the reservation and the execution
--   Paper          src/modules/paper-trading: opening, closing and candles
--   Strategy       src/modules/strategies/application: ema-trend-strategy.service.ts, and
--                  strategy-engine.service.ts in Strategy/Engine
--   Backtest       src/modules/backtesting: the engine, its indicators and metrics, and the use case
--   Tests          a small state, runs of the services on it, and the theorems at it
-- The decision of an analysis is what generation reads; generation asks the strategies and creates the
-- signal; the supervisor calls the fundamental agent and marks signals for assisted trading; assisted
-- trading calls the broker's dry run and enqueues paper trades; live trading calls the guard and the
-- broker. These read and write the one World, so that a theorem on one states what it does to the
-- others; the metadata of a decision and the strategies, which generation only reads, are in a Catalog
-- beside it. Auth, MarketData and Backtest have a store each, with the tables that they use; a backtest
-- runs the same trend strategy.
--
-- Conventions. Ids and times are natural numbers; a fresh id comes from one counter and does not
-- repeat. A time is milliseconds since the epoch and not negative. Tables keep their newest row
-- first, so `findFirst` by descending creation is the first row that passes. Arithmetic on prices is
-- that of the interface Number, of which a theorem assumes at most the laws that it names; `column`
-- is what a Decimal column gives back for a number written to it, and `fits` whether it takes the
-- number, which the writes of the risk agent and of the risk profile test; other columns are taken to
-- be wide enough. An exception is its class and its
-- message, with the codes of Prisma as classes of their own. A transaction that throws leaves the
-- state as it was, but for the settings row, which is read outside of it. Every loop is structural:
-- nothing runs on fuel. What is outside (the settings, the clock, the queue, the MT5 worker, the
-- database's abort of a conflicting transaction) is a field of Env, which is arbitrary in every
-- theorem. Each operation runs on the state that it finds; runs of several are sequences of steps.
--
-- The library of tokens and password hashes is the parameter Crypto, with the laws that a theorem
-- needs as hypotheses; the candle provider and the analysis worker are functions in SyncEnv and
-- TechnicalEnv, and what they answer is arbitrary.
--
-- Not modelled: the HTTP layer, its validation, cookies and guards, the clients of the candle provider
-- and of the analysis worker and the worker itself (services/agents, in Python), analytics and
-- performance, the listings and the logs, the realtime gateway, the retries of the queues and most
-- of their producers, and the storage of instruments. Of log rows
-- and events, the fields that nothing reads and the free payloads are left out.
pub mod Base
pub mod Number
pub mod Store
pub mod Signals
pub mod System
pub mod Fundamental
pub mod Risk
pub mod Broker
pub mod Assisted
pub mod Auth
pub mod Supervisor
pub mod Live
pub mod Paper
pub mod Strategy
pub mod Technical
pub mod Generation
pub mod Backtest
pub mod MarketData
pub mod Tests
