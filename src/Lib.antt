-- ===== src/Lib.antt =====
-- The paper trading core of iran-market-radar: from the official market data to a signal that may be
-- traded, from the signal to an order, and from the order to the cash, the positions and the ledger of
-- a simulated portfolio; and around it the calendar of the exchange, the campaign and the login.
--
-- How the parts interact. The collector writes snapshots, of which `Trusted` selects those that a
-- decision may use. `Scorer` turns the votes of the strategies into a signal and decides whether it
-- is actionable. `Sizing` bounds a purchase by the policy of `Risk`. `Ledger.Orders` submits orders
-- on signals and on positions. `Ledger.Pending` takes the pending orders, oldest first, through the
-- entry gates and against the first later trusted snapshot, where `Execution` simulates the fill
-- with the fees of `Fees`, and `Ledger.Entry` and `Ledger.Exit` carry it out. `Campaign` resolves
-- the portfolio on which this happens, `Calendar` says when, and `Auth` guards the routes. `Trader`
-- is the periodic cycle over all of it: the pending sales, the rules for the open positions, the
-- data gate of `Gates`, the pending purchases, and new purchases; `Scheduler` runs it each minute
-- of the session. Of the closed trades, `Learning` and `Attribution` keep what they teach.
-- `Strategies` gives the votes that the scorer reads.
--
-- Which file models which code:
--   Float, Base     Python's float as a parameter, and lists, tests and integers. `Float.Fixed` is a
--                   decimal fixed-point instance on which the examples evaluate.
--   Domain          packages/domain/models.py, the rows that the modelled code reads or changes
--   Calendar        packages/market_rules/trading_hours.py
--   Fees            packages/market_rules/fees.py: the schedules and `calculate_trade_fees`
--   Risk, Sizing    packages/domain/risk_policy.py and services/paper_broker/sizing.py
--   Execution       services/paper_broker/execution.py: `simulate_order_fill`, and in `Exits`
--                   `evaluate_exits_and_trailing_stop`
--   Trusted         services/collector/trusted_queries.py: the queries of snapshots, and in `History`
--                   those of daily bars and client types, whose rows are in `Domain.History`
--   Strategies      packages/strategies: the twelve strategies in `Trend`, `Volume` and `Flow`, and the
--                   registry; `Regime` has the labels of packages/feature_engine/regime.py
--   Gates           `Data` is `evaluate_data_gate` of services/collector/quality.py, `Fundamental` is
--                   services/scorer/fundamental_gate.py
--   Ledger          services/paper_broker/ledger.py, `PaperBrokerService`: `Book` is the portfolio and
--                   the rows of a session; `Pending.process_pending_orders` is the method of that name,
--                   its two branches are `Entry.apply_buy` and `Exit.apply_sell`; `Orders` has
--                   `create_exit_order`, and `Orders.Purchase` `create_order_from_signal` and
--                   `scale_in_position`
--   Trader          services/paper_broker/auto_trader.py, `AutoPaperTrader`: `Manage` and `Exits` are
--                   `_check_exits`; `Scan`, `Signals`, `Entries` and `Cycle` are `run_cycle`.
--                   `Scan` also has `instrument_data_quality_score` of services/collector/quality.py
--   Scheduler       services/paper_broker/scheduler.py: the worker's loop and its sleep
--   Learning        services/paper_broker/learning_engine.py
--   Attribution     services/paper_broker/attribution.py
--   Backtester      services/backtester/engine.py: the loop over the days of `run_backtest_simulation`
--   Scorer          services/scorer/ensemble.py and packages/market_rules/queue_model.py
--   Calibration     services/scorer/calibration_store.py: training and activating an artifact
--   Campaign        services/paper_broker/campaign.py
--   Auth            apps/api/routes/auth.py
--
-- Conventions. A function that may raise returns an `Option` or a result type; a call that raises
-- leaves its state to the caller's rollback. A database session is a table of the rows as last flushed
-- and as the objects are now, since the sessions do not flush before a query; deleting a row that was
-- never flushed is a parameter, `Orm`. Identifiers and symbols are numbers, times are microseconds, and
-- the texts that the code compares are enumerations. Prices and amounts are a parameter `F` with
-- Python's operations (`Float`); a theorem that needs more of them says so by a hypothesis, such as the
-- order of the doubles other than NaN (`IsOrdered`). Rates are exact decimals.
--
-- Loops are recursions on lists; the search for the next opening counts down the 369 days of the code.
-- The sleep of the scheduler is on fuel, since other tasks may stop it at any test: one unit for each
-- thirty seconds and one more are enough. A backtest is a recursion on the dates of its bars.
--
-- Not modelled: the texts for the user, the report figures of the closed trade and of the ticket, the
-- HTTP layer, the data adapters and the collector that calls them, and the numerical code of the
-- indicators and of the statistics of a backtest.
pub mod Attribution
pub mod Auth
pub mod Backtester
pub mod Base
pub mod Calendar
pub mod Calibration
pub mod Campaign
pub mod Domain
pub mod Execution
pub mod Fees
pub mod Float
pub mod Gates
pub mod Learning
pub mod Ledger
pub mod Regime
pub mod Risk
pub mod Scheduler
pub mod Scorer
pub mod Sizing
pub mod Strategies
pub mod Trader
pub mod Trusted
