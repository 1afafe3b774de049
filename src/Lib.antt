-- ===== src/Lib.antt =====
-- The trade execution service of quant_execution: ticks from Kafka are matched against a watchlist,
-- matches become entries, open positions are exited at their target or at the market's close, and
-- every change is written to a database behind a queue. All paths are under src/quant_execution/.
--
-- Parts and their files
--   Base           numbers, integers, text, lists and the dictionary that the parts share
--   Domain         domain/enums.py, domain/schemas.py, the row of repository/models.py, and clock
--                  values; a Decimal counts units of 10^-8, as a Numeric(20, 8) column does: prices with
--                  more places, and the rounding that writing them does, are outside the model;
--                  products are exact, where Python rounds them to 28 digits
--   Positions      domain/positions.py: `PositionBook` as a dictionary of buckets. The program
--                  shares Position objects; here the book holds them by value, an assignment to a
--                  field is `modify` at the position's symbol and trade id, and a method is one step
--   Matching       domain/matching.py: the watchlist snapshot and its daily refresh
--   Services       domain/services.py: Keys, Sizing and CloseTime are its functions; World is the
--                  state that the handlers share and the do blocks over it, with exceptions;
--                  TradeRows and CashHolds are steps of `execute`;
--                  Execution, Reconciler and Liquidator are its classes; Rehydrate its status sets
--   Pnl            domain/pnl.py: the figures of a day, and Reporter, which writes them
--   Repository     repository/trades_repo.py and pnl_repo.py over lists of rows, and Writer,
--                  repository/async_writer.py, the bounded queue and the thread that drains it
--   Clients        clients/alpaca_client.py and cash_client.py: Retry is their `_request`, Calls their
--                  operations over it; watchlist_client.py: the loop (Pages) and a page of it (Notes)
--   Workers        kafka/consumer.py (Consumer); workers/executor.py: process_message (Executor),
--                  rehydrate_positions (Rehydration), what `main` starts (Startup, with the schedule
--                  of workers/pnl_reporter.py), the turns of its threads (Process), and the book
--                  beside the table across a restart and at the close (Recovery)
--   Api            api/routes/trades.py, pnl.py and health.py: Query reads the parameters that the
--                  routes share, Trades, Pnl and Health are the routes, each a function of its
--                  parameters and of a table; missing_readiness_config of config.py
--   Config         config.py: the settings that the environment gives, and the readiness by them
--   Database       db.py: session_scope around a block, and the loop of wait_for_table
--   Migrations     alembic/env.py (Relocation) and alembic/versions (Versions), beside the
--                  repository's src: paths of this part start there
--   Logging        logging.py: format_event, and a reader of its lines that the program has not
--   Tests          runs and instances at concrete inputs
--
-- How they interact: Workers.Consumer hands each message to Workers.Executor, whose handler matches
-- it (Matching) and calls Services.Execution; that claims a key, writes tasks, calls the broker and
-- the cash service and changes the book (Positions). The tasks are what Repository.Writer takes from
-- its queue and applies to the table of Repository.Trades, which Pnl.Reporter and
-- Workers.Rehydration read, and that Api lists. Workers.Process puts the consumer's handler, the
-- refresher, the liquidator and the reconciler together as turns on one state. Repository.Writer
-- commits a batch as Database.session_scope does.
--
-- Conventions
--   ids and instants are natural numbers; text is a list of code points, and lower(), upper(),
--   isdigit(), isspace() and int() are those of ASCII; log calls and waits are left out. Handlers run
--   one after the other: the threads of a process take turns at whole messages and wake-ups.
--   The broker, the cash service, the clock, uuid4, json, zoneinfo, pydantic, the text of a number,
--   a date or an id, the database's commit and the operations of a session are parameters:
--   `Answers`, `Services`, `Library`, `Reader`, `parse`, `combine`, `commits`, `SessionOps`. One handler reads the clock once and takes one new id.
--   `on_close` is `ExecutionService.forget`, as workers/executor.py wires it.
--   A query of a repository keeps the rows that its conditions hold of, sorts them and cuts.
--   The order that the database gives to trades with one created_at is a parameter of list_history
--   (`rank`); elsewhere the sorting is stable;
--   of PostgreSQL the migrations take `information_schema` and `SET SCHEMA` as documented, and the
--   other operations as parameters.
--   Fuel: the digits of n are computed with fuel n + 1, which is never used up; wait_for_table has a
--   number of rounds, for which the timeout over the interval, and one more, are enough; the reader
--   of a log line has a number of fields, for which that of the line is enough. The other loops
--   recurse on their lists, on the attempts left or on the pages left, which are the code's own.
--
-- Not modelled: Bottle's routing and headers (api/app.py), the SQLAlchemy engine, Alembic's own
-- steps, signal handlers, threads as objects, argument parsing and the waits between rounds,
-- which are calls of libraries only; `TradeResponse` of domain/schemas.py, which nothing builds;
-- exception classes, which have no behaviour.
pub mod Base
pub mod Domain
pub mod Positions
pub mod Matching
pub mod Services
pub mod Pnl
pub mod Repository
pub mod Clients
pub mod Api
pub mod Config
pub mod Database
pub mod Migrations
pub mod Logging
pub mod Workers
pub mod Tests
