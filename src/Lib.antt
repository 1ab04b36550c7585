-- ===== src/Lib.antt =====
-- Verification of the order-flow engine.
--
-- The current engine is the header library under include/ofe. Ticks (core/tick_record.h) are
-- routed by symbol to the queues of a router (core/tick_router.h), pass through the ring buffer
-- of a worker (core/ring_buffer.h, core/symbol_worker.h), which runs its stages on each and
-- publishes it, are given a direction (core/lee_ready.h), and are built into bars
-- (core/bar_engine.h), deltas and volume profiles (analytics).
--
-- The modules follow the sources:
-- - Common: Boolean tests, lists, integers, words, the sliding window of a buffer, the queue that
--   buffers are compared with, texts as lists of character codes, and association lists for maps.
-- - Float: what the code does with double and float, as an abstract type with operations and the
--   laws of the IEEE comparisons; Float.Fixed is a concrete type that meets them.
-- - Ofe.Tick, Ofe.Ring, Ofe.Router, Ofe.LeeReady, Ofe.Signals, Ofe.Worker: the files of
--   include/ofe/core and include/ofe/signals.
-- - Ofe.Bars, Ofe.Bars.Engine: core/bar_types.h and core/bar_engine.h.
-- - Ofe.Delta, Ofe.Vwap, Ofe.Profile, Ofe.Imbalance, Ofe.Detector: the files of
--   include/ofe/analytics.
-- - Ofe.Config, Ofe.Api, Ofe.License: include/ofe/config, include/ofe/api and
--   include/ofe/license.
-- - Session: the engine of the first session, under ofe_session1_code/ofe, whose modules are
--   named for its files: Tick, Ring, LeeReady, Router, BarTypes, Bars, Signals, Delta, Imbalance
--   and Logger.
--
-- Names are those of the source in lower case: BarSeries::ingest is Ofe.Bars.ingest. A method
-- takes its object as an argument and returns the new one. Unsigned integers are natural numbers
-- with their wrap-around written out; unordered_map is an association list, and map a list in the
-- order of its keys, with iterators as cursors.
--
-- In Session, int32_t values go through a narrowing where the code casts them or adds them up,
-- int64_t sums are exact, float and double are one type, and texts are kept as the values that
-- they are put together from. The labels of bars and the logger are the exceptions: their texts
-- are lists of codes. Of the logger, the log directory is a list of named files, and the
-- background thread is a step relation whose schedule is a list of actions (a record comes in,
-- the destructor starts, the thread makes a step at some moment).
--
-- What the code takes from outside is a parameter: the conversion of a time to text and the
-- moment of each step in the logger, the YAML library in Ofe.Config, the CPU identification in
-- Ofe.License.
--
-- Loops without a structural argument run on fuel: clear and the destructor of the ring buffer
-- end when the fuel exceeds the number of items, and the loop of the value area has the number of
-- entries, since every round takes at least one.
--
-- Not modelled: memory order and the moments inside one call (each call of a buffer or a router
-- is one step of a schedule), core affinity, clocks, sockets, files other than the logger's, and
-- the copy of the session code under ofe_session1_code/ofe/ofe_session1.
pub mod Common
pub mod Float
pub mod Ofe
pub mod Session
