-- ===== src/Lib.antt =====
-- cross-arb: the core of a monitor and ledger for arbitrage between two prediction markets, polymarket.us
-- ('P') and Kalshi ('K'), which settle identically.
--
-- The parts and how they interact. bot/kalshi_book.py keeps the order book of a Kalshi market from a snapshot
-- and deltas, and guards the sequence numbers of the connection. bot/monitor.py takes the ladders of both
-- venues into a tracker for each market (or game), prices both directions by `signal` of bot/ledger.py (or
-- by `game_edge`), compares the edge with the last one, and logs the transition through a debouncer.
-- bot/ledger.py also holds the positions that such arbitrages build, and what they settle at. `run_live` of
-- bot/monitor.py runs this over the streams of both venues: it registers the markets that discovery finds,
-- routes each frame to the trackers, and lets a heartbeat tear settled markets down.
-- scripts/analyze_persistence.py rebuilds the episodes of an edge from that log, and scripts/capital_sim.py asks
-- how much capital they hold at once. scripts/account_sim.py and scripts/alloc_policy_experiment.py walk a fixed
-- bankroll through the episodes; scripts/adverse_selection.py says which leg opened an edge, and
-- scripts/backtest_current_strategy.py puts the episodes through the gates and ceilings of the execution bot,
-- scripts/velocity_gate_experiment.py through gates on the horizon, and scripts/shadow_fill.py asks what an
-- order that arrives late still gets.
--
-- Prelude: shared names, lists, dictionaries in insertion order (Prelude/Dicts), integers (Prelude/Int) and
--   decimal rounding (Prelude/Int/Rounding).
-- Kalshi/Book: `KalshiBook` of bot/kalshi_book.py, Kalshi/Seq: its `SeqTracker`. The proofs are in
--   Kalshi/Book/Merge and Kalshi/Book/Order.
-- Ledger/Fees: `kfee`, `pfee` of bot/ledger.py; Ledger/Signal: `signal`; Ledger/Account: the class `Ledger`.
--   The proofs are in Fees/Bounds, Signal/Best, Account/Settlement, Account/Guards and Account/Rotation.
-- Monitor/Edge: `best_px` to `classify` of bot/monitor.py; Monitor/Depth: `_pairs` to `_depth_dict`;
--   Monitor/Market: `MarketTracker`; Monitor/Game: `game_edge`, `GameTracker`; Monitor/Debounce:
--   `FlipDebouncer`; Monitor/Housekeeping: `prune_decision`, `teardown`, `TradePollState`,
--   `fee_tick`, `hb_ladder_pass`, with Housekeeping/TradeLog for the records of trades, their ingestion and the
--   seeding from the logs, and Housekeeping/Paging for `fetch_k_trades`. The proofs are in the modules below
--   each, and tests in a module Tests beside them.
-- Monitor/Live: the closure `run_live` of bot/monitor.py. Live/Registry: `register` and `_collide`; Live/Sockets:
--   `update_sub_cmd`, the shards and the links; Live/Heartbeat: a pass of `rest_heartbeat`; Live/Rows: the
--   lines of `TransitionLogger`; Live/Frames: what a frame does (`pm_fn`, `k_fn`, `emit`) and `flusher`;
--   Live/Stream: a connection of `kalshi_stream`; Live/Pmus: one of `pmus_stream`, and the loop around either with
--   its markers and waits; Live/Cli: the poll of `cli_stream`; Live/Weather: a cycle of `weather_poll`;
--   Live/Runs: the start and the steps that the tasks make in any order. The proofs are in the modules below
--   each.
-- Capital/Peak: `peak_and_avg` of scripts/capital_sim.py, with proofs in Peak/Attained and Peak/Area;
--   Capital/Select: `capturable` and `one_per_market`, with proofs in Select/Earliest; Capital/Economics:
--   `settle_t`, `void_haircut`, `simulate`, with Capital/Afford for what a bankroll can buy.
-- Persistence/Category and Persistence/Episodes: `category` and `build_episodes` of
--   scripts/analyze_persistence.py, with proofs in Episodes/Steps and Episodes/Sound.
-- Attribution: `attribute`, `open_attrib` and both loops of scripts/adverse_selection.py, with proofs in
--   Attribution/Rows, Attribution/Kept and Attribution/Classified.
-- Bankroll/Account: `run_account` of scripts/account_sim.py, with proofs in Account/Balanced and
--   Account/Identity; Bankroll/Policy: `run_policy` and `best_reservation` of
--   scripts/alloc_policy_experiment.py, with proofs in Policy/Best. The two walks of the source are the same but
--   for the threshold, and are one here. Bankroll/Recycle: `cluster_key` and the funding of a candidate in
--   `run_arm` of scripts/recycle_arm_experiment.py; Recycle/Timeline: its events and its loop, with proofs in
--   Recycle/Funding, Recycle/Steps and Recycle/Ends. `recycle_edge` is at its default there, and the heap is a
--   list in the order of its pops.
-- Gates: the configuration and the indexes of scripts/backtest_current_strategy.py; Gates/Clusters: `cluster_of`;
--   Gates/Caps: `cap_constrained_entries`, with proofs in Caps/Settled, Caps/Sized, Caps/Steps and Caps/Capped;
--   Gates/Funnel: `run_funnel`, with proofs in Funnel/Cleared.
-- Gates/Velocity: the horizon, both gates, the peak of the capital and `run_config` of
--   scripts/velocity_gate_experiment.py, with proofs in Velocity/Picked and
--   Velocity/Split.
-- Latency/Trajectory: `build_trajectories` and `edge_at` of scripts/shadow_fill.py; Latency/Fill: its
--   `capturable`, `shadow_fill` and percentiles, with proofs in Fill/Monotone.
-- Settlement/Days: `bucket_hit`, `classify_day`, `day_state` of scripts/settle_recon.py, with proofs in
--   Days/Legs and Days/Graded; Settlement/Verdicts: `_combine` of scripts/settlement_identity.py, with proofs in
--   Verdicts/Worst.
--
-- Numbers. The source computes in binary floating point; here every quantity is an exact integer in a decimal
-- unit: a price in 1/10000 dollar, the finest step of both venues, a size in 1/100 contract, money in 10^-14
-- dollar (in 1/2000000 dollar for the walks of a bankroll), a time in milliseconds (in microseconds for the
-- trade poll). All sums and products of the source are exact in these units, and its
-- `round` and `math.ceil` are written out, half to even. The tolerances of 1e-9 on a quantity are below its
-- unit; the one in `kfee` is kept. The error of floating point itself is not modelled.
--
-- State is passed explicitly; a method gives the new state beside its result, and an exception is a value of
-- a result type. The clock is an argument. The loop of `depth_curve` runs on fuel, the number of rungs of both
-- ladders and one, since each round uses up a rung; that of `run_arm` runs on three times the candidates and
-- one, since a candidate arrives once, waits at most once and is settled once.
--
-- The trackers of `run_live` live in a heap, and a closure holds the place of its tracker and the key of its
-- state. What a task does between two waits is one step, also a pass of the heartbeat with what it sends; a
-- set of names is walked in the order of the dictionary that it comes from. The requests to the venues and the
-- reading of ISO times are parameters. The shards run on the length of the list as fuel, since a shard takes
-- at least one name of a list that is not empty. A cycle of `weather_poll` takes the markets of the world at its
-- start and the ladders of the one at its end.
--
-- `settle_t` raises where a slug has a date with a month that is none; the walks are then none too.
--
-- Not modelled: opening and signing websockets, `parse_cli`, which is regular expressions, the session and
-- health records, files and JSON text, the printing harnesses, the reports and their statistics, the walks
-- over two pools of money, the reading of settlement rules, the regular expressions of the catalogue join, and
-- the Rust bot.
pub mod Prelude
pub mod Kalshi
pub mod Ledger
pub mod Monitor
pub mod Persistence
pub mod Attribution
pub mod Capital
pub mod Bankroll
pub mod Gates
pub mod Settlement
pub mod Latency
