-- ===== src/Lib.antt =====
-- Driichi's match engine core: the crate crates/double_riichi_core, which runs mahjong matches
-- for humans, bots and agents.
--
-- Parts and how they interact:
-- - Prelude carries the shared vocabulary: results with panics, tests on lists, integers, and
-- the decimal texts of numbers.
-- - Domain models domain.rs, the vocabulary that every other part uses: match modes, seats,
-- tiles, actions, events, participants and results.
-- - Decision models decision.rs: the open question to one or more seats, their answers and their
-- deadlines. A match opens a decision from the legal actions of each seat, hands it the answers
-- of the players, and applies the actions that it resolves to.
-- - Projection models projection.rs: the complete table, its checks, and what each audience may
-- see of it.
-- - Results models results.rs: the data of a hand's results, the limit that a score reaches, the
-- check of a hand's record (KyokuResultRecord::validate: Hand, Melds and Scoring), and the check
-- of a match's final result (Final). What that check uses of riichienv-core is the record
-- `Rules`, a parameter.
-- - Machine models match_machine.rs: a running match. It asks the engine for legal actions,
-- opens a decision, applies what the decision resolves to, records the events, holds back those
-- that end a hand until its results are published, and ranks the players at the end.
-- - Room models the state of room.rs: participants that join, take seats and leave, the room's
-- settings, the bots that fill free seats, and the commands that the room's actor applies to the
-- state alone (RoomState::apply_simple). A room holds a match machine and calls it when a player
-- is lost, comes back or gives up.
--
-- Room by file: Catalog and Names are CharacterCatalog, RoomConfig and normalize_name; Types and
-- CommandTypes are the data; Table is the HashMap of participants; State is RoomState with its
-- creation; Lobby is add_participant, select, deselect, set_mode, configure and set_ready; Bots
-- is fill_with_bots; Match is disconnected_cleanup, is_empty_expired, finish_match, can_rematch
-- and back_to_lobby; Leaving is Disconnect, reconnect_participant, leave, kick and revoke_token;
-- Commands is apply_simple. The remaining files of Room carry proofs.
--
-- Machine by file: Types is the state and the calls of the engine, whose failure aborts the
-- match; Seats is presence, controllers and timing (decision_timing_for, disconnect, reconnect,
-- set_permanent_auto); Play is new_internal, legal_actions, current_decision, submit_action,
-- resolve_expired and resolve_actions; Direct is apply; Steps is record_outcome, record_events,
-- publish_kyoku_step, release_kyoku and published_kyoku_results; Show is project; Ranking is
-- build_result and validate_participants. The remaining files carry proofs: Stable, Idle, Log,
-- Kept, Calls, Publish, Setters, Shown and Journal follow the record of events through every
-- operation (Journal.Call is a call of any of them), Automatic and Automation the controller of
-- a seat, Reveal is the publication of a hand from its first step to its release, and
-- RankingLaws and Standings are the ranks.
--
-- The engine, an adapter around riichienv-core, is the record `Engine`, a parameter of the match
-- machine: what is proved of a match is proved for any engine. A call that may change the
-- engine's state returns the state it leaves, and the text of its error where it fails. The
-- shuffle of the seats, the new engine with its first events, and the text of a decision's error
-- are arguments as well. A list that has no entry at a seat's index is a panic, checked where an
-- operation begins.
--
-- Conventions. A `u8`, `u16`, `u64` or `usize` is a native number, a seat or tile its index. An
-- instant or a duration is a number of nanoseconds, and the clock is an argument of each call,
-- also where finish_match and back_to_lobby read it themselves; the overflow of an instant is
-- left out, as is that of the counters that number decisions and actions and that of the number
-- in a benchmark bot's name. A method that takes `&mut self` returns the new state beside its
-- result; a method that makes all of its checks before its first write returns the new state
-- inside its result. `Outcome` is `Result` with a third case for a panic, such as a failed
-- `expect`. Texts are native strings. A map is a list of keys and values, whose order stands for
-- the order of iteration.
--
-- For the room, the match machine, the event history and the step of a result screen are the
-- fields of a record `Parts`, a parameter, so what is proved of a room is proved for any answer
-- of the match machine. An accepted command returns the snapshot of the state it leaves; the
-- response leaves that out, since the state is returned beside it.
--
-- Fuel. Only the loop of fill_with_bots that looks for a free name takes fuel: the number of
-- participants and two. A name that is not found within it is a panic in the model.
--
-- Not modelled: the rules engine that the program takes from the crate riichienv-core with its
-- adapter, serialisation, logging, the actor's channels and timers, the HTTP and MCP servers,
-- storage, and the web frontend.
pub mod Prelude
pub mod Domain
pub mod Decision
pub mod Results
pub mod Projection
pub mod Machine
pub mod Room
