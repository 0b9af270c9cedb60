-- ===== src/Lib.antt =====
-- A model of ircbot.rs, an IRC channel bot, and of what its parts promise.
--
-- The bot holds channels for a hub. Replicated records (C| of a channel, D| of the network, B| of a
-- ban) reach it from the hub and from its operators and are merged last writer wins; they set the
-- modes, the flood limits and the pacing of the output. Masks decide who is authorised, the flood
-- counters decide whom to kick or to ignore, and all that the bot says goes through one paced queue.
--
-- The files, each with the code that it models:
--   Prelude     shared names, tests and lists over the native numbers
--   Cstr        src/cstr.rs: comparisons, truncation and small text tests; Tok is strtok_r, Scan reads
--               numbers and formats as C does (Case, Trunc, Words, Numbers, Sscanf: their laws)
--   Glob        wildcard_match of src/auth.rs and src/glob_overlap.rs; Pattern says what a match is,
--               Match and Overlap prove the two functions against it
--   Lww         src/state.rs: stamps, the opt flags, NonceCache, nick rules (Merge: the order of
--               stamps, Nonces: the replay cache)
--   Queue       src/sendq.rs: the output queue; Modes reads and packs MODE lines, Invariant and Runs
--               keep it valid, Pacing bounds a drain, Lanes says what goes first, Room what is given
--               up, Reading and Packing read a packed line back, Width bounds it
--   State       src/state.rs: the records of the other parts, with the fields that they use
--   ChanCfg     src/chancfg.rs: Parse, Settings, Lines (C| and D|), Bans (B|), Edit (the bot's own
--               records and those of its operators) and FieldEdit (settings_edit); Number, Fields,
--               RoundTrip and RoundTripBan read back what is written, Range, Effective and Arrivals
--               bound the settings, Replicas takes D| lines in any order, Caps bounds the ban table,
--               Unique keeps its names apart, Table looks bans up in it, Purge cleans it; Tokens,
--               TokenEdit, LastToken and EditParse follow an edited field back to its values
--   Auth        src/auth.rs: user masks, trusted bots, the overlap test (Overlap, Conflict: what its
--               two answers mean)
--   Channel     src/channel.rs: the list of channels; Joins joins them, Access asks others to be let
--               in, Service answers such requests, Unban walks a ban list for another bot (Removal,
--               Jobs, Tally, Walks: what a walk may do; Outcome, Rates, Watch, Spells, Quota: how
--               often requests leave)
--   Link        src/irc_client.rs: one line to the server, and the loss of the link (Stored: what a line
--               can change)
--   Servers     src/irc_client.rs: which server is dialled next; Refusal and Duration read what a
--               server says that refuses the bot, Nick makes up nicks, Text shows a hold (Pick,
--               Hold, Backoff, Search, Removal: their laws)
--   Hub         src/hub_client.rs: the c| record of a channel; Record parses it, Sync takes it in, RoundTrip
--               and Merge say what is read and what is kept
--   ChanLive    src/chanlive.rs: Isupport reads 005 lines, Apply keeps the live modes and the ban list, Sync
--               moves a channel to its stored modes (Sound, Kept, Listed: bounds
--               on what a server says; Settle, Keyed, Limited, Converge: the changes are enough)
--   Enforce     src/chanenf.rs: Masks makes ban masks, Members keeps the roster and says which bans
--               may be set (Covers, Safe: what such a mask matches); Deal says which bot holds a job
--               (Order, Holder, Single, Dealt: its order and who is first), by the versions of
--               src/updater.rs in Version
--   ChanFlood   src/chanflood.rs: the window and the tracker (Window, Tracker, Tracked: their laws)
--   BotFlood    src/botflood.rs: host and command floods, the ignore table and quiet mode; Checks on
--               the whole state (Commands, Ignores: their laws)
--   Examples    each theorem at a small input
--
-- Conventions. A text is the list of its UTF-8 bytes. Times, counts and stamps, which the code
-- keeps as i64, i32 or usize, are native numbers; where the code subtracts two of them and
-- compares, the difference is moved to the other side, so that no subtraction is cut off. `cfg_gen`
-- wraps at 2 ^ 32. The bits of ChanSettings.present and its array of values are one list of
-- options. The clock is the argument `now` or `now_ms`. The socket under write_raw is a function
-- that says whether it takes a line after those it took; the first 8 bytes of SHA-256 are a
-- function of a text (Hash in Enforce.Deal), and the rows of the tree of bots are an argument;
-- sealing and sending to the hub is a function of the same kind, and so is a reply over DCC or
-- sealed that takes a line in place of the server (World.divert). What bot_comms is asked to send
-- stands in `told`. The stamp of a channel may be negative, as a c| record may bring it, so that it
-- is an integer; those of B|, C| and D| are read by parse_ll, which takes digits only. The block
-- that disconnect puts on a server after a refusal is in Servers and not in `lose` of Link.
-- `live_flags` is a function from the letter. A state that the code changes in place is taken and
-- returned.
--
-- Fuel. wildcard_match runs on fuel computed from the two lengths, and Glob.Match proves that it
-- always answers. A drain has one round for each queued line, as each round that goes on takes a
-- line (Queue.Pacing). The digits of a number n need at most n + 1 rounds. purge_bans has one round
-- for each ban. A walk over tokens has one round for each byte and one more (Cstr.Words), and the
-- loop over MAXLIST groups one for each byte (maxlist_enough in ChanLive.Sound); the search for a
-- word has one for each byte and one more (Servers.Search).
--
-- Not modelled: cryptography, sockets, TLS, logging, the updater (but for the comparison of
-- versions) and the main loop, which are I/O around other libraries; the commands and the IRC
-- parser, the actions and sweeps of src/chanenf.rs, the states of the two connections and the
-- records of the hub other than c|, C|, D| and B|, which build on the parts modelled here. count_at
-- and the reaction to a trip in src/chanflood.rs need the roster of src/chanenf.rs. Log lines,
-- console events, summary texts and the writing of the configuration file are left out everywhere.
pub mod Prelude
pub mod Cstr
pub mod Glob
pub mod Lww
pub mod Queue
pub mod State
pub mod ChanCfg
pub mod Auth
pub mod Channel
pub mod Link
pub mod Servers
pub mod ChanLive
pub mod Hub
pub mod Enforce
pub mod ChanFlood
pub mod BotFlood
pub mod Examples
