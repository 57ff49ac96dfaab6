-- ===== src/Lib.antt =====
-- bancho.py is a server for the game osu!. This library models the parts of it that carry its own
-- logic: the binary protocol between server and client, the gameplay modifiers, the game modes, the
-- beatmap statuses, multiplayer matches, the sessions with their channels and spectators,
-- the submission of scores, and the update of maps from osu!api.
--
-- The parts and the files that model them:
--   app/packets.py            Packets. Packets/Reader and Packets/Reader/Structs are the methods of
--                             `BanchoPacketReader`, Packets/Writer and Packets/Writer/Structs the
--                             functions from `write_uleb128` to `write_scoreframe`, Packets/Frames is
--                             `write`, `_read_header` and `__next__`, Packets/Server the packets the
--                             server sends. Packets/Integers and Packets/Utf8 are the parts of Python's
--                             integers, `struct` and codecs that they use.
--   app/constants/mods.py     Mods, with `filter_invalid_combos` in Mods/Filter and the textual forms
--                             in Mods/Text.
--   app/constants/gamemodes.py           GameMode
--   app/constants/beatmap_statuses.py    RankedStatus
--   app/objects/match.py      Match/Types (the enumerations, `Slot`, `Match`), Match/Seats (the methods
--                             on slots) and Match/Room (`start`, `enqueue`, `enqueue_state`).
--   app/objects/channel.py    World/Channels, with `join_channel` and `leave_channel` of `Player`;
--                             `enqueue` and `send_bot` for the chat of a match in Match/Room.
--   app/objects/player.py     World (the attributes), World/Spectating, World/Matches (`join_match`,
--                             `leave_match`) and World/Players (`logout`, `dequeue`, friends, blocks).
--   app/objects/collections.py   `Matches` in World/Matches, the list and dictionaries of `Players`,
--                             with `make_safe_name` of app/utils.py and what `logout` does to them, in Players.
--   app/api/domains/cho.py    Match/Handlers and Match/Settings: the `handle` of the packets that act
--                             inside a match, from MatchChangeSlot to MatchChangeTeam. World/Handlers,
--                             World/Spectating and World/Events: the `handle` of the packets on the
--                             sessions, and the choice of a handler by `bancho_handler`. Status: the
--                             mods and the mode of `ChangeAction`.
--   app/commands.py           Match/Commands: the `!mp` commands that act on a match alone, and the timers
--                             of `!mp start` in Match/Commands/Timers.
--   app/objects/score.py      Scores (grades, statuses) and Scores/Play (`Score` and its methods).
--   app/repositories/scores.py   Scores/Table: the rows and the statements that a submission runs.
--   app/services/score_submission.py   Submission (the state), Submission/Stats (the statistics),
--                             Submission/Checks (the request), Submission/Persist and
--                             Submission/Transaction (what the transaction writes),
--                             Submission/Submit and Submission/Service (`submit_score`), with
--                             `partial_update` of app/repositories/stats.py.
--   app/objects/beatmap.py    Beatmaps (a map and what osu!api says of it) and Beatmaps/Update
--                             (`_update_if_available` of a set).
-- A packet comes in through Packets/Frames, its fields are read by Packets/Reader, and its handler
-- changes the match and enqueues packets of Packets/Server to the players of the match and of #lobby.
--
-- How the code is modelled. Bytes and characters are numbers, a float is its IEEE 754 bit pattern, and
-- an exception is `none`. A reader takes bytes off the front of the body. A handler is a function from
-- a room, which holds the match, its chat, the players of #lobby and the packets enqueued so far, to a
-- result and the room afterwards: what was written before an exception stays written. A player is
-- named by the id of the user, a slot by its index. The handlers begin where `player.match` is the
-- match of the room. The sessions, the bot, the domain, `str` of an integer and the beatmaps known by
-- their MD5 are fields of the record `Sessions` of Match/Room; what a command asks of Python and of
-- the sessions is in the record `Context` of Match/Commands. The lookup of a beatmap is one step: no
-- other handler runs while it is awaited. The handlers on the sessions are functions from a world to a
-- result and the world afterwards. The world holds the player objects by the id of the user, the
-- channel and match objects by addresses, the lists of the sessions, and the queue of each player: an
-- assignment to an object is seen by all that refer to it. World/Calm has the actions that keep the
-- members of channels known to their players and change neither spectators nor seats, World/Ties the
-- invariant that ties players, channels, spectators and matches together, World/Quiet the actions that
-- only write to queues. The silences of players, `str` of an integer and the bot are fields of the
-- record `App` of World. `Mods(n)` is that of Python 3.11: it
-- keeps a number that is not negative as it is, and `~` has the 31 bits of the members. The methods of
-- Mods take masks below 2 ^ 31.
--
-- A submission is a function from a state to a result or an exception and the state afterwards. The state
-- holds the tables, the players, the score, and the answers that the database will give: each method of a
-- repository takes one of them, a result, an exception or an IntegrityError. A transaction that raises
-- leaves the tables as they were. The arithmetic of floats, MD5, `int` and `strptime` are fields of the
-- records `Floats` and `Python`; what else a submission asks is in `Server` and `Services`. Submissions
-- run one at a time, so that the lock on the checksum has no part. The update of a set of maps is a
-- function from the set and the answer of osu!api to the set and the statements for the database, which
-- are taken to succeed; `int`, `float` and `datetime` of Python are in the record `Parsing`.
--
-- Fuel. The loop of `__next__` and the iteration over a body run on fuel, for which the length of the
-- body is enough, since a header takes seven bytes. The loops of ULEB128 and UTF-8 take the number and
-- the length of the text as fuel. The loop of `logout` takes its fuel with the packet; the number of the
-- channels of the player is enough if the player is a member of each.
--
-- Not modelled: login, the chat messages, the commands but for what is named above, the status and presence of players, silences and
-- restrictions, the scoring of scrims, the lookups of maps and the files of maps, the leaderboards, the web endpoints, the
-- other repositories and services, and the settings. A player who is restricted during a submission
-- loses the privilege and the token; what else `restrict` and `logout` do is not joined to it. The handlers inside a match act on a room and those on the sessions on
-- a world; that a room is a part of a world is not modelled.
pub mod Prelude
pub mod Bits
pub mod Mods
pub mod GameMode
pub mod RankedStatus
pub mod Match
pub mod Packets
pub mod World
pub mod Players
pub mod Status
pub mod Scores
pub mod Submission
pub mod Beatmaps
pub mod Examples
