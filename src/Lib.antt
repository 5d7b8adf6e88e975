-- ===== src/Lib.antt =====
-- sternhalma-server: a server for the board game Sternhalma (Chinese Checkers) with two players. A
-- server task plays one game; each player has a client task, which passes messages between the
-- server and a remote program over TCP or a web socket. The development models the game, both tasks,
-- the handshake that starts a client task, the codecs and transports, and the binaries, and measures
-- the game against rules that are written down without the code's tables, lists and paths.
--
-- Files, and the code they model:
--   Prelude: lists, tests and membership, and the outcomes of code: `Exec` with a value, an error
--     passed on by `?`, a panic, undefined behaviour (`unwrap_unchecked` of nothing), or fuel that
--     ran out. `Returns P x` says that the code x returns a value with the property P.
--   Player: src/sternhalma/board/player.rs.
--   Board: src/sternhalma/board/mod.rs, with Board/Hex (distance), Board/Lut (lut.rs) and
--     Board/Direction (the six neighbours). Proofs: Board/Cells (a board as a function from indices
--     to cells), Setup, Score, Pieces, Neighbours, Distance.
--   Movement: src/sternhalma/board/movement.rs. Proofs: Movement/Hops, Paths, Available and Player
--     (the enumeration), Validate and Apply.
--   Game: src/sternhalma/mod.rs. Proofs: Game/Count (pieces and scores), Invariant, Start, Apply,
--     Available, Reach.
--   Messages: src/server/messages.rs, and the messages of src/server/protocol.rs.
--   Client: src/server/client.rs. Proofs: Client/Relative, Views, Task, Errorless, Events,
--     Forward.
--   Server: src/server/mod.rs, with Server/Connect (`wait_players_connect`, `disconnect_players`),
--     Server/Turn (`handle_turn`) and Server/Loop (`game_loop`, `run`, `try_run`). Proofs:
--     Server/Moves, Steps, Turns, Choosing, Choices, Progress, Rounds, Connected, Arrivals, Leavers,
--     Whole, SessionMap, Seats, Kept, Sessions.
--   Handshake: src/server/handshake.rs, how a connection gets its player. Proofs: Handshake/Session
--     and Turns, together with the server that answers; Handshake/Race, two at once.
--   Codec: src/server/protocol.rs, `ServerCodec` and `ClientCodec`. Proofs: Codec/Stream, streams of
--     messages in chunks of bytes.
--   Socket: src/server/ws.rs, and the TCP connection of src/bin/sternhalma-server.rs. Proofs:
--     Socket/Transports.
--   Binary: src/bin/sternhalma-server.rs, `main`.
--   Playground: src/bin/playground.rs. Proofs: Playground/Outcome.
--   Timing: src/sternhalma/timing.rs.
--   Display: the texts of a board, a player, a game and a movement. Proofs: Display/Cells.
--   Rules: no code, but the rules of the game: the star as a region of the plane, jumps over one
--     piece, a match and its turns. Rules/Star compares the tables with the region, Rules/Chains the
--     paths of the code with jumps, Rules/Moves the list of a turn with the moves that the rules
--     allow, Rules/Refine a game with a match. Server/Rounds carries this to a whole game, and
--     Server/Choices to the messages of a turn.
--   Dialogue: no code of its own, but a turn from end to end: server, client tasks and remote
--     clients.
--   Tests: concrete inputs, and an application of each theorem to them.
--
-- How the code is modelled:
--   A function that changes its receiver takes it and returns the new one; errors are values. All
--     checks of `apply_movement` stand before its first change, so an error leaves the game as it
--     was. The build is the one with debug assertions: an index outside the 17 * 17 square, and an
--     arithmetic overflow of the 64-bit `usize`, panic.
--   An index is a pair of natural numbers. Board cells are a list of 289. Maps keyed by players are
--     `PerPlayer`; the sessions are a list of pairs, with one at most for each identifier.
--   `select!` and the channels: a run is any list of received messages, in any order, each with a
--     flag that says whether the message sent by its handler goes through. A loop that has handled
--     all of them is `waiting`. The timeout of the connection phase is the end of its messages.
--   What is sent is kept in the order of sending: `out` of the server, `Outbox` of a client task.
--   `unique` of the itertools crate is a parameter, of which the theorems use that the result has
--     the elements of the given list and no others. Session identifiers and senders are abstract
--     types.
--   Fuel: hop paths take 290 levels of recursion, one more than there are cells, since a path visits
--     no cell twice; the game loop takes one round more than there are messages, since each turn
--     takes one.
--
--   What other libraries do is a parameter. `Framing` is the `LengthDelimitedCodec` of tokio-util and
--     `Cbor` is ciborium; `IsFraming` and `IsCbor` are what their documentation says of them, and
--     Tests/Codecs has instances that satisfy both. `Chance` is what the playground draws and how it
--     sorts. How the standard library writes a number is a parameter of the text of a game.
--
-- Not modelled: the square root of `dist_euclidean` and the rate of the timer, which are floating
-- point numbers; accepting and upgrading connections, which the operating system and axum do (whether
-- an address can be bound is a flag of `binary_main`); logging, and with it the calls of the timer.
--
-- The invariant of a game (Game/Invariant, `Inv`): the board has the shape of the star; each player
-- has 15 pieces; the history has one entry for each turn; player 1 moves in even turns; the scores
-- are the recount of the board; while the game goes on nobody holds all its goal positions, and when
-- it is finished the winner, who moved last, holds all of them and the other player does not.
pub mod Prelude
pub mod Player
pub mod Board
pub mod Movement
pub mod Game
pub mod Messages
pub mod Client
pub mod Rules
pub mod Codec
pub mod Socket
pub mod Display
pub mod Playground
pub mod Binary
pub mod Timing
pub mod Dialogue
pub mod Server
pub mod Handshake
pub mod Tests
