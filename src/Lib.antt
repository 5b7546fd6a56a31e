-- ===== src/Lib.antt =====
-- gyeongdohalsaram-server, the server of a game of police and thieves, as antt definitions with the
-- theorems that make it correct.
--
-- The program. Players connect over WebSockets, log in, and meet in rooms of at most 8, of whom at
-- most 2 are officers. When all are ready the game starts: a loop ticks 20 times a second, officers
-- arrest thieves near them, free thieves near the jail release the arrested ones, boosters and
-- stumble stones change how fast a player moves, and the game is over when all thieves are arrested or
-- 180 seconds have passed. A message runs through the hub, the router and one handler; the handlers
-- find a room by the manager and call its methods; the game loop of a room works on it besides.
--
-- The files, and what they model:
--   Runtime            what the program takes from outside: floating-point numbers, the random
--                      source, the order of a range over a map, uuid, and encoding/json
--   Game               internal/game: constants.go, state.go, player.go, collision.go, logic.go,
--                      spawn.go, map_objects.go; booster.go and stumble_stone.go, which are one manager
--                      of items (Game/Item) with two kinds (Game/Booster, Game/StumbleStone)
--   Ws/Message         internal/ws/message.go, with the payloads of all packages as one data type
--   Ws/Hub             internal/ws/hub.go, and the send buffers and pumps of internal/ws/client.go, with
--                      what is safe in them (Safe), in which order they hand messages on (Fifo),
--                      and when none is lost (Lossless)
--   Room/Players       the two maps of a room, Players and the connections
--   Room/Defs          internal/room/room.go: the room and its methods
--   Room/Tick          `gameLoop` of room.go, and what a tick leaves alone or changes (Same, Turn)
--   Room/Rounds        a round of `gameLoop` in its two steps, under the lock and after it (Judged: who
--                      wins by it)
--   Room/Invariant     what holds of a room between its methods
--   Room/Ending        `StopGame`, who wins (Judged), and how a game ends (Loop)
--   Room/Placing       `PrepareGame`: where the players start
--   Room/Ready         `allReady`: when a room may start
--   Room/Live          the rooms that the manager keeps
--   Room/Codes         internal/room/room_code.go
--   Room/Manager       internal/room/manager.go
--   GameCenter         internal/auth/gamecenter.go: the checks of a credential (Accepts), the time stamp
--                      over 64-bit words (Timestamp), and the cache of certificates (Cache)
--   Handler/Accounts   internal/account/account.go and the interface of internal/store/store.go
--   Handler/Server     the state that the handlers share, with the map of internal/handler/router.go
--   Handler/Lobby, Gameplay, Auth, Router     the files of these names in internal/handler
--   Handler/Connections     the naming of connections of cmd/server/main.go, and the timeouts
--   Handler/Rounds     the game loops of all rooms, each step of which may be followed by any event
--   Handler/Events     the hub with the handlers behind it, and the events that `Hub.Run`, the pumps and
--                      the game loops go through, one by one
--   Handler/Invariant, Soundness, History, Guard, Effects     the theorems on the handlers
--   Handler/Joining, Leaving, Teams, Starting, Returning     what the handlers of the lobby change,
--                      on every branch
--   Handler/Delivery, Lossless, Liveness     what reaches a connection, and how a game ends
--   Store              internal/store/postgres.go, over a pool of pgx (Logins: one account a player)
--   Config             internal/config/config.go, with the numbers and lists that it reads
--   Main               cmd/server/main.go: from the environment to a server that listens, over a network
--                      that says whether an address can be listened at
--   Tests              the theorems at concrete inputs, over a runtime with exact fractions
--
-- How the code is modelled. A method with a pointer receiver gives the new record; a handler gives the
-- new server and the list of what it sends, each message with the connection it is sent to. A map is
-- an association list. Go visits a map in a random order, so that each range draws an order from the
-- seed, and the theorems hold for every order; the random numbers come from the same seed. Only in the
-- payloads of room_info and game_start, and over the connections of a broadcast, the order is that of
-- the list. A
-- floating-point number is an abstract type with the operations that the code uses and the few
-- documented laws of its order that the theorems need. A time.Duration is an integer of nanoseconds.
-- The players of a room are a list, each under its own id, as AddPlayer stores them. A message's
-- data is read by functions that encoding/json stands behind, any of which may fail. The channel that
-- stops a loop is nil, open or closed; StopGame asks whether it is closed before it closes it, so that
-- only a nil one makes it panic, which is a result of its own. The handlers take as arguments whether
-- a Game Center credential is genuine, and the account store. PostgreSQL is a pool that takes
-- statements. The network, base64 and the cryptography
-- behind that verdict are an interface of GameCenter.
--
-- Bounds and fuel. The game loop runs on fuel, and 3600 rounds are shown to be enough: each takes 50
-- of the 180,000 milliseconds. The other loops are by recursion on a list, or on the number of
-- attempts of the code: 100 for a room code and for a position. A duration stays within 64 bits, since
-- the timers start at constants and only fall.
--
-- Not modelled. The locks: a message is one step, as each half of a round of a game loop is, and the
-- histories order the steps in every way; a half of a round between two calls of one handler that each
-- take the lock of the room is not modelled. A game loop finds its room by the code: a loop whose room
-- has been removed from the manager, or is overwritten there by a new one because GenerateCode gave up
-- after a hundred codes in use, makes no more rounds. No handler can find such a room, but those who
-- are in an overwritten one would still be sent its state until its time is up. A player who leaves in
-- the middle of a round counts in the end of the round as at its beginning. The nil pointer of
-- HandleSelectTeam, for a player who leaves between the search and the choice, which take two locks.
-- The text of the log; the deadlines and the reading of a connection; the HTTP routes, the upgrade to a
-- WebSocket, a server that fails after it has begun to listen, and the shutdown on a signal in
-- cmd/server/main.go, which are calls of net/http and gorilla/websocket.
pub mod Base
pub mod Runtime
pub mod Game
pub mod Ws
pub mod Room
pub mod GameCenter
pub mod Config
pub mod Handler
pub mod Store
pub mod Main
mod Tests
