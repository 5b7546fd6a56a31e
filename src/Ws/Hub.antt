-- ===== src/Ws/Hub.antt =====
-- internal/ws/hub.go, and the send buffers of internal/ws/client.go. A client is the number of the
-- call of `NewClient` that made it; what is sent are the bytes of a message, of any type here. The
-- loops of `ReadPump` and `WritePump` are cut into the steps that touch the hub and the buffers.
pub mod Safe
pub mod Fifo
pub mod Lossless
use mathlib.Core.List.{Mem}
use gyeongdohalsaram_server.Base.{
  ℕ, suc, Bool, true, false, ◌||◌, Option, none, some, List, [], ◌∷◌, ◌++◌, leb, eqb, length,
  if◌then◌else◌,
}
use gyeongdohalsaram_server.Ws.Message.{ClientRef}

-- `make(chan []byte, 256)`
abbrev pub send_capacity : ℕ
send_capacity = 256

-- The channel `Send` of a client, and whether the connection still takes what is written on it.
pub record Channel (M : Type 0) : Type 0 where
  pub buffer : List M
  pub closed : Bool
  -- What `WritePump` has written on the connection, the first message first, and whether it runs.
  pub written : List M
  pub pumping : Bool

pub record Hub (M : Type 0) : Type 0 where
  pub clients : List ClientRef
  pub channels : ClientRef → Channel M
  -- How many clients have been made.
  pub made : ℕ

-- What may happen, in any order: a client comes; its `ReadPump` ends; a message is sent to it; a
-- message is sent to all; its `WritePump` makes a round on its channel, or on its ticker, on a
-- connection that takes what is written or does not.
pub data Action (M : Type 0) : Type 0 where
  comes : Action M
  ends : ClientRef → Action M
  sends : ClientRef → M → Action M
  floods : M → Action M
  pumps : ClientRef → Bool → Action M
  pings : ClientRef → Bool → Action M

-- `h.Clients[client]`
unfoldable pub has_client : ClientRef → List ClientRef → Bool
has_client c [] = false
has_client c (d ∷ ds) = eqb d c || has_client c ds

-- `delete(h.Clients, client)`
unfoldable pub delete_client : ClientRef → List ClientRef → List ClientRef
delete_client c [] = []
delete_client c (d ∷ ds) = let rest = delete_client c ds in if eqb d c then rest else d ∷ rest

module _ {M : Type 0} where
  -- A channel as `NewClient` makes it, with the pump that `handleWebSocket` starts.
  abbrev pub new_channel : Channel M
  new_channel = record { buffer = []; closed = false; written = []; pumping = true }

  unfoldable pub new_hub : Hub M
  new_hub = record { clients = []; channels = λ _. new_channel; made = 0 }

  unfoldable pub set_channel : ClientRef → Channel M → Hub M → Hub M
  set_channel c ch h = record h { channels = λ d. if eqb d c then ch else h.channels d }

  -- `NewClient`, and the case `Register` of `Run`.
  unfoldable pub register_new : Hub M → Hub M
  register_new h = record (set_channel h.made new_channel h) {
    clients = h.made ∷ h.clients;
    made = suc h.made;
  }

  -- `close(ch)`: `none` is the panic of closing a closed channel.
  unfoldable pub close_send : Channel M → Option (Channel M)
  close_send ch = if ch.closed then none else some (record ch { closed = true })

  -- The case `Unregister` of `Run`, before the handler of `OnDisconnect`.
  unfoldable pub unregister_client : ClientRef → Hub M → Option (Hub M)
  unregister_client c h =
      if has_client c h.clients
      then elim (close_send (h.channels c)) [
        | none ↦ none
        | some ch ↦ some (set_channel c ch (record h { clients = delete_client c h.clients }))
      ]
      else some h

  -- A `select` that sends on a channel or else takes its default: `none` is the panic of sending on a
  -- closed channel, and a full buffer leaves the channel as it is.
  unfoldable pub offer : M → Channel M → Option (Channel M)
  offer msg ch =
      if ch.closed
      then none
      else some (
          if leb send_capacity (length ch.buffer)
          then ch
          else record ch { buffer = ch.buffer ++ (msg ∷ []) })

  -- `SendMessage`, which recovers from the panic.
  unfoldable pub send_message : ClientRef → M → Hub M → Hub M
  send_message c msg h = elim (offer msg (h.channels c)) [ none ↦ h | some ch ↦ set_channel c ch h ]

  -- The loop of `Broadcast` over the clients, which does not recover.
  unfoldable pub broadcast_loop : M → List ClientRef → Hub M → Option (Hub M)
  broadcast_loop msg [] h = some h
  broadcast_loop msg (c ∷ cs) h = elim (offer msg (h.channels c)) [
    | none ↦ none
    | some ch ↦ broadcast_loop msg cs (set_channel c ch h)
  ]

  unfoldable pub broadcast : M → Hub M → Option (Hub M)
  broadcast msg h = broadcast_loop msg h.clients h

  abbrev pub client_count : Hub M → ℕ
  client_count h = length h.clients

  -- One round of `WritePump` on a message: it ends when the channel is closed and empty, or when the
  -- connection does not take the message.
  unfoldable pub write_round : Bool → Channel M → Channel M
  write_round takes ch =
      if ch.pumping
      then elim ch.buffer [
        | [] ↦ if ch.closed then record ch { pumping = false } else ch
        | msg ∷ rest ↦
            if takes
            then record ch { buffer = rest; written = ch.written ++ (msg ∷ []) }
            else record ch { buffer = rest; pumping = false }
      ]
      else ch

  -- The case of the ticker: a ping that the connection does not take ends the pump.
  unfoldable pub ping_round : Bool → Channel M → Channel M
  ping_round takes ch = if takes then ch else record ch { pumping = false }

  unfoldable pub act : Action M → Hub M → Option (Hub M)
  act comes h = some (register_new h)
  act (ends c) h = unregister_client c h
  act (sends c msg) h = some (send_message c msg h)
  act (floods msg) h = broadcast msg h
  act (pumps c takes) h = some (set_channel c (write_round takes (h.channels c)) h)
  act (pings c takes) h = some (set_channel c (ping_round takes (h.channels c)) h)

  unfoldable pub act_all : List (Action M) → Hub M → Option (Hub M)
  act_all [] h = some h
  act_all (a ∷ rest) h = elim (act a h) [ none ↦ none | some next ↦ act_all rest next ]
