-- ===== src/Handler/Rounds.antt =====
-- The game loops of all rooms: one step of one of them, of internal/room/room.go.
pub mod Sound
use gyeongdohalsaram_server.Base.{
  ℕ, zero, suc, Bool, not, ◌&&◌, Option, none, some, List, [], ◌∷◌, if◌then◌else◌,
}
use gyeongdohalsaram_server.Runtime.{Runtime}
use gyeongdohalsaram_server.Room.Defs.{Room, StopChannel}
use gyeongdohalsaram_server.Room.Tick.{Round, goes_on, returns, panics, is_closed}
use gyeongdohalsaram_server.Room.Rounds.{Pending, begin_round, end_round}
use gyeongdohalsaram_server.Room.Manager.{get_room, store_room}
use gyeongdohalsaram_server.Handler.Accounts.{AccountStore}
use gyeongdohalsaram_server.Handler.Server.{Loop, Server, Step}

module _ ⦃R : Runtime⦄ where
  unfoldable pub loop_at : ℕ → List Loop → Option Loop
  loop_at n [] = none
  loop_at zero (l ∷ ls) = some l
  loop_at (suc n) (l ∷ ls) = loop_at n ls

  unfoldable pub set_pending : ℕ → Option Pending → List Loop → List Loop
  set_pending n pending [] = []
  set_pending zero pending (l ∷ ls) = record l { pending = pending; held = none } ∷ ls
  set_pending (suc n) pending (l ∷ ls) = l ∷ set_pending n pending ls

  -- The channel that the `select` of a loop has taken: the one of the room when it began.
  abbrev pub waits_on : Loop → Room → StopChannel
  waits_on l r = elim l.held [ none ↦ r.stop_ch | some ch ↦ ch ]

  unfoldable pub drop_loop : ℕ → List Loop → List Loop
  drop_loop n [] = []
  drop_loop zero (l ∷ ls) = ls
  drop_loop (suc n) (l ∷ ls) = l ∷ drop_loop n ls

module _ ⦃R : Runtime⦄ ⦃A : AccountStore⦄ where
  -- `none` is a panic, which stops the whole server.
  unfoldable pub after_round : ℕ → Round → Server → Option Step
  after_round n (goes_on r out s) sv = some (
    record sv { manager = store_room r sv.manager; loops = set_pending n none sv.loops; seed = s },
    out,
  )
  after_round n (returns r out s) sv =
      some (
        record sv { manager = store_room r sv.manager; loops = drop_loop n sv.loops; seed = s },
        out,
      )
  after_round n panics sv = none

  -- The `select` of the loop takes the case of the ticker or, where it is ready, that of the channel:
  -- it may take the ticker even then.
  unfoldable pub wake_loop : ℕ → StopChannel → Bool → Room → Server → Step
  wake_loop n ch takes_ticker r sv =
      if is_closed ch && not takes_ticker
      then (record sv { loops = drop_loop n sv.loops }, [])
      else (let (r', pending, s) = begin_round r sv.seed in
          (
            record sv {
              manager = store_room r' sv.manager;
              loops = set_pending n (some pending) sv.loops;
              seed = s;
            },
            [],
          ))

  unfoldable pub work_on : ℕ → Loop → Bool → Room → Server → Option Step
  work_on n l takes_ticker r sv = elim l.pending [
    | none ↦ some (wake_loop n (waits_on l r) takes_ticker r sv)
    | some pending ↦ after_round n (end_round pending r sv.seed) sv
  ]

  -- The next step of the loop with this number, if there is one.
  unfoldable pub run_loop : ℕ → Bool → Server → Option Step
  run_loop n takes_ticker sv = elim (loop_at n sv.loops) [
    | none ↦ some (sv, [])
    | some l ↦ elim (get_room l.code sv.manager) [
      | none ↦ some (sv, [])
      | some r ↦ work_on n l takes_ticker r sv
    ]
  ]
