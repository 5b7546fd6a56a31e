-- ===== src/Handler/Rounds/Sound.antt =====
-- A step of a game loop does not panic, and keeps the rooms of the server valid.
use gyeongdohalsaram_server.Base.{
  ℕ, subst, inl, inr, Bool, not, ◌&&◌, Bool-cases, Option, none, some, Option-cases,
}
use gyeongdohalsaram_server.Runtime.{Runtime}
use gyeongdohalsaram_server.Room.Defs.{Room, StopChannel}
use gyeongdohalsaram_server.Room.Tick.{Round, goes_on, returns, panics, is_closed}
use gyeongdohalsaram_server.Room.Rounds.{Pending, begin_round, round_verdict, end_round}
use gyeongdohalsaram_server.Room.Live.{IsLive, advance-IsLive, stopped-IsLive}
use gyeongdohalsaram_server.Room.Ending.{stop_game_lem}
use gyeongdohalsaram_server.Room.Manager.{get_room}
use gyeongdohalsaram_server.Room.Manager.Search.{Found}
use gyeongdohalsaram_server.Handler.Accounts.{AccountStore}
use gyeongdohalsaram_server.Handler.Server.{Loop, Server, Step}
use gyeongdohalsaram_server.Handler.Rounds.{
  waits_on, loop_at, after_round, wake_loop, work_on, run_loop,
}
use gyeongdohalsaram_server.Handler.Invariant.{store_room-Listed, IsSound}
use gyeongdohalsaram_server.Handler.Soundness.{get_room-Found}

module _ ⦃R : Runtime⦄ where
  -- A round that does not panic and leaves a valid room that has a player.
  abbrev IsRound : Round → Type 0
  IsRound (goes_on r out s) = IsLive r
  IsRound (returns r out s) = IsLive r
  IsRound panics = ⊥

  end_round-IsRound :
      (pending : Pending) (r : Room) (s : R.Seed) → IsLive r → IsRound (end_round pending r s)
  unfolding end_round
  end_round-IsRound pending r s v = elim (Option-cases (round_verdict pending r)) [
    | inl e ↦ rw (e, end_round) v
    | inr (result, e) ↦ rw (e, stop_game_lem result r v.0, end_round) (stopped-IsLive result r v)
  ]

module _ ⦃R : Runtime⦄ ⦃A : AccountStore⦄ where
  -- A step that does not panic and leaves a sound server.
  abbrev pub IsStep : Option Step → Type 0
  IsStep none = ⊥
  IsStep (some x) = IsSound x.0

  after_round-IsStep :
      (n : ℕ) (x : Round) (sv : Server) → IsRound x → IsSound sv → IsStep (after_round n x sv)
  unfolding after_round
  after_round-IsStep n (goes_on r out s) sv v h = store_room-Listed r sv.manager v h
  after_round-IsStep n (returns r out s) sv v h = store_room-Listed r sv.manager v h
  after_round-IsStep n panics sv v h = v

  wake_loop-IsSound :
      (n : ℕ) (ch : StopChannel) (takes_ticker : Bool) (r : Room) (sv : Server)
      → IsLive r
      → IsSound sv
      → IsSound (wake_loop n ch takes_ticker r sv).0
  unfolding wake_loop begin_round
  wake_loop-IsSound n ch takes_ticker r sv v h =
      elim (Bool-cases (is_closed ch && not takes_ticker)) [
        | inl shut ↦ rw (shut, wake_loop) h
        | inr runs ↦
            rw (runs, wake_loop) (store_room-Listed _ sv.manager (advance-IsLive r sv.seed v) h)
      ]

  work_on-IsStep :
      (n : ℕ) (l : Loop) (takes_ticker : Bool) (r : Room) (sv : Server)
      → IsLive r
      → IsSound sv
      → IsStep (work_on n l takes_ticker r sv)
  unfolding work_on
  work_on-IsStep n l takes_ticker r sv v h = elim (Option-cases l.pending) [
    | inl waits ↦ rw (waits, work_on) (wake_loop-IsSound n (waits_on l r) takes_ticker r sv v h)
    | inr (pending, works) ↦
        rw (works, work_on) (after_round-IsStep n _ sv (end_round-IsRound pending r sv.seed v) h)
  ]

  pub run_loop-IsStep :
      (n : ℕ) (takes_ticker : Bool) (sv : Server) → IsSound sv → IsStep (run_loop n takes_ticker sv)
  unfolding run_loop
  run_loop-IsStep n takes_ticker sv h = elim (Option-cases (loop_at n sv.loops)) [
    | inl gone ↦ rw (gone, run_loop) h
    | inr (l, there) ↦
        rw (there, run_loop)
          (elim (Option-cases (get_room l.code sv.manager)) [
            | inl removed ↦ rw removed h
            | inr (r, found) ↦ rw found (
                work_on-IsStep n l takes_ticker r sv
                  (subst Found found (get_room-Found l.code sv h)) h)
          ])
  ]
