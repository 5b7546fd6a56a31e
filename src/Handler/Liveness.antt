-- ===== src/Handler/Liveness.antt =====
-- A game that is started on the server comes to its end by the rounds of its own loop.
use gyeongdohalsaram_server.Base.{
  ℕ, zero, suc, ◌*◌, ◌≤◌, ◌<◌, ◌≡◌, refl, ap, subst, ◌∙◌, ◌⊎◌, inl, inr, Bool-cases, true, Option,
  none, some, String, List, [], ◌∷◌, ◌++◌, length, length-map, replicate, arith, pos, leb_ℤ,
  string_eq,
}
use gyeongdohalsaram_server.Runtime.{Runtime}
use gyeongdohalsaram_server.Game.State.{ended, WinResult}
use gyeongdohalsaram_server.Game.Logic.{check_police_win}
use gyeongdohalsaram_server.Ws.Message.{Message}
use gyeongdohalsaram_server.Ws.Hub.{Hub}
use gyeongdohalsaram_server.Room.Defs.{Room, closed_channel, is_playing, prepare_game}
use gyeongdohalsaram_server.Room.Tick.{
  Round, goes_on, returns, panics, tick, advance, run_items, verdict,
}
use gyeongdohalsaram_server.Room.Rounds.{Pending, begin_round}
use gyeongdohalsaram_server.Room.Rounds.Whole.{end_round-tick}
use gyeongdohalsaram_server.Room.Invariant.{IsValid}
use gyeongdohalsaram_server.Room.Ending.{stopped, Outcome, tick-Outcome}
use gyeongdohalsaram_server.Room.Ending.Loop.{
  TicksLeft, verdict-none, verdict-some, advance-TicksLeft, stopped_ended, prepare_game-TicksLeft,
}
use gyeongdohalsaram_server.Room.Manager.{get_room, store_room}
use gyeongdohalsaram_server.Room.Manager.Search.{get_room-store_room}
use gyeongdohalsaram_server.Handler.Accounts.{AccountStore}
use gyeongdohalsaram_server.Handler.Server.{Loop, Server, Step}
use gyeongdohalsaram_server.Handler.Lobby.{hold_loops, start_game}
use gyeongdohalsaram_server.Handler.Rounds.{
  loop_at, set_pending, drop_loop, after_round, wake_loop, work_on, run_loop,
}
use gyeongdohalsaram_server.Handler.Events.{World, Event, ticks, deliver, with_step, step, run}

module _ ⦃R : Runtime⦄ where
  loop_at-set_pending :
      (n : ℕ) (pending : Option Pending) (ls : List Loop) (l : Loop)
      → loop_at n ls ≡ some l
      → loop_at n (set_pending n pending ls) ≡ some (record l { pending = pending; held = none })
  unfolding loop_at set_pending
  loop_at-set_pending n pending [] l e = cc e
  loop_at-set_pending zero pending (x ∷ ls) l e =
      let same : x ≡ l = cc e in
      let f : Loop → Option Loop = λ y. some (record y { pending = pending; held = none }) in
      ap f same
  loop_at-set_pending (suc n) pending (x ∷ ls) l e = loop_at-set_pending n pending ls l e

module _ ⦃R : Runtime⦄ ⦃A : AccountStore⦄ where
  -- The loop with this number waits for its next round on a room with so many ticks to go.
  pub record IsWorking (n : ℕ) (code : String) (left : ℕ) (sv : Server) : Type 0 where
    pub room : Room
    pub waits : loop_at n sv.loops ≡ some (record { code = code; pending = none; held = none })
    pub found : get_room code sv.manager ≡ some room
    pub named : room.code ≡ code
    pub going : TicksLeft left room

  -- The game of the room has ended.
  abbrev pub IsOver : String → Server → Type 0
  IsOver code sv =
      (r : Room) × (get_room code sv.manager ≡ some r)
      × (r.state ≡ ended)
      × (r.stop_ch ≡ closed_channel)
      × ((check_police_win r.players ≡ true) ⊎ (leb_ℤ r.remaining_time (pos 0) ≡ true))

  -- The server in the middle of a round.
  abbrev midway : ℕ → Room → Server → Server
  midway n r sv = record sv {
    manager = store_room (begin_round r sv.seed).0 sv.manager;
    loops = set_pending n (some (begin_round r sv.seed).1) sv.loops;
    seed = (begin_round r sv.seed).2;
  }

  run_loop-begins :
      (n : ℕ) (code : String) (left : ℕ) (sv : Server) (w : IsWorking n code left sv)
      → run_loop n true sv ≡ some (midway n w.room sv, [])
  unfolding run_loop work_on wake_loop
  run_loop-begins n code left sv w =
      rw (w.waits, w.found, w.going.valid.armed w.going.on, run_loop, work_on, wake_loop) refl

  begin_round-code : (r : Room) (s : R.Seed) → (begin_round r s).0.code ≡ r.code
  unfolding begin_round advance run_items
  begin_round-code r s = refl

  run_loop-ends :
      (n : ℕ) (code : String) (left : ℕ) (sv : Server) (w : IsWorking n code left sv)
      → run_loop n true (midway n w.room sv)
        ≡ after_round n (tick w.room sv.seed) (midway n w.room sv)
  unfolding run_loop work_on
  run_loop-ends n code left sv w =
      rw
        (
          loop_at-set_pending n (some (begin_round w.room sv.seed).1) sv.loops _ w.waits,
          get_room-store_room (begin_round w.room sv.seed).0 code sv.manager
              (begin_round-code w.room sv.seed ∙ w.named),
          run_loop,
          work_on,
        )
        (ap (λ x. after_round n x (midway n w.room sv))
          (end_round-tick w.room sv.seed w.going.valid))

  advance-code : (r : Room) (s : R.Seed) → (advance r s).0.code ≡ r.code
  unfolding advance run_items
  advance-code r s = refl

  stopped-code : (result : WinResult) (r : Room) → (stopped result r).0.code ≡ r.code
  stopped-code result r = elim (Bool-cases (is_playing r.state)) [
    | inl on ↦ rw on refl
    | inr off ↦ rw off refl
  ]

  -- Two ticks of the loop, and what follows.
  run-two_ticks :
      (n : ℕ) (code : String) (left : ℕ) (w : World) (v : IsWorking n code left w.server) (x : Step)
      (es : List Event)
      → after_round n (tick v.room w.server.seed) (midway n v.room w.server) ≡ some x
      → run (ticks n true ∷ ticks n true ∷ es) w ≡ run es (with_step x w.hub)
  unfolding run step deliver
  run-two_ticks n code left w v x es e =
      rw
        (run_loop-begins n code left w.server v, run_loop-ends n code left w.server v, e, run, step)
        refl

  -- What a game comes to by the ticks of its loop alone.
  abbrev Ends : ℕ → String → ℕ → World → Type 0
  Ends n code bound w =
      (j : ℕ) × (j ≤ bound)
      × (w' : World) × (run (replicate j (ticks n true)) w ≡ some w')
      × IsOver code w'.server

  more_left : (left : ℕ) (r : Room) → verdict r ≡ none → TicksLeft left r → 0 < left
  more_left left r e t =
      let going = verdict-none r e in let time = t.left in ground (arith, going, time)

  round-Ends :
      (n : ℕ) (code : String) (left : ℕ) (w : World) (v : IsWorking n code (suc left) w.server)
      (x : Round)
      → Outcome v.room w.server.seed x
      → tick v.room w.server.seed ≡ x
      → ((next : World)
          → 0 < left
          → IsWorking n code left next.server
          → Ends n code (2 * left) next)
      → Ends n code (2 * suc left) w
  unfolding after_round run
  round-Ends n code left w v (goes_on r out s) (go, er, es, eo) e ih =
      let during = midway n v.room w.server in
      let after = record during {
        manager = store_room r during.manager;
        loops = set_pending n none during.loops;
        seed = s;
      } in
      let going : TicksLeft left r = rw er (advance-TicksLeft left v.room w.server.seed v.going) in
      let named : r.code ≡ code =
        ap (λ x. x.code) er ∙ advance-code v.room w.server.seed ∙ v.named in
      let next : World = with_step (after, out) w.hub in
      let (j, bound, w', ran, over) = ih next (more_left left r go going) (record {
        room = r;
        waits =
            loop_at-set_pending n none during.loops _
              (loop_at-set_pending n _ w.server.loops _ v.waits);
        found = get_room-store_room r code during.manager named;
        named = named;
        going = going;
      }) in
      let made : after_round n (tick v.room w.server.seed) during ≡ some (after, out) = rw e refl in
      (
        suc (suc j),
        omega (arith, bound),
        w',
        run-two_ticks n code (suc left) w v (after, out) (replicate j (ticks n true)) made ∙ ran,
        over,
      )
  round-Ends n code left w v (returns r out s) (result, won, er, es, eo) e ih =
      let during = midway n v.room w.server in
      let after = record during {
        manager = store_room r during.manager;
        loops = drop_loop n during.loops;
        seed = s;
      } in
      let last = (advance v.room w.server.seed).0 in
      let (st, ch, ps, time) =
        stopped_ended result last (advance-TicksLeft left v.room w.server.seed v.going).on in
      let named : r.code ≡ code =
        ap (λ x. x.code) er
        ∙ stopped-code result last
        ∙ advance-code v.room w.server.seed
        ∙ v.named in
      let made : after_round n (tick v.room w.server.seed) during ≡ some (after, out) = rw e refl in
      (
        2,
        omega arith,
        with_step (after, out) w.hub,
        run-two_ticks n code (suc left) w v (after, out) [] made,
        (
          r,
          get_room-store_room r code during.manager named,
          rw er st,
          rw er ch,
          rw (er, ps, time) (verdict-some last result won),
        ),
      )
  round-Ends n code left w v panics o e ih = absurd o

  working-Ends :
      (left n : ℕ) (code : String) (w : World)
      → 0 < left
      → IsWorking n code left w.server
      → Ends n code (2 * left) w
  working-Ends zero n code w h v = absurd (omega (arith, h))
  working-Ends (suc left) n code w h v =
      round-Ends n code left w v (tick v.room w.server.seed)
        (tick-Outcome v.room w.server.seed v.going.valid) refl
        (λ next more there. working-Ends left n code next more there)

  loop_at-last : (l : Loop) (ls : List Loop) → loop_at (length ls) (ls ++ (l ∷ [])) ≡ some l
  unfolding loop_at
  loop_at-last l [] = refl
  loop_at-last l (x ∷ ls) = loop_at-last l ls

  start_game-IsWorking :
      (r : Room) (sv : Server)
      → IsValid r
      → IsWorking (length sv.loops) r.code 3600 (start_game r sv).0
  unfolding start_game hold_loops prepare_game
  start_game-IsWorking r sv v = record {
    room = (prepare_game r sv.seed).0;
    waits =
        subst
          (λ n.
            loop_at n (start_game r sv).0.loops
            ≡ some (record { code = r.code; pending = none; held = none }))
          (length-map _ sv.loops) (loop_at-last _ (hold_loops r.code r.stop_ch sv.loops));
    found = get_room-store_room _ r.code sv.manager refl;
    named = refl;
    going = prepare_game-TicksLeft r sv.seed v;
  }

  -- A game that is started in a valid room of the server is over after at most 7200 steps of its own
  -- loop, two of which are a tick, if nothing else happens on the server: the loop then has ended the
  -- game and closed the channel, and all thieves are arrested or the time is up.
  pub start_game-Ends :
      (r : Room) (sv : Server) (h : Hub Message)
      → IsValid r
      → (j : ℕ) × (j ≤ 7200)
        × (w : World) × (run
              (replicate j (ticks (length sv.loops) true))
              (record { server = (start_game r sv).0; hub = h })
            ≡ some w)
        × IsOver r.code w.server
  start_game-Ends r sv h v =
      working-Ends 3600 (length sv.loops) r.code (record { server = (start_game r sv).0; hub = h })
        (omega arith) (start_game-IsWorking r sv v)
