-- ===== src/Tests/Sample.antt =====
-- The players and rooms that the tests run on.
use mathlib.Core.List.{Nodup, Nodup-cons, Nodup-nil, mem-cons, not-mem-nil, mem-cons_self}
use mathlib.Core.List.Perm
use mathlib.Core.Logic.Or
use text.Mathlib.TextEquality.{eq_iff}
use mathlib.Core.HLevel.{⊥_prop}
use gyeongdohalsaram_server.Base.{◌≡◌, refl, true, false, none, String, [], ◌∷◌, arith, pos}
use gyeongdohalsaram_server.Game.State.{waiting, playing}
use gyeongdohalsaram_server.Game.Player.{Player, Role, role_none, police, thief, PlayerState, free}
use gyeongdohalsaram_server.Room.Defs.{Room, nil_channel, open_channel}
use gyeongdohalsaram_server.Room.Players.Laws.{ids}
use gyeongdohalsaram_server.Room.Invariant.{IsValid}
use gyeongdohalsaram_server.Tests.Exact.{exact, Fraction}

abbrev pub player : String → Role → PlayerState → Fraction → Fraction → Player
player id role state x y = record {
  id = id;
  nickname = id;
  role = role;
  state = state;
  x = x;
  y = y;
  ready = true;
  last_move_time = none;
  arrest_gauge = (0, 1);
  rescue_gauge = (0, 1);
  invincible_timer = pos 0;
  boosted = false;
  boost_timer = pos 0;
  slowed = false;
  slow_timer = pos 0;
}

-- An officer, and a thief whom the officer can reach.
abbrev pub ann : Player
ann = player "ann" police free (1000, 1) (1000, 1)

abbrev pub bob : Player
bob = player "bob" thief free (1060, 1) (1080, 1)

abbrev pub cat : Player
cat = player "cat" role_none free (0, 1) (0, 1)

abbrev pub lobby : Room
lobby = record {
  code = "ABCD";
  state = waiting;
  players = ann ∷ bob ∷ [];
  host_id = "ann";
  clients = ("ann", 1) ∷ ("bob", 2) ∷ [];
  map_objects = [];
  boosters = none;
  stumble_stones = none;
  stop_ch = nil_channel;
  remaining_time = pos 0;
}

-- The game is on, and its last tick is next.
abbrev pub last_moment : Room
last_moment = record lobby {
  state = playing;
  stop_ch = open_channel;
  remaining_time = pos 50_000_000;
}

text_ne : ((◌≡◌ {A = String} "ann" "bob") → ⊥)
text_ne e = cc ((eq_iff "ann" "bob").1 e)

pub two-Nodup : Nodup (ids lobby.players)
two-Nodup =
    Nodup-cons.1 (
      λ m. Or.elim ⊥_prop (mem-cons.0 m) text_ne not-mem-nil,
      Nodup-cons.1 (not-mem-nil, Nodup-nil),
    )

pub lobby-IsValid : IsValid lobby
lobby-IsValid = record {
  small = omega arith;
  policed = omega arith;
  distinct = two-Nodup;
  hosted = λ _. mem-cons_self;
  connected = Perm.rfl;
  armed = λ e. cc;
}

pub last_moment-IsValid : IsValid last_moment
last_moment-IsValid = record {
  small = omega arith;
  policed = omega arith;
  distinct = two-Nodup;
  hosted = λ _. mem-cons_self;
  connected = Perm.rfl;
  armed = λ e. refl;
}
