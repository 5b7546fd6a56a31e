-- ===== src/Game/Player.antt =====
-- internal/game/player.go. A method that writes to `*Player` returns the new record. The time of the
-- last move is `none` while it is the zero time.
pub mod Text
use gyeongdohalsaram_server.Base.{
  Bool, true, false, String, Option, none, some, ℤ, pos, ◌==◌, string_eq, if◌then◌else◌,
}
use gyeongdohalsaram_server.Runtime.{Runtime}
use gyeongdohalsaram_server.Game.Constants.{invincible_time}

pub data Role : Type 0 where
  role_none police thief : Role

unfoldable pub role_string : Role → String
role_string police = "police"
role_string thief = "thief"
role_string _ = "none"

-- The text is what `json.Unmarshal` finds in the data, or `none` for its error.
unfoldable pub unmarshal_role : Option String → Option Role
unmarshal_role none = none
unmarshal_role (some s) =
    some (if s == "police" then police else if s == "thief" then thief else role_none)

pub data PlayerState : Type 0 where
  free arrested invincible : PlayerState

unfoldable pub player_state_string : PlayerState → String
player_state_string free = "free"
player_state_string arrested = "arrested"
player_state_string invincible = "invincible"

unfoldable pub unmarshal_player_state : Option String → Option PlayerState
unmarshal_player_state none = none
unmarshal_player_state (some s) =
    some (if s == "arrested" then arrested else if s == "invincible" then invincible else free)

abbrev pub is_police : Role → Bool
is_police police = true
is_police _ = false

abbrev pub is_thief : Role → Bool
is_thief thief = true
is_thief _ = false

abbrev pub is_role_none : Role → Bool
is_role_none role_none = true
is_role_none _ = false

pub record Player ⦃R : Runtime⦄ : Type 0 where
  pub id : String
  pub nickname : String
  pub role : Role
  pub state : PlayerState
  pub x : R.Float
  pub y : R.Float
  pub ready : Bool
  pub last_move_time : Option ℤ
  pub arrest_gauge : R.Float
  pub rescue_gauge : R.Float
  pub invincible_timer : ℤ
  pub boosted : Bool
  pub boost_timer : ℤ
  pub slowed : Bool
  pub slow_timer : ℤ

module _ ⦃R : Runtime⦄ where
  unfoldable pub new_player : String → R.Seed → Player × R.Seed
  new_player nickname s =
      let (id, s') = R.new_uuid s in
      (
        record {
          id = id;
          nickname = nickname;
          role = role_none;
          state = free;
          x = R.lit 0 1;
          y = R.lit 0 1;
          ready = false;
          last_move_time = none;
          arrest_gauge = R.lit 0 1;
          rescue_gauge = R.lit 0 1;
          invincible_timer = pos 0;
          boosted = false;
          boost_timer = pos 0;
          slowed = false;
          slow_timer = pos 0;
        },
        s',
      )

  abbrev pub set_role : Role → Player → Player
  set_role role p = record p { role = role }

  abbrev pub set_position : R.Float → R.Float → Player → Player
  set_position x y p = record p { x = x; y = y }

  unfoldable pub arrest : Player → Player
  arrest p = record p { state = arrested; arrest_gauge = R.lit 0 1 }

  unfoldable pub release : Player → Player
  release p = record p {
    state = invincible;
    invincible_timer = invincible_time;
    arrest_gauge = R.lit 0 1;
    rescue_gauge = R.lit 0 1;
  }

  abbrev pub is_arrested : Player → Bool
  is_arrested p = elim p.state [ arrested ↦ true | _ ↦ false ]

  abbrev pub is_free : Player → Bool
  is_free p = elim p.state [ free ↦ true | _ ↦ false ]

  abbrev pub is_invincible : Player → Bool
  is_invincible p = elim p.state [ invincible ↦ true | _ ↦ false ]

  unfoldable pub reset : Player → Player
  reset p = record p {
    state = free;
    ready = false;
    x = R.lit 0 1;
    y = R.lit 0 1;
    last_move_time = none;
    arrest_gauge = R.lit 0 1;
    rescue_gauge = R.lit 0 1;
    invincible_timer = pos 0;
    boosted = false;
    boost_timer = pos 0;
    slowed = false;
    slow_timer = pos 0;
  }
