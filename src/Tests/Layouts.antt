-- ===== src/Tests/Layouts.antt =====
-- The theorems on the start of a game, at concrete inputs.
use gyeongdohalsaram_server.Base.{◌≡◌, ◌≤◌, ◌↔◌, true, [], ◌∷◌, length, All, Any}
use gyeongdohalsaram_server.Game.Constants.{min_players}
use gyeongdohalsaram_server.Game.Player.{police, thief}
use gyeongdohalsaram_server.Game.Spawn.{generate_position}
use gyeongdohalsaram_server.Game.Spawn.Layout.{Spawned, generate_position-Spawned}
use gyeongdohalsaram_server.Game.MapObjects.{tree, place_object}
use gyeongdohalsaram_server.Game.MapObjects.Layout.{Placed, place_object-Placed}
use gyeongdohalsaram_server.Room.Defs.{all_ready}
use gyeongdohalsaram_server.Room.Ready.{IsReady, all_ready_iff}
use gyeongdohalsaram_server.Tests.Exact.{exact}
use gyeongdohalsaram_server.Tests.Sample.{lobby}

all_ready_iff_example : (all_ready lobby ≡ true) ↔ (
    (min_players ≤ length lobby.players)
    × All IsReady lobby.players
    × Any (λ p. p.role ≡ police) lobby.players
    × Any (λ p. p.role ≡ thief) lobby.players)
all_ready_iff_example = all_ready_iff lobby

generate_position-Spawned_example :
    let margin = exact.lit 200 1 in
    Spawned 100
      (exact.add (0, 1) margin)
      (exact.sub (exact.sub (3240, 1) margin) (exact.add (0, 1) margin))
      (exact.add (0, 1) margin)
      (exact.sub (exact.sub (2880, 1) margin) (exact.add (0, 1) margin))
      (record { x = (500, 1); y = (500, 1) } ∷ [])
      7
      (generate_position
        (0, 1)
        (3240, 1)
        (0, 1)
        (2880, 1)
        (record { x = (500, 1); y = (500, 1) } ∷ [])
        7).0
generate_position-Spawned_example =
    generate_position-Spawned (0, 1) (3240, 1) (0, 1) (2880, 1)
      (record { x = (500, 1); y = (500, 1) } ∷ []) 7

place_object-Placed_example :
    ((place_object tree [] (1620, 1) (2880, 1) 7).0.1 ≡ true)
    × ((place_object tree [] (1620, 1) (2880, 1) 7).0.0.type ≡ tree)
    × Placed 100 tree [] (1620, 1) (2880, 1) 7 (place_object tree [] (1620, 1) (2880, 1) 7).0.0
place_object-Placed_example = place_object-Placed tree [] (1620, 1) (2880, 1) 7
