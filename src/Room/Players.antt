-- ===== src/Room/Players.antt =====
-- The maps of a room, `map[string]*game.Player` and `map[string]*ws.Client`. A player stands in the
-- map under its own id, which never changes, so the first map is a list of players.
pub mod Laws
pub mod Lookup
use gyeongdohalsaram_server.Base.{
  Option, none, some, String, List, [], ◌∷◌, ◌==◌, string_eq, if◌then◌else◌,
}
use gyeongdohalsaram_server.Runtime.{Runtime}
use gyeongdohalsaram_server.Game.Player.{Player}

module _ ⦃R : Runtime⦄ where
  -- `r.Players[id]`
  unfoldable pub find_player : String → List Player → Option Player
  find_player id [] = none
  find_player id (p ∷ ps) = if p.id == id then some p else find_player id ps

  -- `r.Players[p.ID] = p`
  unfoldable pub put_player : Player → List Player → List Player
  put_player q [] = q ∷ []
  put_player q (p ∷ ps) = if p.id == q.id then q ∷ ps else p ∷ put_player q ps

  -- `delete(r.Players, id)`
  unfoldable pub delete_player : String → List Player → List Player
  delete_player id [] = []
  delete_player id (p ∷ ps) =
      let rest = delete_player id ps in if p.id == id then rest else p ∷ rest

  -- A write through the pointer to the player with this id.
  unfoldable pub modify_player : String → (Player → Player) → List Player → List Player
  modify_player id f [] = []
  modify_player id f (p ∷ ps) = (if p.id == id then f p else p) ∷ modify_player id f ps

module _ {V : Type 0} where
  unfoldable pub lookup : String → List (String × V) → Option V
  lookup k [] = none
  lookup k ((j, v) ∷ m) = if j == k then some v else lookup k m

  unfoldable pub insert : String → V → List (String × V) → List (String × V)
  insert k v [] = (k, v) ∷ []
  insert k v ((j, w) ∷ m) = if j == k then (k, v) ∷ m else (j, w) ∷ insert k v m

  unfoldable pub erase : String → List (String × V) → List (String × V)
  erase k [] = []
  erase k ((j, w) ∷ m) = let rest = erase k m in if j == k then rest else (j, w) ∷ rest
