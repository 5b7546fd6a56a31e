-- ===== src/Room/Players/Lookup.antt =====
-- What a lookup finds after the operations on the maps of a room.
use gyeongdohalsaram_server.Base.{
  ◌≡◌, refl, sym, ◌∙◌, ◌≢◌, none, some, String, List, [], ◌∷◌, arith, string_eq,
}
use gyeongdohalsaram_server.Runtime.{Runtime}
use gyeongdohalsaram_server.Game.Player.{Player}
use gyeongdohalsaram_server.Room.Players.{find_player, modify_player, lookup, insert, erase}

module _ {V : Type 0} where
  pub lookup-insert_self :
      (k : String) (v : V) (m : List (String × V)) → lookup k (insert k v m) ≡ some v
  unfolding lookup insert
  lookup-insert_self k v [] = elim (string_eq.dec k k) [
    | yes e ↦ ground arith
    | no n ↦ absurd (n refl)
  ]
  lookup-insert_self k v ((j, w) ∷ m) = elim (string_eq.dec j k) [
    | yes e ↦ elim (string_eq.dec k k) [ yes e' ↦ ground arith | no n ↦ absurd (n refl) ]
    | no n ↦ ground (arith, lookup-insert_self k v m)
  ]

  pub lookup-insert_other :
      (k j : String) (v : V) (m : List (String × V)) → k ≢ j → lookup k (insert j v m) ≡ lookup k m
  unfolding lookup insert
  lookup-insert_other k j v [] n = elim (string_eq.dec j k) [
    | yes e ↦ absurd (n (sym e))
    | no _ ↦ ground arith
  ]
  lookup-insert_other k j v ((i, w) ∷ m) n = elim (string_eq.dec i j) [
    | yes e ↦ elim (string_eq.dec j k) [
      | yes e' ↦ absurd (n (sym e'))
      | no n' ↦ elim (string_eq.dec i k) [
        | yes e'' ↦ absurd (n' (sym e ∙ e''))
        | no n'' ↦ ground arith
      ]
    ]
    | no n' ↦ elim (string_eq.dec i k) [
      | yes e ↦ ground arith
      | no n'' ↦ ground (arith, lookup-insert_other k j v m n)
    ]
  ]

  pub lookup-erase_self : (k : String) (m : List (String × V)) → lookup k (erase k m) ≡ none
  unfolding lookup erase
  lookup-erase_self k [] = refl
  lookup-erase_self k ((j, w) ∷ m) = elim (string_eq.dec j k) [
    | yes e ↦ ground (arith, lookup-erase_self k m)
    | no n ↦ ground (arith, lookup-erase_self k m)
  ]

module _ ⦃R : Runtime⦄ where
  pub find-modify_self :
      (k : String) (f : Player → Player) (ps : List Player) (p : Player)
      → ((q : Player) → (f q).id ≡ q.id)
      → find_player k ps ≡ some p
      → find_player k (modify_player k f ps) ≡ some (f p)
  unfolding find_player modify_player
  find-modify_self k f [] p h e = cc
  find-modify_self k f (q ∷ ps) p h e = elim (string_eq.dec q.id k) [
    | yes s ↦ ground (arith, h q)
    | no n ↦ ground (arith, find-modify_self k f ps p h)
  ]

  pub find-modify_other :
      (k j : String) (f : Player → Player) (ps : List Player)
      → ((q : Player) → (f q).id ≡ q.id)
      → k ≢ j
      → find_player k (modify_player j f ps) ≡ find_player k ps
  unfolding find_player modify_player
  find-modify_other k j f [] h n = refl
  find-modify_other k j f (q ∷ ps) h n = elim (string_eq.dec q.id j) [
    | yes s ↦ elim (string_eq.dec q.id k) [
      | yes e ↦ absurd (n (sym e ∙ s))
      | no n' ↦ ground (arith, h q, find-modify_other k j f ps h n)
    ]
    | no n' ↦ ground (arith, find-modify_other k j f ps h n)
  ]
