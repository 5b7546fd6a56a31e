-- ===== src/Room/Players/Laws.antt =====
-- What the operations on the maps of a room do to their keys.
use mathlib.Core.Logic.Or
use mathlib.Core.HLevel.{⊥_prop}
use mathlib.Core.List.{
  Mem, Nodup, Perm, filter, mem-cons, mem-cons_self, mem-cons_of_mem, mem-append_left,
  mem-append_right, mem-filter, not-mem-nil, Nodup-cons, filter-sublist, perm_append_singleton,
}
use mathlib.Core.List.Perm
use mathlib.Core.List.Nodup
use mathlib.Core.Bool.{Bool-discrete}
use gyeongdohalsaram_server.Base.{
  ◌+◌, ◌≤◌, ◌<◌, ◌≡◌, refl, sym, ◌≢◌, ◌⊎◌, inl, inr, ◌↔◌, false, String, List, [], ◌∷◌, ◌++◌, map,
  arith, length, count_if, Zip, ◌==◌, string_eq, if◌then◌else◌,
}
use gyeongdohalsaram_server.Runtime.{Runtime}
use gyeongdohalsaram_server.Game.Player.{Player, is_police, role_none}
use gyeongdohalsaram_server.Room.Players.{put_player, delete_player, modify_player, insert, erase}

abbrev pub ids : ⦃R : Runtime⦄ → List Player → List String
ids ps = map (λ p. p.id) ps

abbrev pub keys : {V : Type 0} → List (String × V) → List String
keys m = map (λ e. e.0) m

abbrev put_key : String → List String → List String
put_key k [] = k ∷ []
put_key k (j ∷ l) = if j == k then k ∷ l else j ∷ put_key k l

abbrev remove_key : String → List String → List String
remove_key k [] = []
remove_key k (j ∷ l) = let rest = remove_key k l in if j == k then rest else j ∷ rest

put_key_cases :
    (k : String) (l : List String)
    → (Mem k l × (put_key k l ≡ l)) ⊎ ((¬ Mem k l) × (put_key k l ≡ l ++ (k ∷ [])))
put_key_cases k [] = inr (not-mem-nil, refl)
put_key_cases k (j ∷ l) = elim (string_eq.dec j k) [
  | yes e ↦ inl (rw e mem-cons_self, ground arith)
  | no n ↦ elim (put_key_cases k l) [
    | inl (m, e) ↦ inl (mem-cons_of_mem j m, ground arith)
    | inr (m, e) ↦ inr (λ h. Or.elim ⊥_prop (mem-cons.0 h) (λ e. n (sym e)) m, ground arith)
  ]
]

pub mem-put_key_self : (k : String) (l : List String) → Mem k (put_key k l)
mem-put_key_self k l = elim (put_key_cases k l) [
  | inl (m, e) ↦ rw e m
  | inr (_, e) ↦ rw e (mem-append_right l mem-cons_self)
]

pub mem-put_key : (k j : String) (l : List String) → Mem j l → Mem j (put_key k l)
mem-put_key k j l m = elim (put_key_cases k l) [
  | inl (_, e) ↦ rw e m
  | inr (_, e) ↦ rw e (mem-append_left (k ∷ []) m)
]

pub perm-put_key : (k : String) {l l' : List String} → Perm l l' → Perm (put_key k l) (put_key k l')
perm-put_key k {l} {l'} p = elim (put_key_cases k l) [
  | inl (m, e) ↦ elim (put_key_cases k l') [
    | inl (_, e') ↦ rw (e, e') p
    | inr (n, _) ↦ absurd (n ((Perm.mem_iff p).0 m))
  ]
  | inr (n, e) ↦ elim (put_key_cases k l') [
    | inl (m, _) ↦ absurd (n ((Perm.mem_iff p).1 m))
    | inr (_, e') ↦ rw (e, e') (Perm.append_right (k ∷ []) p)
  ]
]

pub Nodup-put_key : (k : String) (l : List String) → Nodup l → Nodup (put_key k l)
Nodup-put_key k l d = elim (put_key_cases k l) [
  | inl (_, e) ↦ rw e d
  | inr (n, e) ↦ rw e (Perm.nodup (Perm.symm (perm_append_singleton k l)) (Nodup-cons.1 (n, d)))
]

remove_key-filter :
    (k : String) (l : List String) → remove_key k l ≡ filter (λ j. Bool-discrete (j == k) false) l
remove_key-filter k [] = refl
remove_key-filter k (j ∷ l) = ground (arith, remove_key-filter k l)

pub mem-remove_key : (k j : String) (l : List String) → Mem j (remove_key k l) ↔ (Mem j l × (j ≢ k))
mem-remove_key k j l = rw (remove_key-filter k l) (
  λ m. let (a, b) = (mem-filter _).0 m in (a, ground arith),
  λ (a, b). (mem-filter _).1 (a, ground arith),
)

pub perm-remove_key :
    (k : String) {l l' : List String} → Perm l l' → Perm (remove_key k l) (remove_key k l')
perm-remove_key k {l} {l'} p = rw (remove_key-filter k l, remove_key-filter k l') (Perm.filter _ p)

pub Nodup-remove_key : (k : String) (l : List String) → Nodup l → Nodup (remove_key k l)
Nodup-remove_key k l d = rw (remove_key-filter k l) (Nodup.sublist (filter-sublist _) d)

module _ {V : Type 0} where
  pub keys-insert :
      (k : String) (v : V) (m : List (String × V)) → keys (insert k v m) ≡ put_key k (keys m)
  unfolding insert
  keys-insert k v [] = refl
  keys-insert k v ((j, w) ∷ m) = ground (arith, keys-insert k v m)

  pub keys-erase : (k : String) (m : List (String × V)) → keys (erase k m) ≡ remove_key k (keys m)
  unfolding erase
  keys-erase k [] = refl
  keys-erase k ((j, w) ∷ m) = ground (arith, keys-erase k m)

module _ ⦃R : Runtime⦄ where
  pub ids-put_player :
      (q : Player) (ps : List Player) → ids (put_player q ps) ≡ put_key q.id (ids ps)
  unfolding put_player
  ids-put_player q [] = refl
  ids-put_player q (p ∷ ps) = ground (arith, ids-put_player q ps)

  pub ids-delete_player :
      (k : String) (ps : List Player) → ids (delete_player k ps) ≡ remove_key k (ids ps)
  unfolding delete_player
  ids-delete_player k [] = refl
  ids-delete_player k (p ∷ ps) = ground (arith, ids-delete_player k ps)

  pub length-put_player :
      (q : Player) (ps : List Player)
      → (length (put_player q ps) ≤ length ps + 1) × (length ps ≤ length (put_player q ps))
  unfolding put_player
  length-put_player q [] = omega arith
  length-put_player q (p ∷ ps) = ground (arith, length-put_player q ps)

  pub length-delete_player :
      (k : String) (ps : List Player) → length (delete_player k ps) ≤ length ps
  unfolding delete_player
  length-delete_player k [] = omega arith
  length-delete_player k (p ∷ ps) = ground (arith, length-delete_player k ps)

  -- A player with no role is not a new police officer.
  pub police-put_player :
      (q : Player) (ps : List Player)
      → q.role ≡ role_none
      → count_if (λ p. is_police p.role) (put_player q ps) ≤ count_if (λ p. is_police p.role) ps
  unfolding put_player
  police-put_player q [] h = ground arith
  police-put_player q (p ∷ ps) h = ground (arith, police-put_player q ps h)

  pub police-delete_player :
      (k : String) (ps : List Player)
      → count_if (λ p. is_police p.role) (delete_player k ps) ≤ count_if (λ p. is_police p.role) ps
  unfolding delete_player
  police-delete_player k [] = omega arith
  police-delete_player k (p ∷ ps) = ground (arith, police-delete_player k ps)

  -- A write through a pointer changes what it changes of one player.
  pub Zip-modify_player :
      (P : Player → Player → Type 0) (k : String) (f : Player → Player)
      → ((p : Player) → P p p)
      → ((p : Player) → P p (f p))
      → (ps : List Player) → Zip P ps (modify_player k f ps)
  unfolding modify_player
  Zip-modify_player P k f same changed [] = tt
  Zip-modify_player P k f same changed (p ∷ ps) =
      (ground (arith, same p, changed p), Zip-modify_player P k f same changed ps)

  mem-length : {k : String} (ps : List Player) → Mem k (ids ps) → 0 < length ps
  mem-length [] m = absurd (not-mem-nil m)
  mem-length (p ∷ ps) m = omega arith
