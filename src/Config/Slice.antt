-- ===== src/Config/Slice.antt =====
-- A list of names that are joined by commas is split into these names.
use Prim.Native.Char.{code}
use Prim.Native.String.append
use gyeongdohalsaram_server.Base.{◌≡◌, refl, false, String, ◌<>◌, List, [], ◌∷◌, All, eqb}
use gyeongdohalsaram_server.Config.{is_empty, trim_space, split_commas, keep_parts}

abbrev HasNoComma : String → Type 0
HasNoComma String.[] = Unit
HasNoComma (String.◌∷◌ c s) = (eqb (code c) 44 ≡ false) × HasNoComma s

-- A name as it stands in a list: not blank, with no comma, and no space around it.
abbrev pub IsEntry : String → Type 0
IsEntry s = (is_empty s ≡ false) × (trim_space s ≡ s) × HasNoComma s

-- `strings.Join` with commas, of a first name and others.
abbrev pub join_commas : String → List String → String
join_commas s [] = s
join_commas s (t ∷ ts) = s <> String.◌∷◌ "," (join_commas t ts)

split_commas-alone : (s : String) → HasNoComma s → split_commas s ≡ s ∷ []
unfolding split_commas
split_commas-alone String.[] h = refl
split_commas-alone (String.◌∷◌ c s) (e, h) = rw (e, split_commas-alone s h) refl

split_commas-append :
    (s t : String) → HasNoComma s → split_commas (s <> String.◌∷◌ "," t) ≡ s ∷ split_commas t
unfolding split_commas
split_commas-append String.[] t h = rw (append.nil (String.◌∷◌ "," t)) refl
split_commas-append (String.◌∷◌ c s) t (e, h) =
    rw (append.cons c s (String.◌∷◌ "," t), e, split_commas-append s t h) refl

split_commas-join_commas :
    (s : String) (ts : List String)
    → All IsEntry (s ∷ ts)
    → split_commas (join_commas s ts) ≡ s ∷ ts
split_commas-join_commas s [] (h, _) = split_commas-alone s h.2
split_commas-join_commas s (t ∷ ts) (h, hs) =
    rw (split_commas-append s (join_commas t ts) h.2, split_commas-join_commas t ts hs) refl

keep_parts-entries : (ps : List String) → All IsEntry ps → keep_parts ps ≡ ps
unfolding keep_parts
keep_parts-entries [] h = refl
keep_parts-entries (p ∷ ps) (h, hs) = rw (h.1, h.0, keep_parts-entries ps hs) refl

pub is_empty-join_commas :
    (s : String) (ts : List String) → is_empty s ≡ false → is_empty (join_commas s ts) ≡ false
is_empty-join_commas s [] e = e
is_empty-join_commas String.[] (t ∷ ts) e = cc
is_empty-join_commas (String.◌∷◌ c s) (t ∷ ts) e =
    rw (append.cons c s (String.◌∷◌ "," (join_commas t ts))) refl

pub keep_parts-join_commas :
    (s : String) (ts : List String)
    → All IsEntry (s ∷ ts)
    → keep_parts (split_commas (join_commas s ts)) ≡ s ∷ ts
keep_parts-join_commas s ts h = rw (split_commas-join_commas s ts h) (keep_parts-entries (s ∷ ts) h)
