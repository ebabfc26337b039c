-- ===== src/Prelude/Text.antt =====
-- Python's str.upper, str.strip and str.rstrip, for texts of ASCII.
use Prim.Native.Char.{Char, code}
use Prim.Native.Nat.{ℕ}
use Prim.Native.String.{String}
use mathlib.Core.Bool.{Bool, true, false, ◌&&◌, ◌||◌}
use lnst.Prelude.Tests.{nat_beq, leb, if◌then◌else◌}

upper_in : String → String → Char → Char
upper_in String.[] upper c = c
upper_in (String.◌∷◌ l lower) String.[] c = c
upper_in (String.◌∷◌ l lower) (String.◌∷◌ u upper) c =
    let rest = upper_in lower upper c in if nat_beq (code l) (code c) then u else rest

unfoldable pub upper : String → String
unfolding upper_in
upper String.[] = String.[]
upper (String.◌∷◌ c s) =
    String.◌∷◌ (upper_in "abcdefghijklmnopqrstuvwxyz" "ABCDEFGHIJKLMNOPQRSTUVWXYZ" c) (upper s)

abbrev pub is_empty : String → Bool
is_empty String.[] = true
is_empty (String.◌∷◌ c s) = false

-- Strips the characters whose code the test takes.
unfoldable pub rstrip : (ℕ → Bool) → String → String
rstrip strips String.[] = String.[]
rstrip strips (String.◌∷◌ c s) =
    let rest = rstrip strips s in
    if strips (code c) && is_empty rest then String.[] else String.◌∷◌ c rest

unfoldable pub lstrip : (ℕ → Bool) → String → String
lstrip strips String.[] = String.[]
lstrip strips (String.◌∷◌ c s) =
    let rest = lstrip strips s in if strips (code c) then rest else String.◌∷◌ c s

abbrev pub is_space : ℕ → Bool
is_space c = nat_beq c 32 || (leb 9 c && leb c 13) || (leb 28 c && leb c 31)

unfoldable pub strip : String → String
unfolding lstrip rstrip
strip s = lstrip is_space (rstrip is_space s)
