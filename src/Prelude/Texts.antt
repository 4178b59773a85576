-- ===== src/Prelude/Texts.antt =====
-- Go's `strings` on texts: `HasPrefix`, `TrimPrefix` and `TrimSpace`.
use Prim.Native.Char.{Char, code}
use Prim.Native.String.{String, len, slice, [], ◌∷◌}
use mathlib.Core.Path.{◌≡◌, refl}
use mathlib.Core.Bool.{Bool, true, false, ◌||◌, ◌&&◌}
use text.Mathlib.Text.{starts_with}
use zensor_server.Prelude.Tests.{nat_beq, leb, if◌then◌else◌}

abbrev pub has_prefix : String → String → Bool
has_prefix s prefix = starts_with s prefix

abbrev pub trim_prefix : String → String → String
trim_prefix s prefix = if has_prefix s prefix then slice s (len prefix) (len s) else s

-- `unicode.IsSpace`
abbrev pub is_space : Char → Bool
is_space c =
    let n = code c in
    (leb 9 n && leb n 13)
    || nat_beq n 32
    || nat_beq n 133
    || nat_beq n 160
    || nat_beq n 5760
    || (leb 8192 n && leb n 8202)
    || nat_beq n 8232
    || nat_beq n 8233
    || nat_beq n 8239
    || nat_beq n 8287
    || nat_beq n 12288

abbrev pub trim_left : String → String
trim_left [] = []
trim_left (c ∷ s) = let rest = trim_left s in if is_space c then rest else c ∷ s

abbrev pub is_empty : String → Bool
is_empty [] = true
is_empty (c ∷ s) = false

abbrev pub trim_right : String → String
trim_right [] = []
trim_right (c ∷ s) = let rest = trim_right s in if is_empty rest && is_space c then [] else c ∷ rest

abbrev pub trim_space : String → String
trim_space s = trim_right (trim_left s)

bearer : trim_space (trim_prefix "Bearer  zsk_1 " "Bearer ") ≡ "zsk_1"
bearer = refl
