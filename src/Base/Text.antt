-- ===== src/Base/Text.antt =====
-- Texts are native strings. What the program asks of one is whether `strip()` leaves anything.
use Prim.Native.Nat.{ℕ}
use Prim.Native.Char.{code}
use Prim.Native.String.{String}
use mathlib.Core.Bool.{Bool, true, ◌&&◌, ◌||◌}
use mathlib.Core.Option.{Option, none, some}
use gp_portal.Base.Tests.{leb, ◌==◌}

-- The code points for which Python's `str.isspace` holds.
pub is_space : ℕ → Bool
is_space c =
    (leb 9 c && leb c 13)
    || (leb 28 c && leb c 32)
    || c == 133
    || c == 160
    || c == 5760
    || (leb 8192 c && leb c 8202)
    || c == 8232
    || c == 8233
    || c == 8239
    || c == 8287
    || c == 12288

-- `not t.strip()`
unfoldable pub is_blank : String → Bool
unfolding is_space
is_blank String.[] = true
is_blank (String.◌∷◌ c s) = is_space (code c) && is_blank s

-- `not (t and t.strip())`, where `t` may be `None`.
abbrev pub no_text : Option String → Bool
no_text none = true
no_text (some t) = is_blank t
