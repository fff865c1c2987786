-- ===== src/Base/Texts.antt =====
-- What Python's texts can do: `strip`.
use Prim.Native.Nat.{ℕ}
use Prim.Native.Char.{code}
use Prim.Native.String.{String}
use mathlib.Core.Bool.{Bool, ◌&&◌, ◌||◌}
use text.Mathlib.Text.{◌==◌}
use openagent_host_tools.Base.Tests.{leb, nat_eq, if◌then◌else◌}

-- The characters that `str.strip` removes.
unfoldable pub is_space : ℕ → Bool
is_space n =
    (leb 9 n && leb n 13)
    || (leb 28 n && leb n 32)
    || nat_eq n 133
    || nat_eq n 160
    || nat_eq n 5760
    || (leb 8192 n && leb n 8202)
    || nat_eq n 8232
    || nat_eq n 8233
    || nat_eq n 8239
    || nat_eq n 8287
    || nat_eq n 12288

-- `str.strip`
unfoldable pub strip_start : String → String
unfolding is_space
strip_start String.[] = String.[]
strip_start (String.◌∷◌ ch s) =
    let rest = strip_start s in if is_space (code ch) then rest else String.◌∷◌ ch s

unfoldable pub strip_end : String → String
unfolding is_space
strip_end String.[] = String.[]
strip_end (String.◌∷◌ ch s) =
    let rest = strip_end s in
    if is_space (code ch) && rest == "" then String.[] else String.◌∷◌ ch rest

unfoldable pub strip : String → String
unfolding strip_start strip_end
strip s = strip_end (strip_start s)
