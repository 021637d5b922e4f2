-- ===== src/Common/Texts.antt =====
-- White space of texts.
use Prim.Native.Char.{code}
use Prim.Native.String.{[], ◌∷◌}
use Prim.Native.Nat.{ℕ}
use Prim.Native.String.{String}
use mathlib.Core.Bool.{Bool, ◌&&◌, ◌||◌}
use text.Mathlib.Text.{◌==◌ as str_eq}
use loopstorm_guard.Common.Tests.{leb, ◌==◌, if◌then◌else◌}

-- The white space of `trim` and `trimEnd`.
abbrev pub is_space : ℕ → Bool
is_space c =
    (leb 9 c && leb c 13)
    || (c == 32
        || (c == 160
            || (c == 0x1680
                || ((leb 0x2000 c && leb c 0x200a)
                    || (c == 0x2028
                        || (c == 0x2029
                            || (c == 0x202f || (c == 0x205f || (c == 0x3000 || c == 0xfeff)))))))))

-- `s.trimEnd()`.
unfoldable pub trim_end : String → String
trim_end [] = ""
trim_end (c ∷ s) =
    let rest = trim_end s in if str_eq rest "" && is_space (code c) then "" else c ∷ rest

abbrev pub trim_start : String → String
trim_start [] = ""
trim_start (c ∷ s) = if is_space (code c) then trim_start s else c ∷ s

-- `s.trim()`.
unfoldable pub trim : String → String
unfolding trim_end
trim s = trim_end (trim_start s)
