-- ===== src/Link/Lowered.antt =====
-- `s.toLowerCase() === t`, for a `t` of small letters of which none is the lower case of a letter
-- outside ASCII (such as `k`, of the Kelvin sign).
use Prim.Native.Nat.{ℕ, ◌+◌}
use Prim.Native.Char.{Char, code}
use Prim.Native.String.{String, [], ◌∷◌}
use painel_mt_affiliates.Common.{Bool, true, false, ◌&&◌, leb, ◌==◌, if◌then◌else◌}

abbrev lower_code : Char → ℕ
lower_code c = if leb 65 (code c) && leb (code c) 90 then code c + 32 else code c

abbrev pub is_lowered : String → String → Bool
is_lowered [] [] = true
is_lowered [] (d ∷ t) = false
is_lowered (c ∷ s) [] = false
is_lowered (c ∷ s) (d ∷ t) = (lower_code c == code d) && is_lowered s t
