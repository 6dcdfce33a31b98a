-- ===== src/Prelude/Texts.antt =====
-- The order of Python's texts: lexicographic by the characters' numbers.
use Prim.Native.Char.{code}
use Prim.Native.String.{String, [], ◌∷◌}
use mathlib.Core.Path.{◌≡◌, refl}
use mathlib.Core.Bool.{Bool, true, false}
use native.Mathlib.Omega.{arith}
use ai_job_server.Prelude.Tests.{if◌then◌else◌, ltb}
use ai_job_server.Prelude.Sort.{IsOrder}

-- `<=` of two texts.
unfoldable pub text_le : String → String → Bool
text_le [] t = true
text_le (c ∷ s) [] = false
text_le (c ∷ s) (d ∷ t) =
    let rest = text_le s t in
    if ltb (code c) (code d) then true else if ltb (code d) (code c) then false else rest

text_le_total : (x y : String) → text_le x y ≡ false → text_le y x ≡ true
unfolding text_le
text_le_total [] y h = cc
text_le_total (c ∷ s) [] h = refl
text_le_total (c ∷ s) (d ∷ t) h = ground (arith, text_le_total s t, h)

text_le_trans : (x y z : String) → text_le x y ≡ true → text_le y z ≡ true → text_le x z ≡ true
unfolding text_le
text_le_trans [] y z h k = refl
text_le_trans (c ∷ s) [] z h k = cc
text_le_trans (c ∷ s) (d ∷ t) [] h k = cc
text_le_trans (c ∷ s) (d ∷ t) (e ∷ u) h k = ground (arith, text_le_trans s t u, h, k)

pub text_le-IsOrder : IsOrder text_le
text_le-IsOrder = record { total = text_le_total; trans = text_le_trans }
