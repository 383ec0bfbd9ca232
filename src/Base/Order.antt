-- ===== src/Base/Order.antt =====
-- The order of texts.
use Prim.Native.Char.{code}
use Prim.Native.String.{String}
use mathlib.Core.Path.{◌≡◌, refl}
use mathlib.Core.Bool.{Bool, true, false}
use native.Mathlib.Omega.{arith}
use wasteland.Base.Tests.{if◌then◌else◌, nat_eq, ltb}

-- The text order of Go: UTF-8 keeps the order of the characters.
unfoldable pub text_less : String → String → Bool
text_less s String.[] = false
text_less String.[] (String.◌∷◌ d t) = true
text_less (String.◌∷◌ c s) (String.◌∷◌ d t) =
    let rest = text_less s t in if nat_eq (code c) (code d) then rest else ltb (code c) (code d)

pub text_less_irrefl : (s : String) → text_less s s ≡ false
unfolding text_less
text_less_irrefl String.[] = refl
text_less_irrefl (String.◌∷◌ c s) = ground (arith, text_less_irrefl s)

pub text_less_trans :
    (s t u : String) → text_less s t ≡ true → text_less t u ≡ true → text_less s u ≡ true
unfolding text_less
text_less_trans String.[] t String.[] h k = k
text_less_trans (String.◌∷◌ c s) t String.[] h k = k
text_less_trans String.[] t (String.◌∷◌ e u) h k = refl
text_less_trans (String.◌∷◌ c s) String.[] (String.◌∷◌ e u) h k = cc
text_less_trans (String.◌∷◌ c s) (String.◌∷◌ d t) (String.◌∷◌ e u) h k =
    ground (arith, text_less_trans s t u)

-- What does not come before keeps so along a chain.
pub text_less_trans_not :
    (s t u : String) → text_less t s ≡ false → text_less u t ≡ false → text_less u s ≡ false
unfolding text_less
text_less_trans_not String.[] t u h k = refl
text_less_trans_not (String.◌∷◌ c s) String.[] u h k = cc
text_less_trans_not (String.◌∷◌ c s) (String.◌∷◌ d t) String.[] h k = k
text_less_trans_not (String.◌∷◌ c s) (String.◌∷◌ d t) (String.◌∷◌ e u) h k =
    ground (arith, text_less_trans_not s t u)

pub text_less_asym : (s t : String) → text_less s t ≡ true → text_less t s ≡ false
unfolding text_less
text_less_asym s String.[] h = cc
text_less_asym String.[] (String.◌∷◌ d t) h = refl
text_less_asym (String.◌∷◌ c s) (String.◌∷◌ d t) h = ground (arith, text_less_asym s t)
