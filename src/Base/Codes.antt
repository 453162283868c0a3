-- ===== src/Base/Codes.antt =====
-- Promotion codes: texts as their code points, and `toUpperCase` on ASCII letters.
use webrana_cloud.Base.Logic.{leb, ◌==◌, if◌then◌else◌}
use Prim.Native.Nat.{ℕ, ◌-◌}
use mathlib.Core.Path.{◌≡◌, refl, ap₂}
use mathlib.Core.Bool.{Bool, true, false, ◌&&◌}
use mathlib.Core.List.{List, [], ◌∷◌}
use native.Mathlib.Omega.{arith}

abbrev pub Code : Type 0
Code = List ℕ

abbrev pub upper : ℕ → ℕ
upper c = if leb b'a' c && leb c b'z' then c - 32 else c

abbrev pub to_upper_case : Code → Code
to_upper_case [] = []
to_upper_case (c ∷ cs) = upper c ∷ to_upper_case cs

infix 50 ◌=c=◌
abbrev pub ◌=c=◌ : Code → Code → Bool
[] =c= [] = true
(a ∷ x) =c= (b ∷ y) = a == b && x =c= y
_ =c= _ = false

upper-upper : (c : ℕ) → upper (upper c) ≡ upper c
upper-upper c = ground arith

-- Upper case is reached at once.
pub to_upper_case_idem : (x : Code) → to_upper_case (to_upper_case x) ≡ to_upper_case x
to_upper_case_idem [] = refl
to_upper_case_idem (c ∷ cs) = ap₂ ◌∷◌ (upper-upper c) (to_upper_case_idem cs)

pub =c=_refl : (x : Code) → x =c= x ≡ true
=c=_refl [] = refl
=c=_refl (c ∷ cs) = ground (arith, =c=_refl cs)

pub =c=_sound : (x y : Code) → x =c= y ≡ true → x ≡ y
=c=_sound [] [] h = refl
=c=_sound [] (b ∷ y) h = cc
=c=_sound (a ∷ x) [] h = cc
=c=_sound (a ∷ x) (b ∷ y) h = ground (arith, =c=_sound x y)
