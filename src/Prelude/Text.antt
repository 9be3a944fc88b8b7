-- ===== src/Prelude/Text.antt =====
-- Texts that the program only compares (identifiers, names), with the test under a name of its own.
use Prim.Native.String.{String}
use text.Mathlib.Text.{◌==◌}
use text.Mathlib.TextEquality.{eq_iff}
use mathlib.Core.Path.{◌≡◌, refl}
use mathlib.Core.Logic.{◌≢◌, ◌↔◌}
use mathlib.Core.Bool.{Bool, true, false}
use native.Mathlib.Omega.{arith}

-- Go's `==` on strings.
unfoldable pub same : String → String → Bool
same a b = a == b

pub same_iff : (a b : String) → (same a b ≡ true) ↔ (a ≡ b)
unfolding same
same_iff a b = eq_iff a b

pub same_self : (a : String) → same a a ≡ true
same_self a = (same_iff a a).1 refl

pub same_ne : (a b : String) → a ≢ b → same a b ≡ false
same_ne a b h = ground (arith, same_iff a b)
