-- ===== src/Prelude/Texts.antt =====
-- Equality of texts.
use Prim.Native.String.{String}
use mathlib.Core.Path.{◌≡◌, refl}
use mathlib.Core.Bool.{true}
use text.Mathlib.Text.{◌==◌ as str_eq}
use text.Mathlib.TextEquality.{eq_iff}

pub eq_self : (s : String) → str_eq s s ≡ true
eq_self s = (eq_iff s s).1 refl
