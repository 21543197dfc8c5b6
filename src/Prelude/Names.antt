-- ===== src/Prelude/Names.antt =====
-- Equality of texts, as a decision.
use Prim.Native.String.{String}
use text.Mathlib.Text.{◌==◌ as str_eq}
use text.Mathlib.TextEquality.{eq_iff}
use mathlib.Core.Logic.{inl, inr}
use angelkey_kbfsbeta.Prelude.Tests.{Bool-cases}

unfoldable pub string_discrete : Discrete String
string_discrete s t = elim (Bool-cases (str_eq s t)) [
  | inl e ↦ yes ((eq_iff s t).0 e)
  | inr e ↦ no (λ p. let q = (eq_iff s t).1 p in absurd (cc))
]
