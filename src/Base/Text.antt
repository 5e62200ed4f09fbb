-- ===== src/Base/Text.antt =====
-- Texts as lists of Unicode scalar values, which is what the sources' `String` and `str` hold.
use luci_app_overwatch.Base.{ℕ, List, [], ◌∷◌, ℕ_discrete}
use Prim.Native.String.{String}
use Prim.Native.Char.{code}

abbrev pub Str : Type 0
Str = List ℕ

unfoldable pub Str-discrete : Discrete Str
Str-discrete = hlevel ℕ_discrete

-- A text written out.
abbrev pub text : String → Str
text String.[] = []
text (String.◌∷◌ c s) = code c ∷ text s
