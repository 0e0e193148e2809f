-- ===== src/Prelude/Sorting.antt =====
-- `Array.prototype.sort` on texts: by code units.
use mathlib.Core.Bool.{Bool, true, false}
use mathlib.Core.List.{List, [], ◌∷◌}
use flare_stealthwage.Prelude.Tests.{ltb, ◌==◌, if◌then◌else◌}
use flare_stealthwage.Prelude.Strings.{Text, text_eq}

unfoldable pub text_leb : Text → Text → Bool
text_leb [] t = true
text_leb (a ∷ s) [] = false
text_leb (a ∷ s) (b ∷ t) = if a == b then text_leb s t else ltb a b

insert : Text → List Text → List Text
insert s [] = s ∷ []
insert s (t ∷ ts) = if text_leb s t then s ∷ t ∷ ts else t ∷ insert s ts

unfoldable pub sort : List Text → List Text
unfolding insert text_leb
sort [] = []
sort (s ∷ ts) = insert s (sort ts)

-- `texts.includes(s)`
unfoldable pub includes : List Text → Text → Bool
includes [] s = false
includes (t ∷ ts) s = if text_eq t s then true else includes ts s

-- `names.filter((k) => !known.includes(k)).sort()`
unfoldable pub without : List Text → List Text → List Text
without known [] = []
without known (k ∷ ks) = if includes known k then without known ks else k ∷ without known ks
