-- ===== src/Base/TextMap.antt =====
-- A Go map with texts as keys, as an association list that holds a key once.
use mathlib.Core.Path.{◌≡◌, refl}
use mathlib.Core.Option.{Option, none, some}
use mathlib.Core.List.{List, [], ◌∷◌}
use native.Mathlib.Omega.{arith}
use gorums_ata.Base.Tests.{if◌then◌else◌}
use gorums_ata.Base.Lists.{Text}
use gorums_ata.Base.Texts.{same_text, same_text_iff}

module _ {ℓ} {V : Type ℓ} where
  abbrev pub find_text : Text → List (Text × V) → Option V
  find_text k [] = none
  find_text k ((j, v) ∷ m) = if same_text j k then some v else find_text k m

  abbrev pub put_text : Text → V → List (Text × V) → List (Text × V)
  put_text k v [] = (k, v) ∷ []
  put_text k v ((j, w) ∷ m) =
      let rest = put_text k v m in if same_text j k then (k, v) ∷ m else (j, w) ∷ rest

  pub find_text-put_text :
      (k j : Text) (v : V) (m : List (Text × V))
      → find_text j (put_text k v m) ≡ (if same_text k j then some v else find_text j m)
  find_text-put_text k j v [] = refl
  find_text-put_text k j v ((i, w) ∷ m) =
      ground
        (arith, find_text-put_text k j v m, same_text_iff i k, same_text_iff i j, same_text_iff k j)
