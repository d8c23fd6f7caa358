-- ===== src/Common/Maps.antt =====
-- What keeps a list of entries a map.
use Prim.Native.String.{String}
use mathlib.Core.Path.{refl, sym, ap, ◌∙◌}
use mathlib.Core.Logic.{inl, inr}
use mathlib.Core.List.{[], ◌∷◌}
use native.Mathlib.Omega.{arith}
use text.Mathlib.Text.{◌==◌}
use text.Mathlib.TextEquality.{eq_iff}
use crossform.Common.Tests.{Bool-cases, String-cases, eq-false_of_ne}
use crossform.Common.Dict.{
  Dict, lookup, put, remove, map_values, has, IsMap, lookup-put, lookup-remove, lookup-map_values,
}

module _ {V : Type 0} where
  pub put-IsMap : (k : String) (v : V) (m : Dict V) → IsMap m → IsMap (put k v m)
  unfolding put lookup
  put-IsMap k v [] h = (refl, tt)
  put-IsMap k v ((j, w) ∷ m) h = elim (String-cases j k) [
    | inl same ↦ rw ((eq_iff j k).1 same) (sym (ap (λ (i : String). has i m) same) ∙ h.0, h.1)
    | inr other ↦
        rw (eq-false_of_ne j k other)
          (ground (arith, lookup-put k j v m, eq_iff k j, h.0), put-IsMap k v m h.1)
  ]

  pub remove-IsMap : (k : String) (m : Dict V) → IsMap m → IsMap (remove k m)
  unfolding remove lookup
  remove-IsMap k [] h = tt
  remove-IsMap k ((j, w) ∷ m) h = elim (Bool-cases (j == k)) [
    | inl same ↦ rw same (remove-IsMap k m h.1)
    | inr other ↦ rw other (ground (arith, lookup-remove k j m, h.0), remove-IsMap k m h.1)
  ]

pub map_values-IsMap : {V W : Type 0} (f : V → W) (m : Dict V) → IsMap m → IsMap (map_values f m)
unfolding map_values lookup
map_values-IsMap f [] h = tt
map_values-IsMap f ((k, v) ∷ m) h =
    (ground (arith, lookup-map_values f k m, h.0), map_values-IsMap f m h.1)
