-- ===== src/Common/Json.antt =====
-- The values of `interface{}` that `encoding/json` makes, and `map[string]interface{}`.
use Prim.Native.String.{String}
use mathlib.Core.Path.{◌≡◌, refl, ap}
use mathlib.Core.Bool.{Bool}
use mathlib.Core.Option.{Option, none, some}
use mathlib.Core.List.{[], ◌∷◌}
use native.Mathlib.Omega.{arith}
use text.Mathlib.Text.{◌==◌}
use text.Mathlib.TextEquality.{eq_iff}
use crossform.Common.Tests.{if◌then◌else◌}
use crossform.Common.Dict.{Dict, lookup, put, remove, lookup-put, lookup-remove}

-- A number is kept as its text: the program never computes with one.
mutual
  pub data Value : Type 0 where
    null : Value
    bool : Bool → Value
    num : String → Value
    str : String → Value
    arr : Items → Value
    obj : Fields → Value

  pub data Fields : Type 0 where
    end : Fields
    field : String → Value → Fields → Fields

  pub data Items : Type 0 where
    no_items : Items
    add_item : Items → Value → Items

-- A `map[string]interface{}` as the map of its entries, and back.
unfoldable pub entries : Fields → Dict Value
entries end = []
entries (field k v fs) = (k, v) ∷ entries fs

unfoldable pub of_entries : Dict Value → Fields
of_entries [] = end
of_entries ((k, v) ∷ m) = field k v (of_entries m)

pub entries-of_entries : (m : Dict Value) → entries (of_entries m) ≡ m
unfolding entries of_entries
entries-of_entries [] = refl
entries-of_entries ((k, v) ∷ m) = ap (◌∷◌ (k, v)) (entries-of_entries m)

-- fs[k], fs[k] = v and delete(fs, k)
unfoldable pub get : String → Fields → Option Value
unfolding entries lookup
get k fs = lookup k (entries fs)

unfoldable pub set : String → Value → Fields → Fields
unfolding entries of_entries put
set k v fs = of_entries (put k v (entries fs))

unfoldable pub delete : String → Fields → Fields
unfolding entries of_entries remove
delete k fs = of_entries (remove k (entries fs))

pub get-of_entries : (k : String) (m : Dict Value) → get k (of_entries m) ≡ lookup k m
unfolding get
get-of_entries k m = ap (lookup k) (entries-of_entries m)

pub get-set :
    (k j : String) (v : Value) (fs : Fields)
    → get j (set k v fs) ≡ (if k == j then some v else get j fs)
get-set k j v fs =
    unfold set get in
    let e = entries-of_entries (put k v (entries fs)) in rw e (lookup-put k j v (entries fs))

pub get-delete :
    (k j : String) (fs : Fields) → get j (delete k fs) ≡ (if k == j then none else get j fs)
get-delete k j fs =
    unfold delete get in
    let e = entries-of_entries (remove k (entries fs)) in rw e (lookup-remove k j (entries fs))

pub get-set_self : (k : String) (v : Value) (fs : Fields) → get k (set k v fs) ≡ some v
get-set_self k v fs = ground (arith, get-set k k v fs, eq_iff k k)

pub get-delete_self : (k : String) (fs : Fields) → get k (delete k fs) ≡ none
get-delete_self k fs = ground (arith, get-delete k k fs, eq_iff k k)

pub ruleset json_laws = (get-set, get-delete, get-of_entries)

-- v.(map[string]interface{}) and v.(string) with the second result
abbrev pub as_obj : Value → Option Fields
as_obj (obj fs) = some fs
as_obj _ = none

abbrev pub as_str : Value → Option String
as_str (str s) = some s
as_str _ = none

-- The same on what a map lookup gives; a missing key gives nil, which is neither.
abbrev pub opt_obj : Option Value → Option Fields
opt_obj none = none
opt_obj (some v) = as_obj v

abbrev pub opt_str : Option Value → Option String
opt_str none = none
opt_str (some v) = as_str v
