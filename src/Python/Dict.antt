-- ===== src/Python/Dict.antt =====
-- Python's `dict` with `str` keys, in insertion order.

use jedi_academy_pterodactyl.Prelude.{
  if◌then◌else◌, ◌≡◌, refl, Option, none, some, List, [], ◌∷◌, arith,
}
use jedi_academy_pterodactyl.Text.{Text, same}
use jedi_academy_pterodactyl.Text.Equality.{same_iff}
use jedi_academy_pterodactyl.Python.Json.{Json, Fields, end, field}

abbrev pub Dict : Type 0
Dict = List (Text × Json)

-- `d.get(key)`, and the test `key in d`
unfoldable pub get : Dict → Text → Option Json
unfolding same
get [] k = none
get ((j, v) ∷ d) k = if same j k then some v else get d k

-- `d.get(key, default)`
unfoldable pub get_or : Dict → Text → Json → Json
unfolding get
get_or d k v = elim (get d k) [ none ↦ v | some w ↦ w ]

-- `d[key] = value`
unfoldable pub put : Dict → Text → Json → Dict
unfolding same
put [] k v = (k, v) ∷ []
put ((j, w) ∷ d) k v = if same j k then (j, v) ∷ d else (j, w) ∷ put d k v

-- `d.update(fields)`
unfoldable pub update : Dict → Fields → Dict
unfolding put
update d end = d
update d (field k v fs) = update (put d k v) fs

-- `fields.get(key)` on a parsed object, where the last of two equal keys counts
unfoldable pub field_of : Fields → Text → Option Json
unfolding get update
field_of fs k = get (update [] fs) k

pub get-put :
    (d : Dict) (k j : Text) (v : Json) → get (put d k v) j ≡ (if same k j then some v else get d j)
unfolding get put
get-put [] k j v = refl
get-put ((i, w) ∷ d) k j v =
    ground (arith, get-put d k j v, same_iff i k, same_iff i j, same_iff k j)

-- A dict as a value, its keys in the same order.
unfoldable pub as_fields : Dict → Fields
as_fields [] = end
as_fields ((k, v) ∷ d) = field k v (as_fields d)

pub get_or-put :
    (d : Dict) (k j : Text) (v w : Json)
    → get_or (put d k v) j w ≡ (if same k j then v else get_or d j w)
unfolding get_or
get_or-put d k j v w = ground (arith, get-put d k j v)
