-- ===== src/Prelude/Json.antt =====
-- JSON values as Python holds them. `Fields` is a dict with text keys in insertion order: an
-- assignment to a key that is there keeps its place.
use Prim.Native.String.{String}
use mathlib.Core.Path.{◌≡◌, refl}
use mathlib.Core.Bool.{Bool, false}
use mathlib.Core.Option.{Option, none, some}
use native.Mathlib.Omega.{arith}
use text.Mathlib.Text.{◌==◌}
use text.Mathlib.TextEquality.{eq_iff}
use keep_api_gateway.Prelude.Tests.{if◌then◌else◌}

mutual
  pub data Json : Type 0 where
    null : Json
    bool : Bool → Json
    number : String → Json
    str : String → Json
    arr : Items → Json
    obj : Fields → Json

  pub data Items : Type 0 where
    nil : Items
    cons : Json → Items → Items

  pub data Fields : Type 0 where
    end : Fields
    field : String → Json → Fields → Fields

-- `d.get(key)`
unfoldable pub get_field : Fields → String → Option Json
get_field end k = none
get_field (field j v fs) k = if j == k then some v else get_field fs k

-- `d[key] = v`
unfoldable pub put_field : Fields → String → Json → Fields
put_field end k v = field k v end
put_field (field j w fs) k v =
    let rest = put_field fs k v in if j == k then field j v fs else field j w rest

-- `del d[key]`, where the key may be missing
unfoldable pub remove_key : Fields → String → Fields
remove_key end k = end
remove_key (field j w fs) k = let rest = remove_key fs k in if j == k then rest else field j w rest

pub get_field-put_field :
    (fs : Fields) (k : String) (v : Json) (j : String)
    → get_field (put_field fs k v) j ≡ (if k == j then some v else get_field fs j)
unfolding get_field put_field
get_field-put_field end k v j = refl
get_field-put_field (field i w fs) k v j =
    ground (arith, eq_iff i k, eq_iff i j, eq_iff k j, get_field-put_field fs k v j)

pub remove_key-put_field :
    (fs : Fields) (k : String) (v : Json) → remove_key (put_field fs k v) k ≡ remove_key fs k
unfolding put_field remove_key
remove_key-put_field end k v = ground (arith, eq_iff k k)
remove_key-put_field (field i w fs) k v = ground (arith, eq_iff i k, remove_key-put_field fs k v)

pub remove_key-put_field_other :
    (fs : Fields) (k : String) (v : Json) (j : String)
    → (j == k) ≡ false
    → remove_key (put_field fs k v) j ≡ put_field (remove_key fs j) k v
unfolding put_field remove_key
remove_key-put_field_other end k v j n = ground (arith, eq_iff k j, eq_iff j k)
remove_key-put_field_other (field i w fs) k v j n =
    ground (arith, eq_iff i k, eq_iff i j, eq_iff j k, remove_key-put_field_other fs k v j n)

pub put_field-put_field :
    (fs : Fields) (k : String) (v w : Json) → put_field (put_field fs k v) k w ≡ put_field fs k w
unfolding put_field
put_field-put_field end k v w = ground (arith, eq_iff k k)
put_field-put_field (field i u fs) k v w = ground (arith, eq_iff i k, put_field-put_field fs k v w)
