-- ===== src/Prelude/Dict.antt =====
-- Python's `dict` with text keys: an association list in insertion order. An assignment to a key
-- that is there keeps its place, as in Python.
use Prim.Native.String.{String}
use mathlib.Core.Path.{◌≡◌, refl}
use mathlib.Core.Option.{Option, none, some}
use mathlib.Core.List.{List, [], ◌∷◌}
use native.Mathlib.Omega.{arith}
use text.Mathlib.Text.{◌==◌}
use text.Mathlib.TextEquality.{eq_iff}
use keep_api_gateway.Prelude.Tests.{if◌then◌else◌}

abbrev pub Dict {ℓ} : Type ℓ → Type ℓ
Dict V = List (String × V)

module _ {ℓ} {V : Type ℓ} where
  -- `d.get(k)`
  unfoldable pub get : Dict V → String → Option V
  get [] k = none
  get ((j, v) ∷ d) k = if j == k then some v else get d k

  -- `d[k] = v`
  unfoldable pub put : Dict V → String → V → Dict V
  put [] k v = (k, v) ∷ []
  put ((j, w) ∷ d) k v = let rest = put d k v in if j == k then (j, v) ∷ d else (j, w) ∷ rest

  -- `del d[k]`
  unfoldable pub remove : Dict V → String → Dict V
  remove [] k = []
  remove ((j, w) ∷ d) k = let rest = remove d k in if j == k then rest else (j, w) ∷ rest

  pub get-put :
      (k j : String) (new : V) (d : Dict V)
      → get (put d k new) j ≡ (if k == j then some new else get d j)
  unfolding get put
  get-put k j new [] = refl
  get-put k j new ((i, old) ∷ d) =
      ground (arith, eq_iff i k, eq_iff i j, eq_iff k j, get-put k j new d)

  pub get-remove :
      (k j : String) (d : Dict V) → get (remove d k) j ≡ (if k == j then none else get d j)
  unfolding get remove
  get-remove k j [] = ground arith
  get-remove k j ((i, old) ∷ d) =
      ground (arith, eq_iff i k, eq_iff i j, eq_iff k j, get-remove k j d)
