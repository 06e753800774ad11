-- ===== src/Access/LastUse.antt =====
-- How often the last use of a key reaches the database.
use keep_api_gateway.Prelude.{ap, ℕ, String, eq_refl, none, some, List, [], ◌∷◌, ◌≡◌, refl, ◌∙◌}
use keep_api_gateway.Prelude.Dict
use keep_api_gateway.Prelude.Dict.{Dict, get-put}
use keep_api_gateway.Access.Verifier.{Usage, touch, touch_all}

known :
    (k : String) (t : ℕ) (later : List ℕ) (u : Usage)
    → Dict.get u.last_used k ≡ some t
    → touch_all k later u ≡ u
unfolding touch_all touch
known k t [] u h = refl
known k t (now ∷ later) u h = rw h (known k t later u h)

first_touch :
    (k : String) (first : ℕ) (u : Usage)
    → Dict.get u.last_used k ≡ none
    → touch k first u
      ≡ record u { last_used = Dict.put u.last_used k first; updates = (k, first) ∷ u.updates }
unfolding touch
first_touch k first u h = rw h refl

get_again : (k : String) (first : ℕ) (d : Dict ℕ) → Dict.get (Dict.put d k first) k ≡ some first
get_again k first d = get-put k k first d ∙ rw (eq_refl k) refl

-- When a key that was not noted yet is used and then used again, at whatever times, only the first use
-- is written to the database.
touch_all-first :
    (k : String) (first : ℕ) (later : List ℕ) (u : Usage)
    → Dict.get u.last_used k ≡ none
    → (touch_all k (first ∷ later) u).updates ≡ (k, first) ∷ u.updates
unfolding touch_all
touch_all-first k first later u h =
    let once : Usage = record u {
      last_used = Dict.put u.last_used k first;
      updates = (k, first) ∷ u.updates;
    } in
    ap (λ x. (touch_all k later x).updates) (first_touch k first u h)
    ∙ ap (λ x. x.updates) (known k first later once (get_again k first u.last_used))
