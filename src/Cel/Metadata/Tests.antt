-- ===== src/Cel/Metadata/Tests.antt =====
-- The theorem on paths at a path of labels.
use keep_api_gateway.Prelude.{String, List, [], ◌∷◌, ◌≡◌, refl}
use keep_api_gateway.Cel.Metadata.Paths.{extract_fields, get_property_path_str}
use keep_api_gateway.Cel.Metadata.Roundtrip.{clear, extract_fields-path}

abbrev labels : List String
labels = "labels" ∷ "app.kubernetes.io/name" ∷ "team" ∷ []

extract_fields-path_example : extract_fields (get_property_path_str labels) ≡ labels
unfolding clear
extract_fields-path_example =
    extract_fields-path labels ((refl, refl), ((refl, refl), ((refl, refl), tt)))
