-- ===== src/Cel/Mapper/Repeat.antt =====
-- `__visit_unary_node` visits its operand twice, so a chain of `!` is visited again and again.
use keep_api_gateway.Prelude.{
  ℕ, zero, suc, ◌+◌, ◌^◌, String, Option, some, List, ◌∷◌, ◌++◌, replicate, ok, ◌≡◌, ap, ◌∙◌, arith,
}
use mathlib.Core.List.{append_assoc}
use native.Mathlib.Nat.{pow-suc}
use keep_api_gateway.Cel.Ast.{negation, Property, Node, unary, access, one}
use keep_api_gateway.Cel.Metadata.{PropertyMetadataInfo}
use keep_api_gateway.Cel.Mapper.{
  map_property, map_found, path_of, columns, truthiness, visit_nodes, visit_member_access_node,
}

-- `!!...!p`
abbrev pub nots : ℕ → Node → Node
nots zero n = n
nots (suc k) n = unary negation (one (nots k n))

replicate-append {ℓ} :
    {A : Type ℓ} (m n : ℕ) (a : A) → replicate m a ++ replicate n a ≡ replicate (m + n) a
replicate-append zero n a = ap (λ m. replicate m a) (omega arith)
replicate-append (suc m) n a =
    ap (λ r. a ∷ r) (replicate-append m n a)
    ∙ ap (λ m. replicate m a) {x = suc (m + n)} {y = suc m + n} (omega arith)

replicate-doubled {ℓ} :
    {A : Type ℓ} (k : ℕ) (a : A) (xs : List A)
    → (xs ++ replicate (2 ^ k) a) ++ replicate (2 ^ k) a ≡ xs ++ replicate (2 ^ suc k) a
replicate-doubled k a xs =
    append_assoc xs (replicate (2 ^ k) a) (replicate (2 ^ k) a)
    ∙ ap (λ r. xs ++ r)
        (replicate-append (2 ^ k) (2 ^ k) a ∙ ap (λ m. replicate m a) (omega (arith, pow-suc 2 k)))

module _ (get_property_metadata : List String → Option PropertyMetadataInfo) (p : Property)
    (info : PropertyMetadataInfo) (known : get_property_metadata (path_of p) ≡ some info) where
  -- A chain of `k` negations over a known property is mapped to the same chain over its truth test,
  -- and notes the property 2 ^ k times.
  pub visit_nodes-nots :
      (k : ℕ) (fs : List PropertyMetadataInfo)
      → visit_nodes get_property_metadata (nots k (access p)) fs
        ≡ ok
            (some (nots k (truthiness (columns info) info.data_type)), fs ++ replicate (2 ^ k) info)
  unfolding visit_nodes visit_member_access_node map_property
  visit_nodes-nots zero fs = rw (known, map_found)
  visit_nodes-nots (suc k) fs =
      rw (visit_nodes-nots k fs, visit_nodes-nots k (fs ++ replicate (2 ^ k) info))
        (ap (λ l. ok (some (nots (suc k) (truthiness (columns info) info.data_type)), l))
          (replicate-doubled k info fs))
