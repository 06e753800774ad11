-- ===== src/Cel/Mapper/Tests.antt =====
-- Runs of the mapper, and its theorems at the fields of an alert.
use keep_api_gateway.Prelude.{
  String, Bool, true, false, ◌==◌, Option, none, some, List, [], ◌∷◌, replicate, ok, ◌^◌, ◌≡◌, refl,
  if◌then◌else◌, inl, inr, ◌⊎◌, subst,
}
use keep_api_gateway.Cel.Ast.{
  str, lt, le, ge, eq, negation, or, and, string, column, Node, constant, logical, comparison,
  unary, access, one, many, is_in,
}
use keep_api_gateway.Cel.Metadata.{PropertyMetadataInfo, simple}
use keep_api_gateway.Cel.Meaning.{Row, holds, passes}
use keep_api_gateway.Cel.Mapper.Enums.{
  modify_comparison, canonicalize_enum_value, canonicalize_enum_operand, index, texts,
}
use keep_api_gateway.Cel.Mapper.Rank.{Distinct, rank, rank_test}
use keep_api_gateway.Cel.Mapper.Order.{modify_comparison-rank_test}
use keep_api_gateway.Cel.Mapper.Spec.{means, drops, is_kept}
use keep_api_gateway.Cel.Mapper.Sound.{map_props_in_ast-means, map_props_in_ast-or_dropped}
use keep_api_gateway.Cel.Mapper.Repeat.{nots, visit_nodes-nots}
use keep_api_gateway.Cel.Mapper.{
  map_props_in_ast, columns, truthiness, visit_nodes, visit_comparison_node,
  visit_member_access_node, map_property,
}

abbrev severities : List String
severities = "low" ∷ "info" ∷ "warning" ∷ "high" ∷ "critical" ∷ []

abbrev severity_info : PropertyMetadataInfo
severity_info = record {
  field_name = "severity";
  field_mappings = simple "alert.severity" ∷ [];
  enum_values = severities;
  data_type = some string;
}

abbrev name_info : PropertyMetadataInfo
name_info = record {
  field_name = "name";
  field_mappings = simple "alert.name" ∷ [];
  enum_values = [];
  data_type = some string;
}

abbrev alert_metadata : List String → Option PropertyMetadataInfo
alert_metadata (x ∷ []) =
    if x == "severity" then some severity_info else if x == "name" then some name_info else none
alert_metadata _ = none

abbrev severity : Node
severity = access (column ("severity" ∷ []) none)

abbrev name : Node
name = access (column ("name" ∷ []) none)

abbrev at_most : Node
at_most = comparison severity le (one (constant (str "Critical")))

abbrev named : Node
named = comparison name eq (one (constant (str "disk")))

-- The row of an alert with severity "high" and another name.
abbrev high : Row
high = record { cell = λ n. str "high"; test = λ u op s. false; exists = λ s. true }

severities-Distinct : Distinct severities
severities-Distinct = (refl, (refl, (refl, (refl, (refl, tt)))))

picked :
    {A : Type 0} (b c : Bool) (x y z : A)
    → (if b then some x else if c then some y else none) ≡ some z
    → (x ≡ z) ⊎ (y ≡ z)
picked true c x y z e = inl (cc)
picked false true x y z e = inr (cc)
picked false false x y z e = cc

known_infos :
    (path : List String) (info : PropertyMetadataInfo)
    → alert_metadata path ≡ some info
    → (severity_info ≡ info) ⊎ (name_info ≡ info)
known_infos [] info e = cc
known_infos (x ∷ y ∷ r) info e = cc
known_infos (x ∷ []) info e = picked (x == "severity") (x == "name") severity_info name_info info e

alert_metadata-Distinct :
    (path : List String) (info : PropertyMetadataInfo)
    → alert_metadata path ≡ some info
    → Distinct info.enum_values
alert_metadata-Distinct path info e = elim (known_infos path info e) [
  | inl s ↦ subst (λ i. Distinct i.enum_values) s severities-Distinct
  | inr n ↦ subst (λ i. Distinct i.enum_values) n tt
]

modify_comparison-rank_test_example :
    passes high (modify_comparison severities severity ge (one (constant (str "Warning"))))
    ≡ rank_test ge
        (rank severities (str "high"))
        (rank severities (canonicalize_enum_value severities (str "Warning")))
modify_comparison-rank_test_example =
    modify_comparison-rank_test high "low" ("info" ∷ "warning" ∷ "high" ∷ "critical" ∷ []) severity
      ge (str "Warning") severities-Distinct tt

warning_or_more :
    passes high (modify_comparison severities severity ge (one (constant (str "Warning")))) ≡ true
unfolding modify_comparison canonicalize_enum_value canonicalize_enum_operand holds index
warning_or_more = refl

-- A run with a suffix of the enum, under a negation and beside a plain comparison.
abbrev below_critical : Node
below_critical =
    logical (unary negation (one (comparison severity lt (one (constant (str "HIGH")))))) and named

abbrev below_critical_mapped : Node
below_critical_mapped =
    logical
      (unary negation (
        one (
          unary negation (
            one (
              comparison (columns severity_info) is_in
                (many (texts ("high" ∷ "critical" ∷ []))))))))
      and (comparison (columns name_info) eq (one (constant (str "disk"))))

mapper : Unit {0}
unfolding map_props_in_ast visit_comparison_node visit_member_access_node map_property
    modify_comparison canonicalize_enum_value canonicalize_enum_operand index means drops is_kept
    holds
mapper = tt

map_props_in_ast-means_example :
    passes high (some below_critical_mapped) ≡ means alert_metadata high below_critical
map_props_in_ast-means_example =
    map_props_in_ast-means alert_metadata alert_metadata-Distinct high below_critical
      (some below_critical_mapped) (severity_info ∷ name_info ∷ []) (unfold mapper in refl)
      (unfold mapper in refl)

-- `severity <= "Critical" || name == "disk"` becomes `name == "disk"`.
abbrev all_or_disk : Node
all_or_disk = logical at_most or named

all_or_disk_maps :
    map_props_in_ast alert_metadata all_or_disk
    ≡ ok (
      some (comparison (columns name_info) eq (one (constant (str "disk")))),
      severity_info ∷ name_info ∷ [],
    )
unfolding mapper
all_or_disk_maps = refl

map_props_in_ast-or_dropped_example :
    passes high (some (comparison (columns name_info) eq (one (constant (str "disk")))))
    ≡ means alert_metadata high named
map_props_in_ast-or_dropped_example =
    map_props_in_ast-or_dropped alert_metadata alert_metadata-Distinct high at_most named _
      (severity_info ∷ name_info ∷ []) all_or_disk_maps (unfold mapper in refl)
      (unfold mapper in refl)

-- The row has an allowed severity, and the mapped filter rejects it.
row_is_lost :
    (means alert_metadata high all_or_disk ≡ true)
    × (holds high (comparison (columns name_info) eq (one (constant (str "disk")))) ≡ false)
unfolding mapper
row_is_lost = (refl, refl)

visit_nodes-nots_example :
    visit_nodes alert_metadata (nots 3 name) []
    ≡ ok (some (nots 3 (truthiness (columns name_info) (some string))), replicate (2 ^ 3) name_info)
visit_nodes-nots_example =
    visit_nodes-nots alert_metadata (column ("name" ∷ []) none) name_info refl 3 []
