-- ===== src/Cel/Sql/Clean.antt =====
-- Filters that spell numbers, dates and paths without quotes.
use keep_api_gateway.Prelude.{
  not, ◌||◌, Bool, true, false, List, [], ◌∷◌, Result, ok, err, ◌>>=◌, All, if◌then◌else◌,
}
use keep_api_gateway.Cel.Ast.{
  PyType, type_of, Value, Node, constant, parenthesis, logical, comparison, unary, access,
  multiple_fields, Operand, absent, foreign, one, many, Nodes, nil, cons,
}
use keep_api_gateway.Cel.Sql.Dialect.{SqlError}
use keep_api_gateway.Cel.Sql.Texts.{CleanValue, CleanProperty, CleanSecond}
use keep_api_gateway.Cel.Sql.Operands.{
  operand_type, is_instance, listed, later_values, values_of, is_null, without_nulls,
}

-- What is asked of a filter: numbers, dates and paths without quotes, and closed columns.
abbrev mutual
  pub IsClean : Node → Type 0
  IsClean (constant v) = CleanValue v
  IsClean (parenthesis e) = IsClean e
  IsClean (logical l op r) = IsClean l × IsClean r
  IsClean (comparison n op s) = IsClean n × IsCleanOperand s × CleanSecond (operand_type n) s
  IsClean (unary op x) = IsCleanOperand x
  IsClean (access p) = CleanProperty p
  IsClean (multiple_fields ps t) = All CleanProperty ps

  pub IsCleanOperand : Operand → Type 0
  IsCleanOperand absent = Unit
  IsCleanOperand (foreign t) = Unit
  IsCleanOperand (one n) = IsClean n
  IsCleanOperand (many ns) = AreClean ns

  pub AreClean : Nodes → Type 0
  AreClean nil = Unit
  AreClean (cons n ns) = IsClean n × AreClean ns

-- What a `>>=` finds is clean when its source says so.
abbrev pub CleanValues : Result SqlError (List Value) → Type 0
CleanValues (ok vs) = All CleanValue vs
CleanValues (err e) = Unit

cons-CleanValues :
    (v : Value) (r : Result SqlError (List Value))
    → CleanValue v
    → CleanValues r
    → CleanValues (r >>= λ vs. ok (v ∷ vs))
cons-CleanValues v (ok vs) c h = (c, h)
cons-CleanValues v (err e) c h = tt

later_values-CleanValues :
    (t : PyType) (differs : Bool) (ns : Nodes)
    → AreClean ns
    → CleanValues (later_values t differs ns)
later_values-CleanValues t differs nil c = tt
later_values-CleanValues t differs (cons (constant v) ns) c =
    let others = differs || not (is_instance (type_of v) t) in
    cons-CleanValues v (later_values t others ns) c.0 (later_values-CleanValues t others ns c.1)
later_values-CleanValues t true (cons n ns) c = later_values-CleanValues t true ns c.1
later_values-CleanValues t false (cons n ns) c = tt

values_of-CleanValues : (ns : Nodes) → AreClean ns → CleanValues (values_of ns)
values_of-CleanValues nil c = tt
values_of-CleanValues (cons (constant v) ns) c =
    cons-CleanValues v (later_values (type_of v) false ns) c.0
      (later_values-CleanValues (type_of v) false ns c.1)
values_of-CleanValues (cons n ns) c = tt

pub listed-CleanValues : (s : Operand) → IsCleanOperand s → CleanValues (listed s)
listed-CleanValues absent c = tt
listed-CleanValues (foreign t) c = tt
listed-CleanValues (one (constant v)) c = (c, tt)
listed-CleanValues (one n) c = tt
listed-CleanValues (many ns) c = values_of-CleanValues ns c

pub without_nulls-All : (vs : List Value) → All CleanValue vs → All CleanValue (without_nulls vs)
without_nulls-All [] c = tt
without_nulls-All (v ∷ vs) c = keep (is_null v) v (without_nulls vs) c.0 (without_nulls-All vs c.1)
  where
    keep :
        (b : Bool) (v : Value) (vs : List Value)
        → CleanValue v
        → All CleanValue vs
        → All CleanValue (if b then vs else v ∷ vs)
    keep true v vs c d = d
    keep false v vs c d = (c, d)
