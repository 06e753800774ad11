-- ===== src/Cel/Meaning.antt =====
-- What a mapped filter tree says of a row of the database. The comparisons of the database are not
-- code of this repository: a row answers them. Rows whose compared columns are NULL are outside this
-- reading, in which every comparison is true or false.
use keep_api_gateway.Prelude.{
  String, Bool, true, false, not, ◌&&◌, ◌||◌, ◌==◌, nat_eq, Option, none, some, List, [], ◌∷◌, ◌≡◌,
  refl, ap,
}
use keep_api_gateway.Cel.Ast.{
  Value, null, bool, str, int, float, datetime, LogicalNodeOperator, and, or,
  ComparisonNodeOperator, is_in, negation, neg, has, Node, constant, parenthesis, logical,
  comparison, unary, access, multiple_fields, Operand, absent, foreign, one, many, Nodes, nil, cons,
}
use keep_api_gateway.Cel.Mapper.Enums.{is_member, texts}

pub record Row : Type 0 where
  -- the value of a column or of a COALESCE of columns
  pub cell : Node → Value
  -- the database's comparisons, but for membership in a list
  pub test : Value → ComparisonNodeOperator → Operand → Bool
  -- whether a property exists
  pub exists : Operand → Bool

abbrev pub same_sign : Bool → Bool → Bool
same_sign true b = b
same_sign false b = not b

abbrev pub value_eq : Value → Value → Bool
value_eq null null = true
value_eq (bool a) (bool b) = same_sign a b
value_eq (str s) (str t) = s == t
value_eq (int a n) (int b m) = same_sign a b && nat_eq n m
value_eq (float s) (float t) = s == t
value_eq (datetime s) (datetime t) = s == t
value_eq _ _ = false

abbrev pub listed : Nodes → Value → Bool
listed nil u = false
listed (cons (constant v) ns) u = value_eq v u || listed ns u
listed (cons _ ns) u = listed ns u

pub listed-texts : (vs : List String) (u : Value) → listed (texts vs) u ≡ is_member vs u
listed-texts [] (str s) = refl
listed-texts [] null = refl
listed-texts [] _ = refl
listed-texts (v ∷ vs) (str s) = ap (λ b. v == s || b) (listed-texts vs (str s))
listed-texts (v ∷ vs) null = listed-texts vs null
listed-texts (v ∷ vs) (bool b) = listed-texts vs (bool b)
listed-texts (v ∷ vs) (int b n) = listed-texts vs (int b n)
listed-texts (v ∷ vs) (float s) = listed-texts vs (float s)
listed-texts (v ∷ vs) (datetime s) = listed-texts vs (datetime s)

-- A comparison of the value `u`.
abbrev pub compares : Row → Value → ComparisonNodeOperator → Operand → Bool
compares row u is_in (many ns) = listed ns u
compares row u op s = row.test u op s

abbrev pub connect : LogicalNodeOperator → Bool → Bool → Bool
connect and a b = a && b
connect or a b = a || b

abbrev pub constant_holds : Value → Bool
constant_holds (bool b) = b
constant_holds _ = false

-- Mapped trees have no parentheses, and no field stands for itself as a filter.
unfoldable mutual
  pub holds : Row → Node → Bool
  holds row (constant v) = constant_holds v
  holds row (parenthesis e) = holds row e
  holds row (logical l op r) = connect op (holds row l) (holds row r)
  holds row (comparison f op s) = compares row (row.cell f) op s
  holds row (unary negation x) = not (holds_operand row x)
  holds row (unary has x) = row.exists x
  holds row (unary neg x) = false
  holds row (access p) = false
  holds row (multiple_fields fs t) = false

  pub holds_operand : Row → Operand → Bool
  holds_operand row (one n) = holds row n
  holds_operand row absent = false
  holds_operand row (foreign t) = false
  holds_operand row (many ns) = false

-- A filter that was dropped lets every row pass.
abbrev pub passes : Row → Option Node → Bool
passes row none = true
passes row (some n) = holds row n
