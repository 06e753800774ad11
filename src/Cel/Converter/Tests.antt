-- ===== src/Cel/Converter/Tests.antt =====
-- The theorem on the visitor at a filter of alerts.
use keep_api_gateway.Prelude.{
  String, false, ◌==◌, none, some, ok, ◌≡◌, refl, if◌then◌else◌, is_infix,
}
use keep_api_gateway.Cel.Ast.{str, int, contains, is_in, ne}
use keep_api_gateway.Cel.Sql.Dialect.{inside_quotes}
use keep_api_gateway.Cel.Converter.Actions.{Literals, Item, node}
use keep_api_gateway.Cel.Converter.{convert_to_ast, to_constant, unescape, ends_with_quote}
use keep_api_gateway.Cel.Converter.Trees.{
  an_expr, a_primary, Constant, spelled, passed, named, dotted, indexed, Term, fixed, property,
  both, compared, compared_list, opposite, called, term_in, final, followed, bracketed, term_tree,
  meaning,
}
use keep_api_gateway.Cel.Converter.Correct.{convert_to_ast-meaning}

abbrev read_literals : Literals
read_literals = record {
  read_int = λ s. if s == "7" then some (false, 7) else none;
  read_float = λ s. none;
  read_date = λ s. none;
}

abbrev no_repr : Item → String
no_repr i = ""

abbrev disk : Constant
disk = spelled "\"disk\"" (str "disk")

abbrev team : Constant
team = passed an_expr (spelled "'team'" (str "team"))

abbrev seven : Constant
seven = spelled "7" (int false 7)

-- `name.contains("disk", 'team') && !(labels['team'].size != 7) && severity in ["disk", 7]`
abbrev filter : Term
filter =
    both
      (both (called (named "name") "contains" contains (followed (fixed disk) (final (fixed team))))
        (opposite
          (compared (property (dotted (indexed (named "labels") team) "size")) ne (fixed seven))))
      (compared_list (term_in a_primary (property (named "severity"))) is_in
        (bracketed (followed (fixed disk) (final (fixed seven)))))

convert_to_ast-meaning_example :
    convert_to_ast read_literals no_repr (term_tree filter) ≡ ok (node (meaning filter))
unfolding to_constant unescape ends_with_quote inside_quotes is_infix
convert_to_ast-meaning_example =
    convert_to_ast-meaning read_literals no_repr filter
      (((tt, refl, (refl, refl)), (((tt, refl)), refl)), (tt, (refl, refl)))
