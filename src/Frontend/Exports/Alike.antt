-- ===== src/Frontend/Exports/Alike.antt =====
-- The texts of a harness are the same for an argument as it is declared and as it is read.
use rcpp_deep_state.Base.{
  ◌≡◌, refl, ap, ap₂, ◌∙◌, not, none, some, if◌then◌else◌, str_eq, List, [], ◌∷◌, ◌++◌, codes, gsub,
  gsub_from, gsub-append, arith,
}
use rcpp_deep_state.Frontend.Types.{
  Text, Argument, rtype_of, args_of, types_table, is_allowed, arg_type, type_arg,
  unsupported_datatypes,
}
use rcpp_deep_state.Frontend.Harness.{
  arg_name, variable, range_comment, save_inputs, print_value, proto_arg, collect, proto_args,
}
use rcpp_deep_state.Frontend.Exports.Captures.{captured}
use rcpp_deep_state.Frontend.Exports.Arguments.{captured_all}

-- What is read from two arguments is the same.
abbrev AreAlike : Argument → Argument → Type 0
AreAlike a b =
    (arg_type a.argument_type ≡ arg_type b.argument_type)
    × (type_arg a.argument_type ≡ type_arg b.argument_type)
    × (arg_name a ≡ arg_name b)

removes_last : (s : Text) → gsub (codes " ") (s ++ codes " ") ≡ gsub (codes " ") s
unfolding gsub gsub_from
removes_last [] = refl
removes_last (c ∷ s) = ground (arith, removes_last s)

arg_type_lem : (t : Text) → arg_type (t ++ codes " ") ≡ arg_type t
unfolding arg_type gsub gsub_from
arg_type_lem t =
    ap (gsub (codes " ")) (gsub-append (codes "Rcpp::") t [] b' ' refl)
    ∙ removes_last (gsub (codes "Rcpp::") t)

type_arg_lem : (t : Text) → type_arg (t ++ codes " ") ≡ type_arg t
unfolding type_arg
type_arg_lem t =
    ap
      (λ s.
        gsub (codes "std::")
          (gsub (codes "arma::") (gsub (codes "Rcpp::") (gsub (codes "const") s))))
      (arg_type_lem t)

arg_name_lem : (t x : Text) → arg_name (captured t x) ≡ gsub (codes " ") x
unfolding arg_name
arg_name_lem t x = refl

captured-AreAlike : (a : Argument) → AreAlike (captured a.argument_type a.argument_name) a
unfolding arg_name
captured-AreAlike a = (
  arg_type_lem a.argument_type,
  type_arg_lem a.argument_type,
  arg_name_lem a.argument_type a.argument_name,
)

pub variable-AreAlike : (a b : Argument) → AreAlike a b → variable a ≡ variable b
unfolding variable
variable-AreAlike a b (e, f, g) = λ i.
    let declared : Text = elim (rtype_of (f i)) [
      | some rtype ↦
          codes "  " ++ rtype ++ codes " " ++ g i ++ codes "(1); \\\n  " ++ g i ++ codes "[0]"
      | none ↦ codes "  " ++ e i ++ codes " " ++ g i
    ] in
    gsub (codes "const") (declared ++ codes "= RcppDeepState_" ++ f i ++ codes "(); \\\n")

pub range_comment-AreAlike : (a b : Argument) → AreAlike a b → range_comment a ≡ range_comment b
unfolding range_comment
range_comment-AreAlike a b (e, f, g) =
    ap
      (λ t. elim (args_of t) [
        | some args ↦ codes "// RcppDeepState_" ++ t ++ args ++ codes "\n"
        | none ↦ []
      ])
      f

pub save_inputs-AreAlike :
    (p : Text) (a b : Argument) → AreAlike a b → save_inputs p a ≡ save_inputs p b
unfolding save_inputs
save_inputs-AreAlike p a b (e, f, g) = rw (f, g)

pub print_value-AreAlike : (a b : Argument) → AreAlike a b → print_value a ≡ print_value b
unfolding print_value
print_value-AreAlike a b (e, f, g) = rw g

proto_arg-AreAlike : (a b : Argument) → AreAlike a b → proto_arg a ≡ proto_arg b
unfolding proto_arg
proto_arg-AreAlike a b (e, f, g) =
    ap₂
      (λ t n.
        if str_eq t (codes "string")
        then codes "Rcpp::as<std::string>(" ++ n ++ codes "[0])"
        else elim (rtype_of t) [ some rtype ↦ n ++ codes "[0]" | none ↦ n ])
      f g

-- Each text of the loop over the arguments.
pub collect-captured_all :
    (h : Argument → Text)
    → ((a b : Argument) → AreAlike a b → h a ≡ h b)
    → (arguments : List Argument) → collect h (captured_all arguments) ≡ collect h arguments
unfolding collect
collect-captured_all h alike [] = refl
collect-captured_all h alike (a ∷ more) =
    ap₂ (λ s t. s ++ t) (alike (captured a.argument_type a.argument_name) a (captured-AreAlike a))
      (collect-captured_all h alike more)

pub proto_args-captured_all :
    (arguments : List Argument) → proto_args (captured_all arguments) ≡ proto_args arguments
unfolding proto_args
proto_args-captured_all [] = refl
proto_args-captured_all (a ∷ []) =
    proto_arg-AreAlike (captured a.argument_type a.argument_name) a (captured-AreAlike a)
proto_args-captured_all (a ∷ b ∷ more) =
    ap₂ (λ s t. s ++ codes "," ++ t)
      (proto_arg-AreAlike (captured a.argument_type a.argument_name) a (captured-AreAlike a))
      (proto_args-captured_all (b ∷ more))

pub unsupported_datatypes-captured_all :
    (arguments : List Argument)
    → unsupported_datatypes (captured_all arguments) ≡ unsupported_datatypes arguments
unfolding unsupported_datatypes
unsupported_datatypes-captured_all [] = refl
unsupported_datatypes-captured_all (a ∷ more) =
    ap₂ (λ t rest. if not (is_allowed t types_table) then t ∷ rest else rest)
      (captured-AreAlike a).1 (unsupported_datatypes-captured_all more)
