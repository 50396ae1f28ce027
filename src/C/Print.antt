-- ===== src/C/Print.antt =====
-- Var.String of csym/c/type.go: a variable in C syntax, its declarator built from the inside out.
use psx_mnd_sym.Prelude.{ℕ, [], ◌++◌, Text, codes, Bool, true, false, ltb, if◌then◌else◌}
use psx_mnd_sym.Fmt.{dec}
use psx_mnd_sym.C.Ast.{
  BaseType, void, char, short, int, long, uchar, ushort, uint, ulong, CType, Params, VarDecl,
  nil_type, base, struct_ref, union_ref, enum_ref, def_ref, pointer, array, func, nil, cons,
  var_decl,
}

-- BaseType.String (basetype_string.go).
unfoldable pub base_type_string : BaseType → Text
base_type_string void = codes "void"
base_type_string char = codes "char"
base_type_string short = codes "short"
base_type_string int = codes "int"
base_type_string long = codes "long"
base_type_string uchar = codes "unsigned char"
base_type_string ushort = codes "unsigned short"
base_type_string uint = codes "unsigned int"
base_type_string ulong = codes "unsigned long"

-- Whether a pointer to the type needs grouping parentheses.
abbrev pub is_grouped : CType → Bool
is_grouped (func r ps v) = true
is_grouped (array t n) = true
is_grouped _ = false

-- Whether the type has a declarator: it is a pointer, array or function type.
abbrev pub is_derived : CType → Bool
is_derived (func r ps v) = true
is_derived (array t n) = true
is_derived (pointer t) = true
is_derived _ = false

unfoldable pub array_suffix : ℕ → Text
unfolding dec
array_suffix n = if ltb 0 n then codes "[" ++ dec n ++ codes "]" else codes "[]"

unfoldable pub pointer_name : CType → Text → Text
pointer_name t name = if is_grouped t then codes "(*" ++ name ++ codes ")" else codes "*" ++ name

-- `leaf t` is what stands for a type that is no pointer, array or function: its String, or the
-- members of a union with a fake tag.
module _ (leaf : CType → Text) where
  unfoldable mutual
    unfolding array_suffix pointer_name

    pub var_string : CType → Text → Text
    var_string nil_type name = leaf nil_type ++ codes " " ++ name
    var_string (base b) name = leaf (base b) ++ codes " " ++ name
    var_string (struct_ref i) name = leaf (struct_ref i) ++ codes " " ++ name
    var_string (union_ref i) name = leaf (union_ref i) ++ codes " " ++ name
    var_string (enum_ref i) name = leaf (enum_ref i) ++ codes " " ++ name
    var_string (def_ref i) name = leaf (def_ref i) ++ codes " " ++ name
    var_string (pointer t) name = var_string t (pointer_name t name)
    var_string (array t n) name = var_string t (name ++ array_suffix n)
    var_string (func r ps variadic) name =
        var_string r (name ++ (codes "(" ++ params_string ps variadic ++ codes ")"))

    -- The parameters, separated by ", ", with "..." last for a variadic function.
    pub params_string : Params → Bool → Text
    params_string nil variadic = if variadic then codes "..." else []
    params_string (cons p ps) variadic = param_string p ++ more_params ps variadic

    pub more_params : Params → Bool → Text
    more_params nil variadic = if variadic then codes ", ..." else []
    more_params (cons p ps) variadic = codes ", " ++ param_string p ++ more_params ps variadic

    pub param_string : VarDecl → Text
    param_string (var_decl addr size class t name) = var_string t name
