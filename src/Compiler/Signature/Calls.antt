-- ===== src/Compiler/Signature/Calls.antt =====
-- src/tcompiler.cpp: the attributes of the functions and calls that `Classify` has been run for.
use terra.Common.{
  ℕ, ◌<◌, ◌≡◌, refl, sym, ap, ◌∙◌, subst, Bool, true, false, Option, none, some, List, [], ◌∷◌,
  ◌++◌, not, ◌&&◌, ◌==◌, length, arith, inl, inr, Bool-cases,
}
use terra.Compiler.Types.{
  LlvmType, void, float, double, pointer, integer, vector, array, struct, Obj, type_of, islogical,
  is_aggregate, is_vector, Target, ◌>>=◌,
}
use terra.Compiler.Convention.{CCallingConv}
use terra.Compiler.Aggregates.{Argument}
use terra.Compiler.Classify.{
  Used, Classification, returned_in_memory, primitive, classify_argument, classify_params,
  classify_return, classify,
}
use terra.Compiler.Classify.Formed.{Every, Every-bind, FoundOfType, aggregate-OfType}
use terra.Compiler.Signature.{
  FunctionType, return_type, first_params, create_function_type, all_param_types, sret_types,
  is_narrow, all_param_attrs, attribute_fn_or_call,
}
use terra.Compiler.Signature.Attributes.{IsFormed, AllFormed, AllPlaced, params-Placed, get_elem?}

narrow-scalar : (t : LlvmType) → is_narrow t ≡ true → (bits : ℕ) × (t ≡ integer bits) × (bits < 32)
narrow-scalar (integer bits) h = (bits, refl, ground arith)
narrow-scalar void h = ground arith
narrow-scalar float h = ground arith
narrow-scalar double h = ground arith
narrow-scalar pointer h = ground arith
narrow-scalar (vector n elem) h = ground arith
narrow-scalar (array n elem) h = ground arith
narrow-scalar (struct elements) h = ground arith

primitive-IsFormed : (t : Obj) → IsFormed (primitive t)
unfolding primitive
primitive-IsFormed t h = elim (Bool-cases (islogical t && not (is_vector (type_of t)))) [
  | inl e ↦ rw e (1, refl, omega arith)
  | inr e ↦ rw e (narrow-scalar (type_of t) h)
]

not_narrow : (t : LlvmType) → is_aggregate t ≡ true → is_narrow t ≡ true → ⊥
unfolding is_aggregate
not_narrow t h k =
    let (bits, e, small) = narrow-scalar t k in
    let same : is_aggregate (integer bits) ≡ true = ap is_aggregate (sym e) ∙ h in ground arith

aggregate-Formed :
    (t : Obj) (o : Option (Argument × Used))
    → is_aggregate (type_of t) ≡ true
    → Every (FoundOfType t) o
    → Every (λ r. IsFormed r.0) o
aggregate-Formed t none h k = tt
aggregate-Formed t (some r) h k = λ narrow.
    elim (not_narrow (type_of t) h (subst (λ x. is_narrow (type_of x) ≡ true) k narrow)) [ ]

argument-Formed :
    (conv : CCallingConv) (target : Target) (t : Obj) (used : Used) (isreturn : Bool)
    → Every (λ r. IsFormed r.0) (classify_argument conv target t used isreturn)
argument-Formed conv target t used isreturn = elim (Bool-cases (is_aggregate (type_of t))) [
  | inl e ↦ aggregate-Formed t _ e (aggregate-OfType conv target t used isreturn e)
  | inr e ↦ unfold classify_argument in rw e (primitive-IsFormed t)
]

cons-Formed :
    (o : Option (List Argument)) (a : Argument)
    → IsFormed a
    → Every AllFormed o
    → Every AllFormed (o >>= λ rest. some (a ∷ rest))
cons-Formed none a h k = tt
cons-Formed (some rest) a h k = (h, k)

both :
    (o : Option (Argument × Used)) (f : Argument × Used → Option (List Argument))
    → Every (λ r. IsFormed r.0) o
    → ((r : Argument × Used) → Every AllFormed (f r))
    → Every AllFormed (o >>= λ found. f found >>= λ rest. some (found.0 ∷ rest))
both none f h k = tt
both (some r) f h k = cons-Formed (f r) r.0 h (k r)

params-Formed :
    (conv : CCallingConv) (target : Target) (params : List Obj) (used : Used)
    → Every AllFormed (classify_params conv target params used)
unfolding classify_params
params-Formed conv target [] used = tt
params-Formed conv target (t ∷ params) used =
    both (classify_argument conv target t used false)
      (λ found. classify_params conv target params found.1)
      (argument-Formed conv target t used false) λ found. params-Formed conv target params found.1

-- the types of all parameters of a classification
abbrev pub arguments_of : Classification → List LlvmType
arguments_of info = sret_types info.returntype ++ all_param_types info.paramtypes

classified-Placed :
    (conv : CCallingConv) (r : Argument) (o : Option (List Argument))
    → Every AllFormed o
    → Every
        (λ info. AllPlaced (arguments_of info) (all_param_attrs conv info))
        (o >>= λ rest. some (record { returntype = r; paramtypes = rest }))
unfolding all_param_attrs sret_types get_elem?
classified-Placed conv r none h = tt
classified-Placed conv r (some params) h = elim (Bool-cases (returned_in_memory r)) [
  | inl e ↦ rw e (refl, (refl, params-Placed conv params (pointer ∷ []) h))
  | inr e ↦ rw e (params-Placed conv params [] h)
]

first_params-length : (params : List Argument) → first_params (length params) params ≡ params
unfolding first_params
first_params-length [] = refl
first_params-length (a ∷ params) = ap (λ l. a ∷ l) (first_params-length params)

classified-AllPlaced :
    (conv : CCallingConv) (target : Target) (returntype : Obj) (params : List Obj)
    (info : Classification)
    → classify conv target returntype params ≡ some info
    → AllPlaced (arguments_of info) (all_param_attrs conv info)
unfolding classify
classified-AllPlaced conv target returntype params info h =
    let Q : Classification → Type 0 = λ i. AllPlaced (arguments_of i) (all_param_attrs conv i) in
    subst (Every Q) h (
      Every-bind Q (classify_return conv target returntype) _
        λ r. classified-Placed conv r _ (params-Formed conv target params _))

arguments_of-function :
    (info : Classification) (n : ℕ)
    → Every (λ f. f.arguments ≡ arguments_of info) (create_function_type info n false)
unfolding create_function_type
arguments_of-function info n = elim (Bool-cases (n == length info.paramtypes)) [
  | inl e ↦
      let same : n ≡ length info.paramtypes = ground (arith, e) in
      let whole : first_params n info.paramtypes ≡ info.paramtypes =
        ap (λ k. first_params k info.paramtypes) same ∙ first_params-length info.paramtypes in
      rw e (
        Every-bind (λ f. f.arguments ≡ arguments_of info) (return_type info.returntype) _
          λ rt. ap (λ l. sret_types info.returntype ++ all_param_types l) whole)
  | inr e ↦ rw e tt
]

-- Where the return type and the parameters of a function without varargs are classified, and
-- `CreateFunctionType` makes its type, every attribute that `AttributeFnOrCall` adds to a parameter
-- stands at one that it can be for: `sret` with `noalias`, `byval` and `noundef` at pointers, and the
-- extensions at integers of less than 32 bits.
pub attribute_fn_or_call-AllPlaced :
    (conv : CCallingConv) (target : Target) (returntype : Obj) (params : List Obj)
    (info : Classification) (n : ℕ) (f : FunctionType)
    → classify conv target returntype params ≡ some info
    → create_function_type info n false ≡ some f
    → AllPlaced f.arguments (attribute_fn_or_call conv info).on_params
unfolding attribute_fn_or_call
attribute_fn_or_call-AllPlaced conv target returntype params info n f h k =
    let same : f.arguments ≡ arguments_of info =
      subst (Every (λ f'. f'.arguments ≡ arguments_of info)) k (arguments_of-function info n) in
    subst (λ l. AllPlaced l (all_param_attrs conv info)) (sym same)
      (classified-AllPlaced conv target returntype params info h)
