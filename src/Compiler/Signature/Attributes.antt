-- ===== src/Compiler/Signature/Attributes.antt =====
-- src/tcompiler.cpp: the attributes stand at the parameters that they are meant for.
use terra.Common.{
  ℕ, zero, suc, ◌+◌, ◌≡◌, refl, ap, ◌∙◌, subst, true, Option, none, some, List, [], ◌∷◌, ◌++◌,
  append_assoc, ◌<◌, length, length-append, arith, inl, inr, Bool-cases,
}
use terra.Compiler.Types.{
  LlvmType, LlvmTypes, void, float, double, pointer, integer, vector, array, struct, no_types,
  with_type, Obj, type_of, issigned,
}
use terra.Compiler.Convention.{CCallingConv}
use terra.Compiler.Aggregates.{
  ArgumentKind, c_primitive, c_aggregate_reg, c_aggregate_mem, c_array_reg, Argument,
}
use terra.Compiler.Signature.{
  type_count, types_count, param_count, gather, gather_all, param_types, all_param_types, Attribute,
  struct_ret, by_val, no_alias, no_undef, s_ext, z_ext, is_narrow, extension, ext_attr, memory_attr,
  param_attrs,
}

mutual
  unfolding gather type_count

  length-gather : (t : LlvmType) → length (gather t) ≡ type_count t
  length-gather (struct elements) = length-gather_all elements
  length-gather void = refl
  length-gather float = refl
  length-gather double = refl
  length-gather pointer = refl
  length-gather (integer bits) = refl
  length-gather (vector n elem) = refl
  length-gather (array n elem) = refl

  length-gather_all : (ts : LlvmTypes) → length (gather_all ts) ≡ types_count ts
  length-gather_all no_types = refl
  length-gather_all (with_type t ts) =
      omega (arith, length-append (gather t) (gather_all ts), length-gather t, length-gather_all ts)

-- `GetNumberOfTypesInParamList` is the number of the types that an argument has in the list.
length-param_types : (a : Argument) → length (param_types a) ≡ param_count a
unfolding param_types param_count
length-param_types a =
    elim a.kind
      as (λ kind.
        length (elim kind as (λ x. List LlvmType) [
          | c_primitive ↦ a.cctype ∷ []
          | c_aggregate_mem ↦ pointer ∷ []
          | c_aggregate_reg ↦ gather a.cctype
          | c_array_reg ↦ a.cctype ∷ []
        ])
        ≡ (elim kind as (λ x. ℕ) [
          | c_aggregate_reg ↦ type_count a.cctype
          | c_primitive ↦ 1
          | c_aggregate_mem ↦ 1
          | c_array_reg ↦ 1
        ])) [
          | c_primitive ↦ refl
          | c_aggregate_mem ↦ refl
          | c_aggregate_reg ↦ length-gather a.cctype
          | c_array_reg ↦ refl
        ]

unfoldable pub get_elem? : {A : Type 0} → List A → ℕ → Option A
get_elem? [] i = none
get_elem? (x ∷ xs) zero = some x
get_elem? (x ∷ xs) (suc i) = get_elem? xs i

get_elem?-append :
    {A : Type 0} (pre : List A) (x : A) (rest : List A)
    → get_elem? (pre ++ (x ∷ rest)) (length pre) ≡ some x
unfolding get_elem?
get_elem?-append [] x rest = refl
get_elem?-append (y ∷ pre) x rest = get_elem?-append pre x rest

-- an attribute of a pointer or of a narrow integer stands at a parameter of that type
abbrev pub IsPlaced : List LlvmType → ℕ × Attribute → Type 0
IsPlaced args (i, struct_ret t) = get_elem? args i ≡ some pointer
IsPlaced args (i, by_val t) = get_elem? args i ≡ some pointer
IsPlaced args (i, no_alias) = get_elem? args i ≡ some pointer
IsPlaced args (i, no_undef) = get_elem? args i ≡ some pointer
IsPlaced args (i, s_ext) = (bits : ℕ) × (get_elem? args i ≡ some (integer bits)) × (bits < 32)
IsPlaced args (i, z_ext) = (bits : ℕ) × (get_elem? args i ≡ some (integer bits)) × (bits < 32)

abbrev pub AllPlaced : List LlvmType → List (ℕ × Attribute) → Type 0
AllPlaced args [] = Unit {0}
AllPlaced args (x ∷ xs) = IsPlaced args x × AllPlaced args xs

AllPlaced-append :
    (args : List LlvmType) (xs ys : List (ℕ × Attribute))
    → AllPlaced args xs
    → AllPlaced args ys
    → AllPlaced args (xs ++ ys)
AllPlaced-append args [] ys h k = k
AllPlaced-append args (x ∷ xs) ys (p, h) k = (p, AllPlaced-append args xs ys h k)

abbrev argument : ArgumentKind → Obj → LlvmType → Argument
argument k t c = record { kind = k; type = t; cctype = c }

-- the parameter of a narrow integer
abbrev pub IsNarrow : ArgumentKind → LlvmType → Type 0
IsNarrow c_primitive c = (bits : ℕ) × (c ≡ integer bits) × (bits < 32)
IsNarrow _ c = ⊥

memory-Placed :
    (conv : CCallingConv) (k : ArgumentKind) (t : Obj) (c : LlvmType) (pre rest : List LlvmType)
    → AllPlaced
        (pre ++ (param_types (argument k t c) ++ rest))
        (memory_attr conv (argument k t c) (length pre))
unfolding param_types memory_attr
memory-Placed conv c_primitive t c pre rest = tt
memory-Placed conv c_aggregate_reg t c pre rest = tt
memory-Placed conv c_array_reg t c pre rest = tt
memory-Placed conv c_aggregate_mem t c pre rest =
    let found = get_elem?-append pre pointer rest in
    elim (Bool-cases conv.aarch64_cconv) [
      | inl e ↦ rw e (found, tt)
      | inr e ↦ elim (Bool-cases conv.win_cconv) [
        | inl e' ↦ rw (e, e') tt
        | inr e' ↦ rw (e, e') (found, tt)
      ]
    ]

narrow-Placed :
    (k : ArgumentKind) (t : Obj) (c : LlvmType) (pre rest : List LlvmType)
    → IsNarrow k c
    → AllPlaced (pre ++ (param_types (argument k t c) ++ rest)) ((length pre, extension t) ∷ [])
unfolding param_types
narrow-Placed c_primitive t c pre rest (bits, e, small) =
    let found : get_elem? (pre ++ (c ∷ rest)) (length pre) ≡ some (integer bits) =
      get_elem?-append pre c rest ∙ ap some e in
    elim (Bool-cases (issigned t)) [
      | inl e' ↦ rw e' ((bits, found, small), tt)
      | inr e' ↦ rw e' ((bits, found, small), tt)
    ]
narrow-Placed c_aggregate_reg t c pre rest h = elim h [ ]
narrow-Placed c_aggregate_mem t c pre rest h = elim h [ ]
narrow-Placed c_array_reg t c pre rest h = elim h [ ]

-- what `ClassifyArgument` makes of a narrow integer
abbrev pub IsFormed : Argument → Type 0
IsFormed a = is_narrow (type_of a.type) ≡ true → IsNarrow a.kind a.cctype

ext-Placed :
    (k : ArgumentKind) (t : Obj) (c : LlvmType) (pre rest : List LlvmType)
    → IsFormed (argument k t c)
    → AllPlaced (pre ++ (param_types (argument k t c) ++ rest)) (ext_attr t (length pre))
unfolding ext_attr
ext-Placed k t c pre rest formed = elim (Bool-cases (is_narrow (type_of t))) [
  | inl e ↦ rw e (narrow-Placed k t c pre rest (formed e))
  | inr e ↦ rw e tt
]

abbrev pub AllFormed : List Argument → Type 0
AllFormed [] = Unit {0}
AllFormed (a ∷ params) = IsFormed a × AllFormed params

pub params-Placed :
    (conv : CCallingConv) (params : List Argument) (pre : List LlvmType)
    → AllFormed params
    → AllPlaced (pre ++ all_param_types params) (param_attrs conv params (length pre))
unfolding all_param_types param_attrs
params-Placed conv [] pre h = tt
params-Placed conv (a ∷ params) pre (formed, h) =
    let args = pre ++ (param_types a ++ all_param_types params) in
    let next : length (pre ++ param_types a) ≡ length pre + param_count a =
      length-append pre (param_types a) ∙ ap (λ n. length pre + n) (length-param_types a) in
    let rest : AllPlaced args (param_attrs conv params (length pre + param_count a)) =
      subst (λ n. AllPlaced args (param_attrs conv params n)) next
        (subst (λ l. AllPlaced l (param_attrs conv params (length (pre ++ param_types a))))
          (append_assoc pre (param_types a) (all_param_types params))
          (params-Placed conv params (pre ++ param_types a) h)) in
    AllPlaced-append args (memory_attr conv a (length pre)) _
      (memory-Placed conv a.kind a.type a.cctype pre (all_param_types params))
      (AllPlaced-append args (ext_attr a.type (length pre)) _
        (ext-Placed a.kind a.type a.cctype pre (all_param_types params) formed) rest)
