-- ===== src/Parser/Frames/Definitions.antt =====
-- src/lparser.cpp: the sizes behind the definitions of Terra functions and structs.
use terra.Common.{ℕ, zero, suc, ◌-◌, Bool, true, false, List, [], ◌∷◌, ◌++◌, ltb}
use terra.Parser.State.{P, ◌>>=◌, ◌>>◌, pure, when, token}
use terra.Parser.Frames.{Keeps}
use terra.Parser.Frames.Binds.{Keeps-bind, Keeps-by}
use terra.Token.{codes, tk_local}
use terra.Parser.Scopes.{definevariable, refvariable}
use terra.Parser.Env.{Lua}
use terra.Parser.Output.{print, print_text, print_char, tree_text, name_print}
use terra.Parser.Rules.{Rules, intern, testnext, str_checkname}
use terra.Parser.Frames.Basic.{pure-Keeps, exhausted-From, failed-Keeps, when-Keeps}
use terra.Parser.Frames.Checks.{
  intern-Keeps, testnext-Keeps, str_checkname-Keeps, print-Keeps, print_char-Keeps,
  name_print-Keeps,
}
use terra.Parser.Frames.Scopes.{definevariable-Keeps, refvariable-Keeps}
use terra.Parser.Frames.Rules.{steps, parts, Good}
use terra.Parser.Frames.Constructors.{structconstructor-Pushes}
use terra.Parser.Frames.Functions.{bodyortype-Pushes}
use terra.Parser.Frames.Within.{print_captured_locals-Keeps}
use terra.Parser.State.{insert}
use terra.Parser.Definitions.{
  TDefn, first_name, print_new_locals, is_single, print_returns, print_kinds, print_definitions,
  name_parts, terraname, starts_terra_stat, definition_tree, definition, definitions, terrastats,
  reference_all, intern_name, intern_names, define_first,
}

first_name-Keeps : (name : List (List ℕ)) → Keeps (first_name name)
first_name-Keeps [] = failed-Keeps
first_name-Keeps (str ∷ rest) = pure-Keeps str

print_new_locals-Keeps :
    (left : ℕ) (defs : List TDefn) (captured : List (List ℕ))
    → Keeps (print_new_locals left defs captured)
unfolding print_new_locals
print_new_locals-Keeps left [] captured = pure-Keeps captured
print_new_locals-Keeps left (d ∷ defs) captured =
    elim d.islocal
      as (λ b. Keeps (elim b as (λ x. P (List (List ℕ))) [
        | false ↦ print_new_locals left defs captured
        | true ↦ do
          str ← first_name d.name
          name_print d.name
          definevariable str
          when (ltb 1 left) (print_char b',')
          print_new_locals (left - 1) defs (insert captured str)
      ])) [
        | false ↦ print_new_locals-Keeps left defs captured
        | true ↦ Keeps-bind (first_name d.name) _ (first_name-Keeps d.name) λ str.
            Keeps-bind (name_print d.name) _ (name_print-Keeps d.name) λ _.
              Keeps-bind (definevariable str) _ (definevariable-Keeps str) λ _.
                Keeps-bind (when (ltb 1 left) (print_char b',')) _
                  (when-Keeps (ltb 1 left) (print_char b',') (print_char-Keeps b','))
                  λ _. print_new_locals-Keeps (left - 1) defs (insert captured str)
      ]

print_returns-Keeps :
    (hasreturns : Bool) (defs : List TDefn) → Keeps (print_returns hasreturns defs)
unfolding print_returns
print_returns-Keeps hasreturns [] = pure-Keeps hasreturns
print_returns-Keeps hasreturns (d ∷ defs) =
    elim (is_single d.name)
      as (λ b. Keeps (elim b as (λ x. P Bool) [
        | false ↦ print_returns hasreturns defs
        | true ↦ do when hasreturns (print_char b','); name_print d.name; print_returns true defs
      ])) [
        | false ↦ print_returns-Keeps hasreturns defs
        | true ↦
            Keeps-bind (when hasreturns (print_char b',')) _
              (when-Keeps hasreturns (print_char b',') (print_char-Keeps b','))
              λ _.
                Keeps-bind (name_print d.name) _ (name_print-Keeps d.name)
                  λ _. print_returns-Keeps true defs
      ]

print_kinds-Keeps : (defs : List TDefn) → Keeps (print_kinds defs)
unfolding print_kinds
print_kinds-Keeps [] = pure-Keeps tt
print_kinds-Keeps (d ∷ defs) =
    Keeps-bind (print_char d.kind) _ (print_char-Keeps d.kind) λ _. print_kinds-Keeps defs

print_definitions-Keeps : (defs : List TDefn) → Keeps (print_definitions defs)
unfolding print_definitions
print_definitions-Keeps [] = pure-Keeps tt
print_definitions-Keeps (d ∷ defs) =
    Keeps-bind (print_text ", \"") _ (print-Keeps (codes ", \"")) λ _.
      Keeps-bind (name_print d.name) _ (name_print-Keeps d.name) λ _.
        Keeps-bind (print (codes "\", " ++ tree_text d.treeid)) _
          (print-Keeps (codes "\", " ++ tree_text d.treeid)) λ _. print_definitions-Keeps defs

module _ (env : Lua) (self : Rules) where
  name_parts-Keeps : (fuel : ℕ) (name : List (List ℕ)) → Keeps (name_parts env self fuel name)
  unfolding name_parts
  name_parts-Keeps zero name = record { keeps = λ base S. exhausted-From base S S }
  name_parts-Keeps (suc fuel) name =
      Keeps-bind (testnext env b'.') _ (testnext-Keeps env.numbers b'.') λ point.
        elim point
          as (λ b. Keeps (elim b as (λ x. P (List (List ℕ))) [
            | false ↦ pure name
            | true ↦ do vname ← str_checkname env; name_parts env self fuel (name ++ vname ∷ [])
          ])) [
            | false ↦ pure-Keeps name
            | true ↦
                Keeps-bind (str_checkname env) _ (str_checkname-Keeps env.numbers)
                  λ vname. name_parts-Keeps fuel (name ++ vname ∷ [])
          ]

  terraname-Keeps : (islocal : Bool) (token : ℕ) → Keeps (terraname env self islocal token)
  unfolding terraname
  terraname-Keeps islocal token = search (parts, name_parts-Keeps) depth 30 fits 8000

  starts_terra_stat-Keeps : Keeps (starts_terra_stat env self)
  unfolding starts_terra_stat
  starts_terra_stat-Keeps = search parts depth 30

  pub reference_all-Keeps : (references : List (List ℕ)) → Keeps (reference_all env self references)
  unfolding reference_all
  reference_all-Keeps [] = pure-Keeps tt
  reference_all-Keeps (str ∷ rest) =
      Keeps-bind (intern str) _ (intern-Keeps str)
        λ _. Keeps-bind (refvariable str) _ (refvariable-Keeps str) λ _. reference_all-Keeps rest

  intern_name-Keeps : (name : List (List ℕ)) → Keeps (intern_name env self name)
  unfolding intern_name
  intern_name-Keeps [] = pure-Keeps tt
  intern_name-Keeps (str ∷ name) =
      Keeps-bind (intern str) _ (intern-Keeps str) λ _. intern_name-Keeps name

  pub intern_names-Keeps : (names : List (List (List ℕ))) → Keeps (intern_names env self names)
  unfolding intern_names
  intern_names-Keeps [] = pure-Keeps tt
  intern_names-Keeps (name ∷ names) =
      Keeps-bind (intern_name env self name) _ (intern_name-Keeps name)
        λ _. intern_names-Keeps names

  pub define_first-Keeps : (names : List (List (List ℕ))) → Keeps (define_first env self names)
  unfolding define_first
  define_first-Keeps [] = pure-Keeps tt
  define_first-Keeps (name ∷ names) = Keeps-bind (first_name name) _ (first_name-Keeps name) λ str.
      Keeps-bind (definevariable str) _ (definevariable-Keeps str) λ _. define_first-Keeps names

module _ (env : Lua) (self : Rules) (good : Good self) where
  definition_tree-Keeps :
      (token : ℕ) (ismethod : Bool) → Keeps (definition_tree env self token ismethod)
  unfolding definition_tree
  definition_tree-Keeps token ismethod = Keeps-by _ λ base it lv pt bk fs n.
      search (steps, parts, bodyortype-Pushes, structconstructor-Pushes) depth 30

  definition-Keeps : (islocal : Bool) → Keeps (definition env self islocal)
  unfolding definition
  definition-Keeps islocal =
      search (parts, terraname-Keeps, first_name-Keeps, definition_tree-Keeps) depth 30

  definitions-Keeps :
      (fuel : ℕ) (islocal : Bool) (defs : List TDefn)
      → Keeps (definitions env self fuel islocal defs)
  unfolding definitions
  definitions-Keeps zero islocal defs = record { keeps = λ base S. exhausted-From base S S }
  definitions-Keeps (suc fuel) islocal defs =
      Keeps-bind (definition env self islocal) _ (definition-Keeps islocal) λ d.
        Keeps-bind (starts_terra_stat env self) _ (starts_terra_stat-Keeps env self) λ more.
          elim more
            as (λ b. Keeps (elim b as (λ x. P (List TDefn)) [
              | false ↦ pure (defs ++ d ∷ [])
              | true ↦ do
                islocal' ← testnext env tk_local
                definitions env self fuel islocal' (defs ++ d ∷ [])
            ])) [
              | false ↦ pure-Keeps (defs ++ d ∷ [])
              | true ↦
                  Keeps-bind (testnext env tk_local) _ (testnext-Keeps env.numbers tk_local)
                    λ islocal'. definitions-Keeps fuel islocal' (defs ++ d ∷ [])
            ]

  pub terrastats-Keeps : (emittedlocal : Bool) → Keeps (terrastats env self emittedlocal)
  unfolding terrastats
  terrastats-Keeps emittedlocal = Keeps-by _ λ base it lv pt bk fs n.
      search
        (
          steps, parts, definitions-Keeps, print_new_locals-Keeps, print_returns-Keeps,
          print_kinds-Keeps, print_captured_locals-Keeps, print_definitions-Keeps,
        )
        depth 40 fits 20000
