-- ===== src/Parser/Frames/Expressions.antt =====
-- src/lparser.cpp: the sizes behind expressions.
use terra.Common.{ℕ, zero, suc, ◌-◌, Bool, true, false, Option, none, some, List, ◌++◌}
use terra.Parser.State.{Tree, ◌>>=◌, ◌>>◌, pure, get, failed, lex, when, token, getposition}
use terra.Parser.Frames.{sizes, From, Keeps, Pushes, depth}
use terra.Parser.Frames.Binds.{
  keep-then, loop-then, Keeps-bind, Keeps-Pushes-bind, Pushes-Keeps-bind, Pushes-Replaces-bind,
  Replaces-Keeps-bind,
}
use terra.Parser.Frames.Mixtures.{Mixed, Keeps-Mixed, Pushes-Mixed, Mixed-branch, Mixed-then}
use terra.Token.{codes}
use terra.Lexer.State.{Token, number, text}
use terra.Parser.Stack.{
  returns, new_list, new_list_before, push_string, push_string_before, new_object, add_field,
  add_entry, gettop,
}
use terra.Parser.Checks.{check_lua_operator}
use terra.Parser.Env.{Lua}
use terra.Parser.Operators.{
  BinOpr, UnOpr, binds_above, priority, unary_priority, nounopr, addr, func_ptr,
}
use terra.Parser.Output.{print, print_text, tree_text, patchbegin, patchend, token2rawstr}
use terra.Parser.Rules.{Rules, current_token, next, leaveterra}
use terra.Parser.Frames.Basic.{pure-Keeps, lex-Keeps, exhausted-From, failed-Keeps}
use terra.Parser.Frames.Entries.{add_field-From, second-Inside}
use terra.Parser.Frames.Returning.{Mixed-returns}
use terra.Parser.Frames.Checks.{patchbegin-Keeps}
use terra.Parser.Frames.Steps.{store-then}
use terra.Parser.Frames.InLua.{lua_only-Pushes}
use terra.Parser.Frames.Rules.{steps, parts, From-choose, Good}
use terra.Parser.Frames.Constructors.{constructor-Pushes, structconstructor-Pushes}
use terra.Parser.Frames.Functions.{body-Pushes, bodyortype-Pushes}
use terra.Parser.Frames.Primary.{print_current_locals-Keeps, primaryexp-Pushes, blockescape-Pushes}
use terra.Parser.Primary.{print_current_locals}
use terra.Parser.Expressions.{
  number_of_token, number_literal, vararg, replace_anonymous, anonymous_terra, anonymous_struct,
  simpleexp, replace_pointer, replace_funcpointer, replace_lhs, saved_lhs, unary, binary, subexpr,
}

number_of_token-Keeps : Keeps number_of_token
unfolding number_of_token
number_of_token-Keeps = Keeps-bind lex _ lex-Keeps λ l.
    elim l.t.seminfo.value
      as (λ v. Keeps {A = ℕ} (elim v [ number r ↦ pure r | text ts ↦ failed ])) [
        | number r ↦ pure-Keeps r
        | text ts ↦ failed-Keeps
      ]

-- the field of the value below the top
stringvalue-From :
    (base : List Tree) (it lv pt bk : ℕ) (fs : List ℕ) (n : ℕ) (field : List ℕ)
    → From base
        (sizes it lv pt bk fs (suc (suc n)))
        (sizes it lv pt bk fs (suc n))
        (get >>= λ s. add_field (gettop s - 1) field)
stringvalue-From base it lv pt bk fs n field = record {
  at = λ s h.
      (add_field-From base it lv pt bk fs n (gettop s - 1) field
          (second-Inside base it lv pt bk fs n s h)).at
        s h;
}

number_literal-Pushes : Pushes number_literal
unfolding number_literal
number_literal-Pushes = record {
  pushes = λ base it lv pt bk fs n.
      search (steps, parts, number_of_token-Keeps, stringvalue-From) depth 40 fits 20000;
}

vararg-Keeps : (env : Lua) (self : Rules) → Keeps (vararg env self)
unfolding vararg
vararg-Keeps env self = search parts depth 20

module _ (env : Lua) (self : Rules) where
  -- `replace_anonymous` behind the tree
  replaced-From :
      (begin' : Token) (maker : List ℕ) (id : ℕ) (base : List Tree) (it lv pt bk : ℕ) (fs : List ℕ)
      (n : ℕ)
      → From base (sizes (suc it) lv (suc pt) (suc bk) fs (depth it n)) (sizes it lv pt bk fs n) (do
        print (codes "terra." ++ (maker ++ (codes "(" ++ (tree_text (some id) ++ codes ","))))
        print_current_locals env self
        print_text ")"
        patchend begin'
        leaveterra env
        pure tt)
  replaced-From begin' maker id base it lv pt bk fs n =
      search (steps, parts, print_current_locals-Keeps) depth 40

  replace_stored-From :
      (begin : Token) (maker : List ℕ) (id : ℕ) (base : List Tree) (it lv pt bk : ℕ) (fs : List ℕ)
      (n : ℕ)
      → From base
          (sizes (suc it) lv (suc pt) (suc bk) fs (depth it n))
          (sizes it lv pt bk fs n)
          (replace_anonymous env self begin maker (some id))
  unfolding replace_anonymous
  replace_stored-From begin maker id base it lv pt bk fs n =
      keep-then base _ _ (patchbegin begin) _ (patchbegin-Keeps begin)
        λ begin'. replaced-From begin' maker id base it lv pt bk fs n

  replace_top-From :
      (begin : Token) (maker : List ℕ) (base : List Tree) (it lv pt bk : ℕ) (fs : List ℕ) (n : ℕ)
      → From base
          (sizes (suc it) lv (suc pt) (suc bk) fs (suc (depth it n)))
          (sizes it lv pt bk fs n)
          (replace_anonymous env self begin maker none)
  unfolding replace_anonymous
  replace_top-From begin maker base it lv pt bk fs n =
      keep-then base _ _ (patchbegin begin) _ (patchbegin-Keeps begin) λ begin'.
        store-then base _ (suc it) lv (suc pt) (suc bk) fs (depth it n) _
          λ id. replaced-From begin' maker id base it lv pt bk fs n

module _ (env : Lua) (self : Rules) (good : Good self) where
  anonymous_terra-Pushes : Pushes (anonymous_terra env self)
  unfolding anonymous_terra
  anonymous_terra-Pushes = lua_only-Pushes "nested terra functions" _ (record {
    in_lua =
        λ base lv pt bk fs n. search (steps, parts, bodyortype-Pushes, replace_top-From) depth 40;
  })

  anonymous_struct-Pushes : Pushes (anonymous_struct env self)
  unfolding anonymous_struct
  anonymous_struct-Pushes = lua_only-Pushes "struct declarations" _ (record {
    in_lua = λ base lv pt bk fs n.
        search (steps, parts, structconstructor-Pushes, replace_stored-From) depth 40;
  })

  simpleexp-Mixed : Mixed (simpleexp env self)
  unfolding simpleexp
  simpleexp-Mixed =
      search
        (
          Mixed-then, Mixed-branch, Pushes-Mixed, Keeps-Mixed, Keeps-Pushes-bind, Pushes-Keeps-bind,
          Pushes-Replaces-bind, Replaces-Keeps-bind, parts, number_literal-Pushes, vararg-Keeps,
          constructor-Pushes, good.doquote, blockescape-Pushes, body-Pushes, anonymous_terra-Pushes,
          good.languageextension, anonymous_struct-Pushes, primaryexp-Pushes,
        )
        depth 40 fits 40000

  replace_pointer-Keeps :
      (begintoken beginexp : Token) → Keeps (replace_pointer env self begintoken beginexp)
  unfolding replace_pointer
  replace_pointer-Keeps begintoken beginexp = search parts depth 20

  replace_funcpointer-Keeps :
      (begintoken beginrhs : Token) (lhs : List ℕ)
      → Keeps (replace_funcpointer env self begintoken beginrhs lhs)
  unfolding replace_funcpointer
  replace_funcpointer-Keeps begintoken beginrhs lhs = search parts depth 20

  replace_lhs-Keeps :
      (begintoken beginrhs : Token) (lhs : Option (List ℕ))
      → Keeps (replace_lhs env self begintoken beginrhs lhs)
  unfolding replace_lhs
  replace_lhs-Keeps begintoken beginrhs none = pure-Keeps tt
  replace_lhs-Keeps begintoken beginrhs (some lhs) =
      replace_funcpointer-Keeps begintoken beginrhs lhs

  saved_lhs-Keeps : (begintoken : Token) (op : BinOpr) → Keeps (saved_lhs env self begintoken op)
  unfolding saved_lhs
  saved_lhs-Keeps begintoken func_ptr = search parts depth 20
  saved_lhs-Keeps begintoken _ = pure-Keeps none

  operator-From :
      (isaddr : Bool) (begintoken : Token) (base : List Tree) (it lv pt bk : ℕ) (fs : List ℕ)
      (n : ℕ)
      → From base (sizes it lv pt bk fs n) (sizes it lv pt bk fs (suc n)) (do
        p ← getposition
        t ← token
        push_string (token2rawstr t)
        next env
        beginexp ← current_token
        exps ← new_list
        returns 1 (self.subexpr unary_priority)
        add_entry exps
        when isaddr (replace_pointer env self begintoken beginexp)
        new_object "operator" 2 p)
  operator-From isaddr begintoken base it lv pt bk fs n =
      search (steps, parts, good.subexpr, replace_pointer-Keeps) depth 40 fits 8000

  unary-Pushes : (op : UnOpr) (begintoken : Token) → Pushes (unary env self op begintoken)
  unfolding unary
  unary-Pushes nounopr begintoken = Mixed-returns (simpleexp env self) simpleexp-Mixed
  unary-Pushes addr begintoken = record { pushes = operator-From true begintoken }
  unary-Pushes _ begintoken = record { pushes = operator-From false begintoken }

  binary_step-From :
      (fuel limit : ℕ) (begintoken : Token) (op : BinOpr) (lhs : Option (List ℕ)) (base : List Tree)
      (it lv pt bk : ℕ) (fs : List ℕ) (n : ℕ)
      → ((nextop : BinOpr)
          → From base
              (sizes it lv pt bk fs (suc n))
              (sizes it lv pt bk fs (suc n))
              (binary env self fuel limit begintoken nextop none))
      → From base (sizes it lv pt bk fs (suc n)) (sizes it lv pt bk fs (suc n)) (do
        t ← token
        check_lua_operator t
        exps ← new_list_before
        add_entry exps
        pos ← getposition
        next env
        beginrhs ← current_token
        nextop ← returns 1 (self.subexpr (priority op).1)
        replace_lhs env self begintoken beginrhs lhs
        add_entry exps
        push_string_before (token2rawstr t)
        new_object "operator" 2 pos
        binary env self fuel limit begintoken nextop none)
  binary_step-From fuel limit begintoken op lhs base it lv pt bk fs n again =
      search (steps, parts, good.subexpr, replace_lhs-Keeps) depth 40 fits 8000

  binary-From :
      (fuel limit : ℕ) (begintoken : Token) (op : BinOpr) (lhs : Option (List ℕ)) (base : List Tree)
      (it lv pt bk : ℕ) (fs : List ℕ) (n : ℕ)
      → From base
          (sizes it lv pt bk fs (suc n))
          (sizes it lv pt bk fs (suc n))
          (binary env self fuel limit begintoken op lhs)
  unfolding binary
  binary-From zero limit begintoken op lhs base it lv pt bk fs n = exhausted-From base _ _
  binary-From (suc fuel) limit begintoken op lhs base it lv pt bk fs n =
      let S = sizes it lv pt bk fs (suc n) in
      From-choose base S S (binds_above limit op) _ (pure op)
        (binary_step-From fuel limit begintoken op lhs base it lv pt bk fs n
          λ nextop. binary-From fuel limit begintoken nextop none base it lv pt bk fs n)
        ((pure-Keeps op).keeps base S)

  pub subexpr-Pushes : (limit : ℕ) → Pushes (subexpr env self limit)
  unfolding subexpr
  subexpr-Pushes limit = record {
    pushes = λ base it lv pt bk fs n.
        search (steps, parts, loop-then, unary-Pushes, saved_lhs-Keeps, binary-From) depth 40 fits
          8000;
  }
