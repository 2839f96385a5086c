-- ===== src/Parser/Stack.antt =====
-- src/lparser.cpp: the functions that build the trees on the stack of Lua, in Terra code only.
pub mod Laws
use terra.Common.{
  ℕ, zero, suc, ◌+◌, ◌-◌, Bool, Option, none, some, List, [], ◌∷◌, ltb, ◌==◌, length, not,
  if◌then◌else◌, ◌&&◌,
}
use Prim.Native.String.{String}
use terra.Token.{codes}
use terra.Parser.State.{
  Position, Tree, Trees, nil, table, boolean, string, double, integer, type_of, list, with_field,
  object, empty, item, PState, unmatched_return, ok, fault, P, ◌>>=◌, ◌>>◌, pure, get, when, branch,
  syntaxerror, is_terra, in_terra, position,
}

abbrev pub push : Tree → P (Unit {0})
push v s = ok tt (record s { stack = v ∷ s.stack })

-- `lua_gettop`, the index of the value on the top
abbrev pub gettop : PState → ℕ
gettop s = length s.stack

-- `RETURNS_N`
unfoldable pub returns : {A : Type 0} → ℕ → P A → P A
returns n m = do
  s ← get
  a ← m
  s' ← get
  branch (is_terra s && not (gettop s + n == gettop s')) (syntaxerror unmatched_return) (pure a)

-- a push and `lua_insert(L, -2)`: a value goes below the one on the top.
unfoldable pub insert_before : Tree → P (Unit {0})
insert_before v s = elim s.stack [
  | [] ↦ fault
  | top ∷ below ↦ ok tt (record s { stack = top ∷ v ∷ below })
]

unfoldable pub new_table : P ℕ
new_table s =
    if is_terra s then ok (gettop s + 1) (record s { stack = table ∷ s.stack }) else ok 0 s

unfoldable pub new_list : P ℕ
new_list s =
    if is_terra s then ok (gettop s + 1) (record s { stack = list empty ∷ s.stack }) else ok 0 s

unfoldable pub new_list_before : P ℕ
unfolding insert_before
new_list_before = do
  s ← get
  branch (is_terra s) (insert_before (list empty) >> pure (gettop s)) (pure 0)

unfoldable pub push_string_before : List ℕ → P (Unit {0})
unfolding insert_before
push_string_before str = do terra ← in_terra; when terra (insert_before (string str))

unfoldable pub push_string : List ℕ → P (Unit {0})
push_string str = do terra ← in_terra; when terra (push (string str))

unfoldable pub push_boolean : Bool → P (Unit {0})
push_boolean b = do terra ← in_terra; when terra (push (boolean b))

unfoldable pub push_nil : P (Unit {0})
push_nil = do terra ← in_terra; when terra (push nil)

unfoldable pub push_double : ℕ → P (Unit {0})
push_double d = do terra ← in_terra; when terra (push (double d))

unfoldable pub push_integer : ℕ → P (Unit {0})
push_integer i = do terra ← in_terra; when terra (push (integer i))

unfoldable pub push_type : List ℕ → P (Unit {0})
push_type typ = do terra ← in_terra; when terra (push (type_of typ))

-- the value `depth` places below the top, changed in place
unfoldable pub update_below : ℕ → (Tree → Option Tree) → List Tree → Option (List Tree)
update_below depth f [] = none
update_below zero f (v ∷ below) = elim (f v) [ none ↦ none | some w ↦ some (w ∷ below) ]
update_below (suc depth) f (v ∷ below) = elim (update_below depth f below) [
  | none ↦ none
  | some rest ↦ some (v ∷ rest)
]

-- the value at an index is changed by one that is taken from the top
unfoldable pub consume : ℕ → (Tree → Tree → Option Tree) → List Tree → Option (List Tree)
unfolding update_below
consume index f [] = none
consume zero f (v ∷ below) = none
consume (suc index) f (v ∷ below) =
    if ltb index (length below) then update_below (length below - (index + 1)) (f v) below else none

unfoldable pub with_stack : Option (List Tree) → P (Unit {0})
with_stack none s = fault
with_stack (some stack) s = ok tt (record s { stack = stack })

-- `lua_setfield`, which a table, an object and a list take
unfoldable pub set_field : List ℕ → Tree → Tree → Option Tree
set_field field v nil = none
set_field field v (boolean b) = none
set_field field v (string str) = none
set_field field v (double d) = none
set_field field v t = some (with_field t field v)

-- `add_field` with an index from the bottom
unfoldable pub add_field : ℕ → List ℕ → P (Unit {0})
unfolding set_field consume with_stack
add_field index field = do
  s ← get
  when (is_terra s) (with_stack (consume index (set_field field) s.stack))

unfoldable pub append : Trees → Tree → Trees
append empty v = item v empty
append (item t ts) v = item t (append ts v)

-- the entries of a list with one behind the last; `nil` is no entry.
unfoldable pub with_entry : Trees → Tree → Trees
unfolding append
with_entry ts nil = ts
with_entry ts v = append ts v

unfoldable pub set_entry : Tree → Tree → Option Tree
unfolding with_entry
set_entry v (list ts) = some (list (with_entry ts v))
set_entry v t = none

-- `add_entry`, with `add_index`
unfoldable pub add_entry : ℕ → P (Unit {0})
unfolding set_entry consume with_stack
add_entry index = do s ← get; when (is_terra s) (with_stack (consume index set_entry s.stack))

-- the topmost `n` values, the lowest first, before `args`, and the stack below them
unfoldable pub pop : ℕ → Trees → List Tree → Option (Trees × List Tree)
pop zero args stack = some (args, stack)
pop (suc n) args [] = none
pop (suc n) args (v ∷ stack) = pop n (item v args) stack

unfoldable pub pushed_object : List ℕ → Position → Option (Trees × List Tree) → P (Unit {0})
pushed_object kind p none s = fault
pushed_object kind p (some (args, below)) s =
    ok tt (record s { stack = object kind args p ∷ below })

-- `new_object`; a constructor of `terra.irtypes` that raises an error ends the process.
unfoldable pub new_object : String → ℕ → Position → P (Unit {0})
unfolding pop pushed_object
new_object kind n p = do
  s ← get
  when (is_terra s) (pushed_object (codes kind) p (pop n empty s.stack))

unfoldable pub push_literal : List ℕ → P (Unit {0})
unfolding push_type new_object
push_literal typ = do
  s ← get
  when (is_terra s) (push_type typ >> new_object "literal" 2 (position s.lex))

unfoldable pub snoc : List Tree → Tree → List Tree
snoc [] v = v ∷ []
snoc (t ∷ ts) v = t ∷ snoc ts v

-- the top moved to the end of `_G.terra._trees`, whose new length is returned
unfoldable pub move_top : List Tree → P ℕ
unfolding snoc
move_top [] s = fault
move_top (v ∷ below) s =
    ok (length s.trees + 1) (record s { stack = below; trees = snoc s.trees v })

unfoldable pub store_value : P ℕ
unfolding move_top
store_value = do s ← get; branch (is_terra s) (move_top s.stack) (pure 0)
