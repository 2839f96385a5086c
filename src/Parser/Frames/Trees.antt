-- ===== src/Parser/Frames/Trees.antt =====
-- src/lparser.cpp: the values that the functions which build the trees put on the stack and take.
use terra.Common.{ℕ, suc, Bool, Option, none, some, List, ◌∷◌}
use Prim.Native.String.{String}
use terra.Parser.State
use terra.Parser.State.{
  Tree, Trees, empty, item, list, Position, Message, BlockCnt, FuncState, PState, Result, ok, err,
  fault, out_of_fuel, P, ◌>>=◌, ◌>>◌, pure, get, put, failed, exhausted, lex, set_lex, when, branch,
  assert, lift, lifted, modify_lex, token, syntaxerror, is_terra, in_terra, position, getposition,
}
use terra.Parser.Frames.{sizes, Above, Has, Returns, From, Pushes, depth}
use terra.Token.{codes}
use terra.Parser.Stack.{
  push, push_string, push_boolean, push_nil, push_double, push_integer, push_type, pop,
  pushed_object, new_object,
}
use terra.Parser.Frames.Stack.{more, Above-push, Holds, pop-Above, stack-Has, from_terra, lua_only}

-- in Terra code
pub push-From :
    (base : List Tree) (it lv pt bk : ℕ) (fs : List ℕ) (n : ℕ) (v : Tree)
    → From base (sizes (suc it) lv pt bk fs n) (sizes (suc it) lv pt bk fs (suc n)) (push v)
unfolding depth
push-From base it lv pt bk fs n v = record {
  at = λ s h.
      stack-Has base (suc it) lv pt bk fs n (suc n) s (v ∷ s.stack) h
        (Above-push n base s.stack v h.above);
}

push_terra-Pushes : (v : Tree) → Pushes (in_terra >>= λ terra. when terra (push v))
push_terra-Pushes v = record {
  pushes = λ base it lv pt bk fs n.
      from_terra base it lv pt bk fs n (suc n) (λ terra. when terra (push v))
        (lua_only base lv pt bk fs n (suc n)) λ it' e. push-From base it' lv pt bk fs n v;
}

pub push_string-Pushes : (str : List ℕ) → Pushes (push_string str)
unfolding push_string
push_string-Pushes str = push_terra-Pushes (State.string str)

pub push_boolean-Pushes : (b : Bool) → Pushes (push_boolean b)
unfolding push_boolean
push_boolean-Pushes b = push_terra-Pushes (State.boolean b)

pub push_nil-Pushes : Pushes push_nil
unfolding push_nil
push_nil-Pushes = push_terra-Pushes State.nil

pub push_double-Pushes : (d : ℕ) → Pushes (push_double d)
unfolding push_double
push_double-Pushes d = push_terra-Pushes (State.double d)

pub push_integer-Pushes : (i : ℕ) → Pushes (push_integer i)
unfolding push_integer
push_integer-Pushes i = push_terra-Pushes (State.integer i)

pub push_type-Pushes : (typ : List ℕ) → Pushes (push_type typ)
unfolding push_type
push_type-Pushes typ = push_terra-Pushes (State.type_of typ)

new_object_terra :
    (base : List Tree) (it lv pt bk : ℕ) (fs : List ℕ) (k n : ℕ) (kind : List ℕ) (p : Position)
    (s : PState)
    → Has base (sizes (suc it) lv pt bk fs (more k n)) s
    → (o : Option (Trees × List Tree)) → Holds (λ r. Above n base r.1) o
    → Returns base (sizes (suc it) lv pt bk fs (suc n)) (pushed_object kind p o s)
unfolding pushed_object depth
new_object_terra base it lv pt bk fs k n kind p s h none a = tt
new_object_terra base it lv pt bk fs k n kind p s h (some (args, below)) a =
    stack-Has base (suc it) lv pt bk fs (more k n) (suc n) s (State.object kind args p ∷ below) h
      (Above-push n base below _ a)

-- The arguments of an object are replaced by it.
pub new_object-From :
    (base : List Tree) (it lv pt bk : ℕ) (fs : List ℕ) (k n : ℕ) (kind : String) (p : Position)
    → From base
        (sizes it lv pt bk fs (more k n))
        (sizes it lv pt bk fs (suc n))
        (new_object kind k p)
unfolding new_object
new_object-From base it lv pt bk fs k n kind p =
    from_terra base it lv pt bk fs (more k n) (suc n)
      (λ b s. when b (pushed_object (codes kind) p (pop k empty s.stack)) s)
      (lua_only base lv pt bk fs (more k n) (suc n))
      λ it' e. record {
        at = λ s h.
            new_object_terra base it' lv pt bk fs k n (codes kind) p s h (pop k empty s.stack)
              (unfold depth in pop-Above k n base empty s.stack h.above);
      }
