-- ===== src/Parser/Frames/InLua.antt =====
-- src/lparser.cpp: parts of the grammar that Terra code refuses.
use terra.Common.{ℕ, suc, Bool, true, false, List}
use Prim.Native.String.{String}
use terra.Parser.State
use terra.Parser.State.{
  Tree, Trees, empty, item, list, Position, Message, BlockCnt, FuncState, PState, Result, ok, err,
  fault, out_of_fuel, P, ◌>>=◌, ◌>>◌, pure, get, put, failed, exhausted, lex, set_lex, when, branch,
  assert, lift, lifted, modify_lex, token, syntaxerror, is_terra, in_terra, position, getposition,
}
use terra.Parser.Frames.{Shape, sizes, Returns, From, Keeps, Pushes}
use terra.Parser.Frames.Binds.{From-bind, keep-then}
use terra.Token.{codes}
use terra.Parser.Checks.{check_no_terra}
use terra.Parser.Frames.Stack.{lua-Has, from_terra}

-- a part that Lua code only may have
pub record InLua {A : Type 0} (m : P A) : Type 0 where
  pub in_lua :
      (base : List Tree) (lv pt bk : ℕ) (fs : List ℕ) (n : ℕ)
      → From base (sizes 0 lv pt bk fs n) (sizes 0 lv pt bk fs n) m

module _ {A : Type 0} where
  pub Keeps-InLua : (m : P A) → Keeps m → InLua m
  Keeps-InLua m h = record { in_lua = λ base lv pt bk fs n. h.keeps base (sizes 0 lv pt bk fs n) }

  Returns-lua :
      (base : List Tree) (lv pt bk : ℕ) (fs : List ℕ) (n n' : ℕ) (r : Result A)
      → Returns base (sizes 0 lv pt bk fs n) r
      → Returns base (sizes 0 lv pt bk fs n') r
  Returns-lua base lv pt bk fs n n' (ok a s) h = lua-Has base lv pt bk fs n n' s h
  Returns-lua base lv pt bk fs n n' (err e s) h = tt
  Returns-lua base lv pt bk fs n n' fault h = tt
  Returns-lua base lv pt bk fs n n' out_of_fuel h = tt

  pub Pushes-InLua : (m : P A) → Pushes m → InLua m
  Pushes-InLua m h = record {
    in_lua = λ base lv pt bk fs n. record {
      at = λ s e.
          Returns-lua base lv pt bk fs (suc n) n (m s) ((h.pushes base 0 lv pt bk fs n).at s e);
    };
  }

  pub InLua-branch : (b : Bool) (m k : P A) → InLua m → InLua k → InLua (branch b m k)
  InLua-branch true m k h h' = h
  InLua-branch false m k h h' = h'

  pub Keeps-then-InLua :
      {B : Type 0} (m : P B) (f : B → P A) → Keeps m → ((b : B) → InLua (f b)) → InLua (m >>= f)
  Keeps-then-InLua m f h k = record {
    in_lua = λ base lv pt bk fs n.
        keep-then base (sizes 0 lv pt bk fs n) (sizes 0 lv pt bk fs n) m f h
          λ b. (k b).in_lua base lv pt bk fs n;
  }

  pub lua-then :
      {B : Type 0} (base : List Tree) (lv pt bk : ℕ) (fs : List ℕ) (n : ℕ) (E : Shape) (m : P B)
      (f : B → P A)
      → InLua m
      → ((b : B) → From base (sizes 0 lv pt bk fs n) E (f b))
      → From base (sizes 0 lv pt bk fs n) E (m >>= f)
  lua-then base lv pt bk fs n E m f h k = From-bind base _ _ E m f (h.in_lua base lv pt bk fs n) k

  -- What is refused in Terra code runs in Lua code.
  pub lua_only-Pushes :
      (thing : String) (f : Unit {0} → P A) → InLua (f tt) → Pushes (check_no_terra thing >>= f)
  unfolding check_no_terra
  lua_only-Pushes thing f h = record {
    pushes = λ base it lv pt bk fs n.
        from_terra base it lv pt bk fs n (suc n)
          (λ terra. when terra (syntaxerror (State.cannot_be_nested (codes thing))) >>= f)
          (record {
            at = λ s e.
                Returns-lua base lv pt bk fs n (suc n) (f tt s)
                  ((h.in_lua base lv pt bk fs n).at s e);
          })
          λ it' e. record { at = λ s e. tt };
  }
