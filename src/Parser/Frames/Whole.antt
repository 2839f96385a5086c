-- ===== src/Parser/Frames/Whole.antt =====
-- src/lparser.cpp: statements, expressions and whole programs leave the state balanced.
use terra.Common.{
  subst, ℕ, zero, suc, ◌≡◌, refl, ap, sym, ◌∙◌, true, false, List, [], ◌∷◌, arith, length, ltb,
  if◌then◌else◌,
}
use terra.Parser.State
use terra.Parser.State.{
  Tree, Trees, empty, item, list, Position, Message, unexpected_symbol, arguments_expected,
  parameter_expected, outside_vararg, case_outside_switch, case_not_terminated, in_expected,
  reported, BlockCnt, FuncState, PState, Result, ok, err, fault, out_of_fuel, P, ◌>>=◌, ◌>>◌, pure,
  get, put, failed, exhausted, lex, set_lex, when, branch, assert, lift, lifted, modify_lex, token,
  syntaxerror, is_terra, in_terra, position, getposition,
}
use terra.Parser.Frames.{sizes, block_counts, Above, Has, Returns, Pushes, depth}
use terra.Parser.Env.{Lua}
use terra.Parser.Operators.{BinOpr}
use terra.Parser.Frames.Expressions.{subexpr-Pushes}
use terra.Parser.Frames.Grammar.{statement-Pushes, rules-Good}
use terra.Parser.Expressions.{subexpr}
use terra.Parser.Main.{statement, rules}
use terra.Parser.Frames.Stack.{depth-zero, Above-zero}

-- The counters and the chains have their sizes again. The stack of Lua is as before in Lua code, and has
-- one value more in Terra code.
pub record Balanced (s s' : PState) : Type 0 where
  pub terra : s'.lex.in_terra ≡ s.lex.in_terra
  pub levels : s'.c_calls ≡ s.c_calls
  pub parts : length s'.terracnt ≡ length s.terracnt
  pub chain : block_counts s'.fs ≡ block_counts s.fs
  pub top : Tree
  pub stack : s'.stack ≡ (if is_terra s then top ∷ s.stack else s.stack)

own :
    (it : ℕ) (s : PState) (f : FuncState) (prev : List FuncState)
    → s.lex.in_terra ≡ it
    → s.fs ≡ f ∷ prev
    → Has s.stack (sizes it s.c_calls (length s.terracnt) (length f.bl) (block_counts prev) 0) s
own it s f prev e e' = record {
  terra = e;
  levels = refl;
  parts = refl;
  chain = ap block_counts e';
  above = subst (λ x. Above x s.stack s.stack) (sym (depth-zero it)) ([], refl, refl);
}

single : (base st : List Tree) → Above 1 base st → (v : Tree) × (st ≡ v ∷ base)
single base st ([], e, l) = ground arith
single base st (v ∷ [], e, l) = (v, e)
single base st (v ∷ w ∷ xs, e, l) = ground arith

balanced :
    (it : ℕ) (s s' : PState) (f : FuncState) (prev : List FuncState)
    → s.lex.in_terra ≡ it
    → s.fs ≡ f ∷ prev
    → Has s.stack (sizes it s.c_calls (length s.terracnt) (length f.bl) (block_counts prev) 1) s'
    → Balanced s s'
unfolding depth
balanced zero s s' f prev e e' h =
    let lua : is_terra s ≡ false = ap (ltb 0) e in
    record {
      terra = h.terra ∙ sym e;
      levels = h.levels;
      parts = h.parts;
      chain = h.chain ∙ sym (ap block_counts e');
      top = State.nil;
      stack = rw lua (Above-zero s.stack s'.stack h.above);
    }
balanced (suc it) s s' f prev e e' h =
    let terra : is_terra s ≡ true = ap (ltb 0) e ∙ (ground arith) in
    let (v, same) = single s.stack s'.stack h.above in
    record {
      terra = h.terra ∙ sym e;
      levels = h.levels;
      parts = h.parts;
      chain = h.chain ∙ sym (ap block_counts e');
      top = v;
      stack = rw terra same;
    }

part-Balanced :
    {A : Type 0} (m : P A) (s s' : PState) (a : A) (f : FuncState) (prev : List FuncState)
    → Pushes m
    → s.fs ≡ f ∷ prev
    → m s ≡ ok a s'
    → Balanced s s'
part-Balanced m s s' a f prev h e e' =
    let it = s.lex.in_terra in
    balanced it s s' f prev refl e (
      subst
        (Returns s.stack
          (sizes it s.c_calls (length s.terracnt) (length f.bl) (block_counts prev) 1))
        e'
        ((h.pushes s.stack it s.c_calls (length s.terracnt) (length f.bl) (block_counts prev) 0).at
          s (own it s f prev refl e)))

-- A statement that is parsed in a function leaves `in_terra`, the levels, the number of Terra parts and
-- the numbers of blocks as they were. In Terra code it puts one tree on the stack of Lua and leaves what
-- stands below, and in Lua code it leaves the stack as it was.
pub statement-Balanced :
    (env : Lua) (fuel : ℕ) (s s' : PState) (f : FuncState) (prev : List FuncState)
    → s.fs ≡ f ∷ prev
    → statement env (rules env fuel) s ≡ ok tt s'
    → Balanced s s'
statement-Balanced env fuel s s' f prev e h =
    part-Balanced (statement env (rules env fuel)) s s' tt f prev
      (statement-Pushes env (rules env fuel) (rules-Good env fuel)) e h

-- An expression that is parsed in a function, at any limit of the priorities, leaves `in_terra`, the
-- levels, the number of Terra parts and the numbers of blocks as they were. In Terra code it puts one
-- tree on the stack of Lua and leaves what stands below, and in Lua code it leaves the stack as it was.
pub subexpr-Balanced :
    (env : Lua) (fuel limit : ℕ) (s s' : PState) (op : BinOpr) (f : FuncState)
    (prev : List FuncState)
    → s.fs ≡ f ∷ prev
    → subexpr env (rules env fuel) limit s ≡ ok op s'
    → Balanced s s'
subexpr-Balanced env fuel limit s s' op f prev e h =
    part-Balanced (subexpr env (rules env fuel) limit) s s' op f prev
      (subexpr-Pushes env (rules env fuel) (rules-Good env fuel) limit) e h
