-- ===== src/Parser/Stack/Laws.antt =====
-- src/lparser.cpp: what `new_object` and `add_entry` do to the stack of Lua.
use terra.Common.{ℕ, suc, ◌+◌, ◌≡◌, refl, ap, ◌∙◌, true, some, List, ◌∷◌, arith}
use Prim.Native.String.{String}
use terra.Token.{codes}
use terra.Parser.State.{Tree, Trees, empty, item, object, Position, PState, ok, is_terra}
use terra.Parser.Stack.{pop, pushed_object, new_object}

-- the stack behind the pushes of the values, the first one first
abbrev pub pushed : Trees → List Tree → List Tree
pushed empty stack = stack
pushed (item t ts) stack = pushed ts (t ∷ stack)

abbrev pub size : Trees → ℕ
size empty = 0
size (item t ts) = suc (size ts)

abbrev cat : Trees → Trees → Trees
cat empty us = us
cat (item t ts) us = item t (cat ts us)

cat-empty : (ts : Trees) → cat ts empty ≡ ts
cat-empty empty = refl
cat-empty (item t ts) = ap (item t) (cat-empty ts)

pop-pushed :
    (ts args : Trees) (stack : List Tree) (k : ℕ)
    → pop (size ts + k) args (pushed ts stack) ≡ pop k (cat ts args) stack
unfolding pop
pop-pushed empty args stack k = let e : 0 + k ≡ k = omega arith in rw e refl
pop-pushed (item t ts) args stack k =
    let e : suc (size ts) + k ≡ size ts + suc k = omega arith in
    rw e (pop-pushed ts args (t ∷ stack) (suc k))

-- An object is made of the values that have been pushed for it, in their order, and takes their place
-- on the stack.
pub new_object-pushed :
    (kind : String) (ts : Trees) (p : Position) (s : PState) (below : List Tree)
    → is_terra s ≡ true
    → s.stack ≡ pushed ts below
    → new_object kind (size ts) p s ≡ ok tt (record s { stack = object (codes kind) ts p ∷ below })
unfolding new_object pushed_object
new_object-pushed kind ts p s below terra e =
    let e' : size ts ≡ size ts + 0 = omega arith in
    let popped : pop (size ts) empty s.stack ≡ some (ts, below) =
      ap (pop (size ts) empty) e
      ∙ ap (λ n. pop n empty (pushed ts below)) e'
      ∙ pop-pushed ts empty below 0
      ∙ unfold pop in ap (λ us. some (us, below)) (cat-empty ts) in
    rw (terra, popped) refl
