-- ===== src/Parser/Frames/Within.antt =====
-- src/lparser.cpp: parts that run with another value of in_terra.
use terra.Common.{
  subst, ℕ, suc, ◌+◌, ◌≡◌, refl, ap, sym, ◌∙◌, true, some, List, [], ◌∷◌, ◌++◌, arith, length, ltb,
}
use terra.Parser.State
use terra.Parser.State.{
  Tree, Trees, empty, item, list, Position, Message, unexpected_symbol, arguments_expected,
  parameter_expected, outside_vararg, case_outside_switch, case_not_terminated, in_expected,
  reported, BlockCnt, FuncState, PState, Result, ok, err, fault, out_of_fuel, P, ◌>>=◌, ◌>>◌, pure,
  get, put, failed, exhausted, lex, set_lex, when, branch, assert, lift, lifted, modify_lex, token,
  syntaxerror, is_terra, in_terra, position, getposition,
}
use terra.Parser.Frames.{Shape, sizes, Above, Has, Returns, From, Keeps, Inside, depth}
use terra.Parser.Frames.Binds.{From-bind, keep-then}
use terra.Token.{codes}
use terra.Lexer.Numeral.{c_str}
use terra.Parser.Stack.{push, add_field, store_value, gettop}
use terra.Parser.Output.{print, tree_text, print_captured_locals, set_in_terra}
use terra.Parser.Frames.Entries.{add_field-From}
use terra.Parser.Frames.Lists.{store_value-From}
use terra.Parser.Frames.Checks.{print-Keeps}
use mathlib.Core.Path.{fun_ext}
use terra.Parser.Output.{print_locals}
use terra.Parser.Stack.{new_table}
use terra.Parser.Frames.Stack.{depth-zero, Above-zero, Above-length, Above-push, stack-Has, with}
use terra.Parser.Frames.Trees.{push-From}

bind_assoc :
    {A B C : Type 0} (r : Result A) (g : A → P B) (f : B → P C)
    → State.bind (State.bind r g) f ≡ State.bind r λ a. g a >>= f
bind_assoc (ok a s) g f = refl
bind_assoc (err e s) g f = refl
bind_assoc fault g f = refl
bind_assoc out_of_fuel g f = refl

-- three actions as one part
three :
    {A B C D : Type 0} (m : P A) (g : A → P B) (h : B → P C) (f : C → P D)
    → ((m >>= λ a. g a >>= h) >>= f) ≡ (m >>= λ a. g a >>= λ b. h b >>= f)
three m g h f =
    fun_ext (λ s. bind_assoc (m s) (λ a. g a >>= h) f)
    ∙ ap (λ k. m >>= k) (fun_ext λ a. fun_ext λ s. bind_assoc (g a s) h f)

module _ (base : List Tree) (E : Shape) where
  -- the state behind a part that has run with another value of `in_terra`, on top of the whole stack
  restored :
      {A B : Type 0} (it it' lv pt bk : ℕ) (fs : List ℕ) (n : ℕ) (s : PState) (r : Result B)
      (f : B → P A)
      → Has base (sizes it lv pt bk fs n) s
      → Returns s.stack (sizes it' lv pt bk fs 0) r
      → ((b : B) → From base (sizes it lv pt bk fs n) E (f b))
      → Returns base E (State.bind r λ b. set_in_terra s.lex.in_terra >>= λ _. f b)
  restored it it' lv pt bk fs n s (ok b s') f h h' k =
      let none_above : depth it' 0 ≡ 0 = depth-zero it' in
      let same : s'.stack ≡ s.stack =
        Above-zero s.stack s'.stack (subst (λ x. Above x s.stack s'.stack) none_above h'.above) in
      (k b).at (record s' { lex = record (s'.lex) { in_terra = s.lex.in_terra } })
        (record {
          terra = h.terra;
          levels = h'.levels;
          parts = h'.parts;
          chain = h'.chain;
          above = subst (Above (depth it n) base) (sym same) h.above;
        })
  restored it it' lv pt bk fs n s (err e s') f h h' k = tt
  restored it it' lv pt bk fs n s fault f h h' k = tt
  restored it it' lv pt bk fs n s out_of_fuel f h h' k = tt

  -- A part that runs with another value of `in_terra` sees none of the values of the stack.
  within-then :
      {A B : Type 0} (it it' lv pt bk : ℕ) (fs : List ℕ) (n : ℕ) (part : P B) (f : B → P A)
      → ((base' : List Tree) → From base' (sizes it' lv pt bk fs 0) (sizes it' lv pt bk fs 0) part)
      → ((b : B) → From base (sizes it lv pt bk fs n) E (f b))
      → From base (sizes it lv pt bk fs n) E (
          lex >>= λ l. set_in_terra it' >>= λ _. part >>= λ b. set_in_terra l.in_terra >>= λ _. f b)
  within-then it it' lv pt bk fs n part f h k = record {
    at = λ s e.
        let s1 : PState = record s { lex = record (s.lex) { in_terra = it' } } in
        restored it it' lv pt bk fs n s (part s1) f e
          ((h s.stack).at s1 (record {
            terra = refl;
            levels = e.levels;
            parts = e.parts;
            chain = e.chain;
            above = subst (λ x. Above x s.stack s.stack) (sym (depth-zero it')) ([], refl, refl);
          }))
          k;
  }

  pub within3-then :
      {A B C D : Type 0} (it it' lv pt bk : ℕ) (fs : List ℕ) (n : ℕ) (m : P B) (g : B → P C)
      (h : C → P D) (f : D → P A)
      → ((base' : List Tree)
          → From base' (sizes it' lv pt bk fs 0) (sizes it' lv pt bk fs 0) (m >>= λ a. g a >>= h))
      → ((b : D) → From base (sizes it lv pt bk fs n) E (f b))
      → From base (sizes it lv pt bk fs n) E (
          lex >>= λ l. set_in_terra it' >>= λ _.
          m >>= λ a. g a >>= λ b. h b >>= λ d. set_in_terra l.in_terra >>= λ _. f d)
  within3-then it it' lv pt bk fs n m g h f part k =
      subst (From base (sizes it lv pt bk fs n) E)
        (ap (λ r. lex >>= λ l. set_in_terra it' >>= λ _. r l)
          (fun_ext λ l. three m g h λ d. set_in_terra l.in_terra >>= λ _. f d))
        (within-then it it' lv pt bk fs n (m >>= λ a. g a >>= h) f part k)

print_locals-From :
    (base : List Tree) (it lv pt bk : ℕ) (fs : List ℕ) (n tbl : ℕ) (captured : List (List ℕ))
    → Inside base (suc it) tbl
    → From base
        (sizes (suc it) lv pt bk fs (suc n))
        (sizes (suc it) lv pt bk fs (suc n))
        (print_locals tbl captured)
unfolding print_locals
print_locals-From base it lv pt bk fs n tbl [] i = record { at = λ s h. h }
print_locals-From base it lv pt bk fs n tbl (str ∷ rest) i =
    let S = sizes (suc it) lv pt bk fs (suc n) in
    From-bind base S (sizes (suc it) lv pt bk fs (suc (suc n))) S (push (State.boolean true)) _
      (push-From base it lv pt bk fs (suc n) (State.boolean true))
      λ _.
        From-bind base _ S S (add_field tbl (c_str str)) _
          (add_field-From base (suc it) lv pt bk fs n tbl (c_str str) i)
          λ _.
            keep-then base S S _ _
              (print-Keeps (c_str str ++ (codes " = " ++ (c_str str ++ codes ";"))))
              λ _. print_locals-From base it lv pt bk fs n tbl rest i

new_table-then :
    {A : Type 0} (base : List Tree) (it lv pt bk : ℕ) (fs : List ℕ) (n : ℕ) (E : Shape)
    (f : ℕ → P A)
    → ((tbl : ℕ)
        → Inside base (suc it) tbl
        → From base (sizes (suc it) lv pt bk fs (suc n)) E (f tbl))
    → From base (sizes (suc it) lv pt bk fs n) E (new_table >>= f)
unfolding new_table depth
new_table-then base it lv pt bk fs n E f k = record {
  at = λ s h.
      let e : is_terra s ≡ true = ap (ltb 0) h.terra ∙ (ground arith) in
      let total : length s.stack ≡ n + length base = Above-length n base s.stack h.above in
      rw e (
        (k (gettop s + 1) (n, omega (arith, total))).at (with s (State.table ∷ s.stack)) (
          stack-Has base (suc it) lv pt bk fs n (suc n) s (State.table ∷ s.stack) h
            (Above-push n base s.stack State.table h.above)));
}

printed :
    (base : List Tree) (S : Shape) (captured : List (List ℕ))
    → From base S S (print_captured_locals captured)
unfolding print_captured_locals
printed base (sizes it lv pt bk fs n) captured =
    let S = sizes it lv pt bk fs n in
    keep-then base S S _ _ (print-Keeps (codes "function() return terra.makeenv({ ")) λ _.
      within3-then base S it 1 lv pt bk fs n new_table (λ tbl. print_locals tbl captured)
        (λ _. store_value)
        (λ defined. print (codes " }," ++ (tree_text (some defined) ++ codes ",getfenv()) end")))
        (λ base'. new_table-then base' 0 lv pt bk fs 0 (sizes 1 lv pt bk fs 0) _ λ tbl i.
          From-bind base' _ (sizes 1 lv pt bk fs 1) _ (print_locals tbl captured) _
            (print_locals-From base' 0 lv pt bk fs 0 tbl captured i)
            λ _. store_value-From base' 1 lv pt bk fs 0)
        λ defined.
          (print-Keeps (codes " }," ++ (tree_text (some defined) ++ codes ",getfenv()) end"))).keeps
            base S

pub print_captured_locals-Keeps :
    (captured : List (List ℕ)) → Keeps (print_captured_locals captured)
unfolding print_captured_locals
print_captured_locals-Keeps captured = record { keeps = λ base S. printed base S captured }
