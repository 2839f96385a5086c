-- ===== src/Parser/Frames/Entries.antt =====
-- src/lparser.cpp: the entries and fields of values on the stack, and the values put below the top.
use terra.Common.{subst, ℕ, zero, suc, ◌+◌, ◌-◌, ◌≡◌, sym, Option, List, [], ◌∷◌, arith, length}
use terra.Parser.State
use terra.Parser.State.{
  Tree, Trees, empty, item, list, Position, Message, BlockCnt, FuncState, PState, Result, ok, err,
  fault, out_of_fuel, P, ◌>>=◌, ◌>>◌, pure, get, put, failed, exhausted, lex, set_lex, when, branch,
  assert, lift, lifted, modify_lex, token, syntaxerror, is_terra, in_terra, position, getposition,
}
use terra.Parser.Frames.{Shape, sizes, Above, Has, Returns, From, Inside, depth}
use terra.Parser.Stack.{
  gettop, insert_before, push_string_before, consume, with_stack, set_field, add_field, set_entry,
  add_entry,
}
use terra.Parser.Frames.Stack.{
  Above-length, Above-push, Above-pop, Holds, consume-Above, stack-Has, with_stack-Returns,
  from_terra, lua_only,
}

-- The value on the top goes into one above the base.
consume-From :
    (base : List Tree) (it lv pt bk : ℕ) (fs : List ℕ) (n tbl : ℕ) (g : Tree → Tree → Option Tree)
    → Inside base it tbl
    → From base
        (sizes it lv pt bk fs (suc (suc n)))
        (sizes it lv pt bk fs (suc n))
        (get >>= λ s. when (is_terra s) (with_stack (consume tbl g s.stack)))
consume-From base it lv pt bk fs n tbl g i =
    from_terra base it lv pt bk fs (suc (suc n)) (suc n)
      (λ b s. when b (with_stack (consume tbl g s.stack)) s)
      (lua_only base lv pt bk fs (suc (suc n)) (suc n))
      λ it' e. record {
        at = λ s h.
            let (d, e') = subst (λ x. Inside base x tbl) e i in
            with_stack-Returns base (suc it') lv pt bk fs (suc (suc n)) (suc n) s
              (consume tbl g s.stack) h
              (unfold depth in
                subst (λ x. Holds (Above (suc n) base) (consume x g s.stack)) (sym e')
                  (consume-Above d n g base s.stack h.above));
      }

pub add_entry-From :
    (base : List Tree) (it lv pt bk : ℕ) (fs : List ℕ) (n tbl : ℕ)
    → Inside base it tbl
    → From base (sizes it lv pt bk fs (suc (suc n))) (sizes it lv pt bk fs (suc n)) (add_entry tbl)
unfolding add_entry
add_entry-From base it lv pt bk fs n tbl i = consume-From base it lv pt bk fs n tbl set_entry i

pub add_field-From :
    (base : List Tree) (it lv pt bk : ℕ) (fs : List ℕ) (n tbl : ℕ) (field : List ℕ)
    → Inside base it tbl
    → From base
        (sizes it lv pt bk fs (suc (suc n)))
        (sizes it lv pt bk fs (suc n))
        (add_field tbl field)
unfolding add_field
add_field-From base it lv pt bk fs n tbl field i =
    consume-From base it lv pt bk fs n tbl (set_field field) i

-- the index of the value on the top
pub top-Inside :
    (base : List Tree) (it lv pt bk : ℕ) (fs : List ℕ) (n : ℕ) (s : PState)
    → Has base (sizes it lv pt bk fs (suc n)) s
    → Inside base it (gettop s)
unfolding depth
top-Inside base zero lv pt bk fs n s h = tt
top-Inside base (suc it) lv pt bk fs n s h =
    let total : length s.stack ≡ suc n + length base = Above-length (suc n) base s.stack h.above in
    (n, omega (arith, total))

-- the index of the value below the top
pub second-Inside :
    (base : List Tree) (it lv pt bk : ℕ) (fs : List ℕ) (n : ℕ) (s : PState)
    → Has base (sizes it lv pt bk fs (suc (suc n))) s
    → Inside base it (gettop s - 1)
unfolding depth
second-Inside base zero lv pt bk fs n s h = tt
second-Inside base (suc it) lv pt bk fs n s h =
    let total : length s.stack ≡ suc (suc n) + length base =
      Above-length (suc (suc n)) base s.stack h.above in
    (n, omega (arith, total))

insert_before-From :
    (base : List Tree) (it lv pt bk : ℕ) (fs : List ℕ) (n : ℕ) (v : Tree) (st : List Tree)
    (s : PState)
    → Has base (sizes (suc it) lv pt bk fs (suc n)) s
    → Above (suc n) base st
    → Returns base
        (sizes (suc it) lv pt bk fs (suc (suc n)))
        (elim st [ [] ↦ fault | top ∷ below ↦ ok tt (record s { stack = top ∷ v ∷ below }) ])
insert_before-From base it lv pt bk fs n v [] s h a = tt
insert_before-From base it lv pt bk fs n v (top ∷ below) s h a =
    stack-Has base (suc it) lv pt bk fs (suc n) (suc (suc n)) s (top ∷ v ∷ below) h (
      unfold depth in
      Above-push (suc n) base (v ∷ below) top
        (Above-push n base below v (Above-pop n base below top a)))

pub insert_terra :
    (base : List Tree) (it lv pt bk : ℕ) (fs : List ℕ) (n : ℕ) (v : Tree)
    → From base
        (sizes (suc it) lv pt bk fs (suc n))
        (sizes (suc it) lv pt bk fs (suc (suc n)))
        (insert_before v)
unfolding insert_before
insert_terra base it lv pt bk fs n v = record {
  at = λ s h. insert_before-From base it lv pt bk fs n v s.stack s h (unfold depth in h.above);
}

pub push_string_before-From :
    (base : List Tree) (it lv pt bk : ℕ) (fs : List ℕ) (n : ℕ) (str : List ℕ)
    → From base
        (sizes it lv pt bk fs (suc n))
        (sizes it lv pt bk fs (suc (suc n)))
        (push_string_before str)
unfolding push_string_before
push_string_before-From base it lv pt bk fs n str =
    from_terra base it lv pt bk fs (suc n) (suc (suc n))
      (λ b. when b (insert_before (State.string str)))
      (lua_only base lv pt bk fs (suc n) (suc (suc n)))
      λ it' e. insert_terra base it' lv pt bk fs n (State.string str)

pub index-then :
    {A B : Type 0} (base : List Tree) (S E : Shape) (r : Result B) (i : ℕ) (f : ℕ → P A)
    → Returns base S r
    → From base S E (f i)
    → Returns base E (State.bind (State.bind r (λ b. pure i)) f)
index-then base S E (ok b s) i f h k = k.at s h
index-then base S E (err e s) i f h k = tt
index-then base S E fault i f h k = tt
index-then base S E out_of_fuel i f h k = tt
