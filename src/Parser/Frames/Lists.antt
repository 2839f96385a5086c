-- ===== src/Parser/Frames/Lists.antt =====
-- src/lparser.cpp: new lists, with their indices, and the trees that are stored.
use terra.Common.{
  ℕ, zero, suc, ◌+◌, ◌≡◌, ap, ◌∙◌, true, false, List, [], ◌∷◌, arith, length, ltb, if◌then◌else◌,
}
use terra.Parser.State.{
  Tree, empty, list, PState, ok, P, ◌>>=◌, ◌>>◌, pure, when, branch, is_terra, position,
}
use terra.Parser.Frames.{Shape, sizes, Above, Has, Returns, From, Pushes, Replaces, Inside, depth}
use terra.Parser.Frames.Binds.{push-then}
use terra.Parser.Stack.{
  gettop, insert_before, new_list, new_list_before, push_type, new_object, push_literal, move_top,
  store_value,
}
use terra.Parser.Frames.Stack.{
  with, Above-length, Above-push, Above-pop, stack-Has, lua-Has, from_terra, lua_only,
}
use terra.Parser.Frames.Trees.{push_type-Pushes, new_object-From}
use terra.Parser.Frames.Entries.{top-Inside, insert_terra, index-then}

-- `new_list_before`, and what follows it with the index of the list
pub new_list_before-then :
    {A : Type 0} (base : List Tree) (it lv pt bk : ℕ) (fs : List ℕ) (n : ℕ) (E : Shape)
    (f : ℕ → P A)
    → ((tbl : ℕ) → Inside base it tbl → From base (sizes it lv pt bk fs (suc (suc n))) E (f tbl))
    → From base (sizes it lv pt bk fs (suc n)) E (new_list_before >>= f)
unfolding new_list_before depth
new_list_before-then base zero lv pt bk fs n E f k = record {
  at = λ s h.
      let e : is_terra s ≡ false = ap (ltb 0) h.terra in
      rw e ((k 0 tt).at s (lua-Has base lv pt bk fs (suc n) (suc (suc n)) s h));
}
new_list_before-then base (suc it) lv pt bk fs n E f k = record {
  at = λ s h.
      let e : is_terra s ≡ true = ap (ltb 0) h.terra ∙ (ground arith) in
      let i = top-Inside base (suc it) lv pt bk fs n s h in
      rw e (
        index-then base (sizes (suc it) lv pt bk fs (suc (suc n))) E (insert_before (list empty) s)
          (gettop s) f ((insert_terra base it lv pt bk fs n (list empty)).at s h) (k (gettop s) i));
}

-- `new_list`, and what follows it with the index of the list
pub new_list-then :
    {A : Type 0} (base : List Tree) (it lv pt bk : ℕ) (fs : List ℕ) (n : ℕ) (E : Shape)
    (f : ℕ → P A)
    → ((tbl : ℕ) → Inside base it tbl → From base (sizes it lv pt bk fs (suc n)) E (f tbl))
    → From base (sizes it lv pt bk fs n) E (new_list >>= f)
unfolding new_list depth
new_list-then base zero lv pt bk fs n E f k = record {
  at = λ s h.
      let e : is_terra s ≡ false = ap (ltb 0) h.terra in
      rw e ((k 0 tt).at s (lua-Has base lv pt bk fs n (suc n) s h));
}
new_list-then base (suc it) lv pt bk fs n E f k = record {
  at = λ s h.
      let e : is_terra s ≡ true = ap (ltb 0) h.terra ∙ (ground arith) in
      let total : length s.stack ≡ n + length base = Above-length n base s.stack h.above in
      rw e (
        (k (gettop s + 1) (n, omega (arith, total))).at (with s (list empty ∷ s.stack)) (
          stack-Has base (suc it) lv pt bk fs n (suc n) s (list empty ∷ s.stack) h
            (Above-push n base s.stack (list empty) h.above)));
}

pub new_list-Pushes : Pushes new_list
unfolding new_list
new_list-Pushes = record {
  pushes = λ base it lv pt bk fs n.
      from_terra base it lv pt bk fs n (suc n)
        (λ b s. if b then ok (gettop s + 1) (with s (list empty ∷ s.stack)) else ok 0 s)
        (record { at = λ s h. lua-Has base lv pt bk fs n (suc n) s h })
        λ it' e. record {
          at = λ s h.
              stack-Has base (suc it') lv pt bk fs n (suc n) s (list empty ∷ s.stack) h
                (unfold depth in Above-push n base s.stack (list empty) h.above);
        };
}

move_top-From :
    (base : List Tree) (it lv pt bk : ℕ) (fs : List ℕ) (n : ℕ) (st : List Tree) (s : PState)
    → Has base (sizes (suc it) lv pt bk fs (suc n)) s
    → Above (suc n) base st
    → Returns base (sizes (suc it) lv pt bk fs n) (move_top st s)
unfolding move_top depth
move_top-From base it lv pt bk fs n [] s h a = tt
move_top-From base it lv pt bk fs n (v ∷ below) s h a = record {
  terra = h.terra;
  levels = h.levels;
  parts = h.parts;
  chain = h.chain;
  above = Above-pop n base below v a;
}

-- The tree on the top is stored.
pub store_value-From :
    (base : List Tree) (it lv pt bk : ℕ) (fs : List ℕ) (n : ℕ)
    → From base (sizes it lv pt bk fs (suc n)) (sizes it lv pt bk fs n) store_value
unfolding store_value
store_value-From base it lv pt bk fs n =
    from_terra base it lv pt bk fs (suc n) n (λ b s. branch b (move_top s.stack) (pure 0) s)
      (record { at = λ s h. lua-Has base lv pt bk fs (suc n) n s h })
      λ it' e. record {
        at = λ s h. move_top-From base it' lv pt bk fs n s.stack s h (unfold depth in h.above);
      }

pub push_literal-Replaces : (typ : List ℕ) → Replaces (push_literal typ)
unfolding push_literal
push_literal-Replaces typ = record {
  replaces = λ base it lv pt bk fs n.
      from_terra base it lv pt bk fs (suc n) (suc n)
        (λ b s. when b (push_type typ >> new_object "literal" 2 (position s.lex)) s)
        (lua_only base lv pt bk fs (suc n) (suc n))
        λ it' e. record {
          at = λ s h.
              (push-then base (suc it') lv pt bk fs (suc n) (sizes (suc it') lv pt bk fs (suc n))
                  (push_type typ) (λ a. new_object "literal" 2 (position s.lex))
                  (push_type-Pushes typ)
                  λ a. new_object-From base (suc it') lv pt bk fs 2 n "literal" (position s.lex)).at
                s h;
        };
}
