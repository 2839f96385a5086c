-- ===== src/Parser/Frames/Stack.antt =====
-- src/lparser.cpp: what the functions that build the trees do to the values above the base.

use terra.Common.{
  ℕ, zero, suc, ◌+◌, ◌-◌, ◌<◌, ◌≡◌, refl, ap, ◌∙◌, Bool, true, false, Option, none, some, List, [],
  ◌∷◌, arith, length, length-append, ltb, inl, inr, Bool-cases,
}
use terra.Parser.State.{Tree, Trees, item, PState, P, pure, is_terra}
use terra.Parser.Frames.{sizes, Above, Has, Returns, From, depth}
use terra.Parser.Stack.{update_below, consume, with_stack, pop}

-- `n` values and `k` more
abbrev pub more : ℕ → ℕ → ℕ
more zero n = n
more (suc k) n = suc (more k n)

tail : List Tree → List Tree
tail [] = []
tail (x ∷ xs) = xs

pub Above-push :
    (n : ℕ) (base st : List Tree) (v : Tree) → Above n base st → Above (suc n) base (v ∷ st)
Above-push n base st v (xs, e, l) = (v ∷ xs, ap (λ r. v ∷ r) e, ap suc l)

pub Above-pop :
    (n : ℕ) (base st : List Tree) (v : Tree) → Above (suc n) base (v ∷ st) → Above n base st
unfolding tail
Above-pop n base st v ([], e, l) = ground arith
Above-pop n base st v (x ∷ xs, e, l) = (xs, ap tail e, omega (arith, l))

pub Above-none : (n : ℕ) (base : List Tree) → Above (suc n) base [] → ⊥
Above-none n base ([], e, l) = ground arith
Above-none n base (x ∷ xs, e, l) = ground arith

pub Above-length : (n : ℕ) (base st : List Tree) → Above n base st → length st ≡ n + length base
Above-length n base st (xs, e, l) = omega (arith, ap length e, length-append xs base, l)

-- what holds of the value, where there is one
abbrev pub Holds : {A : Type 0} → (A → Type 0) → Option A → Type 0
Holds Q none = Unit {0}
Holds Q (some a) = Q a

Holds-elim :
    {A B : Type 0} (Q : A → Type 0) (R : B → Type 0) (g : A → B) (o : Option A)
    → Holds Q o
    → ((a : A) → Q a → R (g a))
    → Holds R (elim o [ none ↦ none | some a ↦ some (g a) ])
Holds-elim Q R g none h k = tt
Holds-elim Q R g (some a) h k = k a h

Holds-any : {A : Type 0} (o : Option A) → Holds (λ a. Unit {0}) o
Holds-any none = tt
Holds-any (some a) = tt

pub pop-Above :
    (k n : ℕ) (base : List Tree) (args : Trees) (st : List Tree)
    → Above (more k n) base st
    → Holds (λ r. Above n base r.1) (pop k args st)
unfolding pop
pop-Above zero n base args st a = a
pop-Above (suc k) n base args [] a = tt
pop-Above (suc k) n base args (v ∷ st) a =
    pop-Above k n base (item v args) st (Above-pop (more k n) base st v a)

update_below-Above :
    (d n : ℕ) (f : Tree → Option Tree) (base st : List Tree)
    → d < n
    → Above n base st
    → Holds (Above n base) (update_below d f st)
unfolding update_below
update_below-Above d n f base [] i a = tt
update_below-Above d zero f base (v ∷ st) i a = ground arith
update_below-Above zero (suc n) f base (v ∷ st) i a =
    Holds-elim (λ w. Unit {0}) (Above (suc n) base) (λ w. w ∷ st) (f v) (Holds-any (f v))
      λ w h. Above-push n base st w (Above-pop n base st v a)
update_below-Above (suc d) (suc n) f base (v ∷ st) i a =
    Holds-elim (Above n base) (Above (suc n) base) (λ r. v ∷ r) (update_below d f st)
      (update_below-Above d n f base st (omega arith) (Above-pop n base st v a))
      λ r h. Above-push n base r v h

pub consume-Above :
    (d n : ℕ) (f : Tree → Tree → Option Tree) (base st : List Tree)
    → Above (suc (suc n)) base st
    → Holds (Above (suc n) base) (consume (suc (length base + d)) f st)
unfolding consume
consume-Above d n f base [] a = tt
consume-Above d n f base (v ∷ st) a =
    let popped = Above-pop (suc n) base st v a in
    let total : length st ≡ suc n + length base = Above-length (suc n) base st popped in
    let i = length base + d in
    elim (Bool-cases (ltb i (length st))) [
      | inl e ↦ rw e (
          update_below-Above (length st - (i + 1)) (suc n) (f v) base st (omega (arith, total))
            popped)
      | inr e ↦ rw e tt
    ]

-- a state with another stack
abbrev pub with : PState → List Tree → PState
with s st = record s { stack = st }

module _ (base : List Tree) (it lv pt bk : ℕ) (fs : List ℕ) where
  pub stack-Has :
      (n n' : ℕ) (s : PState) (st : List Tree)
      → Has base (sizes it lv pt bk fs n) s
      → Above (depth it n') base st
      → Has base (sizes it lv pt bk fs n') (with s st)
  stack-Has n n' s st h a = record {
    terra = h.terra;
    levels = h.levels;
    parts = h.parts;
    chain = h.chain;
    above = a;
  }

  pub with_stack-Returns :
      (n n' : ℕ) (s : PState) (o : Option (List Tree))
      → Has base (sizes it lv pt bk fs n) s
      → Holds (Above (depth it n') base) o
      → Returns base (sizes it lv pt bk fs n') (with_stack o s)
  unfolding with_stack
  with_stack-Returns n n' s none h a = tt
  with_stack-Returns n n' s (some st) h a = stack-Has n n' s st h a

module _ (base : List Tree) (lv pt bk : ℕ) (fs : List ℕ) where
  pub lua-Has :
      (n n' : ℕ) (s : PState)
      → Has base (sizes 0 lv pt bk fs n) s
      → Has base (sizes 0 lv pt bk fs n') s
  unfolding depth
  lua-Has n n' s h = record {
    terra = h.terra;
    levels = h.levels;
    parts = h.parts;
    chain = h.chain;
    above = h.above;
  }

-- code that runs within Terra code only
pub from_terra :
    {A : Type 0} (base : List Tree) (it lv pt bk : ℕ) (fs : List ℕ) (n n' : ℕ) (f : Bool → P A)
    → From base (sizes 0 lv pt bk fs n) (sizes 0 lv pt bk fs n') (f false)
    → ((it' : ℕ)
        → it ≡ suc it'
        → From base (sizes (suc it') lv pt bk fs n) (sizes (suc it') lv pt bk fs n') (f true))
    → From base (sizes it lv pt bk fs n) (sizes it lv pt bk fs n') (λ s. f (is_terra s) s)
from_terra base zero lv pt bk fs n n' f k k' = record {
  at = λ s h. let e : is_terra s ≡ false = ap (ltb 0) h.terra in rw e (k.at s h);
}
from_terra base (suc it) lv pt bk fs n n' f k k' = record {
  at = λ s h.
      let e : is_terra s ≡ true = ap (ltb 0) h.terra ∙ (ground arith) in rw e ((k' it refl).at s h);
}

pub lua_only :
    (base : List Tree) (lv pt bk : ℕ) (fs : List ℕ) (n n' : ℕ)
    → From base (sizes 0 lv pt bk fs n) (sizes 0 lv pt bk fs n') (pure tt)
lua_only base lv pt bk fs n n' = record { at = λ s h. lua-Has base lv pt bk fs n n' s h }

pub depth-zero : (it : ℕ) → depth it 0 ≡ 0
unfolding depth
depth-zero zero = refl
depth-zero (suc it) = refl

pub Above-zero : (base st : List Tree) → Above 0 base st → st ≡ base
Above-zero base st ([], e, l) = e
Above-zero base st (x ∷ xs, e, l) = ground arith
