-- ===== src/Parser/Operators/Levels.antt =====
-- src/lparser.cpp: the table of priorities against the levels of the grammar.
use terra.Common.{
  ℕ, ◌≡◌, ◌≢◌, refl, sym, subst, ◌<◌, all_below, all_below-lt, arith, get_or, List, [], ◌∷◌, Bool,
  true, false, ltb, ◌==◌, ◌&&◌, ◌||◌,
}
use terra.Parser.Operators.{
  BinOpr, add, sub, mul, div, mod_, pow, concat, lshift, rshift, eq, lt_, le, ne, gt_, ge, and_,
  or_, func_ptr, nobinopr, priority, binds_above, ordinal, unary_priority,
}

-- the levels of the binary operators, the loosest first
abbrev pub level : BinOpr → ℕ
level or_ = 1
level and_ = 2
level eq = 3
level ne = 3
level lt_ = 3
level le = 3
level gt_ = 3
level ge = 3
level func_ptr = 3
level lshift = 4
level rshift = 4
level concat = 5
level add = 6
level sub = 6
level mul = 7
level div = 7
level mod_ = 7
level pow = 9
level nobinopr = 0

-- the level of the unary operators
abbrev pub unary_level : ℕ
unary_level = 8

-- the operators that group to the right
abbrev pub is_right : BinOpr → Bool
is_right pow = true
is_right concat = true
is_right func_ptr = true
is_right _ = false

abbrev operators : List BinOpr
operators =
    add ∷ sub ∷ mul ∷ div ∷ mod_ ∷ pow ∷ concat ∷ lshift ∷ rshift ∷ eq ∷ lt_ ∷ le ∷ ne ∷ gt_ ∷ ge
    ∷ and_ ∷ or_ ∷ func_ptr ∷ []

abbrev operator : ℕ → BinOpr
operator i = get_or operators i nobinopr

operator-ordinal : (a : BinOpr) → a ≢ nobinopr → (operator (ordinal a) ≡ a) × (ordinal a < 18)
unfolding ordinal
operator-ordinal add h = (refl, omega arith)
operator-ordinal sub h = (refl, omega arith)
operator-ordinal mul h = (refl, omega arith)
operator-ordinal div h = (refl, omega arith)
operator-ordinal mod_ h = (refl, omega arith)
operator-ordinal pow h = (refl, omega arith)
operator-ordinal concat h = (refl, omega arith)
operator-ordinal lshift h = (refl, omega arith)
operator-ordinal rshift h = (refl, omega arith)
operator-ordinal eq h = (refl, omega arith)
operator-ordinal lt_ h = (refl, omega arith)
operator-ordinal le h = (refl, omega arith)
operator-ordinal ne h = (refl, omega arith)
operator-ordinal gt_ h = (refl, omega arith)
operator-ordinal ge h = (refl, omega arith)
operator-ordinal and_ h = (refl, omega arith)
operator-ordinal or_ h = (refl, omega arith)
operator-ordinal func_ptr h = (refl, omega arith)
operator-ordinal nobinopr h = elim (h refl) [ ]

abbrev same : Bool → Bool → Bool
same true b = b
same false true = false
same false false = true

same-eq : (a b : Bool) → same a b ≡ true → a ≡ b
same-eq true b h = sym h
same-eq false true h = h
same-eq false false h = refl

-- what the level of `b` behind the right operand of `a` asks for
abbrev pub goes_on : BinOpr → BinOpr → Bool
goes_on a b = ltb (level a) (level b) || (level a == level b && is_right a)

agrees : BinOpr → BinOpr → Bool
agrees a b =
    same (binds_above (priority a).1 b) (goes_on a b)
    && (same (binds_above unary_priority b) (ltb unary_level (level b)) && binds_above 0 b)

agrees_everywhere : all_below 18 (λ i. all_below 18 (λ j. agrees (operator i) (operator j))) ≡ true
unfolding all_below agrees binds_above priority ordinal
agrees_everywhere = refl

agrees-operators : (a b : BinOpr) → a ≢ nobinopr → b ≢ nobinopr → agrees a b ≡ true
agrees-operators a b h k =
    let of_a = operator-ordinal a h in
    let of_b = operator-ordinal b k in
    let row =
      all_below-lt 18 (λ i. all_below 18 (λ j. agrees (operator i) (operator j))) (ordinal a)
        agrees_everywhere of_a.1 in
    let cell =
      all_below-lt 18 (λ j. agrees (operator (ordinal a)) (operator j)) (ordinal b) row of_b.1 in
    subst (λ x. agrees x b ≡ true) of_a.0
      (subst (λ y. agrees (operator (ordinal a)) y ≡ true) of_b.0 cell)

and-true : (a b : Bool) → (a && b) ≡ true → (a ≡ true) × (b ≡ true)
and-true true b h = (refl, h)
and-true false b h = ground arith

-- Behind the right operand of `a`, the operator `b` goes on with that operand when it is of a tighter
-- level, or of the same level and `a` groups to the right. Behind the operand of a unary operator it
-- does so when its level is tighter, and behind an operand at the level of an expression always.
pub binds_above-level :
    (a b : BinOpr)
    → a ≢ nobinopr
    → b ≢ nobinopr
    → (binds_above (priority a).1 b ≡ goes_on a b)
      × (binds_above unary_priority b ≡ ltb unary_level (level b))
      × (binds_above 0 b ≡ true)
unfolding agrees
binds_above-level a b h k =
    let whole = and-true _ _ (agrees-operators a b h k) in
    let rest = and-true _ _ whole.1 in (same-eq _ _ whole.0, same-eq _ _ rest.0, rest.1)
