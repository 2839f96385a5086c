-- ===== src/Parser/Operators.antt =====
-- src/lparser.cpp: the operators, their tokens and their priorities.
pub mod Levels
use terra.Common.{ℕ, Bool, false, List, [], ◌∷◌, ltb, ◌==◌, if◌then◌else◌, get_or}
use terra.Token.{
  tk_not, tk_concat, tk_ne, tk_eq, tk_le, tk_ge, tk_and, tk_or, tk_func_ptr, tk_lshift, tk_rshift,
}

pub data BinOpr : Type 0 where
  add sub mul div mod_ pow concat lshift rshift : BinOpr
  eq lt_ le ne gt_ ge and_ or_ func_ptr nobinopr : BinOpr

pub data UnOpr : Type 0 where
  minus not_ len deref addr nounopr : UnOpr

unfoldable pub getunopr : ℕ → UnOpr
getunopr op =
    if op == tk_not
    then not_
    else if op == b'-'
    then minus
    else if op == b'#'
    then len
    else if op == b'&'
    then addr
    else if op == b'@'
    then deref
    else nounopr

unfoldable pub getbinopr : ℕ → BinOpr
getbinopr op =
    if op == b'+'
    then add
    else if op == b'-'
    then sub
    else if op == b'*'
    then mul
    else if op == b'/'
    then div
    else if op == b'%'
    then mod_
    else if op == b'^'
    then pow
    else if op == tk_concat
    then concat
    else if op == tk_ne
    then ne
    else if op == tk_eq
    then eq
    else if op == b'<'
    then lt_
    else if op == tk_le
    then le
    else if op == b'>'
    then gt_
    else if op == tk_ge
    then ge
    else if op == tk_and
    then and_
    else if op == tk_or
    then or_
    else if op == tk_func_ptr
    then func_ptr
    else if op == tk_lshift
    then lshift
    else if op == tk_rshift
    then rshift
    else nobinopr

-- the number of an operator in the enumeration
unfoldable pub ordinal : BinOpr → ℕ
ordinal add = 0
ordinal sub = 1
ordinal mul = 2
ordinal div = 3
ordinal mod_ = 4
ordinal pow = 5
ordinal concat = 6
ordinal lshift = 7
ordinal rshift = 8
ordinal eq = 9
ordinal lt_ = 10
ordinal le = 11
ordinal ne = 12
ordinal gt_ = 13
ordinal ge = 14
ordinal and_ = 15
ordinal or_ = 16
ordinal func_ptr = 17
ordinal nobinopr = 18

-- the table `priority`: the left and the right priority of each operator
abbrev pub priorities : List (ℕ × ℕ)
priorities =
    (7, 7)
    ∷ (7, 7)
    ∷ (8, 8)
    ∷ (8, 8)
    ∷ (8, 8)
    ∷ (11, 10)
    ∷ (6, 5)
    ∷ (4, 4)
    ∷ (4, 4)
    ∷ (3, 3)
    ∷ (3, 3)
    ∷ (3, 3)
    ∷ (3, 3)
    ∷ (3, 3)
    ∷ (3, 3)
    ∷ (2, 2)
    ∷ (1, 1)
    ∷ (3, 2)
    ∷ []

-- `priority[op]`; the table has no row for `nobinopr`, which is tested before.
unfoldable pub priority : BinOpr → ℕ × ℕ
unfolding ordinal
priority op = get_or priorities (ordinal op) (0, 0)

abbrev pub unary_priority : ℕ
unary_priority = 9

-- `op != OPR_NOBINOPR && priority[op].left > limit`
unfoldable pub binds_above : ℕ → BinOpr → Bool
unfolding priority
binds_above limit nobinopr = false
binds_above limit op = ltb limit (priority op).0
