-- ===== src/Parser/Scopes/Brackets.antt =====
-- src/lparser.cpp: what is entered and left again.
use terra.Common.{ℕ, suc, ◌+◌, ◌-◌, ◌≡◌, refl, true, false, List, [], ◌∷◌, arith, ltb, ◌==◌, length}
use terra.Parser.State.{FuncState, PState, ok, ◌>>◌}
use terra.Parser.Scopes.{
  Entries, with_fs, enterblock, leaveblock, enterterra, leaveterra, open_func, close_func,
}

-- A block, a Terra part and a function that are left in the state in which they have been entered leave
-- the state as it was before, and the Terra part has captured nothing.
pub leave-enter :
    (unimport : ℕ → Entries → Entries) (start : ℕ) (fs : FuncState) (prev : List FuncState)
    (s : PState)
    → s.fs ≡ fs ∷ prev
    → ((enterblock start >> leaveblock unimport) s ≡ ok tt s)
      × ((enterterra unimport >> leaveterra unimport) s ≡ ok [] s)
      × ((open_func unimport >> close_func unimport) s ≡ ok tt s)
unfolding with_fs enterblock leaveblock enterterra leaveterra open_func close_func
leave-enter unimport start fs prev s e =
    let inside : ltb 0 (s.lex.in_terra + 1) ≡ true = ground arith in
    let outside : s.lex.in_terra + 1 - 1 ≡ s.lex.in_terra = omega arith in
    let some_part : (suc (length s.terracnt) == 0) ≡ false = ground arith in
    (rw e refl, rw (e, inside, some_part, outside) refl, rw e refl)
