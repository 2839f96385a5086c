-- ===== src/Lexer/Basic.antt =====
-- src/llex.cpp: `next`, `save`, `inclinenumber` and the loops that are made of them.
use terra.Common.{
  ℕ, zero, suc, ◌+◌, ◌-◌, ◌^◌, ◌^◌, ◌-◌, Bool, true, false, Option, none, some, List, leb,
  if◌then◌else◌, length, ◌&&◌, ◌||◌, not,
}
use terra.Ctype.{Charint, eoz, byte, is}
use terra.Zio.{Zio, zgetc, pending}
use terra.Mbuffer
use terra.Mbuffer.{Mbuffer}
use terra.OutputBuffer
use terra.OutputBuffer.{OutputBuffer}
use terra.Lexer.State
use terra.Lexer.State.{
  LexState, Result, M, ok, err, fault, out_of_fuel, ◌>>=◌, ◌>>◌, pure, get, put, current, when,
  branch, lexerror, Message, element_too_long, too_many_lines, unread,
}

-- what `next` does with the character that `zgetc` returns
unfoldable pub advance : Option (Charint × Zio) → M (Unit {0})
unfolding OutputBuffer.putc
advance none s = fault
advance (some (eoz, z)) s = ok tt (record s { current = eoz; z = z })
advance (some (byte c, z)) s = ok tt (record s {
  current = byte c;
  z = z;
  currentoffset = s.currentoffset + 1;
  output_buffer = OutputBuffer.putc s.output_buffer c;
})

unfoldable pub next : M (Unit {0})
unfolding zgetc advance
next s = advance (zgetc s.z) s

-- `assert`
abbrev pub assert : Bool → M (Unit {0})
assert true s = ok tt s
assert false s = fault

-- `currIsNewline`
abbrev pub is_newline : Charint → Bool
is_newline c = is b'\n' c || is b'\r' c

unfoldable pub saved : Option Mbuffer → M (Unit {0})
saved none s = lexerror element_too_long 0 s
saved (some b) s = ok tt (record s { buff = b })

unfoldable pub save : ℕ → M (Unit {0})
unfolding saved Mbuffer.save
save c s = saved (Mbuffer.save s.buff c) s

-- `save(ls, ls->current)`, where the cast to char takes the end of the stream (-1) to 255
unfoldable pub char_of : Charint → ℕ
char_of eoz = 255
char_of (byte c) = c

unfoldable pub save_and_next : M (Unit {0})
unfolding save next char_of
save_and_next = do c ← current; save (char_of c); next

unfoldable pub resetbuffer : M (Unit {0})
unfolding Mbuffer.reset
resetbuffer s = ok tt (record s { buff = Mbuffer.reset s.buff })

abbrev pub max_int : ℕ
max_int = 2 ^ 31 - 1 - 2

-- the test on the second character of a newline, `ls->current != old` included
unfoldable pub is_other_newline : Charint → Charint → Bool
is_other_newline (byte old) c = is_newline c && not (is old c)
is_other_newline eoz c = is_newline c

-- `++ls->linenumber`
abbrev pub bump_line : M (Unit {0})
bump_line s = ok tt (record s { linenumber = s.linenumber + 1 })

-- `if (++ls->linenumber >= MAX_INT) luaX_syntaxerror(…)`
unfoldable pub count_line : M (Unit {0})
count_line = do
  bump_line
  s ← get
  branch (leb max_int s.linenumber) (lexerror too_many_lines s.t.token) (pure tt)

unfoldable pub inclinenumber : M (Unit {0})
unfolding next is_other_newline count_line
inclinenumber = do
  old ← current
  assert (is_newline old)
  next
  c ← current
  when (is_other_newline old c) next
  count_line

-- the unread input of a state, the current character included
abbrev pub input : LexState → List ℕ
input s = unread s.current (pending s.z)

-- Every round of a loop of the lexer reads a character, so this many rounds are enough.
abbrev pub rounds : LexState → ℕ
rounds s = length (input s) + 1

-- `while (test(ls->current)) body(ls);`
unfoldable pub while : ℕ → (Charint → Bool) → M (Unit {0}) → M (Unit {0})
while zero test body s = out_of_fuel
while (suc fuel) test body s =
    let again = State.bind (body s) λ _. while fuel test body in
    if test s.current then again else ok tt s

unfoldable pub check_next : ℕ → M Bool
unfolding save_and_next
check_next k = do
  c ← current
  branch (is k c && not (is 0 c)) (save_and_next >> pure true) (pure false)
