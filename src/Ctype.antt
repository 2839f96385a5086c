-- ===== src/Ctype.antt =====
-- src/lctype.cpp, src/lctype.h: the character classes of the lexer, read from a table that is
-- indexed from -1 (the end of the input) to 255.
mod Table
pub mod Ranges
use terra.Common.{ℕ, suc, ◌+◌, Bool, not, ◌==◌, bit_and, bit_or, get_or}
use Table.{ctype}

-- A `charint`: the end of the stream (-1), or a byte.
pub data Charint : Type 0 where
  eoz : Charint
  byte : ℕ → Charint

-- `c + 1`, the index into the table.
abbrev pub index : Charint → ℕ
index eoz = 0
index (byte c) = suc c

-- `c == k`, for a character k
abbrev pub is : ℕ → Charint → Bool
is k eoz = Bool.false
is k (byte c) = c == k

unfoldable pub testprop : Charint → ℕ → Bool
testprop c p = not (bit_and (get_or ctype (index c) 0) p == 0)

abbrev alphabit : ℕ
alphabit = 0x01

abbrev digitbit : ℕ
digitbit = 0x02

abbrev printbit : ℕ
printbit = 0x04

abbrev spacebit : ℕ
spacebit = 0x08

abbrev xdigitbit : ℕ
xdigitbit = 0x10

unfoldable pub lislalpha : Charint → Bool
unfolding testprop
lislalpha c = testprop c alphabit

unfoldable pub lislalnum : Charint → Bool
unfolding testprop
lislalnum c = testprop c 0x03

unfoldable pub lisdigit : Charint → Bool
unfolding testprop
lisdigit c = testprop c digitbit

unfoldable pub lisspace : Charint → Bool
unfolding testprop
lisspace c = testprop c spacebit

unfoldable pub lisprint : Charint → Bool
unfolding testprop
lisprint c = testprop c printbit

unfoldable pub lisxdigit : Charint → Bool
unfolding testprop
lisxdigit c = testprop c xdigitbit

-- `c | ('A' ^ 'a')`
unfoldable pub ltolower : ℕ → ℕ
ltolower c = bit_or c 0x20
