-- ===== src/Lexer/Numeral.antt =====
-- src/llex.cpp, src/treadnumber.c: numerals. The scanner of LuaJIT, a copy of which treadnumber.c
-- calls, and the processor's conversion of an integer to a double are a parameter.
use terra.Common.{
  ℕ, zero, suc, ◌+◌, ◌-◌, Bool, false, Option, none, some, List, [], ◌∷◌, ◌==◌, if◌then◌else◌,
  length, ◌&&◌, ◌||◌, not, bit_and,
}
use terra.Ctype.{Charint, eoz, byte, is, lislalnum, lisdigit, ltolower}
use terra.Token.{tk_number}
use terra.Lexer.State
use terra.Lexer.State.{
  LexState, Token, SemInfo, Value, number, text, Result, M, ok, err, fault, out_of_fuel, ◌>>=◌,
  ◌>>◌, pure, get, put, current, when, branch, lexerror, Message, malformed_number,
  unfinished_long_string, unfinished_long_comment, invalid_long_delimiter, unfinished_string,
  hexadecimal_expected, decimal_too_large, invalid_escape, unread,
}
use terra.Lexer.Basic.{save, save_and_next, assert, rounds}

-- the formats that the scanner returns
pub data Fmt : Type 0 where
  scan_error num imag int u32 i64 u64 : Fmt

-- `strscan text opt` is the format and the 64 bits of the value, and `double_of` the bits of the
-- double that a uint64_t is converted to. `uninitialised` stands for the bits of the local
-- variable `num` that no format has written.
pub record Numbers : Type 0 where
  pub strscan : List ℕ → ℕ → Fmt × ℕ
  pub double_of : ℕ → ℕ
  pub uninitialised : ℕ

abbrev pub isinteger : ℕ
isinteger = 1

abbrev pub isunsigned : ℕ
isunsigned = 2

abbrev pub is8bytes : ℕ
is8bytes = 4

-- `ReadNumber`, whose union is its 64 bits
pub record ReadNumber : Type 0 where
  pub bits : ℕ
  pub flags : ℕ

unfoldable pub read_format : Numbers → Fmt × ℕ → Option ReadNumber
read_format lib (scan_error, o) = none
read_format lib (imag, o) = some (record { bits = lib.uninitialised; flags = 0 })
read_format lib (num, o) = some (record { bits = o; flags = 0 })
read_format lib (int, o) = some (record { bits = o; flags = isinteger })
read_format lib (u32, o) = some (record { bits = o; flags = isinteger + isunsigned })
read_format lib (i64, o) = some (record { bits = o; flags = isinteger + is8bytes })
read_format lib (u64, o) = some (record { bits = o; flags = isinteger + is8bytes + isunsigned })

-- `treadnumber`, with the options TOINT, LL and one of C and IMAG; `none` is the result 1.
unfoldable pub treadnumber : Numbers → List ℕ → Bool → Option ReadNumber
unfolding read_format
treadnumber lib buf cstylesuffixes =
    read_format lib (lib.strscan buf (0x01 + 0x08 + (if cstylesuffixes then 0x10 else 0x04)))

-- `(c | 0x20) == k`
unfoldable pub is_lower : ℕ → Charint → Bool
unfolding ltolower
is_lower k eoz = false
is_lower k (byte c) = ltolower c == k

-- the test of the loop: a digit, a letter, a point, or a sign behind the exponent letter
unfoldable pub in_numeral : ℕ → Charint → Charint → Bool
unfolding is_lower
in_numeral xp c cur =
    lislalnum cur || is b'.' cur || ((is b'-' cur || is b'+' cur) && is_lower xp c)

-- the last character that was read, and whether a point was among them
unfoldable pub numeral_loop : ℕ → ℕ → Charint → Bool → M (Charint × Bool)
unfolding in_numeral save_and_next
numeral_loop zero xp c hasdecpoint s = out_of_fuel
numeral_loop (suc fuel) xp c hasdecpoint s =
    let cur = s.current in
    let again =
      State.bind (save_and_next s) λ _. numeral_loop fuel xp cur (hasdecpoint || is b'.' cur) in
    if in_numeral xp c cur then again else ok (c, hasdecpoint) s

-- a leading zero, and `p` for `e` as the exponent letter of a hexadecimal numeral
unfoldable pub numeral_prefix : Charint → M ℕ
unfolding save_and_next is_lower
numeral_prefix c =
    branch (is b'0' c)
      (do save_and_next; cur ← current; pure (if is_lower b'x' cur then b'p' else b'e')) (pure b'e')

-- the text of the buffer as a C string
unfoldable pub c_str : List ℕ → List ℕ
c_str [] = []
c_str (c ∷ cs) = let rest = c_str cs in if c == 0 then [] else c ∷ rest

abbrev pub set : List ℕ → ℕ → ℕ → List ℕ
set [] i v = []
set (x ∷ xs) zero v = v ∷ xs
set (x ∷ xs) (suc i) v = x ∷ set xs i v

-- `ls->buff->buffer[luaZ_bufflen(ls->buff) - 2] = '\0'`
unfoldable pub clear_suffix : M (Unit {0})
clear_suffix s =
    let b = s.buff.buffer in
    ok tt (record s { buff = record (s.buff) { buffer = set b (length b - 2) 0 } })

-- the end of `read_numeral`: the flags and the value of the token
unfoldable pub number_info : Numbers → Bool → Bool → SemInfo → ReadNumber → SemInfo
number_info lib issinglefloat hasdecpoint info read =
    if bit_and read.flags isinteger == 0
    then record info {
      value = number read.bits;
      flags = if issinglefloat then read.flags else is8bytes;
    }
    else record info {
      i = read.bits;
      value = number (lib.double_of read.bits);
      flags = if issinglefloat then 0 else if hasdecpoint then is8bytes else read.flags;
    }

unfoldable pub or_malformed : Option ReadNumber → M ReadNumber
or_malformed none s = lexerror malformed_number tk_number s
or_malformed (some read) s = ok read s

-- the part behind the loop
unfoldable pub numeral_end : Numbers → Bool → Bool → SemInfo → M SemInfo
unfolding clear_suffix c_str treadnumber or_malformed number_info
numeral_end lib issinglefloat hasdecpoint info = do
  when issinglefloat clear_suffix
  s ← get
  read ←
      or_malformed
        (treadnumber lib (c_str s.buff.buffer) (not (s.in_terra == 0) && not issinglefloat))
  pure (number_info lib issinglefloat hasdecpoint info read)

unfoldable pub read_numeral : Numbers → SemInfo → M SemInfo
unfolding numeral_prefix numeral_loop numeral_end save
read_numeral lib info = do
  c ← current
  assert (lisdigit c)
  xp ← numeral_prefix c
  s ← get
  (last, hasdecpoint) ← numeral_loop (rounds s) xp c false
  save 0
  numeral_end lib (not (s.in_terra == 0) && is b'f' last && not (xp == b'p')) hasdecpoint info
