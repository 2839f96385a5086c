-- ===== src/OutputBuffer.antt =====
-- src/llex.h: `OutputBuffer`, the growing array into which the lexer copies the program and the
-- parser writes its replacements. `bytes` is the initialised front of the memory at `data`, which
-- reaches past `n` after a rewind. The fields `N` and `space` of type int are natural numbers here.
pub mod Laws
pub mod Printf
use terra.Common.{
  ℕ, zero, suc, ◌+◌, ◌-◌, ◌*◌, ◌≤◌, min, max, Bool, List, [], ◌∷◌, ◌++◌, ltb, ◌==◌, if◌then◌else◌,
  length, take, drop,
}

pub record OutputBuffer : Type 0 where
  pub n : ℕ
  pub space : ℕ
  pub bytes : List ℕ

pub record IsValid (buf : OutputBuffer) : Type 0 where
  pub within : buf.n ≤ length buf.bytes
  pub fits : length buf.bytes ≤ buf.space
  pub roomy : 1 ≤ buf.space

-- what the buffer holds, `data[0 .. N - 1]`
abbrev pub contents : OutputBuffer → List ℕ
contents buf = take buf.n buf.bytes

-- `memcpy(data + at, str, length str)`, within the allocated space
unfoldable pub write_at : List ℕ → ℕ → List ℕ → List ℕ
write_at bytes at str = take at bytes ++ (str ++ drop (at + length str) bytes)

unfoldable pub init : OutputBuffer
init = record { n = 0; space = 1024; bytes = [] }

-- `realloc` keeps the front that fits.
unfoldable pub resize : OutputBuffer → ℕ → OutputBuffer
resize buf newsize = record {
  n = min newsize buf.n;
  space = newsize;
  bytes = take newsize buf.bytes;
}

-- `if (buf->N == buf->space) OutputBuffer_resize(buf, buf->space * 2)`
unfoldable pub make_room : OutputBuffer → OutputBuffer
unfolding resize
make_room buf = if buf.n == buf.space then resize buf (buf.space * 2) else buf

unfoldable pub append_byte : OutputBuffer → ℕ → OutputBuffer
unfolding write_at
append_byte buf c = record buf { n = buf.n + 1; bytes = write_at buf.bytes buf.n (c ∷ []) }

unfoldable pub putc : OutputBuffer → ℕ → OutputBuffer
unfolding make_room append_byte
putc buf c = append_byte (make_room buf) c

unfoldable pub rewind : OutputBuffer → ℕ → OutputBuffer
rewind buf size = record buf { n = buf.n - min buf.n size }

unfoldable pub append_bytes : OutputBuffer → List ℕ → OutputBuffer
unfolding write_at
append_bytes buf str = record buf { n = buf.n + length str; bytes = write_at buf.bytes buf.n str }

unfoldable pub puts : OutputBuffer → List ℕ → OutputBuffer
unfolding resize append_bytes
puts buf str =
    let full = ltb buf.space (buf.n + length str) in
    let room = if full then resize buf (max (buf.space * 2) (buf.n + length str)) else buf in
    append_bytes room str
