-- ===== src/Zio.antt =====
-- src/lzio.cpp, src/lzio.h: `ZIO`, the input stream. The reader is a callback of the caller; here
-- it is the list of the blocks that it returns, and it signals the end by an empty block, or by
-- no block at all, and goes on doing so. `n` is a size_t and wraps around.
pub mod Pending
pub mod Read
use terra.Common.{
  ℕ, zero, suc, ◌+◌, ◌-◌, ◌^◌, Bool, Option, none, some, List, [], ◌∷◌, ◌++◌, ltb, leb, ◌==◌,
  if◌then◌else◌, length, take, drop, ◌≡◌,
}
use terra.Ctype.{Charint, eoz, byte}

pub record Zio : Type 0 where
  pub n : ℕ
  pub p : List ℕ
  pub blocks : List (List ℕ)

abbrev pub size_max : ℕ
size_max = 2 ^ 64 - 1

-- `luaZ_init`
unfoldable pub init : List (List ℕ) → Zio
init blocks = record { n = 0; p = []; blocks = blocks }

-- `luaZ_fill`, by the block that the reader returns
unfoldable pub fill_from : List (List ℕ) → Zio → Charint × Zio
fill_from [] z = (eoz, z)
fill_from ([] ∷ blocks) z = (eoz, z)
fill_from ((c ∷ buff) ∷ blocks) z = (byte c, record { n = length buff; p = buff; blocks = blocks })

unfoldable pub fill : Zio → Charint × Zio
unfolding fill_from
fill z = fill_from z.blocks z

-- `*(z)->p++`; `none` is a read behind the end of the block.
unfoldable pub deref : List ℕ → Zio → Option (Charint × Zio)
deref [] z = none
deref (c ∷ p) z = some (byte c, record z { n = z.n - 1; p = p })

-- The macro `zgetc`: the counter is decremented on either side of the test.
unfoldable pub zgetc : Zio → Option (Charint × Zio)
unfolding fill deref
zgetc z = if ltb 0 z.n then deref z.p z else some (fill (record z { n = size_max }))

-- `luaZ_read`: the bytes that were copied, the number of missing bytes, and the stream. Every
-- round copies at least one byte, so the rounds are bounded by the bytes that are asked for.
unfoldable pub read_block : ℕ → Zio → List ℕ × Zio
read_block m z = (take m z.p, record z { n = z.n - m; p = drop m z.p })

-- the refill at the head of the loop, with the first byte put back; `none` at the end of the input
unfoldable pub refill : Charint × Zio → Option Zio
refill (eoz, z) = none
refill (byte c, z) = some (record z { n = z.n + 1; p = c ∷ z.p })

unfoldable pub more : Zio → Option Zio
unfolding fill refill
more z = if z.n == 0 then refill (fill z) else some z

-- what a read returns: the bytes, the number of missing bytes, and the stream
abbrev pub ReadResult : Type 0
ReadResult = Option (List ℕ × ℕ × Zio)

-- `return n` where no input is left
unfoldable pub or_missing : List ℕ → ℕ → Zio → Option Zio → (Zio → ReadResult) → ReadResult
or_missing b n z none copy = some (b, n, z)
or_missing b n z (some w) copy = copy w

-- the minimum of `n` and `z->n`
abbrev pub portion : ℕ → Zio → ℕ
portion n z = if leb n z.n then n else z.n

unfoldable pub read_loop : ℕ → ℕ → Zio → List ℕ → ReadResult
unfolding more read_block or_missing
read_loop zero n z b = none
read_loop (suc fuel) n z b =
    let copied = or_missing b n z (more z) λ w.
      let block = read_block (portion n w) w in
      read_loop fuel (n - portion n w) block.1 (b ++ block.0) in
    if n == 0 then some (b, 0, z) else copied

unfoldable pub read : Zio → ℕ → ReadResult
unfolding read_loop
read z n = read_loop (n + 1) n z []

-- A stream between two reads: the counter is that of the bytes at `p`.
abbrev pub IsValid : Zio → Type 0
IsValid z = z.n ≡ length z.p

-- what the reader still delivers
abbrev pub flow : List (List ℕ) → List ℕ
flow [] = []
flow ([] ∷ blocks) = []
flow ((c ∷ buff) ∷ blocks) = c ∷ (buff ++ flow blocks)

-- the unread input
abbrev pub pending : Zio → List ℕ
pending z = z.p ++ flow z.blocks
