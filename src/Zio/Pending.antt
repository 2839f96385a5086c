-- ===== src/Zio/Pending.antt =====
-- src/lzio.h, src/lzio.cpp: `zgetc` takes the bytes of the stream one by one.
use terra.Common.{
  ℕ, ◌-◌, ◌≡◌, refl, true, false, Option, none, some, List, [], ◌∷◌, ◌++◌, arith, ltb, length,
}
use terra.Ctype.{Charint, eoz, byte}
use terra.Zio.{Zio, IsValid, pending, flow, zgetc, fill_from, init, size_max}

-- what `zgetc` returns for the unread input: its first byte and a valid stream on the rest, or the
-- end of the stream
abbrev pub Gets : List ℕ → Option (Charint × Zio) → Type 0
Gets [] r = (z : Zio) × (r ≡ some (eoz, z))
Gets (c ∷ rest) r = (z : Zio) × (r ≡ some (byte c, z)) × IsValid z × (pending z ≡ rest)

fill_lem :
    (blocks : List (List ℕ)) (n : ℕ)
    → Gets (flow blocks) (some (fill_from blocks (record { n = n; p = []; blocks = blocks })))
unfolding fill_from
fill_lem [] n = (record { n = n; p = []; blocks = [] }, refl)
fill_lem ([] ∷ blocks) n = (record { n = n; p = []; blocks = [] ∷ blocks }, refl)
fill_lem ((c ∷ buff) ∷ blocks) n =
    (record { n = length buff; p = buff; blocks = blocks }, refl, refl, refl)

Gets-zgetc :
    (n : ℕ) (p : List ℕ) (blocks : List (List ℕ))
    → n ≡ length p
    → Gets (p ++ flow blocks) (zgetc (record { n = n; p = p; blocks = blocks }))
unfolding zgetc
Gets-zgetc n [] blocks v = let e : ltb 0 n ≡ false = ground arith in rw e (fill_lem blocks size_max)
Gets-zgetc n (c ∷ p) blocks v =
    let e : ltb 0 n ≡ true = ground arith in
    rw e (record { n = n - 1; p = p; blocks = blocks }, refl, omega arith, refl)

-- From a valid stream `zgetc` takes the first unread byte, within the block at hand, and
-- leaves a valid stream on the rest; at the end of the input it returns the end of the stream.
pub zgetc-pending : (z : Zio) → IsValid z → Gets (pending z) (zgetc z)
zgetc-pending z v = Gets-zgetc z.n z.p z.blocks v

-- A second `zgetc` behind the end of the stream is a read behind the end of the block, since the
-- first one has wrapped the counter around.
pub zgetc_twice :
    (blocks : List (List ℕ))
    → flow blocks ≡ []
    → (z : Zio) × (zgetc (init blocks) ≡ some (eoz, z)) × (zgetc z ≡ none)
unfolding zgetc init
zgetc_twice [] h = (record { n = size_max; p = []; blocks = [] }, refl, refl)
zgetc_twice ([] ∷ blocks) h = (record { n = size_max; p = []; blocks = [] ∷ blocks }, refl, refl)
zgetc_twice ((c ∷ buff) ∷ blocks) h = cc
