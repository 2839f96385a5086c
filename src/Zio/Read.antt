-- ===== src/Zio/Read.antt =====
-- src/lzio.cpp: `luaZ_read` copies the front of the unread input, across the blocks.
use terra.Common.{
  ℕ, zero, suc, ◌+◌, ◌-◌, ◌≤◌, ◌<◌, ◌≡◌, refl, ◌∙◌, sym, true, false, Option, none, some, List, [],
  ◌∷◌, ◌++◌, append_assoc, append-nil, arith, ==→eq, ◌==◌, length, take, drop, length-append,
  length-drop, take-append_le, drop-append_le, take_split, take-nil, drop-nil, drop_split, inl, inr,
  Bool-cases, subst,
}
use terra.Zio.{
  Zio, IsValid, pending, flow, fill, fill_from, refill, more, read, read_loop, read_block,
  or_missing, portion, ReadResult,
}

-- a stream with bytes at `p`, or none at the end of the input
abbrev Refills : List ℕ → Option Zio → Type 0
Refills rest none = rest ≡ []
Refills rest (some w) = (1 ≤ w.n) × IsValid w × (pending w ≡ rest)

refill_lem :
    (blocks : List (List ℕ)) (n : ℕ)
    → Refills (flow blocks) (refill (fill_from blocks (record { n = n; p = []; blocks = blocks })))
unfolding fill_from refill
refill_lem [] n = refl
refill_lem ([] ∷ blocks) n = refl
refill_lem ((c ∷ buff) ∷ blocks) n = (omega arith, omega arith, refl)

more_lem :
    (n : ℕ) (p : List ℕ) (blocks : List (List ℕ))
    → n ≡ length p
    → Refills (p ++ flow blocks) (more (record { n = n; p = p; blocks = blocks }))
unfolding more fill
more_lem n [] blocks v = let e : (n == 0) ≡ true = ground arith in rw e (refill_lem blocks n)
more_lem n (c ∷ p) blocks v = let e : (n == 0) ≡ false = ground arith in rw e (omega arith, v, refl)

-- the outcome of a read of `n` bytes: the front of the unread input, the number of bytes that are
-- missing, and a valid stream on the rest
abbrev pub Reads : List ℕ → ℕ → List ℕ → Option (List ℕ × ℕ × Zio) → Type 0
Reads b n rest r =
    (z : Zio) × (r ≡ some (b ++ take n rest, n - length rest, z))
    × IsValid z
    × (pending z ≡ drop n rest)

block_lem :
    (m n : ℕ) (w : Zio)
    → IsValid w
    → m ≤ n
    → m ≤ w.n
    → IsValid (read_block m w).1
      × (take n (pending w) ≡ (read_block m w).0 ++ take (n - m) (pending (read_block m w).1))
      × (drop n (pending w) ≡ drop (n - m) (pending (read_block m w).1))
      × (length (pending w) ≡ m + length (pending (read_block m w).1))
unfolding read_block
block_lem m n w v h k =
    let e1 = take-append_le m w.p (flow w.blocks) (omega arith) in
    let e2 = drop-append_le m w.p (flow w.blocks) (omega arith) in
    let e3 = take_split m n (pending w) h in
    let e4 = drop_split m n (pending w) h in
    let e5 = length-drop m w.p in
    let e6 = length-append w.p (flow w.blocks) in
    let e7 = length-append (drop m w.p) (flow w.blocks) in
    (omega arith, rw (e1, e2) at e3, rw e2 at e4, omega arith)

or_missing_lem :
    (b : List ℕ) (n : ℕ) (z : Zio) (r : Option Zio) (copy : Zio → ReadResult)
    → IsValid z
    → Refills (pending z) r
    → ((w : Zio) → 1 ≤ w.n → IsValid w → pending w ≡ pending z → Reads b n (pending z) (copy w))
    → Reads b n (pending z) (or_missing b n z r copy)
unfolding or_missing
or_missing_lem b n z none copy v h k =
    let e : n - 0 ≡ n = omega arith in
    (z, rw (h, take-nil n, append-nil b, e) refl, v, rw (h, drop-nil n) refl)
or_missing_lem b n z (some w) copy v h k = k w h.0 h.1 h.2

-- a read of `m` bytes and then of the others is a read of all
Reads-after :
    (b front : List ℕ) (n m : ℕ) (whole rest : List ℕ) (r : ReadResult)
    → Reads (b ++ front) (n - m) rest r
    → take n whole ≡ front ++ take (n - m) rest
    → drop n whole ≡ drop (n - m) rest
    → length whole ≡ m + length rest
    → Reads b n whole r
Reads-after b front n m whole rest r (z, e, v, p) h k l =
    let same : n - length whole ≡ n - m - length rest = omega arith in
    (z, rw (h, same, ← append_assoc b front (take (n - m) rest)) e, v, p ∙ sym k)

read_loop_lem :
    (fuel n : ℕ) (z : Zio) (b : List ℕ)
    → IsValid z
    → n < fuel
    → Reads b n (pending z) (read_loop fuel n z b)
unfolding read_loop
read_loop_lem zero n z b v h = elim h [ ]
read_loop_lem (suc fuel) n z b v h = elim (Bool-cases (n == 0)) [
  | inl done ↦
      let e = ==→eq _ _ done in
      let e' : 0 - length (pending z) ≡ 0 = omega arith in
      (z, rw done (rw (e, e', append-nil b) refl), v, rw e refl)
  | inr todo ↦ rw todo (
      or_missing_lem b n z (more z) _ v (more_lem z.n z.p z.blocks v) λ w pos v' e.
        let m = portion n w in
        let less : m ≤ n = ground arith in
        let within : m ≤ w.n = ground arith in
        let some_read : 1 ≤ m = ground arith in
        let part = block_lem m n w v' less within in
        let rest =
          read_loop_lem fuel (n - m) (read_block m w).1 (b ++ (read_block m w).0) part.0
            (omega arith) in
        subst
          (λ whole.
            Reads b n whole (read_loop fuel (n - m) (read_block m w).1 (b ++ (read_block m w).0)))
          e
          (Reads-after b (read_block m w).0 n m (pending w) (pending (read_block m w).1) _ rest
            part.1 part.2 part.3))
]

-- A read of `n` bytes ends. It copies the first `n` unread bytes, or all there are, across the
-- blocks of the reader, returns how many are missing, and leaves a valid stream on the rest.
pub read-pending : (z : Zio) (n : ℕ) → IsValid z → Reads [] n (pending z) (read z n)
unfolding read
read-pending z n v = read_loop_lem (n + 1) n z [] v (omega arith)
