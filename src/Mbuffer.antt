-- ===== src/Mbuffer.antt =====
-- src/lzio.h, src/llex.cpp: `Mbuffer`, the buffer that holds the token being read, and `save`.
use terra.Common.{
  ℕ, ◌+◌, ◌^◌, ◌-◌, ◌*◌, ◌/◌, ◌≤◌, ◌≡◌, refl, Option, none, some, List, [], ◌∷◌, ◌++◌, ltb, ◌⊎◌,
  inl, inr, Bool-cases, leb, if◌then◌else◌, length, length-append, arith, subst,
}

-- `buffer` is the text of length `n`; `buffsize` is the size of its memory.
pub record Mbuffer : Type 0 where
  pub buffer : List ℕ
  pub buffsize : ℕ

abbrev pub bufflen : Mbuffer → ℕ
bufflen b = length b.buffer

-- `MAX_SIZET`, two below the largest size_t
abbrev pub max_sizet : ℕ
max_sizet = 2 ^ 64 - 1 - 2

abbrev pub minbuffer : ℕ
minbuffer = 32

unfoldable pub reset : Mbuffer → Mbuffer
reset b = record b { buffer = [] }

unfoldable pub resize : Mbuffer → ℕ → Mbuffer
resize b size = record b { buffsize = size }

-- `luaZ_openspace`
unfoldable pub openspace : Mbuffer → ℕ → Mbuffer
unfolding resize
openspace b n = if ltb b.buffsize n then resize b (if ltb n minbuffer then minbuffer else n) else b

-- `save`; `none` is the error "lexical element too long".
unfoldable pub save : Mbuffer → ℕ → Option Mbuffer
unfolding resize
save b c =
    let pushed = λ (r : Mbuffer). some (record r { buffer = r.buffer ++ c ∷ [] }) in
    if ltb b.buffsize (bufflen b + 1)
    then if leb (max_sizet / 2) b.buffsize then none else pushed (resize b (b.buffsize * 2))
    else pushed b

-- The text lies within the memory, which is not empty.
pub record IsValid (b : Mbuffer) : Type 0 where
  pub fits : bufflen b ≤ b.buffsize
  pub roomy : 1 ≤ b.buffsize

-- The text grows by the byte and stays within its memory, and the byte is refused only for a text
-- of at least 2^63 - 2 bytes.
pub save_lem :
    (b : Mbuffer) (c : ℕ)
    → IsValid b
    → ((r : Mbuffer) × (save b c ≡ some r) × (r.buffer ≡ b.buffer ++ c ∷ []) × IsValid r)
      ⊎ ((save b c ≡ none) × (max_sizet / 2 ≤ bufflen b))
unfolding save
save_lem b c v = elim (Bool-cases (ltb b.buffsize (bufflen b + 1))) [
  | inl full ↦ elim (Bool-cases (leb (max_sizet / 2) b.buffsize)) [
    | inl huge ↦ inr (rw (full, huge), ground arith)
    | inr small ↦
        let e = length-append b.buffer (c ∷ []) in
        inl (
          record { buffer = b.buffer ++ c ∷ []; buffsize = b.buffsize * 2 },
          rw (full, small),
          refl,
          record { fits = ground arith; roomy = omega arith },
        )
  ]
  | inr room ↦
      let e = length-append b.buffer (c ∷ []) in
      inl (
        record b { buffer = b.buffer ++ c ∷ [] },
        rw room,
        refl,
        record { fits = ground arith; roomy = v.roomy },
      )
]

pub save-IsValid : (b : Mbuffer) (c : ℕ) → IsValid b → (r : Mbuffer) → save b c ≡ some r → IsValid r
save-IsValid b c v r e = elim (save_lem b c v) [
  | inl done ↦ subst IsValid (cc (done.1)) done.3
  | inr refused ↦ cc (refused.0)
]
