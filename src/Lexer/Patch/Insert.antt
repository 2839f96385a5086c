-- ===== src/Lexer/Patch/Insert.antt =====
-- src/llex.cpp: `luaX_insertbeforecurrenttoken` makes room for one character in the output buffer.
use terra.Common.{
  ℕ, ◌+◌, ◌-◌, ◌≤◌, ◌≡◌, refl, ap, ◌∙◌, sym, List, [], ◌∷◌, ◌++◌, arith, length, take, drop,
  length-append, take-length_append, drop-length_append, length-take, length-drop, take-append_le,
}
use terra.OutputBuffer
use terra.OutputBuffer.{OutputBuffer, contents, write_at, putc, puts}
use terra.OutputBuffer.Laws.{contents-putc, take-take_le, take_front}
use terra.Lexer.State.{LexState}
use terra.Lexer.Patch.{insert_at, slice, insertbeforecurrenttoken}
use terra.Lexer.Patch.Laws.{drop-take, length-contents}

-- The move and the assignment change the bytes as one insertion, and overwrite what stood behind.
insert_at-front :
    (bytes : List ℕ) (at sz c : ℕ)
    → at + 1 ≤ length bytes
    → insert_at bytes at sz c
      ≡ take at bytes
        ++ ((c ∷ slice bytes at sz) ++ drop (at + 1 + length (slice bytes at sz)) bytes)
unfolding insert_at write_at
insert_at-front bytes at sz c h =
    let moved : List ℕ = slice bytes at sz in
    let rest : List ℕ = drop (at + 1 + length moved) bytes in
    let size : length (take (at + 1) bytes) ≡ at + 1 = length-take (at + 1) bytes h in
    let front : take at (take (at + 1) bytes ++ (moved ++ rest)) ≡ take at bytes =
      take-append_le at (take (at + 1) bytes) (moved ++ rest) (omega arith)
      ∙ take-take_le at (at + 1) bytes (omega arith) in
    let back : drop (at + 1) (take (at + 1) bytes ++ (moved ++ rest)) ≡ moved ++ rest =
      ap (λ n. drop n (take (at + 1) bytes ++ (moved ++ rest))) (sym size)
      ∙ drop-length_append (take (at + 1) bytes) (moved ++ rest) in
    rw (front, back) refl

-- a memory that holds `n` bytes and one more
module _ (ob : OutputBuffer) (n at c : ℕ) (h : at ≤ n) (v : OutputBuffer.IsValid ob)
    (size : ob.n ≡ n + 1) (held : List ℕ) (front : take n ob.bytes ≡ held) where
  moved_bytes : slice ob.bytes at (n - at) ≡ drop at held
  moved_bytes = sym (drop-take at n ob.bytes h) ∙ ap (drop at) front

  kept_bytes : take at ob.bytes ≡ take at held
  kept_bytes = sym (take-take_le at n ob.bytes h) ∙ ap (take at) front

  length-moved : length (slice ob.bytes at (n - at)) ≡ n - at
  length-moved =
      let within = v.within in
      length-take (n - at) (drop at ob.bytes) (let e = length-drop at ob.bytes in omega arith)

  inserted_lem :
      OutputBuffer.IsValid (record ob { bytes = insert_at ob.bytes at (n - at) c })
      × (take ob.n (insert_at ob.bytes at (n - at) c) ≡ take at held ++ (c ∷ drop at held))
  inserted_lem =
      let within = v.within in
      let fits = v.fits in
      let roomy = v.roomy in
      let moved : List ℕ = slice ob.bytes at (n - at) in
      let rest : List ℕ = drop (at + 1 + length moved) ob.bytes in
      let whole = insert_at-front ob.bytes at (n - at) c (omega arith) in
      let low = length-take at ob.bytes (omega arith) in
      let full : length (take at ob.bytes) + length (c ∷ moved) ≡ ob.n =
        let e = length-moved in omega arith in
      let total = length-append (take at ob.bytes) ((c ∷ moved) ++ rest) in
      let total' = length-append (c ∷ moved) rest in
      let last = length-drop (at + 1 + length moved) ob.bytes in
      let size' = ap length whole in
      (
        record { within = omega arith; fits = omega arith; roomy = roomy },
        ap (take ob.n) whole
            ∙ ap (λ m. take m (take at ob.bytes ++ ((c ∷ moved) ++ rest))) (sym full)
            ∙ take_front (take at ob.bytes) (c ∷ moved) rest
            ∙ rw (moved_bytes, kept_bytes) refl,
      )

-- A character is inserted before the current token of a valid buffer, within its memory, and the token
-- is found behind it.
pub insertbeforecurrenttoken_lem :
    (s : LexState) (c : ℕ)
    → OutputBuffer.IsValid s.output_buffer
    → s.t.seminfo.buffer_begin ≤ s.output_buffer.n
    → let s' = insertbeforecurrenttoken s c in
      OutputBuffer.IsValid s'.output_buffer
      × (contents s'.output_buffer
          ≡ take s.t.seminfo.buffer_begin (contents s.output_buffer)
            ++ (c ∷ drop s.t.seminfo.buffer_begin (contents s.output_buffer)))
      × (s'.t.seminfo.buffer_begin ≡ s.t.seminfo.buffer_begin + 1)
unfolding insertbeforecurrenttoken
insertbeforecurrenttoken_lem s c v h =
    let ob = s.output_buffer in
    let put = contents-putc ob c v in
    let size = length-contents ob v in
    let front : take ob.n (putc ob c).bytes ≡ contents ob =
      sym (take-take_le ob.n (putc ob c).n (putc ob c).bytes (omega arith))
      ∙ ap (take ob.n) put.1
      ∙ ap (λ n. take n (contents ob ++ c ∷ [])) (sym size)
      ∙ take-length_append (contents ob) (c ∷ []) in
    let done =
      inserted_lem (putc ob c) ob.n s.t.seminfo.buffer_begin c h put.0 put.2 (contents ob) front in
    (done.0, done.1, refl)
