-- ===== src/Lexer/Patch/Replace.antt =====
-- src/llex.cpp: `luaX_patchbegin`, a write and `luaX_patchend` together replace a part of the output
-- buffer, and keep what stands around it.
use terra.Common.{
  ℕ, ◌+◌, ◌-◌, ◌≤◌, ◌≡◌, refl, ap, ◌∙◌, sym, List, ◌++◌, append_assoc, arith, length, take, drop,
  length-append, drop-length_append, length-take,
}
use terra.Ctype.{byte}
use terra.Zio
use terra.Zio.{Zio}
use terra.Mbuffer
use terra.OutputBuffer
use terra.OutputBuffer.{OutputBuffer, contents, write_at, putc, puts}
use terra.OutputBuffer.Laws.{contents-putc, contents-puts, take-take_le}
use terra.Lexer.State.{LexState, Token}
use terra.Lexer.Patch.{slice, patchbegin, pad, count_newlines, patchend, setinput}
use terra.Lexer.Patch.Laws.{drop-take, newlines, pad_lem, length-contents}
use terra.Lexer.Safety.Follows.{IsValid}

-- the place and the line from which `luaX_patchbegin` lets the parser write
abbrev pub place : LexState → Token → ℕ
place s begin = (patchbegin s begin).1.seminfo.buffer_begin

abbrev pub first_line : LexState → Token → ℕ
first_line s begin = (patchbegin s begin).1.seminfo.linebegin

-- `luaX_patchend` after the parser has written: the state of `luaX_patchbegin` with the buffer `ob`
abbrev pub replaced : LexState → Token → OutputBuffer → LexState
replaced s begin ob =
    patchend (record ((patchbegin s begin).0) { output_buffer = ob }) (patchbegin s begin).1

-- the number of newlines that are missing behind the text
abbrev pub missing : LexState → Token → List ℕ → ℕ
missing s begin text = s.t.seminfo.linebegin - (first_line s begin + count_newlines text)

-- what `luaX_patchend` does with the buffer
finish_lem :
    (front text tail : List ℕ) (k : ℕ) (ob : OutputBuffer)
    → OutputBuffer.IsValid ob
    → contents ob ≡ front ++ text
    → OutputBuffer.IsValid (puts (pad k ob) tail)
      × (contents (puts (pad k ob) tail) ≡ front ++ (text ++ (newlines k ++ tail)))
      × (drop (pad k ob).n (contents (puts (pad k ob) tail)) ≡ tail)
finish_lem front text tail k ob v e =
    let padded = pad_lem k ob v in
    let put = contents-puts (pad k ob) tail padded.0 in
    let size = length-contents (pad k ob) padded.0 in
    let whole : contents (pad k ob) ≡ (front ++ text) ++ newlines k =
      padded.1 ∙ ap (λ r. r ++ newlines k) e in
    (
      put.0,
      put.1
          ∙ ap (λ r. r ++ tail) whole
          ∙ append_assoc (front ++ text) (newlines k) tail
          ∙ append_assoc front text (newlines k ++ tail),
      ap (λ n. drop n (contents (puts (pad k ob) tail))) (sym size)
          ∙ ap (drop (length (contents (pad k ob)))) put.1
          ∙ drop-length_append (contents (pad k ob)) tail,
    )

module _ (s : LexState) (begin : Token) (text : List ℕ) (ob : OutputBuffer)
    (valid : OutputBuffer.IsValid s.output_buffer)
    (before : place s begin ≤ s.t.seminfo.buffer_begin)
    (within : s.t.seminfo.buffer_begin ≤ s.output_buffer.n) (written : OutputBuffer.IsValid ob)
    (appended : contents ob ≡ contents (patchbegin s begin).0.output_buffer ++ text) where
  saved_tail :
      (patchbegin s begin).0.patchinfo.buffer
      ≡ drop s.t.seminfo.buffer_begin (contents s.output_buffer)
  unfolding patchbegin
  saved_tail =
      sym (drop-take s.t.seminfo.buffer_begin s.output_buffer.n s.output_buffer.bytes within)

  pub kept_front :
      contents (patchbegin s begin).0.output_buffer
      ≡ take (place s begin) (contents s.output_buffer)
  unfolding patchbegin
  kept_front =
      sym (take-take_le (place s begin) s.output_buffer.n s.output_buffer.bytes (omega arith))

  pub text_at : slice ob.bytes (place s begin) (ob.n - place s begin) ≡ text
  text_at =
      let front = contents (patchbegin s begin).0.output_buffer in
      let size : length front ≡ place s begin =
        ap length kept_front
        ∙ length-take (place s begin) (contents s.output_buffer)
            (let e = length-contents s.output_buffer valid in omega arith) in
      let total = length-contents ob written in
      let total' = ap length appended ∙ length-append front text in
      sym (drop-take (place s begin) ob.n ob.bytes (omega arith))
      ∙ ap (drop (place s begin)) appended
      ∙ rw (← size) (drop-length_append front text)

  pub same_t : (patchbegin s begin).0.t ≡ s.t
  unfolding patchbegin
  same_t = refl

  -- The place at which `luaX_patchbegin` begins is not behind the current token, and the parser has
  -- appended a text there. What stands before the place and from the current token on is kept. Between them stand the
  -- written text and the newlines that are missing, and the current token is found behind them.
  pub replaced_lem :
      OutputBuffer.IsValid (replaced s begin ob).output_buffer
      × (contents (replaced s begin ob).output_buffer
          ≡ take (place s begin) (contents s.output_buffer)
            ++ (text
                ++ (newlines (missing s begin text)
                    ++ drop s.t.seminfo.buffer_begin (contents s.output_buffer))))
      × (drop
            (replaced s begin ob).t.seminfo.buffer_begin
            (contents (replaced s begin ob).output_buffer)
          ≡ drop s.t.seminfo.buffer_begin (contents s.output_buffer))
  unfolding patchend
  replaced_lem =
      rw (text_at, same_t, saved_tail)
        (finish_lem (take (place s begin) (contents s.output_buffer)) text
          (drop s.t.seminfo.buffer_begin (contents s.output_buffer)) (missing s begin text) ob
          written (appended ∙ ap (λ r. r ++ text) kept_front))

-- `luaX_setinput` makes a valid state, if the stream and the output buffer are valid, the first
-- character has been read, and the token buffer holds no more than its new size.
pub setinput-IsValid :
    (z : Zio) (c : ℕ) (s : LexState)
    → Zio.IsValid z
    → OutputBuffer.IsValid s.output_buffer
    → length s.buff.buffer ≤ Mbuffer.minbuffer
    → IsValid (setinput z (byte c) s)
unfolding setinput Mbuffer.resize
setinput-IsValid z c s v w h =
    let put = contents-putc s.output_buffer c w in
    record {
      output = put.0;
      buff = record { fits = h; roomy = omega arith };
      live = (v, omega arith);
    }
