-- ===== src/Lexer/Patch/Lines.antt =====
-- src/llex.cpp: `luaX_patchbegin`, a write and `luaX_patchend` keep the lines of the source, so that Lua
-- finds the text behind a replacement on the line on which it stood.
use terra.Common.{
  ℕ, suc, ◌+◌, ◌-◌, ◌≤◌, max, ◌≡◌, ◌≢◌, refl, ap, ◌∙◌, sym, List, [], ◌∷◌, ◌++◌, append_assoc,
  arith, length, take, drop, take-length_append, take_split, ◌==◌, if◌then◌else◌, inl, inr,
  Bool-cases,
}
use terra.OutputBuffer
use terra.OutputBuffer.{OutputBuffer, contents}
use terra.OutputBuffer.Laws.{take-take_le}
use terra.Lexer.State.{LexState, Token}
use terra.Lexer.Patch.{
  is_blank, is_newline_byte, skip_blanks, patchbegin, pad, count_newlines, patchend,
}
use terra.Lexer.Patch.Laws.{
  newlines, pad_lem, length-contents, count_newlines-newlines, count_newlines-append,
}
use terra.Lexer.Patch.Replace.{
  place, first_line, replaced, missing, text_at, same_t, kept_front, replaced_lem,
}

-- the line on which a place of the output buffer stands
abbrev pub line_at : OutputBuffer → ℕ → ℕ
line_at ob pos = 1 + count_newlines (take pos (contents ob))

-- no line ends with a carriage return
abbrev pub NoReturn : List ℕ → Type 0
NoReturn [] = Unit {0}
NoReturn (c ∷ cs) = (c ≢ b'\r') × NoReturn cs

-- the blanks that `luaX_patchbegin` keeps in front of a token
abbrev pub blanks : LexState → Token → List ℕ
blanks s begin =
    let behind = drop begin.seminfo.buffer_begin s.output_buffer.bytes in
    take (skip_blanks behind).0 behind

count_one :
    (c : ℕ) (cs : List ℕ)
    → c ≢ b'\r'
    → (if is_newline_byte c then count_newlines cs + 1 else count_newlines cs)
      ≡ count_newlines (c ∷ cs)
unfolding count_newlines
count_one c cs h = elim (Bool-cases (c == b'\n')) [
  | inl e ↦ rw e refl
  | inr e ↦ ground (arith, e, h)
]

skipped_lines :
    (cs : List ℕ)
    → NoReturn (take (skip_blanks cs).0 cs)
    → (skip_blanks cs).1 ≡ count_newlines (take (skip_blanks cs).0 cs)
unfolding skip_blanks count_newlines
skipped_lines [] h = refl
skipped_lines (c ∷ cs) h = elim (Bool-cases (is_blank c)) [
  | inl e ↦
      let next : (skip_blanks cs).0 + 1 ≡ suc (skip_blanks cs).0 = omega arith in
      let h' : (c ≢ b'\r') × NoReturn (take (skip_blanks cs).0 cs) = rw (e, next) at h in
      rw (e, next)
        (ap (λ n. if is_newline_byte c then n + 1 else n) (skipped_lines cs (h'.1))
          ∙ count_one c (take (skip_blanks cs).0 cs) h'.0)
  | inr e ↦ rw e refl
]

module _ (s : LexState) (begin : Token) (text : List ℕ) (ob : OutputBuffer)
    (valid : OutputBuffer.IsValid s.output_buffer)
    (before : place s begin ≤ s.t.seminfo.buffer_begin)
    (within : s.t.seminfo.buffer_begin ≤ s.output_buffer.n) (written : OutputBuffer.IsValid ob)
    (appended : contents ob ≡ contents (patchbegin s begin).0.output_buffer ++ text) where
  token_place :
      (replaced s begin ob).t.seminfo.buffer_begin
      ≡ length (contents ob ++ newlines (missing s begin text))
  unfolding patchend
  token_place =
      let padded = pad_lem (missing s begin text) ob written in
      let size = length-contents (pad (missing s begin text) ob) padded.0 in
      rw
        (
          text_at s begin text ob valid before within written appended,
          same_t s begin text ob valid before within written appended,
        )
        (sym size ∙ ap length padded.1)

  -- The current token stands behind the written text and the padding.
  before_token :
      take
        (replaced s begin ob).t.seminfo.buffer_begin
        (contents (replaced s begin ob).output_buffer)
      ≡ take (place s begin) (contents s.output_buffer) ++ (text ++ newlines (missing s begin text))
  before_token =
      let front = take (place s begin) (contents s.output_buffer) in
      let padding = newlines (missing s begin text) in
      let tail = drop s.t.seminfo.buffer_begin (contents s.output_buffer) in
      let kept = kept_front s begin text ob valid before within written appended in
      let written_text : contents ob ++ padding ≡ front ++ (text ++ padding) =
        ap (λ r. r ++ padding) (appended ∙ ap (λ r. r ++ text) kept)
        ∙ append_assoc front text padding in
      let result = (replaced_lem s begin text ob valid before within written appended).1 in
      let split : front ++ (text ++ (padding ++ tail)) ≡ (front ++ (text ++ padding)) ++ tail =
        ap (λ r. front ++ r) (sym (append_assoc text padding tail))
        ∙ sym (append_assoc front (text ++ padding) tail) in
      ap (λ n. take n (contents (replaced s begin ob).output_buffer))
        (token_place ∙ ap length written_text)
      ∙ ap (take (length (front ++ (text ++ padding)))) (result ∙ split)
      ∙ take-length_append (front ++ (text ++ padding)) tail

  -- The line from which the parser writes is that of the place in the buffer.
  first_line_lem :
      begin.seminfo.linebegin ≡ line_at s.output_buffer begin.seminfo.buffer_begin
      → NoReturn (blanks s begin)
      → first_line s begin ≡ line_at s.output_buffer (place s begin)
  unfolding patchbegin
  first_line_lem line plain =
      let at = begin.seminfo.buffer_begin in
      let behind = drop at s.output_buffer.bytes in
      let k = (skip_blanks behind).0 in
      let n = s.output_buffer.n in
      let size : at + k - at ≡ k = omega arith in
      let whole : take (at + k) (contents s.output_buffer)
          ≡ take at (contents s.output_buffer) ++ take k behind =
        take-take_le (at + k) n s.output_buffer.bytes (omega arith)
        ∙ take_split at (at + k) s.output_buffer.bytes (omega arith)
        ∙ ap (λ m. take at s.output_buffer.bytes ++ take m behind) size
        ∙ ap (λ r. r ++ take k behind)
            (sym (take-take_le at n s.output_buffer.bytes (omega arith))) in
      let lines =
        ap count_newlines whole
        ∙ count_newlines-append (take at (contents s.output_buffer)) (take k behind) in
      omega (arith, line, lines, skipped_lines behind plain)

  -- Let the token at which the replacement begins have the line of its place in the output buffer, and
  -- no carriage return stand among the blanks that are kept. Behind the replacement the current token
  -- then stands on the line that it has in the source, or, if the written text reaches further, on the
  -- last line of this text.
  pub replaced_lines :
      begin.seminfo.linebegin ≡ line_at s.output_buffer begin.seminfo.buffer_begin
      → NoReturn (blanks s begin)
      → line_at (replaced s begin ob).output_buffer (replaced s begin ob).t.seminfo.buffer_begin
        ≡ max (line_at s.output_buffer (place s begin) + count_newlines text) s.t.seminfo.linebegin
  replaced_lines line plain =
      let front = take (place s begin) (contents s.output_buffer) in
      let padding = newlines (missing s begin text) in
      let lines = ap count_newlines before_token ∙ count_newlines-append front (text ++ padding) in
      let more = count_newlines-append text padding in
      let padded = count_newlines-newlines (missing s begin text) in
      let first = first_line_lem line plain in omega (arith, lines, more, padded, first)
