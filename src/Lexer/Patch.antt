-- ===== src/Lexer/Patch.antt =====
-- src/llex.cpp: the functions by which the parser replaces a Terra part of the output buffer.
pub mod Insert
pub mod Laws
pub mod Lines
pub mod Replace
use terra.Common.{
  ℕ, zero, suc, ◌+◌, ◌-◌, ◌^◌, ◌%◌, ◌*◌, ◌≤◌, ◌<◌, min, max, ◌≡◌, refl, ap, ◌∙◌, sym, Bool, true,
  false, Option, none, some, List, [], ◌∷◌, ◌++◌, append_assoc, append-nil, arith, ltb, leb, ltb→lt,
  ltb-false, ==→eq, ◌==◌, if◌then◌else◌, length, take, drop, length-append, take-length_append,
  length-take, length-take_le, length-drop, take-append_le, drop-append_le, take_split, take-nil,
  drop-nil, drop_split, inl, inr, Bool-cases, take-append_drop, ◌⊎◌, ◌≢◌, ◌&&◌, ◌||◌, not, subst,
}
use terra.Ctype.{Charint, eoz, byte}
use terra.Zio.{Zio}
use terra.Mbuffer
use terra.OutputBuffer
use terra.OutputBuffer.{OutputBuffer, write_at, putc, puts}
use terra.Strings.{TString, newlstr}
use terra.Token.{tk_eos, codes}
use terra.Lexer.State.{LexState, Token, SemInfo, PatchInfo}

-- the `n` bytes of the memory from `from` on
abbrev pub slice : List ℕ → ℕ → ℕ → List ℕ
slice bytes from n = take n (drop from bytes)

-- `luaX_setinput`, on the state that `luaY_parser` has filled in
unfoldable pub setinput : Zio → Charint → LexState → LexState
unfolding putc Mbuffer.resize
setinput z firstchar s = record s {
  current = firstchar;
  currentoffset = 0;
  lookahead = record (s.lookahead) { token = tk_eos };
  z = z;
  linenumber = 1;
  lastline = 1;
  in_terra = 0;
  patchinfo = record { buffer = []; space = 32 };
  strings = (newlstr s.strings (codes "<terra_parser>")).1;
  output_buffer = elim firstchar [ eoz ↦ s.output_buffer | byte c ↦ putc s.output_buffer c ];
  buff = Mbuffer.resize s.buff Mbuffer.minbuffer;
}

abbrev is_newline_byte : ℕ → Bool
is_newline_byte c = c == b'\n' || c == b'\r'

-- the characters behind which the loop of `luaX_patchbegin` goes on
abbrev pub is_blank : ℕ → Bool
is_blank c = is_newline_byte c || c == b' ' || c == 12 || c == b'\t' || c == 11

-- the numbers of skipped characters, and of newline characters among them
unfoldable pub skip_blanks : List ℕ → ℕ × ℕ
skip_blanks [] = (0, 0)
skip_blanks (c ∷ cs) =
    let more = skip_blanks cs in
    if is_blank c then (more.0 + 1, if is_newline_byte c then more.1 + 1 else more.1) else (0, 0)

-- `if (n_bytes > ls->patchinfo.space)`, and the copy
unfoldable pub save_patch : PatchInfo → List ℕ → PatchInfo
save_patch p text = record {
  buffer = text;
  space = if ltb p.space (length text) then max (length text) (p.space * 2) else p.space;
}

-- `luaX_patchbegin`: the state, and the token at `begin_token`
unfoldable pub patchbegin : LexState → Token → LexState × Token
unfolding save_patch skip_blanks
patchbegin s begin =
    let ob = s.output_buffer in
    let from = s.t.seminfo.buffer_begin in
    let at = begin.seminfo.buffer_begin in
    let skipped = skip_blanks (drop at ob.bytes) in
    (
      record s {
        patchinfo = save_patch s.patchinfo (slice ob.bytes from (ob.n - from));
        output_buffer = record ob { n = at + skipped.0 };
      },
      record begin {
        seminfo = record (begin.seminfo) {
          buffer_begin = at + skipped.0;
          linebegin = begin.seminfo.linebegin + skipped.1;
        };
      },
    )

-- a token whose text has moved in the buffer
abbrev pub moved : Token → ℕ → Token
moved t at = record t { seminfo = record (t.seminfo) { buffer_begin = at } }

-- the bytes from `at` on moved up by one, and the assignment
unfoldable pub insert_at : List ℕ → ℕ → ℕ → ℕ → List ℕ
insert_at bytes at sz c = write_at (write_at bytes (at + 1) (slice bytes at sz)) at (c ∷ [])

-- `luaX_insertbeforecurrenttoken`
unfoldable pub insertbeforecurrenttoken : LexState → ℕ → LexState
insertbeforecurrenttoken s c =
    let at = s.t.seminfo.buffer_begin in
    let sz = s.output_buffer.n - at in
    let ob = putc s.output_buffer c in
    record s {
      output_buffer = record ob { bytes = insert_at ob.bytes at sz c };
      t = moved s.t (at + 1);
      lookahead = moved s.lookahead (s.lookahead.seminfo.buffer_begin + 1);
    }

-- `luaX_getoutput`
unfoldable pub getoutput : LexState → Token → List ℕ
getoutput s begin =
    let at = begin.seminfo.buffer_begin in
    slice s.output_buffer.bytes at (s.t.seminfo.buffer_begin - at)

-- `luaX_saveoutput`
unfoldable pub saveoutput : LexState → Token → List ℕ × LexState
unfolding getoutput newlstr
saveoutput s begin =
    let found = newlstr s.strings (getoutput s begin) in
    (found.0.string, record s { strings = found.1 })

unfoldable pub count_newlines : List ℕ → ℕ
count_newlines [] = 0
count_newlines (c ∷ cs) = let rest = count_newlines cs in if c == b'\n' then rest + 1 else rest

-- the loop that pads with newlines
unfoldable pub pad : ℕ → OutputBuffer → OutputBuffer
unfolding putc
pad zero ob = ob
pad (suc n) ob = pad n (putc ob b'\n')

-- `luaX_patchend`; the offset is added to the tokens' places as an int.
unfoldable pub patchend : LexState → Token → LexState
unfolding count_newlines pad puts
patchend s begin =
    let ob = s.output_buffer in
    let at = begin.seminfo.buffer_begin in
    let line = begin.seminfo.linebegin + count_newlines (slice ob.bytes at (ob.n - at)) in
    let padded = pad (s.t.seminfo.linebegin - line) ob in
    let from = s.t.seminfo.buffer_begin in
    record s {
      output_buffer = puts padded s.patchinfo.buffer;
      t = moved s.t padded.n;
      lookahead = moved s.lookahead (s.lookahead.seminfo.buffer_begin + padded.n - from);
    }
