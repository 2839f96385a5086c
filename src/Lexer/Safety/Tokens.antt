-- ===== src/Lexer/Safety/Tokens.antt =====
-- src/llex.cpp: `luaX_next` and `luaX_lookahead`, on the current token and the one behind it.
use terra.Common.{
  ℕ, ◌≤◌, ◌≡◌, refl, ap, ◌∙◌, sym, false, arith, ne-==, ==→eq, ◌==◌, inl, inr, Bool-cases, ◌⊎◌, ◌≢◌,
}
use terra.Ctype.{Charint, eoz, byte}
use terra.Token.{tk_eos}
use terra.Lexer.State
use terra.Lexer.State.{
  LexState, Token, SemInfo, Value, number, text, Result, M, ok, err, fault, out_of_fuel, ◌>>=◌,
  ◌>>◌, pure, get, put, current, when, branch, lexerror, Message, malformed_number,
  unfinished_long_string, unfinished_long_comment, invalid_long_delimiter, unfinished_string,
  hexadecimal_expected, decimal_too_large, invalid_escape, unread,
}
use terra.Lexer.State.{LexError}
use terra.Lexer.Numeral.{Numbers}
use terra.Lexer.Scan.{llex, luax_next, luax_lookahead}
use terra.Lexer.Safety.Follows.{IsLive, IsValid, stream, left, Safe, Any}
use terra.Lexer.Safety.Scan.{llex-Safe}

-- A run ends with a valid state, the same text copied and to be copied, and no character unread, or
-- with a syntax error.
abbrev pub Ends : {A : Type 0} → LexState → Result A → Type 0
Ends {A} s r =
    ((a : A) × (s' : LexState) × (r ≡ ok a s')
      × IsValid s'
      × (stream s' ≡ stream s)
      × (left s' ≤ left s)
      × (s.linenumber ≤ s'.linenumber))
    ⊎ ((e : LexError) × (r ≡ err e))

IsLive-fields :
    (c : Charint) (s : LexState) (t lookahead : Token) (lastline : ℕ)
    → IsLive c s
    → IsLive c (record s { t = t; lookahead = lookahead; lastline = lastline })
IsLive-fields eoz s t lookahead lastline h = tt
IsLive-fields (byte c) s t lookahead lastline h = h

IsValid-fields :
    (s : LexState) (t lookahead : Token) (lastline : ℕ)
    → IsValid s
    → IsValid (record s { t = t; lookahead = lookahead; lastline = lastline })
IsValid-fields s t lookahead lastline v = record {
  output = v.output;
  buff = v.buff;
  live = IsLive-fields s.current s t lookahead lastline v.live;
}

-- The current token of `s'` is the one that was looked ahead in `s`, and no other is looked ahead; or
-- it is the one that `llex` reads next, if none was looked ahead.
abbrev pub MovesOn : Numbers → LexState → LexState → Type 0
MovesOn lib s s' =
    ((s.lookahead.token ≢ tk_eos) × (s'.t ≡ s.lookahead) × (s'.lookahead.token ≡ tk_eos))
    ⊎ ((s.lookahead.token ≡ tk_eos)
        × (s'.lookahead ≡ s.lookahead)
        × ((token : ℕ) × (info : SemInfo) × (s'' : LexState) × (llex lib s.t.seminfo
                (record s { lastline = s.linenumber })
              ≡ ok (token, info) s'')
            × (s'.t ≡ record { token = token; seminfo = info })))

-- A run of `luaX_next` ends with a valid state on the next token, the same text copied and to be
-- copied, and no character put back; or with a syntax error.
abbrev pub EndsOnNext : Numbers → LexState → Result (Unit {0}) → Type 0
EndsOnNext lib s r =
    ((s' : LexState) × (r ≡ ok tt s')
      × MovesOn lib s s'
      × IsValid s'
      × (stream s' ≡ stream s)
      × (left s' ≤ left s)
      × (s.linenumber ≤ s'.linenumber))
    ⊎ ((e : LexError) × (r ≡ err e))

module _ (lib : Numbers) where
  -- From a valid state `luaX_next` ends: the current token is then the one that was looked ahead, or
  -- else the one that `llex` reads, or a syntax error is raised. It never reads behind the end of the
  -- input, keeps a valid state, and copies what it reads to the output buffer.
  pub luax_next-Ends : (s : LexState) → IsValid s → EndsOnNext lib s (luax_next lib s)
  unfolding luax_next
  luax_next-Ends s v = elim (Bool-cases (s.lookahead.token == tk_eos)) [
    | inl read ↦ rw read (
        go (==→eq _ _ read) (llex lib s'.t.seminfo s') refl
          (llex-Safe lib s'.t.seminfo s' (IsValid-fields s s.t s.lookahead s.linenumber v)))
    | inr kept ↦ rw kept (
        inl (
          _,
          refl,
          inl ((λ e. ground arith), refl, refl),
          IsValid-fields s _ _ _ v,
          refl,
          omega arith,
          omega arith,
        ))
  ]
    where
      s' : LexState
      s' = record s { lastline = s.linenumber }

      go :
          s.lookahead.token ≡ tk_eos
          → (r : Result (ℕ × SemInfo)) → llex lib s'.t.seminfo s' ≡ r
          → Safe 0 Any s' r
          → EndsOnNext lib s (
              State.bind r λ (token, info) s''.
                ok tt (record s'' { t = record { token = token; seminfo = info } }))
      go e (ok (token, info) s'') run (f, q) = inl (
        _,
        refl,
        inr (e, f.same_lookahead, (token, info, s'', run, refl)),
        IsValid-fields s'' _ _ _ f.valid,
        f.copied,
        omega arith,
        f.lines,
      )
      go e (err er) run h = inr (er, refl)
      go e fault run h = absurd h
      go e out_of_fuel run h = absurd h

  lookahead_fields :
      (s s' : LexState) (token : ℕ)
      → IsValid s
      → luax_lookahead lib s ≡ ok token s'
      → (s'.t ≡ s.t) × (s'.lookahead.token ≡ token)
  unfolding luax_lookahead
  lookahead_fields s s' token v h = elim (Bool-cases (s.lookahead.token == tk_eos)) [
    | inl none_ahead ↦
        go (llex lib s.lookahead.seminfo s) (llex-Safe lib s.lookahead.seminfo s v)
          (rw none_ahead at h)
    | inr pending ↦ let impossible : fault ≡ ok token s' = rw pending at h in cc impossible
  ]
    where
      go :
          (r : Result (ℕ × SemInfo))
          → Safe 0 Any s r
          → State.bind r (λ (tok, info) s1.
            ok tok (record s1 { lookahead = record { token = tok; seminfo = info } }))
            ≡ ok token s'
          → (s'.t ≡ s.t) × (s'.lookahead.token ≡ token)
      go (ok (tok, info) s1) (f, q) e = (
        sym (ap (λ r. elim r [ ok a x ↦ x.t | _ ↦ s.t ]) e) ∙ f.same_t,
        sym (ap (λ r. elim r [ ok a x ↦ x.lookahead.token | _ ↦ tok ]) e)
            ∙ ap (λ r. elim r [ ok a x ↦ a | _ ↦ tok ]) e,
      )
      go (err er) q e = cc
      go fault q e = absurd q
      go out_of_fuel q e = absurd q

  -- The token that was looked ahead, unless it is the end, is the one that `luaX_next` then moves on
  -- to. Until then the current token stays, and `luaX_next` reads nothing more.
  pub luax_next-lookahead :
      (s s' : LexState) (token : ℕ)
      → IsValid s
      → luax_lookahead lib s ≡ ok token s'
      → token ≢ tk_eos
      → (s'.t ≡ s.t)
        × ((s'' : LexState) × (luax_next lib s' ≡ ok tt s'')
            × (s''.t ≡ s'.lookahead)
            × (s''.t.token ≡ token)
            × (s''.lookahead.token ≡ tk_eos)
            × (s''.current ≡ s'.current)
            × (s''.z ≡ s'.z)
            × (s''.output_buffer ≡ s'.output_buffer))
  unfolding luax_next
  luax_next-lookahead s s' token v h k =
      let fields = lookahead_fields s s' token v h in
      let kept : (s'.lookahead.token == tk_eos) ≡ false = rw fields.1 (ne-== token tk_eos k) in
      (
        fields.0,
        (
          record s' {
            lastline = s'.linenumber;
            t = s'.lookahead;
            lookahead = record (s'.lookahead) { token = tk_eos };
          },
          rw kept refl,
          refl,
          fields.1,
          refl,
          refl,
          refl,
          refl,
        ),
      )
