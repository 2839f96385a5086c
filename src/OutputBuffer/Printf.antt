-- ===== src/OutputBuffer/Printf.antt =====
-- src/llex.h: `OutputBuffer_printf`, which doubles the space until the formatted text fits together
-- with the zero byte that `vsnprintf` puts behind it.
use terra.Common.{
  ℕ, zero, suc, ◌+◌, ◌-◌, ◌*◌, ◌≤◌, ◌<◌, ◌≡◌, refl, ap, ◌∙◌, Option, none, some, List, [], ◌∷◌,
  ◌++◌, append-nil, arith, ltb, ltb→lt, ltb-false, if◌then◌else◌, length, take, length-append,
  length-take_le, inl, inr, Bool-cases,
}
use terra.OutputBuffer.{make_room, OutputBuffer, IsValid, contents, write_at, resize}
use terra.OutputBuffer.Laws.{
  resize_larger, take-all, take-write_at_part, write_at-length, make_room_lem,
}

-- The memory after `vsnprintf(data + N, size, …)` of the text `str`: at most `size - 1` bytes of
-- it and a zero byte, and nothing for a size of zero.
unfoldable pub vsnprintf : OutputBuffer → ℕ → List ℕ → OutputBuffer
unfolding write_at
vsnprintf buf zero str = buf
vsnprintf buf (suc size) str = record buf {
  bytes = write_at buf.bytes buf.n (take size str ++ 0 ∷ []);
}

-- The loop; each round that fails doubles the space.
unfoldable pub printf_loop : ℕ → OutputBuffer → List ℕ → Option OutputBuffer
unfolding vsnprintf resize
printf_loop zero buf str = none
printf_loop (suc fuel) buf str =
    let most_written = buf.space - buf.n in
    let written = vsnprintf buf most_written str in
    let again = printf_loop fuel (resize written (buf.space * 2)) str in
    if ltb (length str) most_written
    then some (record written { n = buf.n + length str })
    else again

-- The fuel is the space that the text needs, since every round adds at least one byte of space.
unfoldable pub printf : OutputBuffer → List ℕ → Option OutputBuffer
unfolding printf_loop make_room
printf buf str = printf_loop (buf.n + length str + 2) (make_room buf) str

-- A call in a space that ends within the memory keeps what the buffer holds.
vsnprintf_lem :
    (buf : OutputBuffer) (size : ℕ) (str : List ℕ)
    → IsValid buf
    → buf.n + size ≤ buf.space
    → IsValid (vsnprintf buf size str)
      × (contents (vsnprintf buf size str) ≡ contents buf)
      × ((vsnprintf buf size str).n ≡ buf.n)
      × ((vsnprintf buf size str).space ≡ buf.space)
unfolding vsnprintf
vsnprintf_lem buf zero str v h = (v, refl, refl, refl)
vsnprintf_lem buf (suc size) str v h =
    let text = take size str ++ 0 ∷ [] in
    let e = length-append (take size str) (0 ∷ []) in
    let e' = length-take_le size str in
    let sizes = write_at-length buf.bytes text buf.n buf.space v.within (omega arith) v.fits in
    let front = take-write_at_part buf.bytes [] text buf.n v.within in
    let e'' : buf.n + 0 ≡ buf.n = omega arith in
    (
      record { within = omega arith; fits = sizes.1; roomy = v.roomy },
      rw e'' at front ∙ append-nil _,
      refl,
      refl,
    )

-- In a space that exceeds the text, the whole text is written.
vsnprintf-fits :
    (buf : OutputBuffer) (size : ℕ) (str : List ℕ)
    → IsValid buf
    → buf.n + size ≤ buf.space
    → length str < size
    → let out : OutputBuffer = record (vsnprintf buf size str) { n = buf.n + length str } in
      IsValid out × (contents out ≡ contents buf ++ str)
unfolding vsnprintf
vsnprintf-fits buf zero str v h k = elim k [ ]
vsnprintf-fits buf (suc size) str v h k =
    let whole = take-all size str (omega arith) in
    let e = length-append str (0 ∷ []) in
    let sizes =
      write_at-length buf.bytes (str ++ 0 ∷ []) buf.n buf.space v.within (omega arith) v.fits in
    rw whole (
      record { within = omega arith; fits = sizes.1; roomy = v.roomy },
      take-write_at_part buf.bytes str (0 ∷ []) buf.n v.within,
    )

-- The outcome of a `printf`: the text is appended, in valid memory.
abbrev pub Appends : OutputBuffer → List ℕ → Option OutputBuffer → Type 0
Appends buf str result =
    (out : OutputBuffer) × (result ≡ some out)
    × IsValid out
    × (contents out ≡ contents buf ++ str)
    × (out.n ≡ buf.n + length str)

printf_loop_lem :
    (fuel : ℕ) (buf : OutputBuffer) (str : List ℕ)
    → IsValid buf
    → 1 ≤ fuel
    → buf.n + length str + 2 ≤ buf.space + fuel
    → Appends buf str (printf_loop fuel buf str)
unfolding printf_loop
printf_loop_lem zero buf str v p h = elim p [ ]
printf_loop_lem (suc fuel) buf str v p h =
    let size = buf.space - buf.n in
    let written = vsnprintf buf size str in
    let kept = vsnprintf_lem buf size str v (omega arith) in
    elim (Bool-cases (ltb (length str) size)) [
      | inl done ↦
          let whole = vsnprintf-fits buf size str v (omega arith) (ltb→lt _ _ done) in
          (record written { n = buf.n + length str }, rw done, whole.0, whole.1, refl)
      | inr short ↦
          let larger = resize_larger written (buf.space * 2) kept.0 (omega arith) in
          let grown : (resize written (buf.space * 2)).space ≡ buf.space * 2 =
            unfold resize in refl in
          let far : ¬ (length str < size) = ltb-false _ _ short in
          let rest =
            printf_loop_lem fuel (resize written (buf.space * 2)) str larger.0 (omega arith)
              (omega arith) in
          (
            rest.0,
            rw short rest.1,
            rest.2,
            rest.3 ∙ ap (λ r. r ++ str) (larger.1 ∙ kept.1),
            omega arith,
          )
    ]

-- The loop ends, and appends the text behind what the buffer holds, within its space.
pub printf-Appends :
    (buf : OutputBuffer) (str : List ℕ) → IsValid buf → Appends buf str (printf buf str)
unfolding printf
printf-Appends buf str v =
    let room = make_room_lem buf v in
    let done =
      printf_loop_lem (buf.n + length str + 2) (make_room buf) str room.0 (omega arith)
        (omega arith) in
    (done.0, done.1, done.2, done.3 ∙ ap (λ r. r ++ str) room.1, omega arith)
