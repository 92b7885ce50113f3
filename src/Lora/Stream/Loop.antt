-- ===== src/Lora/Stream/Loop.antt =====
-- The receive loop: what each return of `lora_e32_receive_raw` says, and that it returns.
use gtw_jalles_websoket_blue.Prelude.{
  ℕ, zero, suc, ◌+◌, ◌-◌, ◌*◌, ◌≤◌, ◌≡◌, refl, sym, ap, subst, ◌||◌, Option, none, some, List, ◌++◌,
  pos, All, All-append, arith, ltb, leb, ◌==◌, length, drop, replicate, length-append, length-drop,
  ◌⊎◌, inl, inr, Bool-cases, ltb→lt,
}
use gtw_jalles_websoket_blue.Lora.Crc.Detect.{IsByte}
use gtw_jalles_websoket_blue.Lora.Stream.{
  Stream, stream_size, chunk_size, stream_drop, Parsed, emit, again, more, parse, Read, failed, got,
  Io, Received, make_room, append_chunk, stale_ms, stale_buffer_ms, timeout_log_ms, finish_timeout,
  Reading, done, continue, timed_out, read_more, after_read, resume, after_parse, iteration,
  deliver, receive_loop, lora_e32_receive_raw, u32_add, remaining_ms,
}
use gtw_jalles_websoket_blue.Lora.Stream.Parse.{
  IsStream, Shrinks, Shrinks-IsStream, Shrinks-drop, stream_drop-buf, IsWhole, Outcome,
  parse-Outcome,
}

-- What the UART driver promises: no more bytes than the chunk holds, and bytes they are.
abbrev pub IsDriver : Io → Type 0
IsDriver io =
    (tick ms : ℕ) (chunk : List ℕ)
    → io.read tick ms ≡ got chunk
    → (length chunk ≤ chunk_size) × All IsByte chunk

make_room-fits :
    (count : ℕ) (s : Stream)
    → count ≤ chunk_size
    → IsStream s
    → (length (make_room count s).buf + count ≤ stream_size) × Shrinks s (make_room count s)
unfolding make_room
make_room-fits count s small v = elim (Bool-cases (ltb stream_size (length s.buf + count))) [
  | inl over ↦
      let n : ℕ = length s.buf + count - stream_size in
      let t : Stream = record s { overflow = u32_add s.overflow 1 } in
      let left : (stream_drop n t).buf ≡ drop n s.buf = stream_drop-buf n t in
      rw over (
        omega (arith, ap length left, length-drop n s.buf, ltb→lt _ _ over, v.fits),
        Shrinks-drop n left,
      )
  | inr room ↦ rw room (ground arith, record { shorter = omega arith; bytes_kept = λ h. h })
]

append_chunk-IsStream :
    (now : ℕ) (chunk : List ℕ) (s : Stream)
    → length chunk ≤ chunk_size
    → All IsByte chunk
    → IsStream s
    → IsStream (append_chunk now chunk s)
unfolding append_chunk
append_chunk-IsStream now chunk s small bytes v =
    let (room, less) = make_room-fits (length chunk) s small v in
    let t : Stream = make_room (length chunk) s in
    record {
      fits = omega (arith, length-append t.buf chunk, room);
      all_bytes = All-append IsByte t.buf chunk (less.bytes_kept v.all_bytes) bytes;
    }

finish_timeout-Shrinks : (now : ℕ) (s : Stream) → Shrinks s (finish_timeout now s)
unfolding finish_timeout
finish_timeout-Shrinks now s = elim (Bool-cases (length s.buf == 0)) [
  | inl empty ↦ rw empty (Shrinks-drop 0 refl)
  | inr held ↦ elim (Bool-cases (leb stale_buffer_ms (stale_ms now s))) [
    | inl stale ↦ rw (held, stale) (Shrinks-drop (length s.buf) (stream_drop-buf (length s.buf) _))
    | inr fresh ↦ elim (Bool-cases (leb (timeout_log_ms * 1000) (now - s.last_log_us))) [
      | inl due ↦ rw (held, fresh, due) (Shrinks-drop 0 refl)
      | inr logged ↦ rw (held, fresh, logged) (Shrinks-drop 0 refl)
    ]
  ]
]

continue_injective : {s t : Stream} → continue s ≡ continue t → s ≡ t
continue_injective h = cc

returned_injective : {q r : Received} → some q ≡ some r → q ≡ r
returned_injective h = cc

-- How a finished loop went through one iteration.
pub resume-cases :
    (loop : Stream → Option Received) (t : Reading) (r : Received)
    → resume loop t ≡ some r
    → (t ≡ done r) ⊎ ((u : Stream) × (t ≡ continue u) × (loop u ≡ some r))
unfolding resume
resume-cases loop (done q) r h = inl (ap done (returned_injective h))
resume-cases loop (continue u) r h = inr (u, refl, h)

some_injective : {a b : List ℕ} → some a ≡ some b → a ≡ b
some_injective h = cc

done_injective : {q r : Received} → done q ≡ done r → q ≡ r
done_injective h = cc

-- What a return of the call says: a frame is whole and is followed by zeros in the caller's buffer,
-- which no other return writes, and the stream is as it should be.
pub record IsReturn (maxlen : ℕ) (r : Received) : Type 0 where
  pub kept : IsStream r.stream
  pub whole :
      (out : List ℕ)
      → r.out ≡ some out
      → (frame : List ℕ) × IsWhole maxlen frame
        × (r.result ≡ pos (length frame))
        × (out ≡ frame ++ replicate (maxlen - length frame) 0)

no_frame : (maxlen : ℕ) (r : Received) → r.out ≡ none → IsStream r.stream → IsReturn maxlen r
no_frame maxlen r e v = record { kept = v; whole = λ out h. cc }

module _ (io : Io) (deadline maxlen : ℕ) where
  timed_out-IsReturn :
      (tick : ℕ) (s : Stream) → IsStream s → IsReturn maxlen (timed_out io deadline maxlen tick s)
  unfolding timed_out
  timed_out-IsReturn tick s v =
      no_frame maxlen _ refl (Shrinks-IsStream (finish_timeout-Shrinks (io.now (tick + 3)) s) v)

  after_read_cases :
      (driver : IsDriver io) (tick ms : ℕ) (s : Stream) (r : Read)
      → io.read tick ms ≡ r
      → IsStream s
      → (u : Stream) → after_read (io.now (tick + 2)) s r ≡ continue u
      → IsStream u
  unfolding after_read
  after_read_cases driver tick ms s (failed n) e v u h = cc
  after_read_cases driver tick ms s (got chunk) e v u h = elim (Bool-cases (length chunk == 0)) [
    | inl empty ↦ subst IsStream (continue_injective (rw empty at h)) v
    | inr came ↦
        let (small, bytes) = driver tick ms chunk e in
        subst IsStream (continue_injective (rw came at h))
          (append_chunk-IsStream (io.now (tick + 2)) chunk s small bytes v)
  ]

  after_read-IsReturn :
      (now : ℕ) (s : Stream) (r : Read)
      → IsStream s
      → (q : Received) → after_read now s r ≡ done q
      → IsReturn maxlen q
  unfolding after_read
  after_read-IsReturn now s (failed n) v q h =
      subst (IsReturn maxlen) (done_injective h) (no_frame maxlen _ refl v)
  after_read-IsReturn now s (got chunk) v q h = elim (Bool-cases (length chunk == 0)) [
    | inl empty ↦ cc (rw empty at h)
    | inr came ↦ cc (rw came at h)
  ]

  read_more-IsStream :
      (driver : IsDriver io) (tick : ℕ) (s : Stream)
      → IsStream s
      → (u : Stream) → read_more io deadline maxlen tick s ≡ continue u
      → IsStream u
  unfolding read_more
  read_more-IsStream driver tick s v u h = elim (Bool-cases (leb deadline (io.now (tick + 1)))) [
    | inl late ↦ cc (rw late at h)
    | inr early ↦
        let ms : ℕ = remaining_ms (deadline - io.now (tick + 1)) in
        after_read_cases driver tick ms s (io.read tick ms) refl v u (rw early at h)
  ]

  read_more-IsReturn :
      (tick : ℕ) (s : Stream)
      → IsStream s
      → (q : Received) → read_more io deadline maxlen tick s ≡ done q
      → IsReturn maxlen q
  unfolding read_more
  read_more-IsReturn tick s v q h = elim (Bool-cases (leb deadline (io.now (tick + 1)))) [
    | inl late ↦
        subst (IsReturn maxlen) (done_injective (rw late at h)) (timed_out-IsReturn tick s v)
    | inr early ↦
        let ms : ℕ = remaining_ms (deadline - io.now (tick + 1)) in
        after_read-IsReturn (io.now (tick + 2)) s (io.read tick ms) v q (rw early at h)
  ]

  deliver-IsReturn :
      (frame : List ℕ) (t : Stream)
      → IsStream t
      → IsWhole maxlen frame
      → IsReturn maxlen (deliver io deadline maxlen frame t)
  unfolding deliver
  deliver-IsReturn frame t v w = record {
    kept = v;
    whole = λ out h. (frame, w, refl, sym (some_injective h));
  }

  after_parse-IsReturn :
      (tick : ℕ) (s : Stream) (p : Parsed)
      → IsStream s
      → Outcome maxlen s p
      → (q : Received) → after_parse io deadline maxlen tick p ≡ done q
      → IsReturn maxlen q
  unfolding after_parse
  after_parse-IsReturn tick s (emit frame t) v o q h =
      subst (IsReturn maxlen) (done_injective h)
        (deliver-IsReturn frame t (Shrinks-IsStream o.0 v) (o.1 v.all_bytes))
  after_parse-IsReturn tick s (again t) v o q h = cc
  after_parse-IsReturn tick s (more t) v o q h =
      read_more-IsReturn tick t (Shrinks-IsStream o v) q h

  pub after_parse-IsStream :
      (driver : IsDriver io) (tick : ℕ) (s : Stream) (p : Parsed)
      → IsStream s
      → Outcome maxlen s p
      → (u : Stream) → after_parse io deadline maxlen tick p ≡ continue u
      → IsStream u
  unfolding after_parse
  after_parse-IsStream driver tick s (emit frame t) v o u h = cc
  after_parse-IsStream driver tick s (again t) v o u h =
      subst IsStream (continue_injective h) (Shrinks-IsStream o.0 v)
  after_parse-IsStream driver tick s (more t) v o u h =
      read_more-IsStream driver tick t (Shrinks-IsStream o v) u h

  iteration-IsReturn :
      (tick : ℕ) (s : Stream)
      → IsStream s
      → (q : Received) → iteration io deadline maxlen tick s ≡ done q
      → IsReturn maxlen q
  unfolding iteration
  iteration-IsReturn tick s v q h =
      elim (Bool-cases (ltb (io.now tick) deadline || leb 13 (length s.buf))) [
        | inl on ↦
            after_parse-IsReturn tick s (parse maxlen s) v (parse-Outcome maxlen s) q (rw on at h)
        | inr over ↦
            subst (IsReturn maxlen) (done_injective (rw over at h)) (timed_out-IsReturn tick s v)
      ]

  pub iteration-IsStream :
      (driver : IsDriver io) (tick : ℕ) (s : Stream)
      → IsStream s
      → (u : Stream) → iteration io deadline maxlen tick s ≡ continue u
      → IsStream u
  unfolding iteration
  iteration-IsStream driver tick s v u h =
      elim (Bool-cases (ltb (io.now tick) deadline || leb 13 (length s.buf))) [
        | inl on ↦
            after_parse-IsStream driver tick s (parse maxlen s) v (parse-Outcome maxlen s) u
              (rw on at h)
        | inr over ↦ cc (rw over at h)
      ]

  receive_loop-IsReturn :
      (driver : IsDriver io) (fuel tick : ℕ) (s : Stream) (r : Received)
      → IsStream s
      → receive_loop io deadline maxlen fuel tick s ≡ some r
      → IsReturn maxlen r
  unfolding receive_loop
  receive_loop-IsReturn driver zero tick s r v h = cc
  receive_loop-IsReturn driver (suc fuel) tick s r v h =
      elim (resume-cases _ (iteration io deadline maxlen tick s) r h) [
        | inl stopped ↦ iteration-IsReturn tick s v r stopped
        | inr (u, went_on, rest) ↦
            receive_loop-IsReturn driver fuel (tick + 4) u r
              (iteration-IsStream driver tick s v u went_on) rest
      ]

-- Every return of `lora_e32_receive_raw` keeps the buffer within its bounds, and writes the caller's
-- buffer only with a whole frame whose checksum matches, followed by zeros.
pub lora_e32_receive_raw-IsReturn :
    (io : Io) (fuel maxlen timeout_ms tick : ℕ) (s : Stream) (r : Received)
    → IsDriver io
    → IsStream s
    → lora_e32_receive_raw io fuel maxlen timeout_ms tick s ≡ some r
    → IsReturn maxlen r
unfolding lora_e32_receive_raw
lora_e32_receive_raw-IsReturn io fuel maxlen timeout_ms tick s r driver v h =
    elim (Bool-cases (maxlen == 0)) [
      | inl nothing ↦
          subst (IsReturn maxlen) (returned_injective (rw nothing at h)) (no_frame maxlen _ refl v)
      | inr some_room ↦
          receive_loop-IsReturn io (io.now tick + timeout_ms * 1000) maxlen driver fuel (tick + 1)
            (record s { calls = u32_add s.calls 1 }) r
            (record { fits = v.fits; all_bytes = v.all_bytes }) (rw some_room at h)
    ]
