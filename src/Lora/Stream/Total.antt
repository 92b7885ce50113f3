-- ===== src/Lora/Stream/Total.antt =====
-- `lora_e32_receive_raw` returns: once the deadline has passed, each further iteration drops a byte.
use gtw_jalles_websoket_blue.Prelude.{
  List, ◌++◌, ◌⊎◌, ap, ◌∙◌, replicate, pos, ℕ, zero, suc, ◌+◌, ◌-◌, ◌*◌, ◌≤◌, ◌<◌, ◌≡◌, refl, subst,
  ◌||◌, Option, none, some, arith, ltb, leb, ◌==◌, length, inl, inr, Bool-cases, ltb→lt, negsuc,
}
use gtw_jalles_websoket_blue.Lora.Stream.{
  Stream, Parsed, emit, again, more, parse, Io, Received, Reading, done, continue, read_more,
  after_parse, iteration, receive_loop, lora_e32_receive_raw, u32_add, resume,
}
use gtw_jalles_websoket_blue.Lora.Stream.Parse.{IsWhole, IsStream, Outcome, parse-Outcome}
use gtw_jalles_websoket_blue.Lora.Stream.Loop.{
  IsDriver, IsReturn, iteration-IsStream, lora_e32_receive_raw-IsReturn,
}

resume-returns :
    (loop : Stream → Option Received) (t : Reading)
    → ((u : Stream) → t ≡ continue u → (r : Received) × (loop u ≡ some r))
    → (r : Received) × (resume loop t ≡ some r)
unfolding resume
resume-returns loop (done r) rest = (r, refl)
resume-returns loop (continue u) rest = rest u refl

-- From tick `last` on, the clock shows the deadline or later.
abbrev pub IsOver : Io → ℕ → ℕ → Type 0
IsOver io deadline last = (tick : ℕ) → last ≤ tick → deadline ≤ io.now tick

module _ (io : Io) (deadline maxlen : ℕ) where
  read_more_late :
      (tick : ℕ) (s u : Stream)
      → deadline ≤ io.now (tick + 1)
      → read_more io deadline maxlen tick s ≡ continue u
      → ⊥
  unfolding read_more
  read_more_late tick s u late h = ground arith

  after_parse_late :
      (tick : ℕ) (s : Stream) (p : Parsed)
      → Outcome maxlen s p
      → deadline ≤ io.now (tick + 1)
      → (u : Stream) → after_parse io deadline maxlen tick p ≡ continue u
      → length u.buf < length s.buf
  unfolding after_parse
  after_parse_late tick s (emit frame t) o late u h = cc
  after_parse_late tick s (again t) o late u h =
      subst (λ w. length w.buf < length s.buf) (continued h) o.1
    where
      continued : continue t ≡ continue u → t ≡ u
      continued e = cc
  after_parse_late tick s (more t) o late u h = absurd (read_more_late tick t u late h)

  iteration_late :
      (tick : ℕ) (s u : Stream)
      → deadline ≤ io.now (tick + 1)
      → iteration io deadline maxlen tick s ≡ continue u
      → length u.buf < length s.buf
  unfolding iteration
  iteration_late tick s u late h =
      elim (Bool-cases (ltb (io.now tick) deadline || leb 13 (length s.buf))) [
        | inl on ↦
            after_parse_late tick s (parse maxlen s) (parse-Outcome maxlen s) late u (rw on at h)
        | inr over ↦ cc (rw over at h)
      ]

  -- The iterations left: 513 for each tick before `last`, and one for each byte.
  receive_loop_returns :
      (driver : IsDriver io) (last : ℕ)
      → IsOver io deadline last
      → (fuel tick : ℕ) (s : Stream) → IsStream s
      → (last - tick) * 513 + length s.buf < fuel
      → (r : Received) × (receive_loop io deadline maxlen fuel tick s ≡ some r)
  unfolding receive_loop
  receive_loop_returns driver last over zero tick s v enough = absurd (omega arith)
  receive_loop_returns driver last over (suc fuel) tick s v enough =
      resume-returns _ (iteration io deadline maxlen tick s)
        λ u e. receive_loop_returns driver last over fuel (tick + 4) u (next u e) (fewer u e)
    where
      next : (u : Stream) → iteration io deadline maxlen tick s ≡ continue u → IsStream u
      next u e = iteration-IsStream io deadline maxlen driver tick s v u e

      fewer :
          (u : Stream)
          → iteration io deadline maxlen tick s ≡ continue u
          → (last - (tick + 4)) * 513 + length u.buf < fuel
      fewer u e = elim (Bool-cases (ltb tick last)) [
        | inl early ↦ omega (arith, ltb→lt _ _ early, (next u e).fits)
        | inr late ↦
            omega (arith, iteration_late tick s u (over (tick + 1) (ground arith)) e, enough)
      ]

lora_e32_receive_raw_returns :
    (io : Io) (last fuel maxlen timeout_ms tick : ℕ) (s : Stream)
    → IsDriver io
    → IsStream s
    → IsOver io (io.now tick + timeout_ms * 1000) last
    → (last - (tick + 1)) * 513 + length s.buf < fuel
    → (r : Received) × (lora_e32_receive_raw io fuel maxlen timeout_ms tick s ≡ some r)
unfolding lora_e32_receive_raw
lora_e32_receive_raw_returns io last fuel maxlen timeout_ms tick s driver v over enough =
    elim (Bool-cases (maxlen == 0)) [
      | inl nothing ↦ (record { result = negsuc 0; out = none; stream = s }, rw nothing refl)
      | inr room ↦
          let (r, e) =
            receive_loop_returns io (io.now tick + timeout_ms * 1000) maxlen driver last over fuel
              (tick + 1) (record s { calls = u32_add s.calls 1 })
              (record { fits = v.fits; all_bytes = v.all_bytes }) enough in
          (r, rw room e)
    ]

-- What a return says: the stream is as it should be, and either the caller's buffer is not written or
-- it holds a whole frame of at most `maxlen` bytes whose checksum matches, followed by zeros.
pub record IsResult (maxlen : ℕ) (r : Received) : Type 0 where
  pub stream_kept : IsStream r.stream
  pub delivered :
      (r.out ≡ none)
      ⊎ ((frame : List ℕ) × IsWhole maxlen frame
          × (r.result ≡ pos (length frame))
          × (r.out ≡ some (frame ++ replicate (maxlen - length frame) 0)))

IsReturn-IsResult : (maxlen : ℕ) (r : Received) → IsReturn maxlen r → IsResult maxlen r
IsReturn-IsResult maxlen r v = record { stream_kept = v.kept; delivered = by_out r.out refl }
  where
    by_out :
        (out : Option (List ℕ))
        → r.out ≡ out
        → (r.out ≡ none)
          ⊎ ((frame : List ℕ) × IsWhole maxlen frame
              × (r.result ≡ pos (length frame))
              × (r.out ≡ some (frame ++ replicate (maxlen - length frame) 0)))
    by_out none e = inl e
    by_out (some out) e =
        let (frame, whole, result, filled) = v.whole out e in
        inr (frame, whole, result, e ∙ ap some filled)

-- With a driver that keeps to its chunk size, a clock that reaches the deadline by tick `last`, and
-- fuel 513 for each tick until then and one for each byte held, `lora_e32_receive_raw` returns. The
-- return keeps the buffer within its 512 bytes, and if it writes the caller's buffer then with a
-- whole frame of at most `maxlen` bytes whose checksum matches, followed by zeros.
pub lora_e32_receive_raw_total :
    (io : Io) (last fuel maxlen timeout_ms tick : ℕ) (s : Stream)
    → IsDriver io
    → IsStream s
    → IsOver io (io.now tick + timeout_ms * 1000) last
    → (last - (tick + 1)) * 513 + length s.buf < fuel
    → (r : Received) × (lora_e32_receive_raw io fuel maxlen timeout_ms tick s ≡ some r)
      × IsResult maxlen r
lora_e32_receive_raw_total io last fuel maxlen timeout_ms tick s driver v over enough =
    let (r, e) =
      lora_e32_receive_raw_returns io last fuel maxlen timeout_ms tick s driver v over enough in
    (
      r,
      e,
      IsReturn-IsResult maxlen r
          (lora_e32_receive_raw-IsReturn io fuel maxlen timeout_ms tick s r driver v e),
    )
