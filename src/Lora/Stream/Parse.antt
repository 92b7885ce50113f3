-- ===== src/Lora/Stream/Parse.antt =====
-- One look at the receive buffer: what it keeps, and when it hands a frame over.
use gtw_jalles_websoket_blue.Prelude.{
  ℕ, zero, suc, ◌+◌, ◌-◌, ◌*◌, ◌≤◌, ◌<◌, ◌≡◌, refl, sym, ap, ap₂, subst, ◌∙◌, true, false, List, [],
  ◌∷◌, All, arith, ltb, leb, length, take, drop, get_or, length-take, length-drop, All-drop,
  All-take, drop_all, get_or-take, take-take, inl, inr, Bool-cases, ==_iff, leb→le,
}
use gtw_jalles_websoket_blue.Lora.Crc.Detect.{IsByte}
use gtw_jalles_websoket_blue.Lora.Crc.{stream_crc16}
use gtw_jalles_websoket_blue.Lora.Frame.{u16_at, preamble_byte, payload_size}
use gtw_jalles_websoket_blue.Lora.Stream.{
  Stream, stream_size, stream_drop, taken, starts_with_noise, drop_one_noise, drop_noise,
  parse_frame, parse, Parsed, emit, again, more, frame_len_of, bad_length, crc_matches, u32_add,
}

-- The buffer holds bytes, and no more than fit.
pub record IsStream (s : Stream) : Type 0 where
  pub fits : length s.buf ≤ stream_size
  pub all_bytes : All IsByte s.buf

-- `t` holds no more than `s`, and nothing that `s` does not hold.
pub record Shrinks (s t : Stream) : Type 0 where
  pub shorter : length t.buf ≤ length s.buf
  pub bytes_kept : All IsByte s.buf → All IsByte t.buf

pub Shrinks-IsStream : {s t : Stream} → Shrinks s t → IsStream s → IsStream t
Shrinks-IsStream k v = record { fits = omega arith; all_bytes = k.bytes_kept v.all_bytes }

Shrinks-trans : {s t u : Stream} → Shrinks s t → Shrinks t u → Shrinks s u
Shrinks-trans p q = record {
  shorter = omega arith;
  bytes_kept = λ h. q.bytes_kept (p.bytes_kept h);
}

pub Shrinks-drop : (n : ℕ) {s t : Stream} → t.buf ≡ drop n s.buf → Shrinks s t
Shrinks-drop n {s} {t} e = record {
  shorter = omega (arith, ap length e, length-drop n s.buf);
  bytes_kept = λ h. subst (All IsByte) (sym e) (All-drop IsByte n s.buf h);
}

pub stream_drop-buf : (n : ℕ) (s : Stream) → (stream_drop n s).buf ≡ drop n s.buf
unfolding stream_drop
stream_drop-buf n s = ground (arith, drop_all n s.buf)

pub taken-buf : (n : ℕ) (s : Stream) → (taken n s).buf ≡ drop n s.buf
unfolding taken
taken-buf n s = stream_drop-buf n s

pub drop_one_noise-buf : (s : Stream) → (drop_one_noise s).buf ≡ drop 1 s.buf
unfolding drop_one_noise
drop_one_noise-buf s = stream_drop-buf 1 s

quiet_of_empty : (b : List ℕ) → length b ≤ 0 → starts_with_noise b ≡ false
unfolding starts_with_noise
quiet_of_empty [] h = refl
quiet_of_empty (x ∷ b) h = absurd (omega arith)

nonempty_of_noise : (b : List ℕ) → starts_with_noise b ≡ true → 1 ≤ length b
unfolding starts_with_noise
nonempty_of_noise [] h = cc
nonempty_of_noise (x ∷ b) h = omega arith

-- The inner loop ends at a byte that can begin a frame, or at the end of the buffer.
pub drop_noise-clean :
    (fuel : ℕ) (s : Stream)
    → length s.buf ≤ fuel
    → starts_with_noise (drop_noise fuel s).buf ≡ false
unfolding drop_noise
drop_noise-clean zero s h = quiet_of_empty s.buf h
drop_noise-clean (suc fuel) s h = elim (Bool-cases (starts_with_noise s.buf)) [
  | inl noisy ↦ rw noisy (
      drop_noise-clean fuel (drop_one_noise s) (
        omega (
          arith,
          ap length (drop_one_noise-buf s),
          length-drop 1 s.buf,
          nonempty_of_noise s.buf noisy,
        )))
  | inr quiet ↦ rw quiet quiet
]

pub drop_noise-Shrinks : (fuel : ℕ) (s : Stream) → Shrinks s (drop_noise fuel s)
unfolding drop_noise
drop_noise-Shrinks zero s = record { shorter = omega arith; bytes_kept = λ h. h }
drop_noise-Shrinks (suc fuel) s = elim (Bool-cases (starts_with_noise s.buf)) [
  | inl noisy ↦ rw noisy (
      Shrinks-trans (Shrinks-drop 1 (drop_one_noise-buf s))
        (drop_noise-Shrinks fuel (drop_one_noise s)))
  | inr quiet ↦ rw quiet (record { shorter = omega arith; bytes_kept = λ h. h })
]

-- The bytes of a whole frame with a matching checksum, for a buffer of `maxlen` bytes.
pub record IsWhole (maxlen : ℕ) (frame : List ℕ) : Type 0 where
  pub begins : get_or frame 0 0 ≡ preamble_byte
  pub small : get_or frame 9 0 ≤ payload_size
  pub exact : length frame ≡ get_or frame 9 0 + 15
  pub fits_out : length frame ≤ maxlen
  pub sealed : u16_at frame (length frame - 2) ≡ stream_crc16 (take (length frame - 2) frame)
  pub frame_bytes : All IsByte frame

-- What each outcome of one look at the buffer says.
abbrev pub Outcome : ℕ → Stream → Parsed → Type 0
Outcome maxlen s (emit frame t) = Shrinks s t × (All IsByte s.buf → IsWhole maxlen frame)
Outcome maxlen s (again t) = Shrinks s t × (length t.buf < length s.buf)
Outcome maxlen s (more t) = Shrinks s t

begins_of_quiet :
    (b : List ℕ) → starts_with_noise b ≡ false → 1 ≤ length b → get_or b 0 0 ≡ preamble_byte
unfolding starts_with_noise
begins_of_quiet [] q h = absurd (omega arith)
begins_of_quiet (x ∷ b) q h = ground arith

u16_at-take : (n i : ℕ) (b : List ℕ) → i + 1 < n → u16_at (take n b) i ≡ u16_at b i
u16_at-take n i b h =
    ap₂ (λ x y. x + y * 256) (get_or-take n i b 0 (omega arith))
      (get_or-take n (suc i) b 0 (omega arith))

IsWhole-parse :
    (maxlen : ℕ) (b : List ℕ)
    → starts_with_noise b ≡ false
    → bad_length maxlen b ≡ false
    → frame_len_of b ≤ length b
    → crc_matches b (frame_len_of b) ≡ true
    → All IsByte b
    → IsWhole maxlen (take (frame_len_of b) b)
unfolding bad_length crc_matches
IsWhole-parse maxlen b quiet good fits sealed bytes = record {
  begins = first ∙ begins_of_quiet b quiet (omega arith);
  small = rw len_byte (ground arith);
  exact = rw (len_byte, long) (omega arith);
  fits_out = rw long (ground arith);
  sealed = rw long (
      u16_at-take n (n - 2) b (omega arith)
      ∙ (==_iff _ _).0 sealed
      ∙ ap stream_crc16 (sym (take-take (n - 2) n b (omega arith))));
  frame_bytes = All-take IsByte n b bytes;
}
  where
    n : ℕ
    n = frame_len_of b

    long : length (take n b) ≡ n
    long = omega (arith, length-take n b)

    first : get_or (take n b) 0 0 ≡ get_or b 0 0
    first = get_or-take n 0 b 0 (omega arith)

    len_byte : get_or (take n b) 9 0 ≡ get_or b 9 0
    len_byte = get_or-take n 9 b 0 (omega arith)

parse_frame-Outcome :
    (maxlen : ℕ) (s : Stream)
    → starts_with_noise s.buf ≡ false
    → 13 ≤ length s.buf
    → Outcome maxlen s (parse_frame maxlen s)
unfolding parse_frame
parse_frame-Outcome maxlen s quiet long = elim (Bool-cases (bad_length maxlen s.buf)) [
  | inl bad ↦ rw bad (dropped_one (record s { noise = u32_add s.noise 1 }) refl)
  | inr good ↦ elim (Bool-cases (ltb (length s.buf) (frame_len_of s.buf))) [
    | inl short ↦ rw (good, short) (record { shorter = omega arith; bytes_kept = λ h. h })
    | inr full ↦ elim (Bool-cases (crc_matches s.buf (frame_len_of s.buf))) [
      | inl same ↦
          rw (good, full, same)
            (
              Shrinks-drop (frame_len_of s.buf) (taken-buf (frame_len_of s.buf) s),
              IsWhole-parse maxlen s.buf quiet good (ground arith) same,
            )
      | inr other ↦
          rw (good, full, other) (dropped_one (record s { crc_fail = u32_add s.crc_fail 1 }) refl)
    ]
  ]
]
  where
    dropped_one :
        (u : Stream)
        → u.buf ≡ s.buf
        → Shrinks s (stream_drop 1 u) × (length (stream_drop 1 u).buf < length s.buf)
    dropped_one u e =
        let left : (stream_drop 1 u).buf ≡ drop 1 s.buf =
          stream_drop-buf 1 u ∙ ap (λ b. drop 1 b) e in
        (Shrinks-drop 1 left, omega (arith, ap length left, length-drop 1 s.buf))

Outcome-trans :
    (maxlen : ℕ) {s c : Stream}
    → Shrinks s c
    → (p : Parsed) → Outcome maxlen c p
    → Outcome maxlen s p
Outcome-trans maxlen k (emit frame t) o = (Shrinks-trans k o.0, λ h. o.1 (k.bytes_kept h))
Outcome-trans maxlen k (again t) o = (Shrinks-trans k o.0, omega arith)
Outcome-trans maxlen k (more t) o = Shrinks-trans k o

-- One look at the buffer: a frame that is handed over is whole, another look has fewer bytes.
pub parse-Outcome : (maxlen : ℕ) (s : Stream) → Outcome maxlen s (parse maxlen s)
unfolding parse
parse-Outcome maxlen s = elim (Bool-cases (leb 13 (length clean.buf))) [
  | inl long ↦ rw long (
      Outcome-trans maxlen cleaner (parse_frame maxlen clean)
        (parse_frame-Outcome maxlen clean quiet (leb→le _ _ long)))
  | inr short ↦ rw short cleaner
]
  where
    clean : Stream
    clean = drop_noise (length s.buf) s

    quiet : starts_with_noise clean.buf ≡ false
    quiet = drop_noise-clean (length s.buf) s (omega arith)

    cleaner : Shrinks s clean
    cleaner = drop_noise-Shrinks (length s.buf) s
