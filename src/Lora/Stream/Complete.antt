-- ===== src/Lora/Stream/Complete.antt =====
-- A whole frame in the buffer is found behind any noise, and is a frame that main/main.c accepts.
use gtw_jalles_websoket_blue.Prelude.{
  ℕ, zero, suc, ◌+◌, ◌-◌, ◌*◌, ◌≤◌, ◌≡◌, ◌≢◌, refl, sym, ap, ap₂, ◌∙◌, true, false, ◌||◌, some,
  List, [], ◌∷◌, ◌++◌, All, arith, ltb, leb, ◌==◌, length, take, drop, get_or, replicate, ==_iff,
  pos, take-append, drop-append, take-append_le, length-append, get_or-append,
}
use gtw_jalles_websoket_blue.Lora.Crc.{stream_crc16}
use gtw_jalles_websoket_blue.Lora.Frame.{u16_at, preamble_byte}
use gtw_jalles_websoket_blue.Lora.Stream.{
  Stream, taken, starts_with_noise, drop_noise, drop_one_noise, emit, parse, parse_frame, Io,
  bad_length, crc_matches, frame_len_of, after_parse, deliver, iteration, receive_loop, resume,
  lora_e32_receive_raw, u32_add,
}
use gtw_jalles_websoket_blue.Lora.Stream.Parse.{IsWhole, taken-buf, drop_one_noise-buf}

abbrev pub IsNoise : List ℕ → Type 0
IsNoise noise = All (λ b. b ≢ preamble_byte) noise

noisy_cons : (b : ℕ) (bytes : List ℕ) → b ≢ preamble_byte → starts_with_noise (b ∷ bytes) ≡ true
unfolding starts_with_noise
noisy_cons b bytes h = ground arith

drop_noise-buf :
    (noise kept : List ℕ) (fuel : ℕ) (s : Stream)
    → s.buf ≡ noise ++ kept
    → IsNoise noise
    → starts_with_noise kept ≡ false
    → length noise ≤ fuel
    → (drop_noise fuel s).buf ≡ kept
unfolding drop_noise
drop_noise-buf [] kept zero s e n q h = e
drop_noise-buf [] kept (suc fuel) s e n q h = rw (ap starts_with_noise e ∙ q) e
drop_noise-buf (b ∷ noise) kept zero s e n q h = absurd (omega arith)
drop_noise-buf (b ∷ noise) kept (suc fuel) s e n q h =
    rw (ap starts_with_noise e ∙ noisy_cons b (noise ++ kept) n.0) (
      drop_noise-buf noise kept fuel (drop_one_noise s)
        (drop_one_noise-buf s ∙ ap (λ t. drop 1 t) e) n.1 q (omega arith))

quiet_of_preamble : (b : List ℕ) → get_or b 0 0 ≡ preamble_byte → starts_with_noise b ≡ false
unfolding starts_with_noise
quiet_of_preamble [] h = refl
quiet_of_preamble (x ∷ b) h = ground arith

module _ (maxlen : ℕ) (frame rest : List ℕ) (w : IsWhole maxlen frame) where
  len_kept : get_or (frame ++ rest) 9 0 ≡ get_or frame 9 0
  len_kept = get_or-append frame rest 9 0 (omega (arith, w.exact))

  frame_len : frame_len_of (frame ++ rest) ≡ length frame
  frame_len = rw len_kept (omega (arith, w.exact))

  quiet_frame : starts_with_noise (frame ++ rest) ≡ false
  quiet_frame =
      quiet_of_preamble (frame ++ rest)
        (get_or-append frame rest 0 0 (omega (arith, w.exact)) ∙ w.begins)

  good_length : bad_length maxlen (frame ++ rest) ≡ false
  unfolding bad_length
  good_length = rw (frame_len, len_kept) (ground (arith, w.small, w.fits_out))

  crc_kept : u16_at (frame ++ rest) (length frame - 2) ≡ u16_at frame (length frame - 2)
  crc_kept =
      ap₂ (λ x y. x + y * 256) (get_or-append frame rest _ 0 (omega (arith, w.exact)))
        (get_or-append frame rest _ 0 (omega (arith, w.exact)))

  good_crc : crc_matches (frame ++ rest) (length frame) ≡ true
  unfolding crc_matches
  good_crc = (==_iff _ _).1 (
      crc_kept
      ∙ w.sealed
      ∙ ap stream_crc16 (sym (take-append_le (length frame - 2) frame rest (omega arith))))

  parse_frame_whole :
      (s : Stream)
      → s.buf ≡ frame ++ rest
      → (t : Stream) × (parse_frame maxlen s ≡ emit frame t) × (t.buf ≡ rest)
  unfolding parse_frame
  parse_frame_whole s e = (
    taken (length frame) s,
    rw (ap (bad_length maxlen) e ∙ good_length, fl, enough, matches, copied) refl,
    taken-buf (length frame) s ∙ ap (λ b. drop (length frame) b) e ∙ drop-append frame rest,
  )
    where
      fl : frame_len_of s.buf ≡ length frame
      fl = ap (λ b. frame_len_of b) e ∙ frame_len

      enough : ltb (length s.buf) (length frame) ≡ false
      enough = ground (arith, ap length e, length-append frame rest)

      matches : crc_matches s.buf (length frame) ≡ true
      matches = ap (λ b. crc_matches b (length frame)) e ∙ good_crc

      copied : take (length frame) s.buf ≡ frame
      copied = ap (λ b. take (length frame) b) e ∙ take-append frame rest

  -- Behind any noise, one look at the buffer hands the frame over and leaves what follows it.
  pub parse_whole :
      (noise : List ℕ) (s : Stream)
      → IsNoise noise
      → s.buf ≡ noise ++ (frame ++ rest)
      → (t : Stream) × (parse maxlen s ≡ emit frame t) × (t.buf ≡ rest)
  unfolding parse
  parse_whole noise s n e =
      let (t, found, left) = parse_frame_whole clean cleaned in (t, rw long found, left)
    where
      clean : Stream
      clean = drop_noise (length s.buf) s

      cleaned : clean.buf ≡ frame ++ rest
      cleaned =
          drop_noise-buf noise (frame ++ rest) (length s.buf) s e n quiet_frame
            (omega (arith, ap length e, length-append noise (frame ++ rest)))

      long : leb 13 (length clean.buf) ≡ true
      long = ground (arith, ap length cleaned, length-append frame rest, w.exact)

-- A whole frame in the buffer, behind any noise, is returned by the first iteration, whatever the
-- clock and the driver say: the caller's buffer gets the frame and zeros, and the bytes that follow
-- the frame stay in the stream.
pub lora_e32_receive_raw_finds :
    (io : Io) (fuel maxlen timeout_ms tick : ℕ) (noise frame rest : List ℕ) (s : Stream)
    → IsWhole maxlen frame
    → IsNoise noise
    → s.buf ≡ noise ++ (frame ++ rest)
    → (t : Stream) × (lora_e32_receive_raw io (suc fuel) maxlen timeout_ms tick s
        ≡ some (record {
          result = pos (length frame);
          out = some (frame ++ replicate (maxlen - length frame) 0);
          stream = t;
        }))
      × (t.buf ≡ rest)
unfolding lora_e32_receive_raw receive_loop iteration resume after_parse deliver
lora_e32_receive_raw_finds io fuel maxlen timeout_ms tick noise frame rest s w n e =
    let (t, found, left) =
      parse_whole maxlen frame rest w noise (record s { calls = u32_add s.calls 1 }) n e in
    (t, rw (room, looks, found) refl, left)
  where
    room : (maxlen == 0) ≡ false
    room = ground (arith, w.exact, w.fits_out)

    looks :
        (ltb (io.now (tick + 1)) (io.now tick + timeout_ms * 1000) || leb 13 (length s.buf)) ≡ true
    looks =
        ground (
          arith,
          ap length e,
          length-append noise (frame ++ rest),
          length-append frame rest,
          w.exact,
        )
