-- ===== src/Lora/Link.antt =====
-- The two ends of the radio link together: what main/main.c sends is what main/lora.c delivers, and
-- what main/lora.c delivers is what main/main.c accepts.
use gtw_jalles_websoket_blue.Prelude.{
  ℕ, zero, suc, ◌+◌, ◌-◌, ◌*◌, ◌%◌, ◌/◌, ◌^◌, ◌≤◌, ◌<◌, ◌≡◌, refl, sym, ap, ap₂, subst, ◌∙◌, true,
  false, not, ◌||◌, some, List, [], ◌∷◌, ◌++◌, All, All-append, All-take, arith, ltb, ◌==◌, length,
  take, get_or, replicate, ==_iff, pos, take-append, length-append, length-replicate, get_or-append,
  take-append_le,
}
use gtw_jalles_websoket_blue.Lora.Crc.{lora_crc16, stream_crc16}
use gtw_jalles_websoket_blue.Lora.Crc.Detect.{IsByte, stream_crc16-lt, lora_crc16-eq-stream_crc16}
use gtw_jalles_websoket_blue.Lora.Frame.{
  LoraAppFrame, header_bytes, struct_bytes, frame_of, frame_size, payload_size, air_body, air_bytes,
  lora_frame_air_len, lora_received_frame_valid, u16_at, u16_bytes, preamble_byte,
}
use gtw_jalles_websoket_blue.Lora.Frame.Layout.{
  IsFrame, SameFrame, frame_of-air_bytes, struct_bytes-frame_of, air_body-eq-append,
  header_bytes-IsByte, length-air_bytes,
}
use gtw_jalles_websoket_blue.Lora.Stream.{Stream, Io, lora_e32_receive_raw}
use gtw_jalles_websoket_blue.Lora.Stream.Parse.{IsWhole}
use gtw_jalles_websoket_blue.Lora.Stream.Complete.{IsNoise, lora_e32_receive_raw_finds}

-- The struct that the receiver fills: the frame, and zeros.
abbrev pub received : List ℕ → LoraAppFrame
received frame = frame_of (frame ++ replicate (frame_size - length frame) 0)

All-replicate : (n : ℕ) → All IsByte (replicate n 0)
All-replicate zero = tt
All-replicate (suc n) = (omega arith, All-replicate n)

module _ (frame : List ℕ) (w : IsWhole frame_size frame) where
  abbrev zeros : List ℕ
  zeros = replicate (frame_size - length frame) 0

  memory : struct_bytes (received frame) ≡ frame ++ zeros
  memory =
      struct_bytes-frame_of (frame ++ zeros)
        (omega (
          arith,
          length-append frame zeros,
          length-replicate {A = ℕ} (frame_size - length frame) 0,
          w.fits_out,
        ))
        (All-append IsByte frame zeros w.frame_bytes (All-replicate (frame_size - length frame)))

  len_field : (received frame).len ≡ get_or frame 9 0
  unfolding frame_of
  len_field = get_or-append frame zeros 9 0 (omega (arith, w.exact))

  -- `lora_frame_air_len` of a frame that was delivered is the number of bytes delivered.
  pub lora_frame_air_len-received : lora_frame_air_len (received frame) ≡ length frame
  unfolding lora_frame_air_len
  lora_frame_air_len-received = ground (arith, len_field, w.exact, w.small)

  sealed_in_memory :
      (lora_crc16 (take (length frame - 2) (frame ++ zeros))
        == u16_at (frame ++ zeros) (length frame - 2))
      ≡ true
  sealed_in_memory = (==_iff _ _).1 (
      lora_crc16-eq-stream_crc16 _
      ∙ ap stream_crc16 (take-append_le (length frame - 2) frame zeros (omega arith))
      ∙ sym w.sealed
      ∙ ap₂ (λ x y. x + y * 256) (sym (get_or-append frame zeros _ 0 (omega (arith, w.exact))))
          (sym (get_or-append frame zeros _ 0 (omega (arith, w.exact)))))

  pub valid_received : (lora_received_frame_valid (received frame) (length frame)).ok ≡ true
  unfolding lora_received_frame_valid
  valid_received = rw (lora_frame_air_len-received, memory, long, agree, sealed_in_memory) refl
    where
      long : ltb (length frame) 15 ≡ false
      long = ground (arith, w.exact)

      agree : (length frame == 0 || not (length frame == length frame)) ≡ false
      agree = ground (arith, w.exact)

-- Whatever the receive loop delivers passes the checks that the receiving task makes again on its
-- struct of 79 bytes: the length of the frame on the air is the number of bytes delivered, the
-- preamble is right, and the checksum matches. So those branches of the task reject nothing more.
pub delivered_is_valid :
    (frame : List ℕ)
    → IsWhole frame_size frame
    → (lora_frame_air_len (received frame) ≡ length frame)
      × ((received frame).preamble ≡ preamble_byte)
      × ((lora_received_frame_valid (received frame) (length frame)).ok ≡ true)
unfolding frame_of
delivered_is_valid frame w = (
  lora_frame_air_len-received frame w,
  get_or-append frame _ 0 0 (omega (arith, w.exact)) ∙ w.begins,
  valid_received frame w,
)

-- A frame that can be sent: its fields fit their types, it begins with the preamble, and its payload
-- fits.
pub record IsSendable (f : LoraAppFrame) : Type 0 where
  pub typed : IsFrame f
  pub marked : f.preamble ≡ preamble_byte
  pub fitting : f.len ≤ payload_size

u16_at-append :
    (xs : List ℕ) (a b n : ℕ) → n ≡ length xs → u16_at (xs ++ a ∷ b ∷ []) n ≡ a + b * 256
u16_at-append [] a b zero e = refl
u16_at-append [] a b (suc n) e = absurd (omega arith)
u16_at-append (x ∷ xs) a b zero e = absurd (omega arith)
u16_at-append (x ∷ xs) a b (suc n) e = u16_at-append xs a b n (omega arith)

pub air_bytes-IsWhole : (f : LoraAppFrame) → IsSendable f → IsWhole frame_size (air_bytes f)
unfolding air_bytes frame_of
air_bytes-IsWhole f v = record {
  begins = sym (in_front 0 (omega arith)) ∙ same.preamble_same ∙ v.marked;
  small = rw len_byte v.fitting;
  exact = rw len_byte long;
  fits_out = omega (arith, long, v.fitting);
  sealed =
      u16_at-append body (crc % 256) (crc / 256) (length (air_bytes f) - 2) body_end
      ∙ halves
      ∙ lora_crc16-eq-stream_crc16 body
      ∙ ap stream_crc16
          (sym (ap (λ n. take n (air_bytes f)) body_end ∙ take-append body (u16_bytes crc)));
  frame_bytes = All-append IsByte body (u16_bytes crc) bytes (omega (arith, small_crc));
}
  where
    body : List ℕ
    body = air_body f

    crc : ℕ
    crc = lora_crc16 body

    fits : f.len ≤ length f.payload
    fits = omega arith

    long : length (air_bytes f) ≡ f.len + 15
    long = length-air_bytes f fits

    same : SameFrame f (frame_of (air_bytes f ++ []))
    same = frame_of-air_bytes f [] v.typed v.fitting

    in_front : (i : ℕ) → i < 13 → get_or (air_bytes f ++ []) i 0 ≡ get_or (air_bytes f) i 0
    in_front i h = get_or-append (air_bytes f) [] i 0 (omega (arith, long))

    len_byte : get_or (air_bytes f) 9 0 ≡ f.len
    len_byte = sym (in_front 9 (omega arith)) ∙ same.len_same

    body_end : length (air_bytes f) - 2 ≡ length body
    body_end = omega (arith, length-append body (u16_bytes crc))

    bytes : All IsByte body
    bytes = subst (All IsByte) (sym (air_body-eq-append f fits)) (
        All-append IsByte (header_bytes f) (take f.len f.payload) (header_bytes-IsByte f v.typed)
          (All-take IsByte f.len f.payload v.typed.payload_bytes))

    small_crc : crc < 2 ^ 16
    small_crc = rw (lora_crc16-eq-stream_crc16 body) (stream_crc16-lt body bytes)

    halves : crc % 256 + crc / 256 * 256 ≡ crc
    halves = omega arith

-- What the sender puts on the air, with any noise before it and any bytes after it, is delivered by
-- the receiver as the frame that was sent, and leaves the bytes after it in the stream.
pub link_round_trip :
    (io : Io) (fuel timeout_ms tick : ℕ) (noise rest : List ℕ) (f : LoraAppFrame) (s : Stream)
    → IsSendable f
    → IsNoise noise
    → s.buf ≡ noise ++ (air_bytes f ++ rest)
    → (out : List ℕ) × (t : Stream) × (lora_e32_receive_raw io
          (suc fuel)
          frame_size
          timeout_ms
          tick
          s
        ≡ some (record { result = pos (length (air_bytes f)); out = some out; stream = t }))
      × SameFrame f (frame_of out)
      × ((lora_received_frame_valid (frame_of out) (length (air_bytes f))).ok ≡ true)
      × (t.buf ≡ rest)
link_round_trip io fuel timeout_ms tick noise rest f s v n e =
    let w = air_bytes-IsWhole f v in
    let (t, found, left) =
      lora_e32_receive_raw_finds io fuel frame_size timeout_ms tick noise (air_bytes f) rest s w n
        e in
    (_, t, found, frame_of-air_bytes f _ v.typed v.fitting, valid_received (air_bytes f) w, left)
