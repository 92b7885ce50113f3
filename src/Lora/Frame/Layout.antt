-- ===== src/Lora/Frame/Layout.antt =====
-- The memory layout of a frame: reading it back, and what an intact frame's bytes look like.
use gtw_jalles_websoket_blue.Prelude.{
  ℕ, zero, suc, ◌+◌, ◌*◌, ◌^◌, ◌≤◌, ◌<◌, ◌≡◌, refl, sym, ap, ap₂, subst, ◌∙◌, List, [], ◌∷◌, ◌++◌,
  All, arith, length, take, drop, length-append, length-take, length-drop, get_or-drop, All-drop,
  take-append_add, take-append_le, append_assoc, take-take,
}
use gtw_jalles_websoket_blue.Lora.Crc.{lora_crc16}
use gtw_jalles_websoket_blue.Lora.Crc.Detect.{IsByte}
use gtw_jalles_websoket_blue.Lora.Frame.{
  LoraAppFrame, air_body, air_bytes, header_bytes, struct_bytes, frame_of, frame_size, header_size,
  payload_size, u16_bytes, u16_at,
}

-- A frame whose fields fit their C types.
pub record IsFrame (f : LoraAppFrame) : Type 0 where
  pub preamble_byte : f.preamble < 256
  pub src_type_byte : f.src_type < 256
  pub src_id_word : f.src_id < 2 ^ 16
  pub dst_type_byte : f.dst_type < 256
  pub dst_id_word : f.dst_id < 2 ^ 16
  pub msg_type_byte : f.msg_type < 256
  pub msg_id_byte : f.msg_id < 256
  pub len_byte : f.len < 256
  pub has_bomba_byte : f.has_bomba_id < 256
  pub bomba_word : f.bomba_id < 2 ^ 16
  pub payload_bytes : All IsByte f.payload
  pub payload_full : length f.payload ≡ payload_size
  pub crc_word : f.crc < 2 ^ 16

-- Two bytes of a list as a word, written back.
split-u16 :
    (n : ℕ) (xs : List ℕ)
    → length xs ≡ n + 2
    → All IsByte xs
    → take n xs ++ u16_bytes (u16_at xs n) ≡ xs
split-u16 zero [] h b = absurd (omega arith)
split-u16 zero (x ∷ []) h b = absurd (omega arith)
split-u16 zero (x ∷ y ∷ []) h b = ground arith
split-u16 zero (x ∷ y ∷ z ∷ xs) h b = absurd (omega arith)
split-u16 (suc n) [] h b = absurd (omega arith)
split-u16 (suc n) (x ∷ xs) h b = ap (λ t. x ∷ t) (split-u16 n xs (omega arith) b.1)

-- The thirteen bytes of the header, one after the other.
header_split :
    (raw : List ℕ)
    → header_size ≤ length raw
    → All IsByte raw
    → header_bytes (frame_of raw) ++ drop header_size raw ≡ raw
unfolding header_bytes frame_of
header_split [] h b = absurd (omega arith)
header_split (b0 ∷ b1 ∷ b2 ∷ b3 ∷ b4 ∷ b5 ∷ b6 ∷ b7 ∷ b8 ∷ b9 ∷ b10 ∷ b11 ∷ b12 ∷ rest) h b =
    ground arith
header_split _ h b = absurd (omega arith)

-- The struct read from its bytes has those bytes in memory.
pub struct_bytes-frame_of :
    (raw : List ℕ) → length raw ≡ frame_size → All IsByte raw → struct_bytes (frame_of raw) ≡ raw
unfolding struct_bytes frame_of
struct_bytes-frame_of raw h b =
    ap (λ t. header_bytes (frame_of raw) ++ t) tail_bytes ∙ header_split raw (omega arith) b
  where
    rest : List ℕ
    rest = drop header_size raw

    checksum : u16_at rest 64 ≡ u16_at raw 77
    checksum =
        ap₂ (λ x y. x + y * 256) (get_or-drop 13 64 77 raw 0 (omega arith))
          (get_or-drop 13 65 78 raw 0 (omega arith))

    tail_bytes : take payload_size rest ++ u16_bytes (u16_at raw 77) ≡ rest
    tail_bytes =
        ap (λ w. take payload_size rest ++ u16_bytes w) (sym checksum)
        ∙ split-u16 64 rest (omega (arith, length-drop 13 raw)) (All-drop IsByte 13 raw b)

-- The used part of a frame in memory: the header and `len` bytes of the payload.
pub air_body-eq-append :
    (f : LoraAppFrame)
    → f.len ≤ length f.payload
    → air_body f ≡ header_bytes f ++ take f.len f.payload
unfolding air_body struct_bytes header_bytes
air_body-eq-append f h =
    take-append_add (header_bytes f) (f.payload ++ u16_bytes f.crc) f.len (header_size + f.len) refl
    ∙ ap (λ t. header_bytes f ++ t) (take-append_le f.len f.payload (u16_bytes f.crc) h)

pub header_bytes-IsByte : (f : LoraAppFrame) → IsFrame f → All IsByte (header_bytes f)
unfolding header_bytes
header_bytes-IsByte f v = omega arith

pub length-air_bytes :
    (f : LoraAppFrame) → f.len ≤ length f.payload → length (air_bytes f) ≡ f.len + 15
unfolding air_bytes header_bytes
length-air_bytes f h = omega (
  arith,
  length-append (air_body f) (u16_bytes (lora_crc16 (air_body f))),
  ap length (air_body-eq-append f h),
  length-append (header_bytes f) (take f.len f.payload),
  length-take f.len f.payload,
)

-- What a receiver can read of a frame.
pub record SameFrame (f g : LoraAppFrame) : Type 0 where
  pub preamble_same : g.preamble ≡ f.preamble
  pub src_type_same : g.src_type ≡ f.src_type
  pub src_id_same : g.src_id ≡ f.src_id
  pub dst_type_same : g.dst_type ≡ f.dst_type
  pub dst_id_same : g.dst_id ≡ f.dst_id
  pub msg_type_same : g.msg_type ≡ f.msg_type
  pub msg_id_same : g.msg_id ≡ f.msg_id
  pub len_same : g.len ≡ f.len
  pub has_bomba_same : g.has_bomba_id ≡ f.has_bomba_id
  pub bomba_same : g.bomba_id ≡ f.bomba_id
  pub payload_same : take f.len g.payload ≡ take f.len f.payload

frame_of-header_bytes :
    (f : LoraAppFrame) (more : List ℕ)
    → IsFrame f
    → f.len ≤ payload_size
    → take f.len more ≡ take f.len f.payload
    → SameFrame f (frame_of (header_bytes f ++ more))
unfolding frame_of header_bytes
frame_of-header_bytes f more v h e = record {
  preamble_same = refl;
  src_type_same = refl;
  src_id_same = omega arith;
  dst_type_same = refl;
  dst_id_same = omega arith;
  msg_type_same = refl;
  msg_id_same = refl;
  len_same = refl;
  has_bomba_same = refl;
  bomba_same = omega arith;
  payload_same = take-take f.len payload_size more h ∙ e;
}

air_bytes-eq-append :
    (f : LoraAppFrame) (rest : List ℕ)
    → f.len ≤ length f.payload
    → air_bytes f ++ rest
      ≡ header_bytes f ++ (take f.len f.payload ++ (u16_bytes (lora_crc16 (air_body f)) ++ rest))
unfolding air_bytes
air_bytes-eq-append f rest h =
    append_assoc (air_body f) (u16_bytes (lora_crc16 (air_body f))) rest
    ∙ ap (λ t. t ++ (u16_bytes (lora_crc16 (air_body f)) ++ rest)) (air_body-eq-append f h)
    ∙ append_assoc (header_bytes f) (take f.len f.payload) _

-- An intact frame on the air, whatever follows it, is read back as the frame that was sent.
pub frame_of-air_bytes :
    (f : LoraAppFrame) (rest : List ℕ)
    → IsFrame f
    → f.len ≤ payload_size
    → SameFrame f (frame_of (air_bytes f ++ rest))
frame_of-air_bytes f rest v h =
    subst (λ t. SameFrame f (frame_of t)) (sym (air_bytes-eq-append f rest fits))
      (frame_of-header_bytes f _ v h (take-append_le f.len used _ (omega (arith, room)) ∙ again))
  where
    fits : f.len ≤ length f.payload
    fits = omega arith

    used : List ℕ
    used = take f.len f.payload

    room : length used ≡ f.len
    room = omega (arith, length-take f.len f.payload)

    again : take f.len used ≡ used
    again = take-take f.len f.len f.payload (omega arith)
