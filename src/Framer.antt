-- ===== src/Framer.antt =====
-- core/include/aauto/session/Framer.hpp and core/src/session/Framer.cpp: the frame parser of the
-- receive path and the fragmenting encoder of the send path.
pub mod Parse
pub mod Stream
pub mod Encode
pub mod RoundTrip
pub mod Keeps
use aa_v.Base.{
  ℕ, zero, suc, ◌+◌, ◌-◌, ◌*◌, ◌/◌, ◌%◌, ◌^◌, min, bit_and, bit_or, Bool, true, false, not, ◌&&◌,
  Option, none, some, List, [], ◌∷◌, ◌++◌, Bytes, length, get_or, take, drop, ltb, leb, ◌==◌,
  if◌then◌else◌,
}
use aa_v.Protocol.{FragInfo, frag_code, frame_header_size, max_frame_payload_size}

-- A single fragment as received, before reassembly and decryption.
pub record AapFragment : Type 0 where
  pub channel_id : ℕ
  pub is_first : Bool
  pub is_last : Bool
  pub encrypted : Bool
  pub payload : Bytes

-- A reassembled and decrypted message; `payload` is what follows the message type.
pub record AapMessage : Type 0 where
  pub channel_id : ℕ
  pub message_type : ℕ
  pub payload : Bytes

-- A frame to be sent; `payload` begins with the message type, or is its ciphertext.
pub record OutboundFrame : Type 0 where
  pub channel_id : ℕ
  pub flags : ℕ
  pub payload : Bytes

pub record Framer : Type 0 where
  pub recv_buffer : Bytes

abbrev pub init : Framer
init = record { recv_buffer = [] }

unfoldable pub reset : Framer → Framer
reset fr = record fr { recv_buffer = [] }

-- `(flags & mask) != 0`
abbrev pub has_flag : ℕ → ℕ → Bool
has_flag flags mask = not (bit_and flags mask == 0)

-- The bytes that a fragment takes on the wire: header, the skipped total size of the first
-- fragment of several, and payload. An index below the buffer's size is read by `get_or`.
abbrev pub payload_length : Bytes → ℕ
payload_length buf = bit_or (get_or buf 2 0 * 256) (get_or buf 3 0)

abbrev pub extra_skip : Bytes → ℕ
extra_skip buf =
    if has_flag (get_or buf 1 0) 0x01 && not (has_flag (get_or buf 1 0) 0x02) then 4 else 0

abbrev pub total_frame_size : Bytes → ℕ
total_frame_size buf = frame_header_size + extra_skip buf + payload_length buf

abbrev pub parsed_fragment : Bytes → AapFragment
parsed_fragment buf = record {
  channel_id = get_or buf 0 0;
  is_first = has_flag (get_or buf 1 0) 0x01;
  is_last = has_flag (get_or buf 1 0) 0x02;
  encrypted = has_flag (get_or buf 1 0) 0x08;
  payload = take (payload_length buf) (drop (frame_header_size + extra_skip buf) buf);
}

-- `try_parse_fragment` up to the call of `on_fragment`: the fragment and the buffer after the
-- erase, or `none` where it returns false.
unfoldable pub try_parse_fragment : Bytes → Option (AapFragment × Bytes)
try_parse_fragment buf =
    if ltb (length buf) frame_header_size
    then none
    else if ltb (length buf) (total_frame_size buf)
    then none
    else some (parsed_fragment buf, drop (total_frame_size buf) buf)

-- `while (try_parse_fragment(on_fragment)) {}`, over the state `S` that `on_fragment` changes. Each
-- round takes four bytes at least, so a round for each byte of the buffer is enough.
pub parse_loop {ℓ} : {S : Type ℓ} → ℕ → (AapFragment → S → S) → Bytes → S → Bytes × S
parse_loop zero on_fragment buf s = (buf, s)
parse_loop (suc rounds) on_fragment buf s = elim (try_parse_fragment buf) [
  | none ↦ (buf, s)
  | some (frag, rest) ↦ parse_loop rounds on_fragment rest (on_fragment frag s)
]

-- `none` is an empty `std::function`.
unfoldable pub feed {ℓ} :
    {S : Type ℓ} → Framer → Bytes → Option (AapFragment → S → S) → S → Framer × S
unfolding parse_loop
feed fr bytes none s = (fr, s)
feed fr [] (some on_fragment) s = (fr, s)
feed fr (b ∷ bytes) (some on_fragment) s =
    let buf = fr.recv_buffer ++ (b ∷ bytes) in
    let (rest, s') = parse_loop (length buf) on_fragment buf s in
    (record fr { recv_buffer = rest }, s')

-- `static_cast<uint8_t>((n >> 8 * k) & 0xFF)`
abbrev pub byte_at : ℕ → ℕ → ℕ
byte_at n k = bit_and (n / 256 ^ k) 0xFF % 256

abbrev pub whole_frame : OutboundFrame → Bytes
whole_frame frame =
    frame.channel_id
    ∷ frame.flags
    ∷ byte_at (length frame.payload) 1
    ∷ byte_at (length frame.payload) 0
    ∷ frame.payload

-- One wire frame of several. `total` is the `uint32_t` size that only the first one carries.
abbrev pub fragment_frame : OutboundFrame → FragInfo → Bool → Bytes → Bytes
fragment_frame frame frag_info is_first chunk =
    frame.channel_id
    ∷ bit_or (bit_and frame.flags 0xFC) (frag_code frag_info)
    ∷ byte_at (length chunk) 1
    ∷ byte_at (length chunk) 0
    ∷ (if is_first
        then byte_at total 3 ∷ byte_at total 2 ∷ byte_at total 1 ∷ byte_at total 0 ∷ chunk
        else chunk)
  where
    total : ℕ
    total = length frame.payload % 2 ^ 32

abbrev pub frag_info_at : Bool → Bool → FragInfo
frag_info_at is_first is_last =
    if is_first then FragInfo.first else if is_last then FragInfo.last else FragInfo.continuation

-- `std::min(remaining, kMaxFramePayloadSize)`, and one round of the loop below.
abbrev pub chunk_size_at : OutboundFrame → ℕ → ℕ
chunk_size_at frame offset = min (length frame.payload - offset) max_frame_payload_size

abbrev pub chunk_at : OutboundFrame → ℕ → Bytes
chunk_at frame offset = take (chunk_size_at frame offset) (drop offset frame.payload)

pub wire_at : OutboundFrame → ℕ → Bytes
wire_at frame offset =
    let is_first = offset == 0 in
    let is_last = leb (length frame.payload) (offset + chunk_size_at frame offset) in
    fragment_frame frame (frag_info_at is_first is_last) is_first (chunk_at frame offset)

-- `while (offset < payload.size())`. A round adds one byte at least, so a round for each byte of
-- the payload is enough.
pub encode_loop : ℕ → OutboundFrame → ℕ → List Bytes
encode_loop zero frame offset = []
encode_loop (suc rounds) frame offset =
    let more = encode_loop rounds frame (offset + chunk_size_at frame offset) in
    if ltb offset (length frame.payload) then wire_at frame offset ∷ more else []

unfoldable pub encode : OutboundFrame → List Bytes
unfolding encode_loop wire_at
encode frame =
    if leb (length frame.payload) max_frame_payload_size
    then whole_frame frame ∷ []
    else encode_loop (length frame.payload) frame 0
