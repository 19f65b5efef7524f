-- ===== src/Protocol/Flags.antt =====
-- What the flags byte of core/include/aauto/utils/ProtocolConstants.hpp says to the receiver.
use aa_v.Base.{ℕ, ◌≡◌, Bool, not, ◌&&◌, leb, ◌==◌, bit_and, arith}
use aa_v.Base.Bits.{IsByte}
use aa_v.Protocol.{compute_frame_flags}

-- The flags fit a byte and mark a whole message; the bit 0x08 is the encryption asked for, and the
-- bit 0x04 is set exactly on message types 1 to 19 of a channel other than 0.
pub compute_frame_flags_lem :
    (channel msg_type : ℕ) (encrypted : Bool)
    → let flags = compute_frame_flags channel msg_type encrypted in
      IsByte flags
      × (bit_and flags 0x03 ≡ 3)
      × ((bit_and flags 0x08 == 8) ≡ encrypted)
      × ((bit_and flags 0x04 == 4) ≡ (not (channel == 0) && (leb 1 msg_type && leb msg_type 19)))
unfolding compute_frame_flags
compute_frame_flags_lem channel msg_type encrypted = ground arith

pub compute_frame_flags-IsByte :
    (channel msg_type : ℕ) (encrypted : Bool)
    → IsByte (compute_frame_flags channel msg_type encrypted)
compute_frame_flags-IsByte channel msg_type encrypted =
    (compute_frame_flags_lem channel msg_type encrypted).0
