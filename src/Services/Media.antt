-- ===== src/Services/Media.antt =====
-- What core/src/service/AudioService.cpp and core/src/service/VideoService.cpp share.
use aa_v.Base.{ℕ, suc, ◌+◌, ◌*◌, ◌≡◌, refl, List, [], ◌∷◌, ◌++◌, Bytes, ◌==◌, if◌then◌else◌, arith}
use aa_v.Protocol.{MediaMessageType, media_code}
use aa_v.Service.{Program}
use aa_v.Services.{Call}

-- A method that changes fields and calls nothing.
abbrev pub update : {V : Type 0} → (V → V) → Program V
update f = Program.get (λ v. Program.put (f v) Program.done)

-- The bytes of an `int64_t` on a little-endian machine, as its bit pattern.
abbrev pub little_endian : Bytes → ℕ
little_endian [] = 0
little_endian (b ∷ bytes) = b + 256 * little_endian bytes

-- `send` with a message type of the media channels, and what follows it.
unfoldable pub send_media :
    {V : Type 0} → (V → ℕ) → MediaMessageType → Bytes → Program V → Program V
send_media channel_of message_type payload rest =
    Program.get (λ v. Program.send (channel_of v) (media_code message_type) payload rest)

-- The acknowledgements among a service's calls.
abbrev pub acks : List Call → ℕ
acks [] = 0
acks (Call.sent channel_id t payload ∷ calls) =
    if t == media_code MediaMessageType.ack then suc (acks calls) else acks calls
acks (Call.stop_requested ∷ calls) = acks calls

pub acks-append : (xs ys : List Call) → acks (xs ++ ys) ≡ acks xs + acks ys
acks-append [] ys = omega arith
acks-append (Call.stop_requested ∷ xs) ys = acks-append xs ys
acks-append (Call.sent channel_id t payload ∷ xs) ys = ground (arith, acks-append xs ys)

-- A service that answers one input after another.
abbrev pub serve_all : {V I : Type 0} → (I → V → V × List Call) → List I → V → V × List Call
serve_all respond [] v = (v, [])
serve_all respond (i ∷ is) v =
    let (w, calls) = respond i v in let (u, more) = serve_all respond is w in (u, calls ++ more)

abbrev pub total : {I : Type 0} → (I → ℕ) → List I → ℕ
total owed [] = 0
total owed (i ∷ is) = owed i + total owed is

-- What every answer keeps and acknowledges, the run does.
pub serve_all-acks :
    {V I : Type 0} (respond : I → V → V × List Call) (P : V → Type 0) (owed : I → ℕ)
    → ((i : I) (v : V) → P v → P (respond i v).0 × (acks (respond i v).1 ≡ owed i))
    → (is : List I) (v : V) → P v
    → P (serve_all respond is v).0 × (acks (serve_all respond is v).1 ≡ total owed is)
serve_all-acks respond P owed keep [] v p = (p, refl)
serve_all-acks respond P owed keep (i ∷ is) v p =
    let (q, one) = keep i v p in
    let (r, rest) = serve_all-acks respond P owed keep is (respond i v).0 q in
    (
      r,
      omega
          (arith, one, rest, acks-append (respond i v).1 (serve_all respond is (respond i v).0).1),
    )
