-- ===== src/Tests/Frames.antt =====
-- core/src/session/Framer.cpp on concrete bytes.
use aa_v.Base.{
  ◌≡◌, refl, true, false, some, List, [], ◌∷◌, ◌++◌, Bytes, length, replicate, concat,
  All-replicate, arith, ◌<◌,
}
use aa_v.Base.Bits.{IsByte}
use aa_v.Framer.{AapFragment, OutboundFrame, Framer, init, try_parse_fragment, feed, encode}
use aa_v.Framer.Stream.{IsDrained, feed-IsDrained, feed-append}
use aa_v.Framer.Encode.{IsFrame}
use aa_v.Framer.RoundTrip.{AreParts, payloads, deliver, feed-encode}

-- Two whole frames of channels 1 and 2, with two bytes and one byte, and the start of a third.
abbrev wire : Bytes
wire = 1 ∷ 3 ∷ 0 ∷ 2 ∷ 7 ∷ 8 ∷ 2 ∷ 11 ∷ 0 ∷ 1 ∷ 9 ∷ 3 ∷ 3 ∷ []

abbrev keep : AapFragment → List AapFragment → List AapFragment
keep part parts = parts ++ part ∷ []

feed-wire : feed init wire (some keep) [] ≡ (
  record { recv_buffer = 3 ∷ 3 ∷ [] },
  record {
    channel_id = 1;
    is_first = true;
    is_last = true;
    encrypted = false;
    payload = 7 ∷ 8 ∷ [];
  }
      ∷ record {
        channel_id = 2;
        is_first = true;
        is_last = true;
        encrypted = true;
        payload = 9 ∷ [];
      }
      ∷ [],
)
unfolding feed try_parse_fragment
feed-wire = refl

partial : Framer
partial = record { recv_buffer = 1 ∷ 3 ∷ 0 ∷ [] }

partial-IsDrained : IsDrained partial
unfolding partial try_parse_fragment
partial-IsDrained = record { no_frame = refl; in_bytes = omega arith }

feed-IsDrained_example :
    let fr = (feed partial wire (some keep) []).0 in IsDrained fr × (length fr.recv_buffer < 65543)
feed-IsDrained_example = feed-IsDrained keep partial wire [] (omega arith) partial-IsDrained

feed-append_example :
    let (fr, parts) = feed partial (2 ∷ 7 ∷ []) (some keep) [] in
    feed fr (8 ∷ []) (some keep) parts ≡ feed partial (2 ∷ 7 ∷ 8 ∷ []) (some keep) []
feed-append_example =
    feed-append keep partial (2 ∷ 7 ∷ []) (8 ∷ []) [] (omega arith) partial-IsDrained

-- Two fragments.
abbrev large : OutboundFrame
large = record { channel_id = 1; flags = 11; payload = replicate 20000 7 }

large-IsFrame : IsFrame large
large-IsFrame = record {
  channel_byte = omega arith;
  flags_byte = omega arith;
  payload_bytes = All-replicate IsByte 20000 7 (omega arith);
  unfragmented = refl;
}

feed-encode_example :
    (parts : List AapFragment) × (feed init (concat (encode large)) (some keep) []
      ≡ (init, deliver keep parts []))
    × AreParts large true parts
    × (payloads parts ≡ large.payload)
feed-encode_example = feed-encode keep large [] large-IsFrame
