-- ===== src/Framer/Stream.antt =====
-- `Framer::feed` in core/src/session/Framer.cpp over a stream of reads.
use aa_v.Base.{
  ℕ, zero, suc, ◌≤◌, ◌<◌, ◌≡◌, refl, sym, ap, ◌∙◌, inl, inr, none, some, List, [], ◌∷◌, ◌++◌, Bytes,
  concat, length, get_or, drop, All, All-append, All-drop, arith, append-nil, append_assoc,
}
use aa_v.Base.Bits.{IsByte, or_bytes}
use aa_v.Framer.{
  AapFragment, Framer, init, payload_length, total_frame_size, parsed_fragment, try_parse_fragment,
  parse_loop, feed,
}
use aa_v.Framer.Parse.{
  try_parse_fragment_whole, try_parse_fragment_cases, parse_all, parse_all-stop, parse_all-append,
  parse_loop-none,
}

-- What holds of the receive buffer between two calls.
pub record IsDrained (fr : Framer) : Type 0 where
  pub no_frame : try_parse_fragment fr.recv_buffer ≡ none
  pub in_bytes : All IsByte fr.recv_buffer

pub init-IsDrained : IsDrained init
unfolding try_parse_fragment
init-IsDrained = record { no_frame = refl; in_bytes = tt }

get_or-lt : (buf : Bytes) (i : ℕ) → All IsByte buf → get_or buf i 0 < 256
get_or-lt [] i h = omega arith
get_or-lt (x ∷ xs) zero h = h.0
get_or-lt (x ∷ xs) (suc i) h = get_or-lt xs i h.1

payload_length-lt : (buf : Bytes) → All IsByte buf → payload_length buf < 65536
payload_length-lt buf h = omega (
  arith,
  or_bytes (get_or buf 2 0) (get_or buf 3 0) (get_or-lt buf 3 h),
  get_or-lt buf 2 h,
  get_or-lt buf 3 h,
)

-- The largest frame: header, total size and 65535 bytes of payload.
total_frame_size-le : (buf : Bytes) → All IsByte buf → total_frame_size buf ≤ 65543
total_frame_size-le buf h = ground (arith, payload_length-lt buf h)

no_frame-lt : (buf : Bytes) → All IsByte buf → try_parse_fragment buf ≡ none → length buf < 65543
unfolding try_parse_fragment
no_frame-lt buf h e = ground (arith, total_frame_size-le buf h)

module _ {ℓ} {S : Type ℓ} (on_fragment : AapFragment → S → S) where
  parse_loop-bytes :
      (n : ℕ) (buf : Bytes) (s : S) → All IsByte buf → All IsByte (parse_loop n on_fragment buf s).0
  unfolding parse_loop
  parse_loop-bytes zero buf s h = h
  parse_loop-bytes (suc n) buf s h = elim (try_parse_fragment_cases buf) [
    | inl e ↦ rw (e, parse_loop) h
    | inr f ↦
        rw (try_parse_fragment_whole buf f, parse_loop)
          (parse_loop-bytes n (drop (total_frame_size buf) buf)
            (on_fragment (parsed_fragment buf) s) (All-drop IsByte (total_frame_size buf) buf h))
  ]

  -- A call of `feed` on a buffer without a whole frame leaves none behind, so the receive buffer
  -- stays below 65543 bytes, whatever bytes arrive.
  pub feed-IsDrained :
      (fr : Framer) (bytes : Bytes) (s : S)
      → All IsByte bytes
      → IsDrained fr
      → let fr' = (feed fr bytes (some on_fragment) s).0 in
        IsDrained fr' × (length fr'.recv_buffer < 65543)
  unfolding feed
  feed-IsDrained fr [] s hb d = (d, no_frame-lt fr.recv_buffer d.in_bytes d.no_frame)
  feed-IsDrained fr (b ∷ bytes) s hb d =
      (record { no_frame = ended; in_bytes = left }, no_frame-lt _ left ended)
    where
      buf : Bytes
      buf = fr.recv_buffer ++ (b ∷ bytes)

      ended : try_parse_fragment (parse_all on_fragment buf s).0 ≡ none
      ended = parse_loop-none on_fragment (length buf) buf s (omega arith)

      left : All IsByte (parse_all on_fragment buf s).0
      left =
          parse_loop-bytes (length buf) buf s
            (All-append IsByte fr.recv_buffer (b ∷ bytes) d.in_bytes hb)

  abbrev pub buffered : Bytes × S → Framer × S
  buffered (rest, s) = (record { recv_buffer = rest }, s)

  pub feed-parse_all :
      (fr : Framer) (bytes : Bytes) (s : S)
      → try_parse_fragment fr.recv_buffer ≡ none
      → feed fr bytes (some on_fragment) s
        ≡ buffered (parse_all on_fragment (fr.recv_buffer ++ bytes) s)
  unfolding feed
  feed-parse_all fr [] s e = rw (append-nil, parse_all-stop on_fragment fr.recv_buffer s e)
  feed-parse_all fr (b ∷ bytes) s e = refl

  feed-none :
      (fr : Framer) (bytes : Bytes) (s : S)
      → try_parse_fragment fr.recv_buffer ≡ none
      → try_parse_fragment (feed fr bytes (some on_fragment) s).0.recv_buffer ≡ none
  unfolding feed
  feed-none fr [] s e = e
  feed-none fr (b ∷ bytes) s e =
      parse_loop-none on_fragment (length (fr.recv_buffer ++ (b ∷ bytes)))
        (fr.recv_buffer ++ (b ∷ bytes)) s (omega arith)

  feed_twice :
      (fr : Framer) (bytes more : Bytes) (s : S)
      → try_parse_fragment fr.recv_buffer ≡ none
      → let (fr', s') = feed fr bytes (some on_fragment) s in
        feed fr' more (some on_fragment) s' ≡ feed fr (bytes ++ more) (some on_fragment) s
  feed_twice fr bytes more s e =
      feed-parse_all (feed fr bytes (some on_fragment) s).0 more _ (feed-none fr bytes s e)
      ∙ ap (λ r. buffered (parse_all on_fragment (r.0.recv_buffer ++ more) r.1))
          (feed-parse_all fr bytes s e)
      ∙ ap buffered (sym (parse_all-append on_fragment (fr.recv_buffer ++ bytes) more s))
      ∙ ap (λ b. buffered (parse_all on_fragment b s)) (append_assoc fr.recv_buffer bytes more)
      ∙ sym (feed-parse_all fr (bytes ++ more) s e)

  -- How the transport cuts the stream of bytes into reads does not matter to a framer whose buffer
  -- has no whole frame: two reads hand the same fragments over, in the same order, as one read of
  -- all their bytes, and leave the same buffer.
  pub feed-append :
      (fr : Framer) (bytes more : Bytes) (s : S)
      → All IsByte bytes
      → IsDrained fr
      → let (fr', s') = feed fr bytes (some on_fragment) s in
        feed fr' more (some on_fragment) s' ≡ feed fr (bytes ++ more) (some on_fragment) s
  feed-append fr bytes more s hb d = feed_twice fr bytes more s d.no_frame

  -- Reads, one after another.
  abbrev pub feed_reads : List Bytes → Framer → S → Framer × S
  feed_reads [] fr s = (fr, s)
  feed_reads (bytes ∷ reads) fr s =
      let (fr', s') = feed fr bytes (some on_fragment) s in feed_reads reads fr' s'

  feed_reads-concat_from :
      (reads : List Bytes) (fr : Framer) (s : S)
      → try_parse_fragment fr.recv_buffer ≡ none
      → feed_reads reads fr s ≡ feed fr (concat reads) (some on_fragment) s
  unfolding feed
  feed_reads-concat_from [] fr s e = refl
  feed_reads-concat_from (bytes ∷ reads) fr s e =
      let (fr', s') = feed fr bytes (some on_fragment) s in
      feed_reads-concat_from reads fr' s' (feed-none fr bytes s e)
      ∙ feed_twice fr bytes (concat reads) s e

  pub feed_reads-concat :
      (reads : List Bytes) (s : S)
      → feed_reads reads init s ≡ feed init (concat reads) (some on_fragment) s
  feed_reads-concat reads s = feed_reads-concat_from reads init s init-IsDrained.no_frame

  -- Bytes that leave an empty buffer are followed by bytes that find an empty buffer.
  pub feed-init_append :
      (bytes more : Bytes) (s t : S)
      → feed init bytes (some on_fragment) s ≡ (init, t)
      → feed init (bytes ++ more) (some on_fragment) s ≡ feed init more (some on_fragment) t
  feed-init_append bytes more s t h =
      sym (feed_twice init bytes more s init-IsDrained.no_frame)
      ∙ ap (λ r. feed r.0 more (some on_fragment) r.1) h
