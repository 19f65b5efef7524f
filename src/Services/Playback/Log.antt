-- ===== src/Services/Playback/Log.antt =====
-- A run of core/src/service/MediaPlaybackService.cpp: its log lines and its callbacks.
use aa_v.Base.{
  ℕ, ◌≡◌, refl, ap, ap₂, ◌∙◌, true, Option, none, List, [], ◌∷◌, ◌++◌, Bytes, append-nil,
  append_assoc, arith, if◌then◌else◌,
}
use aa_v.Services.Media.{serve_all}
use aa_v.Services.News.{news, to_list, last_of, collect, news-append, heard}
use aa_v.Services.Playback.{PlaybackStatus, PlaybackMessages, MediaPlaybackService, create}
use aa_v.Services.Playback.Heartbeat.{
  same_but_position, Remembers, respond, parsed_status, parsed_metadata, respond-Told,
}

module _ (messages : PlaybackMessages) where
  run_lem :
      (is : List (ℕ × Bytes)) (previous : Option PlaybackStatus) (v : MediaPlaybackService)
      → Remembers previous v
      → let w = (serve_all (respond messages) is v).0 in
        (w.status_lines
          ≡ v.status_lines ++ news same_but_position previous (collect (parsed_status messages) is))
        × (w.status_calls
            ≡ v.status_calls
              ++ (if v.has_status_callback then collect (parsed_status messages) is else []))
        × (w.metadata_calls
            ≡ v.metadata_calls
              ++ (if v.has_metadata_callback then collect (parsed_metadata messages) is else []))
  run_lem [] previous v p =
      ground
        (arith, append-nil v.status_calls, append-nil v.status_lines, append-nil v.metadata_calls)
  run_lem (i ∷ is) previous v p =
      let w = (respond messages i v).0 in
      let ((remembers, lines, calls, has), (metadata, has')) =
        respond-Told messages previous i v p in
      let (lines', calls', metadata') =
        run_lem is (last_of previous (parsed_status messages i)) w remembers in
      (
        lines'
            ∙ ap
                (λ l.
                  l
                  ++ news same_but_position (last_of previous (parsed_status messages i))
                      (collect (parsed_status messages) is))
                lines
            ∙ append_assoc v.status_lines
                (news same_but_position previous (to_list (parsed_status messages i)))
                (news same_but_position (last_of previous (parsed_status messages i))
                  (collect (parsed_status messages) is))
            ∙ ap (λ l. v.status_lines ++ l)
                (news-append same_but_position previous (parsed_status messages i)
                  (collect (parsed_status messages) is)),
        calls'
            ∙ ap₂ (λ c b. c ++ (if b then collect (parsed_status messages) is else [])) calls has
            ∙ heard v.has_status_callback v.status_calls (to_list (parsed_status messages i))
                (collect (parsed_status messages) is),
        metadata'
            ∙ ap₂ (λ c b. c ++ (if b then collect (parsed_metadata messages) is else [])) metadata
                has'
            ∙ heard v.has_metadata_callback v.metadata_calls (to_list (parsed_metadata messages i))
                (collect (parsed_metadata messages) is),
      )

  -- A new playback service with both callbacks set, whatever messages it gets: its log shows the
  -- statuses that it could parse and that differ from the status before in more than the position,
  -- the first one included, each once and in order; and its callbacks hear of every status and of
  -- every metadata message that it could parse, in order.
  pub serve_all-news :
      (is : List (ℕ × Bytes))
      → let w = (serve_all (respond messages) is (create true true)).0 in
        (w.status_lines ≡ news same_but_position none (collect (parsed_status messages) is))
        × (w.status_calls ≡ collect (parsed_status messages) is)
        × (w.metadata_calls ≡ collect (parsed_metadata messages) is)
  serve_all-news is = run_lem is none (create true true) refl
