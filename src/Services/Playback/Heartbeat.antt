-- ===== src/Services/Playback/Heartbeat.antt =====
-- What core/src/service/MediaPlaybackService.cpp logs of a phone that repeats itself every second.
use mathlib.Core.Path.{subst}
use aa_v.Base.{
  ℕ, ◌≡◌, sym, Bool, true, false, not, ◌||◌, Option, none, some, List, [], ◌∷◌, ◌++◌, Bytes, ◌==◌,
  append-nil, arith, if◌then◌else◌,
}
use aa_v.Base.Equal.{same_bool, same_bytes, same_bool→≡, same_bytes→≡}
use aa_v.Services
use aa_v.Services.{Call, exec, handle}
use aa_v.Services.News.{is_news, news, to_list, last_of}
use aa_v.Services.Playback.{
  PlaybackStatus, PlaybackMetadata, PlaybackMessages, MediaPlaybackService, media_playback_status,
  media_playback_metadata, on_channel_open, has_changed, on_status, on_metadata, handlers,
  on_playback_message,
}

-- Two statuses that differ at most in the position.
abbrev pub same_but_position : PlaybackStatus → PlaybackStatus → Bool
same_but_position a b = not (
    not (a.state == b.state)
    || not (same_bytes a.media_source b.media_source)
    || not (same_bool a.shuffle b.shuffle)
    || not (same_bool a.repeat b.repeat)
    || not (same_bool a.repeat_one b.repeat_one))

-- The service remembers the last status, but for its position.
abbrev pub Remembers : Option PlaybackStatus → MediaPlaybackService → Type 0
Remembers none v = v.last_status_seen ≡ false
Remembers (some msg) v =
    (v.last_status_seen ≡ true)
    × (v.last_status_state ≡ msg.state)
    × (v.last_status_source ≡ msg.media_source)
    × (v.last_status_shuffle ≡ msg.shuffle)
    × (v.last_status_repeat ≡ msg.repeat)
    × (v.last_status_repeat_one ≡ msg.repeat_one)

changed-news :
    (previous : Option PlaybackStatus) (msg : PlaybackStatus) (v : MediaPlaybackService)
    → Remembers previous v
    → has_changed msg v ≡ is_news same_but_position previous msg
changed-news none msg v p = ground (arith, p)
changed-news (some previous) msg v p = rw (p.0, p.1, p.2, p.3, p.4, p.5) (ground arith)

-- A status that is no news is the one that is remembered, but for its position.
unchanged-Remembers :
    (msg : PlaybackStatus) (v : MediaPlaybackService)
    → has_changed msg v ≡ false
    → Remembers (some msg) v
unchanged-Remembers msg v e = ground (
  arith,
  e,
  same_bytes→≡ msg.media_source v.last_status_source,
  same_bool→≡ msg.shuffle v.last_status_shuffle,
  same_bool→≡ msg.repeat v.last_status_repeat,
  same_bool→≡ msg.repeat_one v.last_status_repeat_one,
)

status-Remembers :
    (previous : Option PlaybackStatus) (msg : PlaybackStatus) (v : MediaPlaybackService)
    → Remembers previous v
    → let w = on_status (some msg) v in
      Remembers (some msg) w
      × (w.status_lines ≡ v.status_lines ++ news same_but_position previous (msg ∷ []))
      × (w.status_calls ≡ v.status_calls ++ (if v.has_status_callback then msg ∷ [] else []))
      × (w.has_status_callback ≡ v.has_status_callback)
unfolding on_status
status-Remembers previous msg v p = ground (
  arith,
  changed-news previous msg v p,
  unchanged-Remembers msg v,
  append-nil v.status_calls,
  append-nil v.status_lines,
)

-- What a message does to a service that remembers the status `previous`.
abbrev pub Told :
    Option PlaybackStatus
    → Option PlaybackStatus
    → MediaPlaybackService
    → MediaPlaybackService
    → Type 0
Told previous parsed v w =
    Remembers (last_of previous parsed) w
    × (w.status_lines ≡ v.status_lines ++ news same_but_position previous (to_list parsed))
    × (w.status_calls ≡ v.status_calls ++ (if v.has_status_callback then to_list parsed else []))
    × (w.has_status_callback ≡ v.has_status_callback)

abbrev pub Metadata : Option PlaybackMetadata → MediaPlaybackService → MediaPlaybackService → Type 0
Metadata parsed v w =
    (w.metadata_calls
      ≡ v.metadata_calls ++ (if v.has_metadata_callback then to_list parsed else []))
    × (w.has_metadata_callback ≡ v.has_metadata_callback)

fields-Told :
    (previous parsed : Option PlaybackStatus) (metadata : Option PlaybackMetadata)
    (v : MediaPlaybackService)
    → Remembers previous v
    → let w = on_metadata metadata (on_status parsed v) in
      Told previous parsed v w × Metadata metadata v w
unfolding on_status on_metadata
fields-Told previous none none v p =
    ground
      (arith, p, append-nil v.status_calls, append-nil v.status_lines, append-nil v.metadata_calls)
fields-Told previous none (some m) v p =
    ground
      (arith, p, append-nil v.status_calls, append-nil v.status_lines, append-nil v.metadata_calls)
fields-Told previous (some msg) none v p = ground (
  arith,
  p,
  append-nil v.status_calls,
  append-nil v.status_lines,
  append-nil v.metadata_calls,
  status-Remembers previous msg v p,
)
fields-Told previous (some msg) (some m) v p = ground (
  arith,
  p,
  append-nil v.status_calls,
  append-nil v.status_lines,
  append-nil v.metadata_calls,
  status-Remembers previous msg v p,
)

module _ (messages : PlaybackMessages) where
  -- A message of the channel: its type and its payload.
  abbrev pub respond : ℕ × Bytes → MediaPlaybackService → MediaPlaybackService × List Call
  respond (t, payload) v = exec (on_playback_message messages t payload) v

  abbrev pub parsed_status : ℕ × Bytes → Option PlaybackStatus
  parsed_status (t, payload) =
      if t == media_playback_status then messages.parse_status payload else none

  abbrev pub parsed_metadata : ℕ × Bytes → Option PlaybackMetadata
  parsed_metadata (t, payload) =
      if t == media_playback_metadata then messages.parse_metadata payload else none

  respond-fields :
      (i : ℕ × Bytes) (v : MediaPlaybackService)
      → (respond i v).0 ≡ on_metadata (parsed_metadata i) (on_status (parsed_status i) v)
  unfolding on_playback_message Services.on_message Services.send handlers handle on_channel_open
      on_status on_metadata exec
  respond-fields (t, payload) v = ground arith

  pub respond-Told :
      (previous : Option PlaybackStatus) (i : ℕ × Bytes) (v : MediaPlaybackService)
      → Remembers previous v
      → Told previous (parsed_status i) v (respond i v).0
        × Metadata (parsed_metadata i) v (respond i v).0
  respond-Told previous i v p =
      subst (λ w. Told previous (parsed_status i) v w × Metadata (parsed_metadata i) v w)
        (sym (respond-fields i v)) (fields-Told previous (parsed_status i) (parsed_metadata i) v p)
