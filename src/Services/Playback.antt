-- ===== src/Services/Playback.antt =====
-- core/include/aauto/service/MediaPlaybackService.hpp and
-- core/src/service/MediaPlaybackService.cpp: what the phone plays, handed to the application, and
-- logged when it changes.
pub mod Heartbeat
pub mod Log
use aa_v.Base.{
  ℕ, Bool, true, false, not, ◌||◌, Option, none, some, List, [], ◌∷◌, ◌++◌, Bytes, ◌==◌,
  if◌then◌else◌,
}
use aa_v.Base.Equal.{same_bool, same_bytes}
use aa_v.Service.{Program}
use aa_v.Services
use aa_v.Services.Media.{update}

-- The generated messages; a text is its bytes, and an `int32_t` its bit pattern.
pub record PlaybackStatus : Type 0 where
  pub state : ℕ
  pub media_source : Bytes
  pub playback_seconds : ℕ
  pub shuffle : Bool
  pub repeat : Bool
  pub repeat_one : Bool

pub record PlaybackMetadata : Type 0 where
  pub song : Bytes
  pub artist : Bytes
  pub album : Bytes
  pub album_art : Bytes
  pub playlist : Bytes
  pub duration_seconds : ℕ

-- What generated code reads.
pub record PlaybackMessages : Type 0 where
  pub parse_status : Bytes → Option PlaybackStatus
  pub parse_metadata : Bytes → Option PlaybackMetadata

-- The fields. `status_lines` are the PLAYBACK_STATUS lines of the log, by what they show, and the
-- calls are those of the callbacks.
pub record MediaPlaybackService : Type 0 where
  pub channel_id : ℕ
  pub has_status_callback : Bool
  pub has_metadata_callback : Bool
  pub last_status_seen : Bool
  pub last_status_state : ℕ
  pub last_status_source : Bytes
  pub last_status_shuffle : Bool
  pub last_status_repeat : Bool
  pub last_status_repeat_one : Bool
  pub status_lines : List PlaybackStatus
  pub status_calls : List PlaybackStatus
  pub metadata_calls : List PlaybackMetadata

-- The generated message ids.
abbrev pub media_playback_status : ℕ
media_playback_status = 32769

abbrev pub media_playback_metadata : ℕ
media_playback_metadata = 32771

-- -1 as an `int32_t`
abbrev pub create : Bool → Bool → MediaPlaybackService
create has_status_callback has_metadata_callback = record {
  channel_id = 0;
  has_status_callback = has_status_callback;
  has_metadata_callback = has_metadata_callback;
  last_status_seen = false;
  last_status_state = 4294967295;
  last_status_source = [];
  last_status_shuffle = false;
  last_status_repeat = false;
  last_status_repeat_one = false;
  status_lines = [];
  status_calls = [];
  metadata_calls = [];
}

abbrev pub channel_of : MediaPlaybackService → ℕ
channel_of v = v.channel_id

unfoldable pub on_channel_open : ℕ → Program MediaPlaybackService
on_channel_open channel_id = update (λ v. record v { channel_id = channel_id })

abbrev pub has_changed : PlaybackStatus → MediaPlaybackService → Bool
has_changed msg v =
    not v.last_status_seen
    || not (msg.state == v.last_status_state)
    || not (same_bytes msg.media_source v.last_status_source)
    || not (same_bool msg.shuffle v.last_status_shuffle)
    || not (same_bool msg.repeat v.last_status_repeat)
    || not (same_bool msg.repeat_one v.last_status_repeat_one)

abbrev pub log_status : PlaybackStatus → MediaPlaybackService → MediaPlaybackService
log_status msg v = record v {
  status_lines = v.status_lines ++ msg ∷ [];
  last_status_seen = true;
  last_status_state = msg.state;
  last_status_source = msg.media_source;
  last_status_shuffle = msg.shuffle;
  last_status_repeat = msg.repeat;
  last_status_repeat_one = msg.repeat_one;
}

abbrev pub call_status : PlaybackStatus → MediaPlaybackService → MediaPlaybackService
call_status msg v =
    if v.has_status_callback then record v { status_calls = v.status_calls ++ msg ∷ [] } else v

unfoldable pub on_status : Option PlaybackStatus → MediaPlaybackService → MediaPlaybackService
on_status none v = v
on_status (some msg) v = call_status msg (if has_changed msg v then log_status msg v else v)

unfoldable pub on_metadata : Option PlaybackMetadata → MediaPlaybackService → MediaPlaybackService
on_metadata none v = v
on_metadata (some msg) v =
    if v.has_metadata_callback
    then record v { metadata_calls = v.metadata_calls ++ msg ∷ [] }
    else v

module _ (messages : PlaybackMessages) where
  unfoldable pub handlers : ℕ → Option (Bytes → Program MediaPlaybackService)
  unfolding on_status on_metadata
  handlers t =
      if t == media_playback_status
      then some (λ payload. update (on_status (messages.parse_status payload)))
      else if t == media_playback_metadata
      then some (λ payload. update (on_metadata (messages.parse_metadata payload)))
      else none

  unfoldable pub on_playback_message : ℕ → Bytes → Program MediaPlaybackService
  unfolding on_channel_open handlers
  on_playback_message message_type payload =
      Services.on_message channel_of on_channel_open handlers message_type payload
