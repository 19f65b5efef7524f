-- ===== src/Services/Browser.antt =====
-- core/include/aauto/service/MediaBrowserService.hpp and core/src/service/MediaBrowserService.cpp:
-- the phone's media library, node by node.
pub mod Nodes
use aa_v.Base.{
  ℕ, Bool, true, false, Option, none, some, List, [], ◌∷◌, ◌++◌, map, Bytes, ◌==◌, if◌then◌else◌,
}
use aa_v.Service.{Program}
use aa_v.Services
use aa_v.Services.Media.{update}

-- The generated messages: a text is its bytes, an `int32_t` its bit pattern, and an optional text
-- that is not there `none`.
pub record MediaSource : Type 0 where
  pub source_path : Bytes
  pub source_name : Bytes
  pub source_art : Bytes

pub record MediaList : Type 0 where
  pub list_path : Bytes
  pub list_type : ℕ
  pub list_name : Option Bytes
  pub list_art : Bytes

pub record MediaSong : Type 0 where
  pub song_path : Bytes
  pub song_name : Bytes
  pub song_artist : Option Bytes
  pub song_album : Option Bytes

-- The entries that the callbacks get.
pub record SourceEntry : Type 0 where
  pub path : Bytes
  pub name : Bytes
  pub album_art : Bytes

pub record ListEntry : Type 0 where
  pub path : Bytes
  pub type_code : ℕ
  pub name : Bytes
  pub album_art : Bytes

pub record SongEntry : Type 0 where
  pub path : Bytes
  pub name : Bytes
  pub artist : Bytes
  pub album : Bytes

pub data BrowserCall : Type 0 where
  root_called : Bytes → List SourceEntry → BrowserCall
  source_called : SourceEntry → ℕ → ℕ → List ListEntry → BrowserCall
  list_called : ListEntry → ℕ → ℕ → List SongEntry → BrowserCall
  song_called : SongEntry → Bytes → ℕ → BrowserCall

-- What generated code reads and writes. A request for a node has its start only where it is not 0.
pub record BrowserMessages : Type 0 where
  pub parse_root : Bytes → Option (Bytes × List MediaSource)
  pub parse_source : Bytes → Option (MediaSource × ℕ × ℕ × List MediaList)
  pub parse_list : Bytes → Option (MediaList × ℕ × ℕ × List MediaSong)
  pub parse_song : Bytes → Option (MediaSong × Bytes × ℕ)
  pub serialize_get_node : Bytes → Option ℕ → Bool → Bytes
  pub serialize_browse_input : Bytes → ℕ → Bytes

-- The fields: which callbacks are set, and their calls.
pub record MediaBrowserService : Type 0 where
  pub channel_id : ℕ
  pub has_root_callback : Bool
  pub has_source_callback : Bool
  pub has_list_callback : Bool
  pub has_song_callback : Bool
  pub browser_calls : List BrowserCall

-- The generated message ids.
abbrev pub media_root_node : ℕ
media_root_node = 32769

abbrev pub media_source_node : ℕ
media_source_node = 32770

abbrev pub media_list_node : ℕ
media_list_node = 32771

abbrev pub media_song_node : ℕ
media_song_node = 32772

abbrev pub media_get_node : ℕ
media_get_node = 32773

abbrev pub media_browse_input : ℕ
media_browse_input = 32774

abbrev pub channel_of : MediaBrowserService → ℕ
channel_of v = v.channel_id

unfoldable pub on_channel_open : ℕ → Program MediaBrowserService
on_channel_open channel_id = update (λ v. record v { channel_id = channel_id })

abbrev pub or_empty_text : Option Bytes → Bytes
or_empty_text none = []
or_empty_text (some text) = text

abbrev pub source_entry : MediaSource → SourceEntry
source_entry s = record { path = s.source_path; name = s.source_name; album_art = s.source_art }

abbrev pub list_entry : MediaList → ListEntry
list_entry l = record {
  path = l.list_path;
  type_code = l.list_type;
  name = or_empty_text l.list_name;
  album_art = l.list_art;
}

abbrev pub song_entry : MediaSong → SongEntry
song_entry s = record {
  path = s.song_path;
  name = s.song_name;
  artist = or_empty_text s.song_artist;
  album = or_empty_text s.song_album;
}

abbrev pub call_back : Bool → BrowserCall → MediaBrowserService → MediaBrowserService
call_back is_set call v =
    if is_set then record v { browser_calls = v.browser_calls ++ call ∷ [] } else v

unfoldable pub on_root :
    Option (Bytes × List MediaSource) → MediaBrowserService → MediaBrowserService
on_root none v = v
on_root (some (path, media_sources)) v =
    call_back v.has_root_callback (BrowserCall.root_called path (map source_entry media_sources)) v

unfoldable pub on_source :
    Option (MediaSource × ℕ × ℕ × List MediaList) → MediaBrowserService → MediaBrowserService
on_source none v = v
on_source (some (source, start, total, lists)) v =
    call_back v.has_source_callback
      (BrowserCall.source_called (source_entry source) start total (map list_entry lists)) v

unfoldable pub on_list :
    Option (MediaList × ℕ × ℕ × List MediaSong) → MediaBrowserService → MediaBrowserService
on_list none v = v
on_list (some (list, start, total, songs)) v =
    call_back v.has_list_callback
      (BrowserCall.list_called (list_entry list) start total (map song_entry songs)) v

unfoldable pub on_song : Option (MediaSong × Bytes × ℕ) → MediaBrowserService → MediaBrowserService
on_song none v = v
on_song (some (song, album_art, duration_seconds)) v =
    call_back v.has_song_callback
      (BrowserCall.song_called (song_entry song) album_art duration_seconds) v

module _ (messages : BrowserMessages) where
  unfoldable pub handlers : ℕ → Option (Bytes → Program MediaBrowserService)
  unfolding on_root on_source on_list on_song
  handlers t =
      if t == media_root_node
      then some (λ payload. update (on_root (messages.parse_root payload)))
      else if t == media_source_node
      then some (λ payload. update (on_source (messages.parse_source payload)))
      else if t == media_list_node
      then some (λ payload. update (on_list (messages.parse_list payload)))
      else if t == media_song_node
      then some (λ payload. update (on_song (messages.parse_song payload)))
      else none

  unfoldable pub on_browser_message : ℕ → Bytes → Program MediaBrowserService
  unfolding on_channel_open handlers
  on_browser_message message_type payload =
      Services.on_message channel_of on_channel_open handlers message_type payload

  unfoldable pub request_node : Bytes → ℕ → Bool → Program MediaBrowserService
  request_node path start get_album_art = Program.get (λ v.
      Program.send (channel_of v) media_get_node
        (messages.serialize_get_node path (if start == 0 then none else some start) get_album_art)
        Program.done)

  unfoldable pub browse_input : Bytes → ℕ → Program MediaBrowserService
  browse_input path action = Program.get (λ v.
      Program.send (channel_of v) media_browse_input (messages.serialize_browse_input path action)
        Program.done)
