-- ===== src/Services/Browser/Nodes.antt =====
-- What core/src/service/MediaBrowserService.cpp tells the application.
use mathlib.Core.Option
use aa_v.Base.{
  ℕ, ◌≡◌, sym, ap, ◌∙◌, true, Option, none, List, [], ◌∷◌, ◌++◌, map, Bytes, ◌==◌, append-nil,
  append_assoc, arith, if◌then◌else◌,
}
use aa_v.Services
use aa_v.Services.{Call, exec, handle}
use aa_v.Services.Media.{serve_all}
use aa_v.Services.News.{to_list, collect}
use aa_v.Services.Browser.{
  BrowserCall, BrowserMessages, MediaBrowserService, media_root_node, media_source_node,
  media_list_node, media_song_node, on_channel_open, source_entry, list_entry, song_entry, on_root,
  on_source, on_list, on_song, handlers, on_browser_message,
}

module _ (messages : BrowserMessages) where
  -- A message of the channel: its type and its payload.
  abbrev pub respond : ℕ × Bytes → MediaBrowserService → MediaBrowserService × List Call
  respond (t, payload) v = exec (on_browser_message messages t payload) v

  -- The node that a message carries, as the application sees it.
  abbrev pub node_of : ℕ × Bytes → Option BrowserCall
  node_of (t, payload) =
      if t == media_root_node
      then Option.map (λ (path, sources). BrowserCall.root_called path (map source_entry sources))
          (messages.parse_root payload)
      else if t == media_source_node
      then Option.map
          (λ (source, start, total, lists).
            BrowserCall.source_called (source_entry source) start total (map list_entry lists))
          (messages.parse_source payload)
      else if t == media_list_node
      then Option.map
          (λ (list, start, total, songs).
            BrowserCall.list_called (list_entry list) start total (map song_entry songs))
          (messages.parse_list payload)
      else if t == media_song_node
      then Option.map
          (λ (song, album_art, duration).
            BrowserCall.song_called (song_entry song) album_art duration)
          (messages.parse_song payload)
      else none

  respond-node :
      (i : ℕ × Bytes) (v : MediaBrowserService)
      → v.has_root_callback ≡ true
      → v.has_source_callback ≡ true
      → v.has_list_callback ≡ true
      → v.has_song_callback ≡ true
      → (respond i v).0 ≡ record v { browser_calls = v.browser_calls ++ to_list (node_of i) }
  unfolding on_browser_message Services.on_message Services.send handlers handle on_channel_open
      on_root on_source on_list on_song exec
  respond-node (t, payload) v r s l g = ground (arith, r, s, l, g, append-nil v.browser_calls)

  -- A browser service with all callbacks set, whatever messages it gets: the application hears,
  -- once and in order, of each node that the service could parse, by the callback of its message
  -- type, with an empty text for a name, artist or album that is not there. Nothing else of the
  -- service changes.
  pub serve_all-nodes :
      (is : List (ℕ × Bytes)) (v : MediaBrowserService)
      → v.has_root_callback ≡ true
      → v.has_source_callback ≡ true
      → v.has_list_callback ≡ true
      → v.has_song_callback ≡ true
      → (serve_all respond is v).0
        ≡ record v { browser_calls = v.browser_calls ++ collect node_of is }
  serve_all-nodes [] v r s l g =
      ap (λ c. record v { browser_calls = c }) (sym (append-nil v.browser_calls))
  serve_all-nodes (i ∷ is) v r s l g =
      ap (λ w. (serve_all respond is w).0) (respond-node i v r s l g)
      ∙ serve_all-nodes is (record v { browser_calls = v.browser_calls ++ to_list (node_of i) }) r s
          l g
      ∙ ap (λ c. record v { browser_calls = c })
          (append_assoc v.browser_calls (to_list (node_of i)) (collect node_of is))
