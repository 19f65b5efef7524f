-- ===== src/Services/Phone/Log.antt =====
-- A run of core/src/service/PhoneStatusService.cpp: its log lines and its callbacks.
use mathlib.Core.Path.{subst}
use mathlib.Core.List.{map-append}
use aa_v.Base.{
  ℕ, ◌≡◌, refl, sym, ap, ap₂, ◌∙◌, Bool, true, false, not, ◌||◌, Option, none, some, List, [], ◌∷◌,
  ◌++◌, map, Bytes, length, ◌==◌, append-nil, append_assoc, arith, if◌then◌else◌,
}
use aa_v.Base.Equal.{same_bytes, same_bytes→≡}
use aa_v.Services
use aa_v.Services.{Call, exec, handle}
use aa_v.Services.Media.{serve_all}
use aa_v.Services.News.{is_news, news, to_list, last_of, collect, news-append, heard}
use aa_v.Services.Phone.{
  PhoneCall, PhoneStatus, PhoneStatusService, phone_status, create, on_channel_open, signal_of,
  first_state, first_number, has_changed, on_status, handlers, on_phone_message,
}

-- Two statuses with the same number of calls, the same state and number of the first call, and the
-- same signal.
abbrev pub same_calls : PhoneStatus → PhoneStatus → Bool
same_calls a b = not (
    not (length a.calls == length b.calls)
    || not (first_state a.calls == first_state b.calls)
    || not (same_bytes (first_number a.calls) (first_number b.calls))
    || not (signal_of a.signal_strength == signal_of b.signal_strength))

-- What the callback is given of a status.
abbrev pub reported : PhoneStatus → List PhoneCall × ℕ
reported msg = (msg.calls, signal_of msg.signal_strength)

abbrev Remembers : Option PhoneStatus → PhoneStatusService → Type 0
Remembers none v = v.last_seen ≡ false
Remembers (some msg) v =
    (v.last_seen ≡ true)
    × (v.last_call_count ≡ length msg.calls)
    × (v.last_first_state ≡ first_state msg.calls)
    × (v.last_first_number ≡ first_number msg.calls)
    × (v.last_signal ≡ signal_of msg.signal_strength)

changed-news :
    (previous : Option PhoneStatus) (msg : PhoneStatus) (v : PhoneStatusService)
    → Remembers previous v
    → has_changed msg v ≡ is_news same_calls previous msg
changed-news none msg v p = ground (arith, p)
changed-news (some previous) msg v p = rw (p.0, p.1, p.2, p.3, p.4) (ground arith)

unchanged-Remembers :
    (msg : PhoneStatus) (v : PhoneStatusService)
    → has_changed msg v ≡ false
    → Remembers (some msg) v
unchanged-Remembers msg v e =
    ground (arith, e, same_bytes→≡ (first_number msg.calls) v.last_first_number)

abbrev Told :
    Option PhoneStatus → Option PhoneStatus → PhoneStatusService → PhoneStatusService → Type 0
Told previous parsed v w =
    Remembers (last_of previous parsed) w
    × (w.status_lines ≡ v.status_lines ++ news same_calls previous (to_list parsed))
    × (w.status_calls
        ≡ v.status_calls ++ (if v.has_status_callback then map reported (to_list parsed) else []))
    × (w.has_status_callback ≡ v.has_status_callback)

status-Told :
    (previous parsed : Option PhoneStatus) (v : PhoneStatusService)
    → Remembers previous v
    → Told previous parsed v (on_status parsed v)
unfolding on_status
status-Told previous none v p =
    ground (arith, p, append-nil v.status_calls, append-nil v.status_lines)
status-Told previous (some msg) v p = ground (
  arith,
  changed-news previous msg v p,
  unchanged-Remembers msg v,
  append-nil v.status_calls,
  append-nil v.status_lines,
)

module _ (parse : Bytes → Option PhoneStatus) where
  -- A message of the channel: its type and its payload.
  abbrev pub respond : ℕ × Bytes → PhoneStatusService → PhoneStatusService × List Call
  respond (t, payload) v = exec (on_phone_message parse t payload) v

  abbrev pub parsed_status : ℕ × Bytes → Option PhoneStatus
  parsed_status (t, payload) = if t == phone_status then parse payload else none

  respond-fields :
      (i : ℕ × Bytes) (v : PhoneStatusService) → (respond i v).0 ≡ on_status (parsed_status i) v
  unfolding on_phone_message Services.on_message Services.send handlers handle on_channel_open
      on_status exec
  respond-fields (t, payload) v = ground arith

  run_lem :
      (is : List (ℕ × Bytes)) (previous : Option PhoneStatus) (v : PhoneStatusService)
      → Remembers previous v
      → let w = (serve_all respond is v).0 in
        (w.status_lines ≡ v.status_lines ++ news same_calls previous (collect parsed_status is))
        × (w.status_calls
            ≡ v.status_calls
              ++ (if v.has_status_callback then map reported (collect parsed_status is) else []))
  run_lem [] previous v p = ground (arith, append-nil v.status_calls, append-nil v.status_lines)
  run_lem (i ∷ is) previous v p =
      let w = (respond i v).0 in
      let (remembers, lines, calls, has) =
        subst (λ w. Told previous (parsed_status i) v w) (sym (respond-fields i v))
          (status-Told previous (parsed_status i) v p) in
      let (lines', calls') = run_lem is (last_of previous (parsed_status i)) w remembers in
      (
        lines'
            ∙ ap
                (λ l.
                  l
                  ++ news same_calls (last_of previous (parsed_status i))
                      (collect parsed_status is))
                lines
            ∙ append_assoc v.status_lines (news same_calls previous (to_list (parsed_status i)))
                (news same_calls (last_of previous (parsed_status i)) (collect parsed_status is))
            ∙ ap (λ l. v.status_lines ++ l)
                (news-append same_calls previous (parsed_status i) (collect parsed_status is)),
        calls'
            ∙ ap₂ (λ c b. c ++ (if b then map reported (collect parsed_status is) else [])) calls
                has
            ∙ heard v.has_status_callback v.status_calls (map reported (to_list (parsed_status i)))
                (map reported (collect parsed_status is))
            ∙ ap (λ l. v.status_calls ++ (if v.has_status_callback then l else []))
                (sym (map-append reported (to_list (parsed_status i)) (collect parsed_status is))),
      )

  -- A new phone status service, whatever messages it gets: its log shows the statuses that it could
  -- parse and that differ from the status before in the number of calls, the state or number of the
  -- first call, or the signal, the first status included, each once and in order; and the callback,
  -- if it is set, gets the calls and the signal (-1 where there is none) of every status that it
  -- could parse, in order.
  pub serve_all-calls :
      (is : List (ℕ × Bytes)) (has_status_callback : Bool)
      → let w = (serve_all respond is (create has_status_callback)).0 in
        (w.status_lines ≡ news same_calls none (collect parsed_status is))
        × (w.status_calls
            ≡ (if has_status_callback then map reported (collect parsed_status is) else []))
  serve_all-calls is has_status_callback = run_lem is none (create has_status_callback) refl
