-- ===== src/Services/Phone.antt =====
-- core/include/aauto/service/PhoneStatusService.hpp and core/src/service/PhoneStatusService.cpp:
-- the phone's calls, handed to the application, and logged when they change.
pub mod Log
use aa_v.Base.{
  ℕ, Bool, true, false, not, ◌||◌, Option, none, some, List, [], ◌∷◌, ◌++◌, Bytes, length, ◌==◌,
  if◌then◌else◌,
}
use aa_v.Base.Equal.{same_bytes}
use aa_v.Service.{Program}
use aa_v.Services
use aa_v.Services.Media.{update}

-- An entry of the generated message, and of the callback's list.
pub record PhoneCall : Type 0 where
  pub state : ℕ
  pub duration_seconds : ℕ
  pub number : Bytes
  pub caller_id : Bytes
  pub number_type : Bytes
  pub thumbnail : Bytes

-- The generated message; an `int32_t` is its bit pattern.
pub record PhoneStatus : Type 0 where
  pub calls : List PhoneCall
  pub signal_strength : Option ℕ

-- -1 and -2 as an `int32_t`
abbrev pub minus_one : ℕ
minus_one = 4294967295

abbrev pub minus_two : ℕ
minus_two = 4294967294

-- The fields, the PHONE_STATUS lines of the log by the message they show, and the callback's calls.
pub record PhoneStatusService : Type 0 where
  pub channel_id : ℕ
  pub has_status_callback : Bool
  pub last_seen : Bool
  pub last_call_count : ℕ
  pub last_first_state : ℕ
  pub last_first_number : Bytes
  pub last_signal : ℕ
  pub status_lines : List PhoneStatus
  pub status_calls : List (List PhoneCall × ℕ)

-- The generated message id.
abbrev pub phone_status : ℕ
phone_status = 32769

abbrev pub create : Bool → PhoneStatusService
create has_status_callback = record {
  channel_id = 0;
  has_status_callback = has_status_callback;
  last_seen = false;
  last_call_count = 0;
  last_first_state = minus_one;
  last_first_number = [];
  last_signal = minus_two;
  status_lines = [];
  status_calls = [];
}

abbrev pub channel_of : PhoneStatusService → ℕ
channel_of v = v.channel_id

unfoldable pub on_channel_open : ℕ → Program PhoneStatusService
on_channel_open channel_id = update (λ v. record v { channel_id = channel_id })

abbrev pub signal_of : Option ℕ → ℕ
signal_of none = minus_one
signal_of (some strength) = strength

abbrev pub first_state : List PhoneCall → ℕ
first_state [] = minus_one
first_state (c ∷ cs) = c.state

abbrev pub first_number : List PhoneCall → Bytes
first_number [] = []
first_number (c ∷ cs) = c.number

abbrev pub has_changed : PhoneStatus → PhoneStatusService → Bool
has_changed msg v =
    not v.last_seen
    || not (length msg.calls == v.last_call_count)
    || not (first_state msg.calls == v.last_first_state)
    || not (same_bytes (first_number msg.calls) v.last_first_number)
    || not (signal_of msg.signal_strength == v.last_signal)

abbrev pub log_status : PhoneStatus → PhoneStatusService → PhoneStatusService
log_status msg v = record v {
  status_lines = v.status_lines ++ msg ∷ [];
  last_seen = true;
  last_call_count = length msg.calls;
  last_first_state = first_state msg.calls;
  last_first_number = first_number msg.calls;
  last_signal = signal_of msg.signal_strength;
}

abbrev pub call_status : PhoneStatus → PhoneStatusService → PhoneStatusService
call_status msg v =
    if v.has_status_callback
    then record v {
      status_calls = v.status_calls ++ (msg.calls, signal_of msg.signal_strength) ∷ [];
    }
    else v

unfoldable pub on_status : Option PhoneStatus → PhoneStatusService → PhoneStatusService
on_status none v = v
on_status (some msg) v = call_status msg (if has_changed msg v then log_status msg v else v)

-- `parse` is what generated code reads.
module _ (parse : Bytes → Option PhoneStatus) where
  unfoldable pub handlers : ℕ → Option (Bytes → Program PhoneStatusService)
  unfolding on_status
  handlers t =
      if t == phone_status then some (λ payload. update (on_status (parse payload))) else none

  unfoldable pub on_phone_message : ℕ → Bytes → Program PhoneStatusService
  unfolding on_channel_open handlers
  on_phone_message message_type payload =
      Services.on_message channel_of on_channel_open handlers message_type payload
