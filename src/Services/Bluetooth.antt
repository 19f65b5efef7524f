-- ===== src/Services/Bluetooth.antt =====
-- core/include/aauto/service/BluetoothService.hpp and core/src/service/BluetoothService.cpp:
-- pairing, which the application answers.
use aa_v.Base.{ℕ, Bool, Option, none, some, List, [], ◌∷◌, ◌++◌, Bytes, ◌==◌, if◌then◌else◌}
use aa_v.Service.{Program}
use aa_v.Services
use aa_v.Services.Media.{update}

-- A call of a callback: a phone's address with its pairing method, or data with the method it is
-- for. A method is the bit pattern of its `int32_t`.
pub data PairingCall : Type 0 where
  pairing_requested auth_data_received : Bytes → ℕ → PairingCall

-- What generated code reads and writes; authentication data may lack its method.
pub record BluetoothMessages : Type 0 where
  pub parse_pairing_request : Bytes → Option (Bytes × ℕ)
  pub parse_authentication_data : Bytes → Option (Bytes × Option ℕ)
  pub serialize_pairing_response : ℕ → Bool → Bytes
  pub serialize_authentication_result : ℕ → Bytes

pub record BluetoothService : Type 0 where
  pub channel_id : ℕ
  pub has_pairing_callback : Bool
  pub has_auth_callback : Bool
  pub pairing_calls : List PairingCall

-- The generated message ids.
abbrev pub pairing_request : ℕ
pairing_request = 32769

abbrev pub pairing_response : ℕ
pairing_response = 32770

abbrev pub authentication_data : ℕ
authentication_data = 32771

abbrev pub authentication_result : ℕ
authentication_result = 32772

-- -1, PairingMethod::Unavailable
abbrev pub unavailable : ℕ
unavailable = 4294967295

abbrev pub method_or_unavailable : Option ℕ → ℕ
method_or_unavailable none = unavailable
method_or_unavailable (some method) = method

abbrev pub channel_of : BluetoothService → ℕ
channel_of v = v.channel_id

unfoldable pub on_channel_open : ℕ → Program BluetoothService
on_channel_open channel_id = update (λ v. record v { channel_id = channel_id })

abbrev pub call_back : Bool → PairingCall → BluetoothService → BluetoothService
call_back is_set call v =
    if is_set then record v { pairing_calls = v.pairing_calls ++ call ∷ [] } else v

unfoldable pub on_pairing_request : Option (Bytes × ℕ) → BluetoothService → BluetoothService
on_pairing_request none v = v
on_pairing_request (some (phone_address, method)) v =
    call_back v.has_pairing_callback (PairingCall.pairing_requested phone_address method) v

unfoldable pub on_authentication_data :
    Option (Bytes × Option ℕ) → BluetoothService → BluetoothService
on_authentication_data none v = v
on_authentication_data (some (auth_data, method)) v =
    call_back v.has_auth_callback
      (PairingCall.auth_data_received auth_data (method_or_unavailable method)) v

module _ (messages : BluetoothMessages) where
  unfoldable pub send_pairing_response : ℕ → Bool → Program BluetoothService
  send_pairing_response status already_paired = Program.get (λ v.
      Program.send (channel_of v) pairing_response
        (messages.serialize_pairing_response status already_paired) Program.done)

  unfoldable pub send_auth_result : ℕ → Program BluetoothService
  send_auth_result status = Program.get (λ v.
      Program.send (channel_of v) authentication_result
        (messages.serialize_authentication_result status) Program.done)

  unfoldable pub handlers : ℕ → Option (Bytes → Program BluetoothService)
  unfolding on_pairing_request on_authentication_data
  handlers t =
      if t == pairing_request
      then some (λ payload. update (on_pairing_request (messages.parse_pairing_request payload)))
      else if t == authentication_data
      then some
          (λ payload. update (on_authentication_data (messages.parse_authentication_data payload)))
      else none

  unfoldable pub on_bluetooth_message : ℕ → Bytes → Program BluetoothService
  unfolding on_channel_open handlers
  on_bluetooth_message message_type payload =
      Services.on_message channel_of on_channel_open handlers message_type payload
