-- ===== src/Services.antt =====
-- core/include/aauto/service/ServiceBase.hpp: how a channel's service takes messages and sends
-- them. And a service on its own, as its calls out.
pub mod Control
pub mod Media
pub mod News
pub mod Audio
pub mod Video
pub mod Playback
pub mod Phone
pub mod Sensor
pub mod Input
pub mod Bluetooth
pub mod Browser
pub mod Discovery
pub mod Any
use aa_v.Base.{ℕ, Option, none, some, List, [], ◌∷◌, Bytes, ◌==◌, if◌then◌else◌}
use aa_v.Protocol.{ControlMessageType, control_code}
use aa_v.Service.{Program}

-- What a service calls: `send_fn_` with channel, message type and payload, and the session close
-- callback.
pub data Call : Type 0 where
  sent : ℕ → ℕ → Bytes → Call
  stop_requested : Call

-- A method run on a service's fields: the fields after it, and its calls in order.
unfoldable pub exec : {V : Type 0} → Program V → V → V × List Call
exec Program.done v = (v, [])
exec (Program.get k) v = exec (k v) v
exec (Program.put w rest) v = exec rest w
exec (Program.send channel_id message_type payload rest) v =
    let (w, calls) = exec rest v in (w, Call.sent channel_id message_type payload ∷ calls)
exec (Program.request_stop rest) v =
    let (w, calls) = exec rest v in (w, Call.stop_requested ∷ calls)

-- `channel_id_` of a service's fields.
module _ {V : Type 0} (channel_of : V → ℕ) where
  -- `send`, and what follows it
  unfoldable pub send : ControlMessageType → Bytes → Program V → Program V
  send message_type payload rest =
      Program.get (λ v. Program.send (channel_of v) (control_code message_type) payload rest)

  -- A registered handler, by the message type.
  unfoldable pub handle : Option (Bytes → Program V) → Bytes → Program V
  handle none payload = Program.done
  handle (some handler) payload = handler payload

  -- The response goes out before `on_channel_open` runs.
  unfoldable pub on_message :
      (ℕ → Program V) → (ℕ → Option (Bytes → Program V)) → ℕ → Bytes → Program V
  unfolding send handle
  on_message on_channel_open handlers message_type payload =
      if message_type == control_code ControlMessageType.channel_open_request
      then send ControlMessageType.channel_open_response (8 ∷ 0 ∷ [])
          (Program.get (λ v. on_channel_open (channel_of v)))
      else handle (handlers message_type) payload
