-- ===== src/Session/Handlers.antt =====
-- The handlers of core/src/session/Session.cpp: sending, the handshake, dispatch to services, and
-- what runs on the strand.
use aa_v.Base.{ℕ, Bool, true, false, Option, none, some, List, [], ◌∷◌, Bytes, ◌==◌, if◌then◌else◌}
use aa_v.Base.Assoc.{Assoc, find, insert}
use aa_v.Protocol.{AapErrc, ControlMessageType, control_code, control_channel_id}
use aa_v.Crypto.{CryptoStrategy}
use aa_v.Framer.{AapMessage}
use aa_v.Assembler
use aa_v.Encoder
use aa_v.Handshake
use aa_v.Service.{IService, Program, ServiceType}
use aa_v.Session.{
  SessionState, Session, Effect, is_terminal, emit, do_write_next, enqueue_write, transition_to,
  start_state_timer, start_read, complete_disconnect, handle_error, session_host,
}

-- What the strand runs: the jobs that `start` and `stop` post, the completions of reads and writes
-- (`aborted` is `operation_aborted`, and `failed` any other error), and the timer when it was not
-- cancelled. A `command` is a call of the engine, and a `call` a service's own timer.
pub data Command : Type 0 where
  set_video_surface : ℕ → Command
  set_video_focus : Bool → Command
  attach_all_sinks detach_all_sinks : Command
  send_touch_event : ℕ → ℕ → ℕ → Command
  send_media_key : ℕ → Command
  release_audio_focus gain_audio_focus : Command
  complete_pairing : ℕ → Bool → Command
  complete_auth : ℕ → Command

pub data Event (V : Type 0) : Type 0 where
  start stop timeout : Event V
  read_done : Bytes → Event V
  read_aborted read_failed : Event V
  write_done write_aborted write_failed : Event V
  command : Command → Event V
  call : ℕ → Program V → Event V

-- `services_`, in the order of its keys.
abbrev pub channels {ℓ} : {V : Type ℓ} → Assoc V → List ℕ
channels [] = []
channels ((id, v) ∷ services) = id ∷ channels services

-- `write_queue_.pop()`
abbrev pub popped {ℓ} : {A : Type ℓ} → List A → List A
popped [] = []
popped (front ∷ rest) = rest

unfoldable pub is_handshake_state : SessionState → Bool
is_handshake_state SessionState.version_exchange = true
is_handshake_state SessionState.ssl_handshake = true
is_handshake_state _ = false

unfoldable pub is_running : SessionState → Bool
is_running SessionState.running = true
is_running _ = false

unfoldable pub is_bluetooth : ServiceType → Bool
is_bluetooth ServiceType.bluetooth_service = true
is_bluetooth _ = false

-- The channel of the first Bluetooth service, in the order of the keys.
unfoldable pub find_bluetooth_service {ℓ} : {V : Type ℓ} → (V → ServiceType) → Assoc V → Option ℕ
unfolding is_bluetooth
find_bluetooth_service type [] = none
find_bluetooth_service type ((id, v) ∷ services) =
    if is_bluetooth (type v) then some id else find_bluetooth_service type services

-- `serialized_auth` is the AuthResponse with status 0, which generated code serializes.
module _ {C V : Type 0} (strategy : CryptoStrategy C) (service : IService V)
    (serialized_auth : Bytes) where
  unfoldable pub send_message : ℕ → ℕ → Bytes → Session C V → Session C V
  send_message = Encoder.send_message strategy (session_host service) enqueue_write

  -- A method of the service on a channel.
  unfoldable pub run : ℕ → Program V → Session C V → Session C V
  run id Program.done s = s
  run id (Program.get k) s = elim (find id s.services) [ none ↦ s | some v ↦ run id (k v) s ]
  run id (Program.put v rest) s = run id rest (record s { services = insert id v s.services })
  run id (Program.send channel_id message_type payload rest) s =
      run id rest (send_message channel_id message_type payload s)
  run id (Program.request_stop rest) s = run id rest (emit Effect.post_stop s)

  -- `for (auto& [ch, svc] : services_)`
  unfoldable pub for_each : Program V → List ℕ → Session C V → Session C V
  for_each program [] s = s
  for_each program (id ∷ ids) s = for_each program ids (run id program s)

  unfoldable pub on_ssl_complete : Session C V → Session C V
  on_ssl_complete s = transition_to SessionState.running (
      Encoder.send_plaintext_control_message strategy (session_host service) enqueue_write
        (control_code ControlMessageType.auth_complete) serialized_auth s)

  unfoldable pub on_version_response : Bytes → Session C V → Session C V
  on_version_response payload s =
      Handshake.on_version_response strategy (session_host service)
        (send_message control_channel_id) on_ssl_complete payload
        (start_state_timer s.config.ssl_handshake_timeout_ms
          (transition_to SessionState.ssl_handshake s))

  unfoldable pub handle_handshake_message : ℕ → Bytes → Session C V → Session C V
  handle_handshake_message msg_type payload s =
      if msg_type == control_code ControlMessageType.version_response
      then on_version_response payload s
      else if msg_type == control_code ControlMessageType.encapsulated_ssl
      then Handshake.on_ssl_data_received strategy (session_host service)
          (send_message control_channel_id) on_ssl_complete payload s
      else s

  unfoldable pub dispatch_decrypted : AapMessage → Session C V → Session C V
  dispatch_decrypted message s =
      if is_handshake_state s.state
      then handle_handshake_message message.message_type message.payload s
      else elim (find message.channel_id s.services) [
        | none ↦ s
        | some v ↦
            run message.channel_id (service.on_message message.message_type message.payload) s
      ]

  unfoldable pub on_read_complete : Bytes → Session C V → Session C V
  on_read_complete bytes s =
      let (assembler, after) =
        Assembler.feed strategy (session_host service) s.assembler bytes (some dispatch_decrypted)
          s in
      start_read (record after { assembler = assembler })

  unfoldable pub begin_version_exchange : Session C V → Session C V
  begin_version_exchange s =
      send_message control_channel_id (control_code ControlMessageType.version_request)
        (0 ∷ 1 ∷ 0 ∷ 1 ∷ [])
        (start_read (
          start_state_timer s.config.version_exchange_timeout_ms
            (transition_to SessionState.version_exchange s)))

  unfoldable pub begin_disconnect : Session C V → Session C V
  begin_disconnect s =
      let waiting =
        start_state_timer s.config.byebye_timeout_ms (transition_to SessionState.disconnecting s) in
      elim (find control_channel_id s.services) [
        | none ↦ complete_disconnect waiting
        | some v ↦ for_each service.on_session_stop (channels s.services) waiting
      ]

  unfoldable pub on_stop : Session C V → Session C V
  on_stop s =
      if is_terminal s.state
      then s
      else if is_running s.state
      then begin_disconnect s
      else handle_error service AapErrc.session_terminated s

  unfoldable pub on_state_timeout : SessionState → Session C V → Session C V
  on_state_timeout SessionState.version_exchange s = handle_error service AapErrc.version_mismatch s
  on_state_timeout SessionState.ssl_handshake s =
      handle_error service AapErrc.ssl_handshake_failed s
  on_state_timeout SessionState.disconnecting s = complete_disconnect s
  on_state_timeout _ s = s

  -- A call of the Bluetooth service, if there is one.
  unfoldable pub with_bluetooth : Program V → Session C V → Session C V
  with_bluetooth program s = elim (find_bluetooth_service service.type s.services) [
    | none ↦ s
    | some id ↦ run id program s
  ]

  unfoldable pub broadcast : Program V → Session C V → Session C V
  broadcast program s = for_each program (channels s.services) s

  unfoldable pub on_command : Command → Session C V → Session C V
  unfolding with_bluetooth broadcast
  on_command (Command.set_video_surface w) s = broadcast (service.set_native_window w) s
  on_command (Command.set_video_focus projected) s = broadcast (service.set_video_focus projected) s
  on_command Command.attach_all_sinks s = broadcast service.attach_sinks s
  on_command Command.detach_all_sinks s = broadcast service.detach_sinks s
  on_command (Command.send_touch_event x y action) s = broadcast (service.send_touch x y action) s
  on_command (Command.send_media_key keycode) s = broadcast (service.send_media_key keycode) s
  on_command Command.release_audio_focus s = broadcast service.release_audio_focus s
  on_command Command.gain_audio_focus s = broadcast service.gain_audio_focus s
  on_command (Command.complete_pairing status paired) s =
      with_bluetooth (service.send_pairing_response status paired) s
  on_command (Command.complete_auth status) s = with_bluetooth (service.send_auth_result status) s

  unfoldable pub step : Event V → Session C V → Session C V
  step Event.start s = begin_version_exchange s
  step Event.stop s = on_stop s
  step Event.timeout s = on_state_timeout s.state (record s { timer = none })
  step (Event.read_done bytes) s = on_read_complete bytes s
  step Event.read_aborted s = s
  step Event.read_failed s = handle_error service AapErrc.transport_read_error s
  step Event.write_done s = do_write_next (record s { write_queue = popped s.write_queue })
  step Event.write_aborted s = s
  step Event.write_failed s = handle_error service AapErrc.transport_write_error s
  step (Event.command c) s = on_command c s
  step (Event.call id program) s = run id program s
