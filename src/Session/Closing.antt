-- ===== src/Session/Closing.antt =====
-- The end of a session of core/src/session/Session.cpp: its terminal states, and what stops it.
use aa_v.Base.{◌≡◌, refl, ap, ◌∙◌, Bool, true, false, none, Bytes, if_elim}
use aa_v.Crypto.{CryptoStrategy}
use aa_v.Framer.{AapMessage}
use aa_v.Assembler.Keeps.{feed-keeps_message}
use aa_v.Service.{IService}
use aa_v.Session.{Session, SessionState, is_terminal, start_read, session_host}
use aa_v.Session.Handlers.{
  Event, is_handshake_state, on_state_timeout, dispatch_decrypted, on_read_complete, on_stop, step,
}
use aa_v.Session.Keeps.{Sends, deliver-keeps, host-Kept, run-keeps, on_command-keeps}
use aa_v.Session.Loose.{Loose, loose-Sends, fail-gives, written-keeps}

abbrev pub is_start : {V : Type 0} → Event V → Bool
is_start Event.start = true
is_start _ = false

-- A terminal state is not one of the handshake, and not `running`.
terminal-handshake : (st : SessionState) → is_terminal st ≡ true → is_handshake_state st ≡ false
unfolding is_terminal is_handshake_state
terminal-handshake SessionState.disconnected h = refl
terminal-handshake SessionState.error h = refl
terminal-handshake SessionState.idle h = absurd (cc)
terminal-handshake SessionState.version_exchange h = absurd (cc)
terminal-handshake SessionState.ssl_handshake h = absurd (cc)
terminal-handshake SessionState.running h = absurd (cc)
terminal-handshake SessionState.disconnecting h = absurd (cc)

module _ {C V : Type 0} (strategy : CryptoStrategy C) (service : IService V) (auth : Bytes) where
  module _ (st : SessionState) (over : is_terminal st ≡ true) where
    At : Session C V → Type 0
    At s = s.state ≡ st

    At-Loose : Loose {C = C} {V = V} At
    unfolding At
    At-Loose = record {
      emits = λ e s p. p;
      writes = λ q b s p. p;
      crypto = λ c s p. p;
      services = λ m s p. p;
      assembler = λ a s p. p;
    }

    At-Sends : Sends {C = C} service At
    unfolding At
    At-Sends =
        loose-Sends At At-Loose service
          (λ e s p. fail-gives At At-Loose service e s (λ t. p) (λ on. absurd (cc (on, p, over))))

    At-timeout :
        (st2 : SessionState) (s : Session C V)
        → is_terminal st2 ≡ true
        → At s
        → At (on_state_timeout strategy service auth st2 s)
    unfolding on_state_timeout is_terminal At
    At-timeout SessionState.disconnected s h p = p
    At-timeout SessionState.error s h p = p
    At-timeout SessionState.idle s h p = p
    At-timeout SessionState.running s h p = p
    At-timeout SessionState.version_exchange s h p = absurd (cc)
    At-timeout SessionState.ssl_handshake s h p = absurd (cc)
    At-timeout SessionState.disconnecting s h p = absurd (cc)

    At-dispatch :
        (m : AapMessage) (s : Session C V)
        → At s
        → At (dispatch_decrypted strategy service auth m s)
    unfolding At
    At-dispatch m s p =
        deliver-keeps strategy service auth At At-Sends m s p
          (ap is_handshake_state p ∙ terminal-handshake st over)

    At-start_read : (s : Session C V) → At s → At (start_read s)
    unfolding start_read At
    At-start_read s p = if_elim At (is_terminal s.state) s _ (λ t. p) (λ f. p)

    At-read :
        (bytes : Bytes) (s : Session C V)
        → At s
        → At (on_read_complete strategy service auth bytes s)
    unfolding on_read_complete At
    At-read bytes s p = At-start_read _ (
        feed-keeps_message strategy (session_host service) At
          (host-Kept strategy service auth At At-Sends) (dispatch_decrypted strategy service auth)
          At-dispatch s.assembler bytes s p)

    At-stop : (s : Session C V) → At s → At (on_stop strategy service auth s)
    unfolding on_stop At
    At-stop s p = if_elim At (is_terminal s.state) s _ (λ t. p) (λ on. absurd (cc (on, p, over)))

    step-At :
        (e : Event V) (s : Session C V)
        → is_start e ≡ false
        → At s
        → At (step strategy service auth e s)
    unfolding step At
    step-At Event.start s h p = absurd (cc)
    step-At Event.stop s h p = At-stop s p
    step-At Event.timeout s h p =
        At-timeout s.state (record s { timer = none }) (ap is_terminal p ∙ over) p
    step-At (Event.read_done bytes) s h p = At-read bytes s p
    step-At Event.read_aborted s h p = p
    step-At Event.read_failed s h p = At-Sends.error _ s p
    step-At Event.write_done s h p = written-keeps At At-Loose service s p
    step-At Event.write_aborted s h p = p
    step-At Event.write_failed s h p = At-Sends.error _ s p
    step-At (Event.command c) s h p = on_command-keeps strategy service auth At At-Sends c s p
    step-At (Event.call id program) s h p =
        run-keeps strategy service auth At At-Sends id program s p

  -- No event but a start moves a session out of a terminal state.
  pub step-terminal :
      (e : Event V) (s : Session C V)
      → is_start e ≡ false
      → is_terminal s.state ≡ true
      → (step strategy service auth e s).state ≡ s.state
  unfolding At
  step-terminal e s h over = step-At s.state over e s h refl
