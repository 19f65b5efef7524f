-- ===== src/Session/Apart.antt =====
-- core/src/session/Session.cpp with several services: what the messages of all channels, in the
-- order in which they come, do to each of them and to the session.
use mathlib.Core.Path.{subst, fun_ext}
use aa_v.Base.{
  ℕ, ◌≡◌, refl, sym, ap, ◌∙◌, false, Option, none, some, List, [], ◌∷◌, ◌++◌, Bytes, ◌==◌,
  if◌then◌else◌, Bool-cases, Option-cases, inl, inr, ==_iff,
}
use aa_v.Base.Assoc.{find}
use aa_v.Crypto.{CryptoStrategy}
use aa_v.Framer.{AapMessage}
use aa_v.Service.{IService}
use aa_v.Services.{Call, exec}
use aa_v.Services.Media.{serve_all}
use aa_v.Session.{Session}
use aa_v.Session.Handlers.{is_handshake_state, dispatch_decrypted}
use aa_v.Session.Sending.{CanSeal, over, deliver, deliver-Blind}
use aa_v.Session.Serving.{Served, run-Served}

-- The messages of one channel.
abbrev pub for_channel : ℕ → List AapMessage → List AapMessage
for_channel id [] = []
for_channel id (m ∷ ms) = if m.channel_id == id then m ∷ for_channel id ms else for_channel id ms

module _ {V : Type 0} (service : IService V) where
  -- A service's answer to a message.
  abbrev pub answer : AapMessage → V → V × List Call
  answer m v = exec (service.on_message m.message_type m.payload) v

  -- Services without a session, by their channels: each message goes to the service of its channel,
  -- if there is one.
  unfoldable pub answers : List AapMessage → (ℕ → Option V) → (ℕ → Option V) × List Call
  answers [] env = (env, [])
  answers (m ∷ ms) env = elim (env m.channel_id) [
    | none ↦ answers ms env
    | some v ↦
        let (w, calls) = answer m v in
        let (after, more) = answers ms (λ i. if m.channel_id == i then some w else env i) in
        (after, calls ++ more)
  ]

  -- Each of them is as if only its own messages had come.
  pub answers-apart :
      (id : ℕ) (ms : List AapMessage) (env : ℕ → Option V) (v : V)
      → env id ≡ some v
      → (answers ms env).0 id ≡ some (serve_all answer (for_channel id ms) v).0
  unfolding answers
  answers-apart id [] env v h = h
  answers-apart id (m ∷ ms) env v h = elim (Bool-cases (m.channel_id == id)) [
    | inl own ↦
        let found = ap env ((==_iff m.channel_id id).0 own) ∙ h in
        rw (found, answers, own)
          (answers-apart id ms (λ i. if m.channel_id == i then some (answer m v).0 else env i)
            (answer m v).0 (rw own refl))
    | inr other ↦ elim (Option-cases (env m.channel_id)) [
      | inl missing ↦ rw (missing, answers, other) (answers-apart id ms env v h)
      | inr (u, found) ↦
          rw (found, answers, other)
            (answers-apart id ms (λ i. if m.channel_id == i then some (answer m u).0 else env i) v
              (rw other h))
    ]
  ]

module _ {C V : Type 0} (strategy : CryptoStrategy C) (service : IService V)
    (serialized_auth : Bytes) where
  unfoldable pub dispatch_all : List AapMessage → Session C V → Session C V
  dispatch_all [] s = s
  dispatch_all (m ∷ ms) s =
      dispatch_all ms (dispatch_decrypted strategy service serialized_auth m s)

  deliver-append :
      (xs ys : List Call) (s : Session C V)
      → deliver strategy service serialized_auth (xs ++ ys) s
        ≡ deliver strategy service serialized_auth ys
            (deliver strategy service serialized_auth xs s)
  unfolding deliver
  deliver-append [] ys s = refl
  deliver-append (Call.sent id message_type payload ∷ xs) ys s = deliver-append xs ys _
  deliver-append (Call.stop_requested ∷ xs) ys s = deliver-append xs ys _

  module _ (Ready : C → Type 0) (sealing : CanSeal strategy Ready) where
    dispatch-Served :
        (m : AapMessage) (v : V) (s : Session C V)
        → is_handshake_state s.state ≡ false
        → find m.channel_id s.services ≡ some v
        → Ready s.crypto
        → Served strategy service serialized_auth Ready sealing m.channel_id
            (answer service m v)
            s
            (dispatch_decrypted strategy service serialized_auth m s)
    unfolding dispatch_decrypted
    dispatch-Served m v s over found r =
        rw (over, found)
          (run-Served strategy service serialized_auth Ready sealing m.channel_id
            (service.on_message m.message_type m.payload) v s found r)

    dispatch-missing :
        (m : AapMessage) (s : Session C V)
        → is_handshake_state s.state ≡ false
        → find m.channel_id s.services ≡ none
        → dispatch_decrypted strategy service serialized_auth m s ≡ s
    unfolding dispatch_decrypted
    dispatch-missing m s over missing = rw (over, missing) refl

    -- The session after messages that were answered in this way.
    abbrev pub Answered : (ℕ → Option V) × List Call → Session C V → Session C V → Type 0
    Answered (env, calls) s t =
        ((i : ℕ) → find i t.services ≡ env i)
        × (record t { services = s.services } ≡ deliver strategy service serialized_auth calls s)

    Answered-next :
        (id : ℕ) (outcome : V × List Call) (rest : (ℕ → Option V) × List Call) (s t u : Session C V)
        → Served strategy service serialized_auth Ready sealing id outcome s t
        → Answered rest t u
        → Answered (rest.0, outcome.1 ++ rest.1) s u
    Answered-next id outcome rest s t u (fields, calls, ready) (env, more) =
        let (same, still) =
          deliver-Blind strategy service serialized_auth Ready sealing rest.1 t ready in
        let back = λ (x : Session C V). record x { services = s.services } in
        (
          env,
          ap back more
              ∙ ap back (same t.services t.state)
              ∙ sym (same s.services t.state)
              ∙ ap (deliver strategy service serialized_auth rest.1) calls
              ∙ sym (deliver-append outcome.1 rest.1 s),
        )

    Served-state :
        (id : ℕ) (outcome : V × List Call) (s t : Session C V)
        → Ready s.crypto
        → Served strategy service serialized_auth Ready sealing id outcome s t
        → t.state ≡ s.state
    Served-state id outcome s t r (fields, calls, ready) =
        let (same, still) =
          deliver-Blind strategy service serialized_auth Ready sealing outcome.1 s r in
        let state = λ (x : Session C V). x.state in
        ap state calls ∙ ap state (same s.services s.state)

    -- A session whose handshake is over and whose strategy can seal does with any messages what its
    -- services do without a session: they end up with the same fields, and the session as it is
    -- after their calls in the same order.
    pub dispatch_all-Answered :
        (ms : List AapMessage) (s : Session C V)
        → is_handshake_state s.state ≡ false
        → Ready s.crypto
        → Answered (answers service ms (λ i. find i s.services)) s (dispatch_all ms s)
    unfolding dispatch_all answers deliver
    dispatch_all-Answered [] s past r = (λ i. refl, refl)
    dispatch_all-Answered (m ∷ ms) s past r = elim (Option-cases (find m.channel_id s.services)) [
      | inl missing ↦
          rw (missing, answers)
            (subst
              (λ (u : Session C V).
                Answered (answers service ms (λ i. find i s.services)) s (dispatch_all ms u))
              (sym (dispatch-missing m s past missing)) (dispatch_all-Answered ms s past r))
      | inr (v, found) ↦
          let served = dispatch-Served m v s past found r in
          let t = dispatch_decrypted strategy service serialized_auth m s in
          let same_state = Served-state m.channel_id (answer service m v) s t r served in
          let after =
            dispatch_all-Answered ms t (ap is_handshake_state same_state ∙ past) served.2 in
          rw (found, answers)
            (Answered-next m.channel_id (answer service m v) _ s t (dispatch_all ms t) served (
              subst (λ env. Answered (answers service ms env) t (dispatch_all ms t))
                (fun_ext served.0) after))
    ]

    -- In a session whose handshake is over and whose strategy can seal, whatever messages come on
    -- all channels, a service ends up as it does on its own with the messages of its channel, and
    -- the session, but for the services, as it does by the calls that the services make without a
    -- session, each in its turn.
    pub dispatch_all-apart :
        (ms : List AapMessage) (s : Session C V) (id : ℕ) (v : V)
        → is_handshake_state s.state ≡ false
        → Ready s.crypto
        → find id s.services ≡ some v
        → (find id (dispatch_all ms s).services
            ≡ some (serve_all (answer service) (for_channel id ms) v).0)
          × (record (dispatch_all ms s) { services = s.services }
              ≡ deliver strategy service serialized_auth
                  (answers service ms (λ i. find i s.services)).1
                  s)
    dispatch_all-apart ms s id v past r found =
        let (env, calls) = dispatch_all-Answered ms s past r in
        (env id ∙ answers-apart service id ms (λ i. find i s.services) v found, calls)
