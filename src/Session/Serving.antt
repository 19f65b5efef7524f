-- ===== src/Session/Serving.antt =====
-- core/src/session/Session.cpp with a service on a channel: in its session a service does what it
-- does on its own.
use aa_v.Base.{
  ℕ, ◌≡◌, refl, sym, ap, ◌∙◌, some, List, ◌∷◌, Bytes, ◌==◌, if◌then◌else◌, Bool-cases, inl, inr,
  ==_iff,
}
use aa_v.Base.Assoc.{Assoc, find, insert, find-insert, find-insert_self}
use aa_v.Crypto.{CryptoStrategy}
use aa_v.Service.{IService, Program}
use aa_v.Services.{Call, exec}
use aa_v.Session.{Session, Effect, emit}
use aa_v.Session.Handlers.{send_message, run}
use aa_v.Session.Sending.{CanSeal, send-Blind, deliver, deliver-Blind}

module _ {C V : Type 0} (strategy : CryptoStrategy C) (service : IService V)
    (serialized_auth : Bytes) (Ready : C → Type 0) (sealing : CanSeal strategy Ready) where
  -- The session after a method of the service on a channel, which ended with the fields `w` and
  -- made these calls.
  abbrev pub Served : ℕ → V × List Call → Session C V → Session C V → Type 0
  Served id (w, calls) s t =
      ((i : ℕ) → find i t.services ≡ (if id == i then some w else find i s.services))
      × (record t { services = s.services } ≡ deliver strategy service serialized_auth calls s)
      × Ready t.crypto

  found_self :
      (id i : ℕ) (v : V) (m : Assoc V)
      → find id m ≡ some v
      → find i m ≡ (if id == i then some v else find i m)
  found_self id i v m h = elim (Bool-cases (id == i)) [
    | inl e ↦ rw e (ap (λ j. find j m) (sym ((==_iff id i).0 e)) ∙ h)
    | inr e ↦ rw e refl
  ]

  Served-put :
      (id : ℕ) (w : V) (outcome : V × List Call) (s t : Session C V)
      → Ready s.crypto
      → Served id outcome (record s { services = insert id w s.services }) t
      → Served id outcome s t
  Served-put id w outcome s t r (fields, calls, ready) =
      let (same, sent) =
        deliver-Blind strategy service serialized_auth Ready sealing outcome.1 s r in
      let back = λ (u : Session C V). record u { services = s.services } in
      (
        λ i. fields i ∙ elim (Bool-cases (id == i)) [
          | inl e ↦ rw e refl
          | inr e ↦ rw (e, find-insert id i w s.services, e) refl
        ],
        ap back calls
            ∙ ap back (same (insert id w s.services) s.state)
            ∙ sym (same s.services s.state),
        ready,
      )

  Served-sent :
      (id : ℕ) (outcome : V × List Call) (channel_id message_type : ℕ) (payload : Bytes)
      (s t : Session C V)
      → Ready s.crypto
      → Served id outcome
          (send_message strategy service serialized_auth channel_id message_type payload s)
          t
      → Served id (outcome.0, Call.sent channel_id message_type payload ∷ outcome.1) s t
  unfolding deliver
  Served-sent id outcome channel_id message_type payload s t r (fields, calls, ready) =
      let (same, sent) =
        send-Blind strategy service serialized_auth Ready sealing channel_id message_type payload s
          r in
      let kept = ap (λ (u : Session C V). u.services) (same s.services s.state) in
      (
        λ i. fields i ∙ ap (λ m. if id == i then some outcome.0 else find i m) kept,
        ap (λ m. record t { services = m }) (sym kept) ∙ calls,
        ready,
      )

  -- A method of a service, in a session whose strategy can seal what is sent, leaves the service's
  -- fields and makes the calls as on its own, and leaves the other services as they were.
  pub run-Served :
      (id : ℕ) (program : Program V) (v : V) (s : Session C V)
      → find id s.services ≡ some v
      → Ready s.crypto
      → Served id (exec program v) s (run strategy service serialized_auth id program s)
  unfolding run exec deliver
  run-Served id Program.done v s found r = (λ i. found_self id i v s.services found, refl, r)
  run-Served id (Program.get k) v s found r = rw (found, run) (run-Served id (k v) v s found r)
  run-Served id (Program.put w rest) v s found r =
      let put = record s { services = insert id w s.services } in
      Served-put id w (exec rest w) s (run strategy service serialized_auth id rest put) r
        (run-Served id rest w put (find-insert_self id w s.services) r)
  run-Served id (Program.send channel_id message_type payload rest) v s found r =
      let sent = send_message strategy service serialized_auth channel_id message_type payload s in
      let (same, ready) =
        send-Blind strategy service serialized_auth Ready sealing channel_id message_type payload s
          r in
      let kept = ap (λ (u : Session C V). find id u.services) (same s.services s.state) in
      Served-sent id (exec rest v) channel_id message_type payload s
        (run strategy service serialized_auth id rest sent) r
        (run-Served id rest v sent (kept ∙ found) ready)
  run-Served id (Program.request_stop rest) v s found r =
      run-Served id rest v (emit Effect.post_stop s) found r
