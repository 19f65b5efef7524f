-- ===== src/Session/Fresh.antt =====
-- A session of core/src/session/Session.cpp from its construction on.
use aa_v.Base.{refl, Bool, [], ◌∷◌, Bytes, arith}
use aa_v.Base.Assoc.{Assoc}
use aa_v.Crypto.{CryptoStrategy}
use aa_v.Service.{IService}
use aa_v.Session.{Session, SessionConfig, create, register_service, register_services}
use aa_v.Session.Queue.{IsQueue}
use aa_v.Session.Writes.{step-IsQueue}
use aa_v.Session.Timers.{IsTimed, step-IsTimed}
use aa_v.Session.Closed.{IsClosed, step-IsClosed}
use aa_v.Session.Runs.{Run}

-- What holds of a session between two events.
abbrev pub IsSound : {C V : Type 0} → Session C V → Type 0
IsSound s = IsQueue s × IsTimed s × IsClosed s

create-IsSound :
    {C : Type 0} (V : Type 0) (config : SessionConfig) (crypto : C) (observed : Bool)
    → IsSound (create {V = V} config crypto observed)
unfolding IsQueue IsTimed IsClosed
create-IsSound V config crypto observed = ((omega arith, refl, refl), refl, tt)

module _ {C V : Type 0} where
  registered-IsSound :
      (services : Assoc V) (s : Session C V) → IsSound s → IsSound (register_services services s)
  unfolding IsQueue IsTimed IsClosed register_service
  registered-IsSound [] s p = p
  registered-IsSound ((id, svc) ∷ rest) s p = registered-IsSound rest (register_service id svc s) p

  module _ (strategy : CryptoStrategy C) (service : IService V) (auth : Bytes) where
    Run-IsSound : (s t : Session C V) → Run strategy service auth s t → IsSound s → IsSound t
    Run-IsSound s t Run.here p = p
    Run-IsSound s t (Run.next {t = u} r e enabled) p =
        let (queue, timed, closed) = Run-IsSound s u r p in
        (
          step-IsQueue service strategy auth e u enabled queue,
          step-IsTimed strategy service auth e u enabled timed,
          step-IsClosed strategy service auth e u enabled closed,
        )

    -- Whatever events follow the construction of a session and the registration of its services,
    -- where a write completes only while one is under way: at most 256 frames wait, the write flag
    -- is set exactly while one waits, the transport was given the frames that the queue took in
    -- their order up to the front, the timer runs exactly in the states that wait and with their
    -- time-outs, and a session in a terminal state has closed its transport.
    pub Run-create :
        (config : SessionConfig) (crypto : C) (observed : Bool) (services : Assoc V)
        (t : Session C V)
        → Run strategy service auth (register_services services (create config crypto observed)) t
        → IsSound t
    Run-create config crypto observed services t r =
        Run-IsSound _ t r (registered-IsSound services _ (create-IsSound V config crypto observed))
