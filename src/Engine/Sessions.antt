-- ===== src/Engine/Sessions.antt =====
-- The ids and the end of the sessions of core/src/engine/Engine.cpp.
use aa_v.Base.{
  ℕ, zero, suc, ◌+◌, ◌%◌, ◌^◌, ◌<◌, ◌≡◌, ◌≢◌, true, none, Bytes, ◌==◌, if◌then◌else◌, arith,
}
use aa_v.Base.Assoc.{find, find-erase}
use aa_v.Session.{SessionState, is_terminal}
use aa_v.Engine.{Engine, start_session, cleanup_session, on_session_state_changed}

-- The id that a start returns, when the application starts a session for each descriptor before it.
abbrev pub id_of_start : (ℕ → Bytes) → ℕ → Engine → ℕ
id_of_start descriptors zero e = (start_session (descriptors 0) e).0
id_of_start descriptors (suc k) e =
    id_of_start (λ i. descriptors (suc i)) k (start_session (descriptors 0) e).1

id_of_start-count :
    (descriptors : ℕ → Bytes) (k : ℕ) (e : Engine)
    → e.next_session_id < 2 ^ 32
    → id_of_start descriptors k e ≡ (e.next_session_id + k) % 2 ^ 32
unfolding start_session
id_of_start-count descriptors zero e h = omega arith
id_of_start-count descriptors (suc k) e h = omega (
  arith,
  id_of_start-count (λ i. descriptors (suc i)) k (start_session (descriptors 0) e).1 (omega arith),
)

-- Two starts among any 2^32 in a row return different ids, when the next id is below 2^32.
pub id_of_start-distinct :
    (descriptors : ℕ → Bytes) (j k : ℕ) (e : Engine)
    → e.next_session_id < 2 ^ 32
    → j < k
    → k < 2 ^ 32
    → id_of_start descriptors j e ≢ id_of_start descriptors k e
id_of_start-distinct descriptors j k e h below small same =
    omega (arith, id_of_start-count descriptors j e h, id_of_start-count descriptors k e h, same)

-- After a session reports a terminal state the engine no longer holds it, holds all others as
-- before, and has no active session if it was the active one.
pub on_session_state_changed_lem :
    (session_id : ℕ) (state : SessionState) (e : Engine)
    → is_terminal state ≡ true
    → let after = on_session_state_changed session_id state e in
      ((id : ℕ) → find id after.sessions ≡ (if session_id == id then none else find id e.sessions))
      × (after.active_session_id
          ≡ (if e.active_session_id == session_id then 0 else e.active_session_id))
unfolding on_session_state_changed cleanup_session
on_session_state_changed_lem session_id state e over =
    ((λ id. ground (arith, over, find-erase session_id id e.sessions)), ground (arith, over))
