-- ===== src/Session.antt =====
-- crates/cuartel-core/src/session.rs: the life cycle of a session. A `DateTime<Utc>` is a number;
-- the code only stores it.
pub mod Laws
pub mod History
mod Tests
use cuartel.Common.{ℕ, String, Bool, true, false, Option, none, some, List, [], ◌∷◌, ◌++◌}

pub data SessionState : Type 0 where
  created booting ready running paused checkpointed forked reviewing : SessionState
  error : String → SessionState
  destroyed : SessionState

pub data SessionEvent : Type 0 where
  boot boot_completed prompt_sent prompt_completed pause resume : SessionEvent
  checkpoint restore_checkpoint fork fork_ready changes_detected review_resolved : SessionEvent
  failed : String → SessionEvent
  recover destroy : SessionEvent

unfoldable pub is_terminal : SessionState → Bool
is_terminal destroyed = true
is_terminal _ = false

pub data TransitionError : Type 0 where
  invalid : SessionState → SessionEvent → TransitionError
  already_terminal : TransitionError

pub record TransitionRecord : Type 0 where
  pub from : SessionState
  pub to : SessionState
  pub event : SessionEvent
  pub at : ℕ

pub record Session : Type 0 where
  pub id : String
  pub workspace_id : String
  pub server_id : String
  pub agent_type : String
  pub rivet_vm_id : Option String
  pub rivet_session_id : Option String
  pub state : SessionState
  pub created_at : ℕ
  pub updated_at : ℕ
  pub history : List TransitionRecord

-- `now` is what `Utc::now()` returns.
unfoldable pub new : String → String → String → String → ℕ → Session
new id workspace_id server_id agent_type now = record {
  id = id;
  workspace_id = workspace_id;
  server_id = server_id;
  agent_type = agent_type;
  rivet_vm_id = none;
  rivet_session_id = none;
  state = created;
  created_at = now;
  updated_at = now;
  history = [];
}

-- The second `match` of `next_state`.
next_state_table : SessionState → SessionEvent → Option SessionState
next_state_table created boot = some booting
next_state_table booting boot_completed = some ready
next_state_table ready prompt_sent = some running
next_state_table running prompt_completed = some ready
next_state_table running pause = some paused
next_state_table paused resume = some running
next_state_table ready checkpoint = some checkpointed
next_state_table checkpointed restore_checkpoint = some ready
next_state_table checkpointed fork = some forked
next_state_table forked fork_ready = some ready
next_state_table ready changes_detected = some reviewing
next_state_table reviewing review_resolved = some ready
next_state_table (error _) recover = some ready
next_state_table _ _ = none

-- The first `match`: its guarded arms fall through for a destroyed session.
unfoldable pub next_state : SessionState → SessionEvent → Option SessionState
unfolding next_state_table
next_state destroyed event = next_state_table destroyed event
next_state state (failed msg) = some (error msg)
next_state state destroy = some destroyed
next_state state event = next_state_table state event

pub data Result : Type 0 where
  ok : SessionState → Result
  err : TransitionError → Result

-- The part of `apply_at` below its first guard; the method returns the new session and its result.
apply_next : Session → SessionEvent → ℕ → Option SessionState → Session × Result
apply_next s event at none = (s, err (invalid s.state event))
apply_next s event at (some next) = (
  record s {
    state = next;
    updated_at = at;
    history = s.history ++ record { from = s.state; to = next; event = event; at = at } ∷ [];
  },
  ok next,
)

apply_guard : Bool → Session → SessionEvent → ℕ → Session × Result
unfolding apply_next next_state
apply_guard true s event at = (s, err already_terminal)
apply_guard false s event at = apply_next s event at (next_state s.state event)

unfoldable pub apply_at : Session → SessionEvent → ℕ → Session × Result
unfolding apply_guard is_terminal
apply_at s event at = apply_guard (is_terminal s.state) s event at

-- A sequence of calls of `apply_at`; a caller that ignores the errors sees the session it leaves.
unfoldable pub run : Session → List (SessionEvent × ℕ) → Session
unfolding apply_at
run s [] = s
run s ((event, at) ∷ es) = run (apply_at s event at).0 es
