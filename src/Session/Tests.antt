-- ===== src/Session/Tests.antt =====
-- Runs of the session life cycle, and the theorems at concrete sessions.
use cuartel.Common.{ℕ, ◌≡◌, refl, ◌↔◌, some, List, [], ◌∷◌, length}
use cuartel.Session.{
  created, ready, running, forked, SessionEvent, boot, boot_completed, prompt_sent, resume,
  checkpoint, fork, failed, recover, destroy, Session, new, next_state, apply_at, run, invalid,
  already_terminal, err,
}
use cuartel.Session.Laws.{Step, Applies, next_state-Step, apply_at-Applies}
use cuartel.Session.History.{Chain, replay, run-new-Chain, replay_rebuilds}

abbrev fresh : Session
unfolding new
fresh = new "sess-1" "ws-1" "local" "pi" 5

-- An illegal resume in the middle is refused and leaves no trace.
abbrev busy_day : List (SessionEvent × ℕ)
busy_day =
    (boot, 6)
    ∷ (boot_completed, 7)
    ∷ (resume, 8)
    ∷ (prompt_sent, 9)
    ∷ (failed "boom", 10)
    ∷ (recover, 11)
    ∷ (checkpoint, 12)
    ∷ (fork, 13)
    ∷ []

busy_day_state : (run fresh busy_day).state ≡ forked
unfolding run new next_state
busy_day_state = refl

busy_day_history : length (run fresh busy_day).history ≡ 7
unfolding run new next_state
busy_day_history = refl

destroyed_refuses : (apply_at (run fresh ((destroy, 6) ∷ [])) boot 7).1 ≡ err already_terminal
unfolding apply_at run new next_state
destroyed_refuses = refl

early_prompt : (apply_at fresh prompt_sent 7).1 ≡ err (invalid created prompt_sent)
unfolding apply_at new next_state
early_prompt = refl

next_state-Step_example :
    (next_state ready prompt_sent ≡ some running) ↔ Step ready prompt_sent running
next_state-Step_example = next_state-Step ready prompt_sent running

apply_at-Applies_example : Applies fresh boot 6 (apply_at fresh boot 6)
apply_at-Applies_example = apply_at-Applies fresh boot 6

run-new-Chain_example :
    Chain created
      (run (new "sess-1" "ws-1" "local" "pi" 5) busy_day).history
      (run (new "sess-1" "ws-1" "local" "pi" 5) busy_day).state
run-new-Chain_example = run-new-Chain "sess-1" "ws-1" "local" "pi" 5 busy_day

replay_rebuilds_example :
    (run
      (new "sess-1" "ws-1" "local" "pi" 5)
      (replay (run (new "sess-1" "ws-1" "local" "pi" 5) busy_day).history)).state
    ≡ (run (new "sess-1" "ws-1" "local" "pi" 5) busy_day).state
replay_rebuilds_example = replay_rebuilds "sess-1" "ws-1" "local" "pi" 5 busy_day
