-- ===== src/Session/History.antt =====
-- What the recorded history of a session says, over any sequence of calls.
use cuartel.Common.{
  ℕ, String, ◌≡◌, refl, sym, ◌∙◌, subst, ◌≢◌, none, some, List, [], ◌∷◌, ◌++◌, map, arith, length,
  ◌≤◌,
}
use cuartel.Session.{
  SessionState, created, booting, ready, running, paused, checkpointed, forked, reviewing, error,
  destroyed, SessionEvent, boot, boot_completed, prompt_completed, resume, restore_checkpoint,
  fork_ready, review_resolved, recover, TransitionRecord, Session, new, next_state, apply_at, run,
}
use cuartel.Session.Laws.{Step, is_gone, is_refused, is_taken, apply_at-Applies, next_state-Step}

-- A history from one state to another: every record is a legal step that starts where the one
-- before it ended.
pub data Chain : SessionState → List TransitionRecord → SessionState → Type 0 where
  start : {s : SessionState} → Chain s [] s
  step :
      {s u : SessionState} {rs : List TransitionRecord} (r : TransitionRecord)
      → r.from ≡ s
      → Step r.from r.event r.to
      → Chain r.to rs u
      → Chain s (r ∷ rs) u

Chain-concat :
    {s t : SessionState} {rs : List TransitionRecord} (r : TransitionRecord)
    → Chain s rs t
    → r.from ≡ t
    → Step r.from r.event r.to
    → Chain s (rs ++ r ∷ []) r.to
Chain-concat r start e st = step r e st start
Chain-concat r (step r' e' st' c) e st = step r' e' st' (Chain-concat r c e st)

-- The events of a history, with their times.
abbrev pub replay : List TransitionRecord → List (SessionEvent × ℕ)
replay = map λ r. (r.event, r.at)

apply_at-Chain :
    (s : Session) (e : SessionEvent) (at : ℕ) {c : SessionState}
    → Chain c s.history s.state
    → Chain c (apply_at s e at).0.history (apply_at s e at).0.state
apply_at-Chain s e at {c} h = elim (apply_at-Applies s e at) [
  | is_gone _ k ↦ rw k h
  | is_refused _ _ k ↦ rw k h
  | is_taken t _ st k ↦
      rw k (Chain-concat (record { from = s.state; to = t; event = e; at = at }) h refl st)
]

run-Chain :
    (s : Session) (es : List (SessionEvent × ℕ)) {c : SessionState}
    → Chain c s.history s.state
    → Chain c (run s es).history (run s es).state
unfolding run
run-Chain s [] h = h
run-Chain s ((e, at) ∷ es) h = run-Chain (apply_at s e at).0 es (apply_at-Chain s e at h)

-- Whatever events are applied to a new session, legal or not, its history is a chain of legal steps
-- from `created` to the state that the session is in.
pub run-new-Chain :
    (id ws server agent : String) (now : ℕ) (es : List (SessionEvent × ℕ))
    → let s = run (new id ws server agent now) es in Chain created s.history s.state
run-new-Chain id ws server agent now es =
    run-Chain (new id ws server agent now) es (unfold new in start)

destroyed_stuck : (e : SessionEvent) → next_state destroyed e ≡ none
unfolding next_state
destroyed_stuck boot = refl
destroyed_stuck _ = refl

apply-Step :
    (s : Session) (e : SessionEvent) (at : ℕ) {t : SessionState}
    → Step s.state e t
    → (apply_at s e at).0.state ≡ t
apply-Step s e at {t} st =
    let moved = (next_state-Step s.state e t).1 st in
    elim (apply_at-Applies s e at) [
      | is_gone gone _ ↦ absurd (none_ne_some (sym (destroyed_stuck e) ∙ stuck_at gone moved))
      | is_refused _ h _ ↦ absurd (h t st)
      | is_taken u _ st' k ↦ rw k (some_inj (sym ((next_state-Step s.state e u).1 st') ∙ moved))
    ]
  where
    none_ne_some : {u : SessionState} → none ≡ some u → ⊥
    none_ne_some h = cc

    some_inj : {u v : SessionState} → some u ≡ some v → u ≡ v
    some_inj h = cc

    stuck_at :
        {u v : SessionState}
        → u ≡ destroyed
        → next_state u e ≡ some v
        → next_state destroyed e ≡ some v
    stuck_at h k = cc

run-replay :
    (s : Session) {c t : SessionState} {rs : List TransitionRecord}
    → Chain c rs t
    → s.state ≡ c
    → (run s (replay rs)).state ≡ t
unfolding run
run-replay s start e = e
run-replay s {c} (step r e st rest) h =
    run-replay (apply_at s r.event r.at).0 rest
      (apply-Step s r.event r.at (subst (λ x. Step x r.event r.to) (e ∙ sym h) st))

-- The history is enough to rebuild the state: applying its events again, in order, to a new session
-- gives the state that any sequence of calls, legal or not, left.
pub replay_rebuilds :
    (id ws server agent : String) (now : ℕ) (es : List (SessionEvent × ℕ))
    → let s = run (new id ws server agent now) es in
      (run (new id ws server agent now) (replay s.history)).state ≡ s.state
replay_rebuilds id ws server agent now es =
    run-replay (new id ws server agent now) (run-new-Chain id ws server agent now es)
      (unfold new in refl)

-- The shortest way back to `ready`.
way_to_ready : SessionState → List SessionEvent
way_to_ready created = boot ∷ boot_completed ∷ []
way_to_ready booting = boot_completed ∷ []
way_to_ready running = prompt_completed ∷ []
way_to_ready paused = resume ∷ prompt_completed ∷ []
way_to_ready checkpointed = restore_checkpoint ∷ []
way_to_ready forked = fork_ready ∷ []
way_to_ready reviewing = review_resolved ∷ []
way_to_ready (error _) = recover ∷ []
way_to_ready _ = []

at_time : ℕ → List SessionEvent → List (SessionEvent × ℕ)
at_time at [] = []
at_time at (e ∷ es) = (e, at) ∷ at_time at es

-- No session that is not destroyed is stuck: at most two events bring it to `ready`.
pub ready_reachable :
    (s : Session) (at : ℕ)
    → s.state ≢ destroyed
    → (es : List (SessionEvent × ℕ)) × (length es ≤ 2) × ((run s es).state ≡ ready)
unfolding way_to_ready at_time run apply_at next_state
ready_reachable s at h = (at_time at (way_to_ready s.state), ground arith, ground arith)
