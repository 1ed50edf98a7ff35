-- ===== src/Session/Laws.antt =====
-- What one call of `apply_at` does, against the transitions that session.rs documents event by event.
use cuartel.Common.{
  ℕ, String, ◌≡◌, refl, subst, ◌≢◌, ◌↔◌, ◌⊎◌, inl, inr, Option, none, some, [], ◌∷◌, ◌++◌, arith,
  Option-cases,
}
use cuartel.Session.{
  SessionState, created, booting, ready, running, paused, checkpointed, forked, reviewing, error,
  destroyed, SessionEvent, boot, boot_completed, prompt_sent, prompt_completed, pause, resume,
  checkpoint, restore_checkpoint, fork, fork_ready, changes_detected, review_resolved, failed,
  recover, destroy, invalid, already_terminal, Session, ok, err, next_state, apply_at, apply_next,
  Result,
}

-- A state of a session that still exists.
pub data IsLive : SessionState → Type 0 where
  live : {s : SessionState} → s ≢ destroyed → IsLive s

-- The legal transitions, one rule for each documented event.
pub data Step : SessionState → SessionEvent → SessionState → Type 0 where
  boots : Step created boot booting
  booted : Step booting boot_completed ready
  prompts : Step ready prompt_sent running
  completes : Step running prompt_completed ready
  pauses : Step running pause paused
  resumes : Step paused resume running
  checkpoints : Step ready checkpoint checkpointed
  restores : Step checkpointed restore_checkpoint ready
  forks : Step checkpointed fork forked
  fork_is_ready : Step forked fork_ready ready
  finds_changes : Step ready changes_detected reviewing
  resolves : Step reviewing review_resolved ready
  recovers : (msg : String) → Step (error msg) recover ready
  fails : (s : SessionState) (msg : String) → IsLive s → Step s (failed msg) (error msg)
  destroys : (s : SessionState) → IsLive s → Step s destroy destroyed

next_state_complete :
    {s : SessionState} {e : SessionEvent} {t : SessionState} → Step s e t → next_state s e ≡ some t
unfolding next_state
next_state_complete boots = refl
next_state_complete booted = refl
next_state_complete prompts = refl
next_state_complete completes = refl
next_state_complete pauses = refl
next_state_complete resumes = refl
next_state_complete checkpoints = refl
next_state_complete restores = refl
next_state_complete forks = refl
next_state_complete fork_is_ready = refl
next_state_complete finds_changes = refl
next_state_complete resolves = refl
next_state_complete (recovers msg) = refl
next_state_complete (fails s msg (live h)) = ground arith
next_state_complete (destroys s (live h)) = ground arith

constr_inj : {t u : SessionState} → some t ≡ some u → t ≡ u
constr_inj h = cc

module _ {s : SessionState} {e : SessionEvent} where
  -- A rule at hand, moved to the state that the code computed.
  Step-to : {t u : SessionState} → Step s e t → some t ≡ some u → Step s e u
  Step-to {t} {u} st h = subst (λ v. Step s e v) (constr_inj h) st

fails_sound :
    (s : SessionState) (msg : String) {t : SessionState}
    → next_state s (failed msg) ≡ some t
    → Step s (failed msg) t
unfolding next_state
fails_sound destroyed msg h = cc
fails_sound s msg h = Step-to (fails s msg (live (λ e. cc))) h

destroys_sound :
    (s : SessionState) {t : SessionState} → next_state s destroy ≡ some t → Step s destroy t
unfolding next_state
destroys_sound destroyed h = cc
destroys_sound s h = Step-to (destroys s (live (λ e. cc))) h

next_state_sound :
    (s : SessionState) (e : SessionEvent) {t : SessionState} → next_state s e ≡ some t → Step s e t
unfolding next_state
next_state_sound s (failed msg) h = fails_sound s msg h
next_state_sound s destroy h = destroys_sound s h
next_state_sound created boot h = Step-to boots h
next_state_sound booting boot_completed h = Step-to booted h
next_state_sound ready prompt_sent h = Step-to prompts h
next_state_sound running prompt_completed h = Step-to completes h
next_state_sound running pause h = Step-to pauses h
next_state_sound paused resume h = Step-to resumes h
next_state_sound ready checkpoint h = Step-to checkpoints h
next_state_sound checkpointed restore_checkpoint h = Step-to restores h
next_state_sound checkpointed fork h = Step-to forks h
next_state_sound forked fork_ready h = Step-to fork_is_ready h
next_state_sound ready changes_detected h = Step-to finds_changes h
next_state_sound reviewing review_resolved h = Step-to resolves h
next_state_sound (error msg) recover h = Step-to (recovers msg) h
next_state_sound _ _ h = cc

-- The transition function takes exactly the documented steps: it maps a state and an event to
-- `some t` if and only if a rule leads from that state by that event to `t`.
pub next_state-Step :
    (s : SessionState) (e : SessionEvent) (t : SessionState)
    → (next_state s e ≡ some t) ↔ Step s e t
next_state-Step s e t = (next_state_sound s e, next_state_complete)

-- The contract of a call, with one case for each way it can end.
pub data Applies (s : Session) (e : SessionEvent) (at : ℕ) (r : Session × Result) : Type 0 where
  is_gone : s.state ≡ destroyed → r ≡ (s, err already_terminal) → Applies s e at r
  is_refused :
      s.state ≢ destroyed
      → ((t : SessionState) → ¬ Step s.state e t)
      → r ≡ (s, err (invalid s.state e))
      → Applies s e at r
  is_taken :
      (t : SessionState)
      → s.state ≢ destroyed
      → Step s.state e t
      → r ≡ (
        record s {
          state = t;
          updated_at = at;
          history = s.history ++ record { from = s.state; to = t; event = e; at = at } ∷ [];
        },
        ok t,
      )
      → Applies s e at r

not_both : {o : Option SessionState} {t : SessionState} → o ≡ some t → o ≡ none → ⊥
not_both p q = cc

destroyed-cases : (s : SessionState) → (s ≡ destroyed) ⊎ (s ≢ destroyed)
destroyed-cases destroyed = inl refl
destroyed-cases created = inr (λ e. cc)
destroyed-cases _ = inr (λ e. cc)

apply_guard-live :
    (s : Session) (e : SessionEvent) (at : ℕ)
    → s.state ≢ destroyed
    → apply_at s e at ≡ apply_next s e at (next_state s.state e)
unfolding apply_at
apply_guard-live s e at h = ground arith

apply_live :
    (s : Session) (e : SessionEvent) (at : ℕ)
    → s.state ≢ destroyed
    → Applies s e at (apply_next s e at (next_state s.state e))
unfolding apply_next
apply_live s e at h = elim (Option-cases (next_state s.state e)) [
  | inl stuck ↦
      rw (stuck, apply_next) (is_refused h (λ t st. not_both (next_state_complete st) stuck) refl)
  | inr (t, moved) ↦ rw (moved, apply_next) (is_taken t h (next_state_sound s.state e moved) refl)
]

-- One call of `apply_at`, every branch. A destroyed session refuses with `already_terminal`; a live
-- one refuses an event that has no rule with `invalid` and the state and event at hand; both leave
-- the session as it was. Otherwise the state is the rule's, the time is noted, and one record of
-- the step is put at the end of the history, with every other field kept.
pub apply_at-Applies : (s : Session) (e : SessionEvent) (at : ℕ) → Applies s e at (apply_at s e at)
apply_at-Applies s e at = elim (destroyed-cases s.state) [
  | inl gone ↦ is_gone gone (unfold apply_at in ground arith)
  | inr h ↦ rw (apply_guard-live s e at h) (apply_live s e at h)
]
