-- ===== src/Agent/Lines.antt =====
-- What the events of a harness do to a session, and which block of an envelope Claude Code reports.
use cuartel.Common.{
  ℕ, ◌≡◌, ◌⊎◌, refl, ap, List, [], ◌∷◌, ◌++◌, none, some, All, arith, Option-cases, inl, inr,
}
use cuartel.Session.{
  Session, SessionState, SessionEvent, ready, running, error, apply_at, ok, next_state,
}
use cuartel.Agent.Harness.{
  Json, HarnessEvent, output, tool_use, completed, failed, to_session_event,
}
use cuartel.Agent.Parse.{claude_code_block_to_event, first_event}

-- The state in which a reported event leaves the session.
abbrev pub Ends : {V : Type 0} → HarnessEvent V → SessionState → Type 0
Ends completed t = t ≡ ready
Ends (failed msg) t = t ≡ error msg
Ends (output text) t = ⊥
Ends (tool_use name input) t = ⊥

-- An event that a harness reports to a running session is never refused: completion makes it
-- ready, and failure puts it in the error state with the message of the harness. Output and tool
-- use are not reported.
pub apply_at-to_session_event :
    {V : Type 0} (event : HarnessEvent V) (told : SessionEvent) (s : Session) (at : ℕ)
    → to_session_event event ≡ some told
    → s.state ≡ running
    → (t : SessionState) × ((apply_at s told at).1 ≡ ok t)
      × ((apply_at s told at).0.state ≡ t)
      × Ends event t
unfolding apply_at next_state to_session_event
apply_at-to_session_event completed told s at h r = (ready, ground arith, ground arith, refl)
apply_at-to_session_event (failed msg) told s at h r = (error msg, ground arith, ground arith, refl)
apply_at-to_session_event (output text) told s at h r = absurd (cc)
apply_at-to_session_event (tool_use name input) told s at h r = absurd (cc)

module _ (json : Json) where
  open json use {Value}

  abbrev pub Silent : Value → Type 0
  Silent block = claude_code_block_to_event json block ≡ none

  -- The event is that of a block with only silent blocks before it.
  abbrev pub First : List Value → HarnessEvent Value → Type 0
  First blocks event =
      (before : List Value) × (block : Value) × (after : List Value) × (blocks
        ≡ before ++ block ∷ after)
      × All Silent before
      × (claude_code_block_to_event json block ≡ some event)

  -- An envelope of Claude Code gives the event of its first block that has one, and none exactly
  -- if all its blocks are silent.
  pub first_event-First :
      (blocks : List Value)
      → (All Silent blocks × (first_event json blocks ≡ none))
        ⊎ ((event : HarnessEvent Value) × (first_event json blocks ≡ some event)
            × First blocks event)
  unfolding first_event
  first_event-First [] = inl (tt, refl)
  first_event-First (block ∷ blocks) = elim (Option-cases (claude_code_block_to_event json block)) [
    | inr (event, e) ↦ inr (event, rw (e, first_event), ([], block, blocks, refl, tt, e))
    | inl e ↦ elim (first_event-First blocks) [
      | inl (silent, n) ↦ inl ((e, silent), rw (e, first_event) n)
      | inr (event, s, (before, found, after, split, silent, meant)) ↦
          let longer = ap (λ bs. block ∷ bs) split in
          inr (
            event,
            rw (e, first_event) s,
            (block ∷ before, found, after, longer, (e, silent), meant),
          )
    ]
  ]
