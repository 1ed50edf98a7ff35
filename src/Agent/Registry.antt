-- ===== src/Agent/Registry.antt =====
-- crates/cuartel-core/src/agent.rs: `HarnessRegistry`, a `HashMap` by agent type. The order of its
-- keys is that of an association list here; no statement depends on it.
use cuartel.Common.{
  ◌≡◌, Bool, true, false, List, [], ◌∷◌, Option, none, some, map, arith, ◌↔◌, eq_iff, if◌then◌else◌,
  Bool-cases, All, inl, inr,
}
use cuartel.Agent.{AgentType, custom, agent_eq}
use cuartel.Agent.Harness.{Json, AgentHarness}
use cuartel.Agent.Builtin.{pi_harness, claude_code_harness, codex_harness, open_code_harness}

abbrev pub HarnessRegistry : Type 0 → Type 0
HarnessRegistry V = List (AgentType × AgentHarness V)

module _ {V : Type 0} where
  put : AgentType → AgentHarness V → HarnessRegistry V → HarnessRegistry V
  put agent harness [] = (agent, harness) ∷ []
  put agent harness ((at, old) ∷ rest) =
      let later = (at, old) ∷ put agent harness rest in
      elim (agent_eq at agent) [ true ↦ (at, harness) ∷ rest | false ↦ later ]

  unfoldable pub register : AgentHarness V → HarnessRegistry V → HarnessRegistry V
  unfolding put
  register harness r = put harness.agent_type harness r

  unfoldable pub get : AgentType → HarnessRegistry V → Option (AgentHarness V)
  get agent [] = none
  get agent ((at, harness) ∷ rest) = elim (agent_eq at agent) [
    | true ↦ some harness
    | false ↦ get agent rest
  ]

  unfoldable pub contains : AgentType → HarnessRegistry V → Bool
  unfolding get
  contains agent r = elim (get agent r) [ none ↦ false | some _ ↦ true ]

  unfoldable pub registered : HarnessRegistry V → List AgentType
  registered = map (λ e. e.0)

unfoldable pub with_builtins : (json : Json) → HarnessRegistry json.Value
unfolding register pi_harness claude_code_harness codex_harness open_code_harness
with_builtins json = register (open_code_harness json) (
    register (codex_harness json)
      (register (claude_code_harness json) (register (pi_harness json) [])))

pub agent_eq_iff : (a b : AgentType) → (agent_eq a b ≡ true) ↔ (a ≡ b)
unfolding agent_eq
agent_eq_iff (custom name) (custom other) = ground (arith, eq_iff name other)
agent_eq_iff a b = ground arith

-- A registered harness is found under its agent type, and every other type finds what it found.
pub get-register :
    {V : Type 0} (harness : AgentHarness V) (r : HarnessRegistry V) (agent : AgentType)
    → get agent (register harness r)
      ≡ (if agent_eq harness.agent_type agent then some harness else get agent r)
unfolding register get put
get-register harness [] agent = ground arith
get-register harness ((at, old) ∷ rest) agent = ground (
  arith,
  get-register harness rest agent,
  agent_eq_iff at agent,
  agent_eq_iff at harness.agent_type,
  agent_eq_iff harness.agent_type agent,
)

-- No agent type has two entries: what a `HashMap` keeps.
module _ {V : Type 0} where
  abbrev pub Absent : AgentType → HarnessRegistry V → Type 0
  Absent agent = All (λ e. agent_eq e.0 agent ≡ false)

  abbrev pub Distinct : HarnessRegistry V → Type 0
  Distinct [] = Unit
  Distinct ((at, harness) ∷ rest) = Absent at rest × Distinct rest

  Absent-put :
      (at agent : AgentType) (harness : AgentHarness V) (r : HarnessRegistry V)
      → agent_eq agent at ≡ false
      → Absent at r
      → Absent at (put agent harness r)
  unfolding put
  Absent-put at agent harness [] h a = (h, tt)
  Absent-put at agent harness ((b, old) ∷ rest) h a =
      ground (arith, agent_eq_iff b agent, Absent-put at agent harness rest h a.1)

  Distinct-put :
      (agent : AgentType) (harness : AgentHarness V) (r : HarnessRegistry V)
      → Distinct r
      → Distinct (put agent harness r)
  unfolding put
  Distinct-put agent harness [] d = (tt, tt)
  Distinct-put agent harness ((b, old) ∷ rest) d = elim (Bool-cases (agent_eq b agent)) [
    | inl e ↦ rw (e, Distinct) d
    | inr e ↦
        rw (e, Distinct)
          (
            Absent-put b agent harness rest
                (ground (arith, agent_eq_iff b agent, agent_eq_iff agent b)) d.0,
            Distinct-put agent harness rest d.1,
          )
  ]

  -- Registrations one after the other.
  unfoldable pub register_all : List (AgentHarness V) → HarnessRegistry V → HarnessRegistry V
  unfolding register
  register_all [] r = r
  register_all (h ∷ hs) r = register_all hs (register h r)

  pub Distinct-register_all :
      (hs : List (AgentHarness V)) (r : HarnessRegistry V)
      → Distinct r
      → Distinct (register_all hs r)
  unfolding register_all
  Distinct-register_all [] r d = d
  Distinct-register_all (h ∷ hs) r d =
      Distinct-register_all hs (register h r) (Distinct-put h.agent_type h r d)

  -- Every entry is found under its agent type.
  pub get_entry : (r : HarnessRegistry V) → Distinct r → All (λ e. get e.0 r ≡ some e.1) r
  unfolding get
  get_entry [] d = tt
  get_entry ((at, harness) ∷ rest) d =
      (ground (arith, agent_eq_iff at at), behind rest (get_entry rest d.1) d.0)
    where
      behind :
          (l : HarnessRegistry V)
          → All (λ e. get e.0 rest ≡ some e.1) l
          → Absent at l
          → All (λ e. get e.0 ((at, harness) ∷ rest) ≡ some e.1) l
      behind [] h a = tt
      behind (e ∷ l) h a =
          (ground (arith, agent_eq_iff at e.0, agent_eq_iff e.0 at), behind l h.1 a.1)
