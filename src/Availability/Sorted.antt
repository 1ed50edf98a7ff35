-- ===== src/Availability/Sorted.antt =====
-- What `probe_registry` reports: each registered harness once, in the order of the names.
use mathlib.Core.List.{Perm}
use cuartel.Common.{◌≡◌, refl, ap, List, [], ◌∷◌, some, map, All}
use cuartel.Common.Dict.{key_lt_asym}
use cuartel.Common.Sort.{IsSorted, sort_by-perm, sort_by-IsSorted}
use cuartel.Agent.Harness.{AgentHarness}
use cuartel.Agent.Registry.{
  HarnessRegistry, get, registered, register_all, Distinct-register_all, get_entry,
}
use cuartel.Availability.{
  HarnessAvailability, ProgramProbe, EnvSource, probe_harness, name_lt, probe_each, probe_registry,
}

module _ {V : Type 0} (probe : ProgramProbe) (env : EnvSource) where
  -- The report on each entry of a registry.
  abbrev pub reports : HarnessRegistry V → List HarnessAvailability
  reports = map (λ e. probe_harness e.1 probe env)

  probe_each-reports :
      (r l : HarnessRegistry V)
      → All (λ e. get e.0 r ≡ some e.1) l
      → probe_each r probe env (map (λ e. e.0) l) ≡ reports l
  unfolding probe_each
  probe_each-reports r [] h = refl
  probe_each-reports r ((at, harness) ∷ l) h =
      rw (h.0, probe_each)
        (ap (λ rest. probe_harness harness probe env ∷ rest) (probe_each-reports r l h.1))

  -- After any registrations the probe of the registry reports on each registered harness exactly
  -- once, and the reports stand in the order of their display names.
  pub probe_registry_complete :
      (hs : List (AgentHarness V))
      → IsSorted name_lt (probe_registry (register_all hs []) probe env)
        × Perm (probe_registry (register_all hs []) probe env) (reports (register_all hs []))
  unfolding probe_registry registered
  probe_registry_complete hs =
      let r = register_all hs [] in
      let each = probe_each-reports r r (get_entry r (Distinct-register_all hs [] tt)) in
      (
        sort_by-IsSorted name_lt (λ a b. key_lt_asym a.display_name b.display_name)
            (probe_each r probe env (registered r)),
        rw (← each) (sort_by-perm name_lt (probe_each r probe env (registered r))),
      )
