-- ===== src/Config/Targets.antt =====
-- appendDomainProbeTargets of daemon/internal/config/store.go: the user's domains become probes.
pub mod Laws
use dark_routev.Base.{
  List, String, [], if◌then◌else◌, is_empty, leb, mem, suc, ℕ, ◌++◌, ◌==◌, ◌||◌, ◌∷◌,
}
use dark_routev.Config.{ProbeTarget, https}

abbrev pub hosts : List ProbeTarget → List String
hosts [] = []
hosts (t ∷ ts) = t.host ∷ hosts ts

abbrev pub domain_target : String → ProbeTarget
domain_target d = record { host = d; port = 443; type = https; timeout = 0 }

-- The loop, with the map `seen`, the counter and the slice that it extends.
append_loop : ℕ → List String → List String → ℕ → List ProbeTarget → List ProbeTarget
append_loop limit [] seen count base = base
append_loop limit (d ∷ ds) seen count base =
    let again = append_loop limit ds seen count base in
    let more = append_loop limit ds (d ∷ seen) (suc count) (base ++ (domain_target d ∷ [])) in
    if leb limit count then base else if mem d seen then again else more

-- `appendDomainProbeTargets(base, domains, max)`
unfoldable pub append_domain_probe_targets : List ProbeTarget → List String → ℕ → List ProbeTarget
unfolding append_loop
append_domain_probe_targets base domains limit =
    if is_empty domains || limit == 0 then base else append_loop limit domains (hosts base) 0 base
