-- ===== src/Create/Network.antt =====
-- What the request of `Sandbox.create` says of the network (thunder_sandbox/asynchronous/sandbox.py).
use thunder_sandbox.Prelude.{
  ◌≡◌, ◌↔◌, refl, Bool, true, false, Option, none, some, List, Text, arith,
}
use thunder_sandbox.Common.Errors.{ok}
use thunder_sandbox.Create.Options.{
  Options, validate_create_options, closed, opened, PolicyRequest, listed, network_policy_request,
}
use thunder_sandbox.Create.Accepted.{IsPolicy, blocked, not_blocked, accepted}

-- what the request for a policy keeps of the options
pub record Keeps (block : Bool) (cs ds : Option (List Text)) (r : PolicyRequest) : Type 0 where
  pub cidrs : r.cidr_allowlist ≡ listed cs
  pub domains : r.domain_allowlist ≡ listed ds
  pub closed_if : (r.internet_access ≡ closed) ↔ (block ≡ true)
  pub opened_if : (r.internet_access ≡ opened) ↔ ((block ≡ false) × (cs ≡ none) × (ds ≡ none))

policy-Keeps :
    (b : Bool) (cs ds : Option (List Text))
    → IsPolicy b cs ds
    → Keeps b cs ds (network_policy_request b cs ds)
unfolding network_policy_request
policy-Keeps true none none blocked = record {
  cidrs = refl;
  domains = refl;
  closed_if = (λ h. refl, λ h. refl);
  opened_if = (λ h. ground arith, λ h. ground arith);
}
policy-Keeps true none (some ds) h = elim h [ ]
policy-Keeps true (some cs) ds h = elim h [ ]
policy-Keeps false none none (not_blocked cs ds) = record {
  cidrs = refl;
  domains = refl;
  closed_if = (λ h. ground arith, λ h. ground arith);
  opened_if = (λ h. (refl, refl, refl), λ h. refl);
}
policy-Keeps false (some cs) ds (not_blocked _ _) = record {
  cidrs = refl;
  domains = refl;
  closed_if = (λ h. ground arith, λ h. ground arith);
  opened_if = (λ h. ground arith, λ h. ground arith);
}
policy-Keeps false none (some ds) (not_blocked _ _) = record {
  cidrs = refl;
  domains = refl;
  closed_if = (λ h. ground arith, λ h. ground arith);
  opened_if = (λ h. ground arith, λ h. ground arith);
}

-- If the options are accepted, the request names the allowlists as the caller gave them, closes the
-- network exactly if the caller blocks it, and leaves it open exactly if the caller neither blocks
-- it nor names an allowlist.
pub network_policy_request-Keeps :
    (o : Options)
    → validate_create_options o ≡ ok tt
    → Keeps o.block_network o.outbound_cidr_allowlist o.outbound_domain_allowlist (
        network_policy_request o.block_network o.outbound_cidr_allowlist
          o.outbound_domain_allowlist)
network_policy_request-Keeps o h = policy-Keeps _ _ _ (accepted o h).policy
