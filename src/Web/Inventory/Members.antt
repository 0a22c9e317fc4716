-- ===== src/Web/Inventory/Members.antt =====
-- The rules and sites of one network among those of all.
use mathlib.Core.Path.{subst}
use bitcoin_argus.Common.{
  ℕ, ◌≡◌, String, Bool, true, some, List, [], ◌∷◌, ◌++◌, arith, inl, inr, Option-cases, any,
  any-append_left, any-append_right,
}
use bitcoin_argus.Deploy.Network.{NetworkSpec}
use bitcoin_argus.Deploy.Ports.{Items}
use bitcoin_argus.Deploy.Firewall.{openings, Rule, rules_for, ports_of, public_rules}
use bitcoin_argus.Deploy.Sites.{SiteCfg, HttpSite, fronts, sites_for, http_sites}
use bitcoin_argus.Deploy.Sites.Reachable.{
  is_opened, public_nets, is_opened-first, is_opened-last, public_rules-cons,
}
use bitcoin_argus.Deploy.Onion.Backed.{http_sites-cons}

abbrev pub Nets : Type 0
Nets = List (String × (SiteCfg × NetworkSpec))

public_rules-ports :
    (key : String) (cfg : SiteCfg) (spec : NetworkSpec) (nets : Nets)
    (port_map : List (String × Items)) (rules : List Rule)
    → public_rules (public_nets ((key, (cfg, spec)) ∷ nets)) port_map ≡ some rules
    → (ports : Items) × (ports_of key port_map ≡ some ports)
unfolding public_rules public_nets
public_rules-ports key cfg spec nets port_map rules r =
    elim (Option-cases (ports_of key port_map)) [
      | inl n ↦ absurd (ground arith)
      | inr (ports, n) ↦ (ports, n)
    ]

-- The rules of a network that is listed are among all rules.
pub public_rules-member :
    (before after : Nets) (key : String) (cfg : SiteCfg) (spec : NetworkSpec)
    (port_map : List (String × Items)) (ports : Items) (rules : List Rule)
    → ports_of key port_map ≡ some ports
    → public_rules (public_nets (before ++ (key, (cfg, spec)) ∷ after)) port_map ≡ some rules
    → (own : List Rule) × (rules_for ports (openings cfg.public spec) ≡ some own)
      × ((p : ℕ) → is_opened own p ≡ true → is_opened rules p ≡ true)
unfolding public_nets
public_rules-member [] after key cfg spec port_map ports rules n r =
    let (own, more, a, b, c) =
      public_rules-cons key cfg.public spec (public_nets after) port_map ports rules n r in
    (own, a, λ p h. subst (λ s. is_opened s p ≡ true) c (is_opened-first own more p h))
public_rules-member ((k, (net, s)) ∷ before) after key cfg spec port_map ports rules n r =
    let (items, found) =
      public_rules-ports k net s (before ++ (key, (cfg, spec)) ∷ after) port_map rules r in
    let (first, more, a, b, c) =
      public_rules-cons k net.public s (public_nets (before ++ (key, (cfg, spec)) ∷ after)) port_map
        items rules found r in
    let (own, d, e) = public_rules-member before after key cfg spec port_map ports more n b in
    (own, d, λ p h. subst (λ s. is_opened s p ≡ true) c (is_opened-last first more p (e p h)))

http_sites-ports :
    (ssl_enabled : Bool) (key : String) (cfg : SiteCfg) (spec : NetworkSpec) (nets : Nets)
    (port_map : List (String × Items)) (sites : List HttpSite)
    → http_sites ssl_enabled ((key, (cfg, spec)) ∷ nets) port_map ≡ some sites
    → (ports : Items) × (ports_of key port_map ≡ some ports)
unfolding http_sites
http_sites-ports ssl_enabled key cfg spec nets port_map sites r =
    elim (Option-cases (ports_of key port_map)) [
      | inl n ↦ absurd (ground arith)
      | inr (ports, n) ↦ (ports, n)
    ]

-- And so are its sites, whatever is asked of one.
pub http_sites-member :
    (p : HttpSite → Bool) (ssl_enabled : Bool) (before after : Nets) (key : String) (cfg : SiteCfg)
    (spec : NetworkSpec) (port_map : List (String × Items)) (ports : Items) (sites : List HttpSite)
    → ports_of key port_map ≡ some ports
    → http_sites ssl_enabled (before ++ (key, (cfg, spec)) ∷ after) port_map ≡ some sites
    → (own : List HttpSite) × (sites_for ports (fronts ssl_enabled cfg spec) ≡ some own)
      × (any p own ≡ true → any p sites ≡ true)
http_sites-member p ssl_enabled [] after key cfg spec port_map ports sites n r =
    let (own, more, a, b, c) =
      http_sites-cons ssl_enabled key cfg spec after port_map ports sites n r in
    (own, a, λ h. subst (λ s. any p s ≡ true) c (any-append_left p own more h))
http_sites-member p ssl_enabled ((k, (net, s)) ∷ before) after key cfg spec port_map ports sites n
      r =
    let rest = before ++ (key, (cfg, spec)) ∷ after in
    let (items, found) = http_sites-ports ssl_enabled k net s rest port_map sites r in
    let (first, more, a, b, c) =
      http_sites-cons ssl_enabled k net s rest port_map items sites found r in
    let (own, d, e) =
      http_sites-member p ssl_enabled before after key cfg spec port_map ports more n b in
    (own, d, λ h. subst (λ t. any p t ≡ true) c (any-append_right p first more (e h)))
