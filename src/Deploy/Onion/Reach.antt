-- ===== src/Deploy/Onion/Reach.antt =====
-- What the onion service of argus/tor.py can reach, over the ports that argus/ports.py gives out.
use mathlib.Core.Path.{subst}
use bitcoin_argus.Common.{
  ℕ, ◌≡◌, refl, String, true, ◌&&◌, Option, none, some, List, [], ◌∷◌, ◌++◌, arith, ◌==◌, ==_iff,
  All, All-append, All-imp, inl, inr, Bool-cases, Option-cases,
}
use bitcoin_argus.Deploy.Network.{NetworkCfg}
use bitcoin_argus.Deploy.Ports.{Items, allocated, allocate}
use bitcoin_argus.Deploy.Firewall.{Rule, public_rules}
use bitcoin_argus.Deploy.Firewall.Closed.{closed_uses, public_rules-closed}
use bitcoin_argus.Deploy.Sites.{SharedCfg, HttpSite, http_sites, onion_web_path_routed, onion_site}
use bitcoin_argus.Deploy.Sites.Reachable.{is_opened, public_nets}
use bitcoin_argus.Deploy.Onion.{OnionRoute, network_routes, dashboard_routes, onion_routes}
use bitcoin_argus.Deploy.Onion.Known.{is_served, is_known}
use bitcoin_argus.Deploy.Onion.Backed.{AllKnown, network_routes-known}

dashboard_routes-known :
    (cfg : SharedCfg) (sites : List HttpSite) (rules : List Rule)
    → AllKnown cfg sites rules (dashboard_routes cfg)
unfolding dashboard_routes is_known is_served onion_site
dashboard_routes-known cfg sites rules = elim (Bool-cases (cfg.tor.expose_web && cfg.web_enabled)) [
  | inl e ↦
      let enabled : cfg.web_enabled ≡ true = ground arith in
      elim (Bool-cases (onion_web_path_routed cfg)) [
        | inl routed ↦ rw (e, routed, enabled) (refl, tt)
        | inr direct ↦ rw (e, direct, enabled) (refl, tt)
      ]
  | inr e ↦ rw e tt
]

-- If the routes, the sites and the firewall's rules are written for the same ports, the route of the
-- dashboard is on port 80 and leads to a port that serves its root, and every other route is on a
-- port that a rule opens: a web route leads to the backend of the site on that port, and one for
-- peers to the port itself.
pub onion_routes-known :
    (cfg : SharedCfg) (port_map : List (String × Items)) (routes : List OnionRoute)
    (sites : List HttpSite) (rules : List Rule)
    → onion_routes cfg port_map ≡ some routes
    → http_sites cfg.ssl_enabled cfg.enabled_networks port_map ≡ some sites
    → public_rules (public_nets cfg.enabled_networks) port_map ≡ some rules
    → All (λ r. is_known cfg sites rules r ≡ true) routes
unfolding onion_routes
onion_routes-known cfg port_map routes sites rules e s o =
    elim (Option-cases (network_routes cfg.tor cfg.enabled_networks port_map)) [
      | inl n ↦ absurd (ground arith)
      | inr (own, n) ↦
          let same : own ++ dashboard_routes cfg ≡ routes = ground arith in
          subst (AllKnown cfg sites rules) same (
            All-append (λ r. is_known cfg sites rules r ≡ true) own (dashboard_routes cfg)
              (network_routes-known cfg cfg.ssl_enabled cfg.enabled_networks port_map sites rules
                own s o n)
              (dashboard_routes-known cfg sites rules))
    ]

-- A port at which a rule begins has what all rules' first ports have.
pub is_opened-closed :
    (result : List (String × Items)) (rules : List Rule) (p : ℕ)
    → All (λ r. closed_uses r.first result ≡ 0) rules
    → is_opened rules p ≡ true
    → closed_uses p result ≡ 0
unfolding is_opened
is_opened-closed result [] p h e = cc
is_opened-closed result (r ∷ rules) p h e = elim (Bool-cases (r.first == p)) [
  | inl s ↦ let same : r.first ≡ p = (==_iff r.first p).0 s in rw (← same) h.0
  | inr s ↦ is_opened-closed result rules p h.1 (ground arith)
]

-- If the ports were given out by the allocator, and the routes, the sites and the rules are written for
-- them, then no route of a network is on a port that any network has under a closed name.
pub onion_routes-closed :
    (networks : String → Option NetworkCfg) (cfg : SharedCfg) (result : List (String × Items))
    (routes : List OnionRoute) (sites : List HttpSite) (rules : List Rule)
    → allocate networks ≡ allocated result
    → onion_routes cfg result ≡ some routes
    → http_sites cfg.ssl_enabled cfg.enabled_networks result ≡ some sites
    → public_rules (public_nets cfg.enabled_networks) result ≡ some rules
    → All (λ r. ¬ (r.net_key ≡ none) → closed_uses r.virtual_port result ≡ 0) routes
unfolding is_known
onion_routes-closed networks cfg result routes sites rules given e s o =
    All-imp (λ r. is_known cfg sites rules r ≡ true)
      (λ r. ¬ (r.net_key ≡ none) → closed_uses r.virtual_port result ≡ 0) routes
      (λ r h own. elim (Option-cases r.net_key) [
        | inl n ↦ absurd (own n)
        | inr (key, n) ↦
            is_opened-closed result rules r.virtual_port
              (public_rules-closed networks result (public_nets cfg.enabled_networks) rules given o)
              (ground arith)
      ])
      (onion_routes-known cfg result routes sites rules e s o)
