-- ===== src/Deploy/Complete/Served.antt =====
-- Every network that argus/ports.py gives ports finds them under its key, and so does whoever asks for them.
use mathlib.Core.Path.{subst}
use bitcoin_argus.Common.{
  ℕ, ◌≡◌, ◌⊎◌, refl, sym, String, true, false, Option, none, some, List, [], ◌∷◌, map, arith,
  str_eq, str_eq_iff, All, inl, inr, Bool-cases, Option-cases,
}
use bitcoin_argus.Deploy.Network.{NetworkSpec, NetworkCfg}
use bitcoin_argus.Deploy.Ports.{
  Items, allocated, network_specs, enabled_from, enabled_networks, network_ports, claim_ports,
  allocate_from, allocate,
}
use bitcoin_argus.Deploy.Ports.Distinct.{and_then-allocated}
use bitcoin_argus.Deploy.Firewall.{ports_of, public_rules}
use bitcoin_argus.Deploy.Sites.{SharedCfg, http_sites}
use bitcoin_argus.Deploy.Sites.Reachable.{public_nets}
use bitcoin_argus.Deploy.Onion.{onion_routes}
use bitcoin_argus.Deploy.Complete.Total.{
  Nets, Served, public_rules-Made, http_sites-Made, network_routes-Made,
}

abbrev PlainNets : Type 0
PlainNets = List (String × (NetworkCfg × NetworkSpec))

-- The settings that the allocator reads of the networks.
unfoldable pub plain_nets : Nets → PlainNets
plain_nets nets = map (λ n. (n.0, (n.1.0.public.network, n.1.1))) nets

-- No key comes twice.
module _ {A : Type 0} where
  abbrev Fresh : String → List (String × A) → Type 0
  Fresh key rows = All (λ r. str_eq key r.0 ≡ false) rows

  abbrev Apart : List (String × A) → Type 0
  Apart [] = Unit
  Apart (r ∷ rows) = Fresh r.0 rows × Apart rows

-- A spec adds its network, if that is configured and enabled.
enabled_from-cases :
    (key : String) (spec : NetworkSpec) (specs : List (String × NetworkSpec))
    (networks : String → Option NetworkCfg)
    → (enabled_from ((key, spec) ∷ specs) networks ≡ enabled_from specs networks)
      ⊎ ((net : NetworkCfg) × (enabled_from ((key, spec) ∷ specs) networks
            ≡ (key, (net, spec)) ∷ enabled_from specs networks))
unfolding enabled_from
enabled_from-cases key spec specs networks = elim (Option-cases (networks key)) [
  | inl n ↦ inl (ground arith)
  | inr (net, n) ↦ elim (Bool-cases net.enabled) [
    | inl e ↦ inr (net, ground arith)
    | inr e ↦ inl (ground arith)
  ]
]

no_specs :
    (networks : String → Option NetworkCfg) (P : PlainNets → Type 0)
    → P []
    → P (enabled_from [] networks)
unfolding enabled_from
no_specs networks P h = h

enabled_from-Fresh :
    (key : String) (specs : List (String × NetworkSpec)) (networks : String → Option NetworkCfg)
    → Fresh key specs
    → Fresh key (enabled_from specs networks)
enabled_from-Fresh key [] networks h = no_specs networks (Fresh key) tt
enabled_from-Fresh key ((k, spec) ∷ specs) networks h =
    let rest = enabled_from-Fresh key specs networks h.1 in
    elim (enabled_from-cases k spec specs networks) [
      | inl e ↦ subst (Fresh key) (sym e) rest
      | inr (net, e) ↦ subst (Fresh key) (sym e) (h.0, rest)
    ]

enabled_from-Apart :
    (specs : List (String × NetworkSpec)) (networks : String → Option NetworkCfg)
    → Apart specs
    → Apart (enabled_from specs networks)
enabled_from-Apart [] networks h = no_specs networks Apart tt
enabled_from-Apart ((k, spec) ∷ specs) networks h =
    let rest = enabled_from-Apart specs networks h.1 in
    elim (enabled_from-cases k spec specs networks) [
      | inl e ↦ subst Apart (sym e) rest
      | inr (net, e) ↦ subst Apart (sym e) (enabled_from-Fresh k specs networks h.0, rest)
    ]

network_specs-Apart : Apart network_specs
network_specs-Apart = (
  (refl, (refl, (refl, (refl, (refl, (refl, tt)))))),
  (
    (refl, (refl, (refl, (refl, (refl, tt))))),
    (
      (refl, (refl, (refl, (refl, tt)))),
      ((refl, (refl, (refl, tt))), ((refl, (refl, tt)), ((refl, tt), (tt, tt)))),
    ),
  ),
)

-- A network has the ports that it was given.
abbrev Given : List (String × Items) → (String × (NetworkCfg × NetworkSpec)) → Type 0
Given result n =
    (ports : Items) × (ports_of n.0 result ≡ some ports)
    × (network_ports n.0 n.1.0 n.1.1 ≡ allocated ports)

Given-cons :
    (key : String) (ports : Items) (result : List (String × Items)) (nets : PlainNets)
    → Fresh key nets
    → All (Given result) nets
    → All (Given ((key, ports) ∷ result)) nets
unfolding ports_of
Given-cons key ports result [] f h = tt
Given-cons key ports result (n ∷ nets) f h =
    let (items, found, made) = h.0 in
    ((items, rw (f.0) found, made), Given-cons key ports result nets f.1 h.1)

ports_of-first :
    (key : String) (ports : Items) (result : List (String × Items))
    → ports_of key ((key, ports) ∷ result) ≡ some ports
unfolding ports_of
ports_of-first key ports result =
    let same : str_eq key key ≡ true = (str_eq_iff key key).1 refl in rw (same) refl

allocate_from-Given :
    (nets : PlainNets) (owner : List ℕ) (result : List (String × Items))
    → allocate_from nets owner ≡ allocated result
    → Apart nets
    → All (Given result) nets
unfolding allocate_from
allocate_from-Given [] owner result h apart = tt
allocate_from-Given ((key, (net, spec)) ∷ nets) owner result h apart =
    let (ports, a, b) = and_then-allocated (network_ports key net spec) _ result h in
    let (owner', c, d) = and_then-allocated (claim_ports key ports owner) _ result b in
    let (rest, e, f) = and_then-allocated (allocate_from nets owner') _ result d in
    let same : (key, ports) ∷ rest ≡ result = ground arith in
    subst (λ r. All (Given r) ((key, (net, spec)) ∷ nets)) same
      (
        (ports, ports_of-first key ports rest, a),
        Given-cons key ports rest nets apart.0 (allocate_from-Given nets owner' rest e apart.1),
      )

Given-nets :
    (result : List (String × Items)) (nets : Nets)
    → All (Given result) (plain_nets nets)
    → Served result nets
unfolding plain_nets
Given-nets result [] h = tt
Given-nets result (n ∷ nets) h = (h.0, Given-nets result nets h.1)

-- If the allocator gives ports to the networks that the settings enable, then the firewall's rules, the
-- sites of Caddy and the routes of the onion service are all written: no port that they ask for is
-- missing.
pub allocate_complete :
    (networks : String → Option NetworkCfg) (cfg : SharedCfg) (result : List (String × Items))
    → allocate networks ≡ allocated result
    → plain_nets cfg.enabled_networks ≡ enabled_networks networks
    → (¬ (public_rules (public_nets cfg.enabled_networks) result ≡ none))
      × (¬ (http_sites cfg.ssl_enabled cfg.enabled_networks result ≡ none))
      × (¬ (onion_routes cfg result ≡ none))
unfolding allocate enabled_networks onion_routes
allocate_complete networks cfg result given same =
    let nets = cfg.enabled_networks in
    let plain : All (Given result) (enabled_from network_specs networks) =
      allocate_from-Given (enabled_from network_specs networks) [] result given
        (enabled_from-Apart network_specs networks network_specs-Apart) in
    let served : Served result nets =
      Given-nets result nets (subst (All (Given result)) (sym same) plain) in
    let (rules, a) = public_rules-Made result nets served in
    let (sites, b) = http_sites-Made cfg.ssl_enabled result nets served in
    let (routes, c) = network_routes-Made cfg.ssl_enabled cfg.tor result nets served in
    (λ h. ground arith, λ h. ground arith, λ h. ground arith)
