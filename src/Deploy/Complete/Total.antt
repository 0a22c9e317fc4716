-- ===== src/Deploy/Complete/Total.antt =====
-- The rules, the sites and the routes are written for whatever is given out.
use bitcoin_argus.Common.{
  ◌+◌, ◌-◌, ◌≡◌, refl, String, Bool, true, Option, some, List, [], ◌∷◌, ◌++◌, arith, All, All-imp,
}
use bitcoin_argus.Deploy.Network.{NetworkSpec, PortName}
use bitcoin_argus.Deploy.Ports.{Items, allocated, network_ports}
use bitcoin_argus.Deploy.Firewall.{Opening, openings, rules_for, ports_of, public_rules}
use bitcoin_argus.Deploy.Sites.{SiteCfg, TorCfg, Front, fronts, site_of, sites_for, http_sites}
use bitcoin_argus.Deploy.Sites.Reachable.{public_nets}
use bitcoin_argus.Deploy.Onion.{Link, links, route_of, routes_for, network_routes}
use bitcoin_argus.Deploy.Complete.Given.{is_given, is_given-network_ports, port_of-given}
use bitcoin_argus.Deploy.Complete.Names.{openings-Named}
use bitcoin_argus.Deploy.Complete.Fronts.{fronts-Sited, links-Named}

abbrev pub Nets : Type 0
Nets = List (String × (SiteCfg × NetworkSpec))

-- A value that is there.
abbrev pub Made {ℓ} : {A : Type ℓ} → Option A → Type ℓ
Made {A = A} o = (a : A) × (o ≡ some a)

module _ (ports : Items) where
  rules_for-Made :
      (os : List Opening) → All (λ o. is_given o.name ports ≡ true) os → Made (rules_for ports os)
  unfolding rules_for
  rules_for-Made [] h = ([], refl)
  rules_for-Made (o ∷ os) h =
      let (p, e) = port_of-given o.name ports h.0 in
      let (rules, f) = rules_for-Made os h.1 in
      (record { first = p; last = p + o.size - 1 } ∷ rules, ground arith)

  site_of-Made :
      (f : Front)
      → is_given f.public ports ≡ true
      → is_given f.backend ports ≡ true
      → Made (site_of ports f)
  unfolding site_of
  site_of-Made f h k =
      let (p, e) = port_of-given f.public ports h in
      let (b, g) = port_of-given f.backend ports k in
      (record { public_port = p; backend_port = b; ssl = f.ssl; h2c = f.h2c }, ground arith)

  sites_for-Made :
      (fs : List Front)
      → All (λ f. (is_given f.public ports ≡ true) × (is_given f.backend ports ≡ true)) fs
      → Made (sites_for ports fs)
  unfolding sites_for
  sites_for-Made [] h = ([], refl)
  sites_for-Made (f ∷ fs) h =
      let (s, e) = site_of-Made f h.0.0 h.0.1 in
      let (sites, g) = sites_for-Made fs h.1 in (s ∷ sites, ground arith)

  route_of-Made :
      (key : String) (l : Link)
      → is_given l.virtual ports ≡ true
      → is_given l.target ports ≡ true
      → Made (route_of key ports l)
  unfolding route_of
  route_of-Made key l h k =
      let (v, e) = port_of-given l.virtual ports h in
      let (t, g) = port_of-given l.target ports k in
      (
        record { net_key = some key; virtual_port = v; target_port = t; kind = l.kind },
        ground arith,
      )

  routes_for-Made :
      (key : String) (ls : List Link)
      → All (λ l. (is_given l.virtual ports ≡ true) × (is_given l.target ports ≡ true)) ls
      → Made (routes_for key ports ls)
  unfolding routes_for
  routes_for-Made key [] h = ([], refl)
  routes_for-Made key (l ∷ ls) h =
      let (r, e) = route_of-Made key l h.0.0 h.0.1 in
      let (routes, g) = routes_for-Made key ls h.1 in (r ∷ routes, ground arith)

-- The networks of the settings have the ports that were given to them.
abbrev pub Served : List (String × Items) → Nets → Type 0
Served result nets =
    All
      (λ n.
        (ports : Items) × (ports_of n.0 result ≡ some ports)
        × (network_ports n.0 n.1.0.public.network n.1.1 ≡ allocated ports))
      nets

pub public_rules-Made :
    (result : List (String × Items)) (nets : Nets)
    → Served result nets
    → Made (public_rules (public_nets nets) result)
unfolding public_rules public_nets
public_rules-Made result [] h = ([], refl)
public_rules-Made result ((key, (cfg, spec)) ∷ nets) h =
    let (ports, found, made) = h.0 in
    let (own, e) = rules_for-Made ports (openings cfg.public spec) (
      All-imp _ (λ o. is_given o.name ports ≡ true) (openings cfg.public spec)
        (λ o. is_given-network_ports o.name key cfg.public.network spec ports made)
        (openings-Named key cfg.public spec)) in
    let (more, f) = public_rules-Made result nets h.1 in (own ++ more, ground arith)

pub http_sites-Made :
    (ssl_enabled : Bool) (result : List (String × Items)) (nets : Nets)
    → Served result nets
    → Made (http_sites ssl_enabled nets result)
unfolding http_sites
http_sites-Made ssl_enabled result [] h = ([], refl)
http_sites-Made ssl_enabled result ((key, (cfg, spec)) ∷ nets) h =
    let (ports, found, made) = h.0 in
    let given = λ (n : PortName). is_given-network_ports n key cfg.public.network spec ports made in
    let (own, e) = sites_for-Made ports (fronts ssl_enabled cfg spec) (
      All-imp _ (λ f. (is_given f.public ports ≡ true) × (is_given f.backend ports ≡ true))
        (fronts ssl_enabled cfg spec) (λ f k. (given f.public k.0, given f.backend k.1))
        (fronts-Sited ssl_enabled key cfg spec)) in
    let (more, f) = http_sites-Made ssl_enabled result nets h.1 in (own ++ more, ground arith)

pub network_routes-Made :
    (ssl_enabled : Bool) (tor : TorCfg) (result : List (String × Items)) (nets : Nets)
    → Served result nets
    → Made (network_routes tor nets result)
unfolding network_routes
network_routes-Made ssl_enabled tor result [] h = ([], refl)
network_routes-Made ssl_enabled tor result ((key, (cfg, spec)) ∷ nets) h =
    let (ports, found, made) = h.0 in
    let given = λ (n : PortName). is_given-network_ports n key cfg.public.network spec ports made in
    let (own, e) = routes_for-Made ports key (links tor cfg spec) (
      All-imp _ (λ l. (is_given l.virtual ports ≡ true) × (is_given l.target ports ≡ true))
        (links tor cfg spec) (λ l k. (given l.virtual k.0, given l.target k.1))
        (links-Named ssl_enabled key cfg spec tor)) in
    let (more, f) = network_routes-Made ssl_enabled tor result nets h.1 in
    (own ++ more, ground arith)
