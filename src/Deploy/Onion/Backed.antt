-- ===== src/Deploy/Onion/Backed.antt =====
-- What the routes of argus/tor.py can reach, over the ports that argus/ports.py gives out.
use mathlib.Core.Path.{subst}
use bitcoin_argus.Common.{
  ℕ, ◌≡◌, ◌⊎◌, refl, sym, ◌∙◌, String, Bool, true, some, List, [], ◌∷◌, ◌++◌, arith, ==_iff, any,
  any-append_left, any-append_right, All, All-append, All-imp, inl, inr, Option-cases,
}
use bitcoin_argus.Deploy.Network.{NetworkSpec}
use bitcoin_argus.Deploy.Ports.{Items}
use bitcoin_argus.Deploy.Firewall.{Opening, openings, Rule, rules_for, ports_of, public_rules}
use bitcoin_argus.Deploy.Sites.{SiteCfg, SharedCfg, HttpSite, Front, fronts, sites_for, http_sites}
use bitcoin_argus.Deploy.Sites.Opened.{Opens}
use bitcoin_argus.Deploy.Sites.Reachable.{
  is_opened, public_nets, rules_for-opened, is_opened-first, is_opened-last, public_rules-cons,
}
use bitcoin_argus.Deploy.Onion.{
  RouteKind, http, tcp, OnionRoute, Link, links, route_of, routes_for, network_routes,
}
use bitcoin_argus.Deploy.Onion.Names.{is_site, Fronted, links-Known}
use bitcoin_argus.Deploy.Onion.Known.{is_fronted, is_known, sites_for-fronted, route_of-ports}

pub RouteKind-cases : (k : RouteKind) → (k ≡ http) ⊎ (k ≡ tcp)
RouteKind-cases http = inl refl
RouteKind-cases tcp = inr refl

abbrev pub Targets : List Front → Link → RouteKind → Type 0
Targets fs l k = elim k [ http ↦ any (is_site l) fs ≡ true | tcp ↦ l.target ≡ l.virtual ]

route_of-known :
    (cfg : SharedCfg) (key : String) (ports : Items) (l : Link) (r : OnionRoute) (fs : List Front)
    (sites : List HttpSite) (os : List Opening) (rules : List Rule)
    → route_of key ports l ≡ some r
    → sites_for ports fs ≡ some sites
    → rules_for ports os ≡ some rules
    → Opens os l.virtual
    → Fronted fs l
    → is_known cfg sites rules r ≡ true
unfolding is_known is_fronted
route_of-known cfg key ports l r fs sites os rules e s o opens fronted =
    let (v, t, kind, net) = route_of-ports key ports l r e in
    let opened = rules_for-opened l.virtual r.virtual_port ports os rules o opens v in
    elim (RouteKind-cases l.kind) [
      | inl k ↦
          let site : any (is_site l) fs ≡ true = subst (Targets fs l) k fronted in
          let found = sites_for-fronted ports l r fs sites s v t site in
          rw (net, kind, k, opened, found) refl
      | inr k ↦
          let itself : l.target ≡ l.virtual = subst (Targets fs l) k fronted in
          let same : some r.target_port ≡ some r.virtual_port = sym t ∙ (rw (itself) v) in
          let equal : r.target_port ≡ r.virtual_port = ground arith in
          rw (net, kind, k, opened) ((==_iff r.target_port r.virtual_port).1 equal)
    ]

abbrev pub AllKnown : SharedCfg → List HttpSite → List Rule → List OnionRoute → Type 0
AllKnown cfg sites rules routes = All (λ r. is_known cfg sites rules r ≡ true) routes

routes_for-known :
    (cfg : SharedCfg) (key : String) (ports : Items) (fs : List Front) (sites : List HttpSite)
    (os : List Opening) (rules : List Rule) (ls : List Link) (routes : List OnionRoute)
    → sites_for ports fs ≡ some sites
    → rules_for ports os ≡ some rules
    → All (λ l. Opens os l.virtual × Fronted fs l) ls
    → routes_for key ports ls ≡ some routes
    → AllKnown cfg sites rules routes
unfolding routes_for
routes_for-known cfg key ports fs sites os rules [] routes s o h e =
    let same : [] ≡ routes = ground arith in subst (AllKnown cfg sites rules) same tt
routes_for-known cfg key ports fs sites os rules (l ∷ ls) routes s o h e =
    elim (Option-cases (route_of key ports l)) [
      | inl n ↦ absurd (ground arith)
      | inr (r, n) ↦ elim (Option-cases (routes_for key ports ls)) [
        | inl m ↦ absurd (ground arith)
        | inr (more, m) ↦
            let same : r ∷ more ≡ routes = ground arith in
            subst (AllKnown cfg sites rules) same (
              route_of-known cfg key ports l r fs sites os rules n s o h.0.0 h.0.1,
              routes_for-known cfg key ports fs sites os rules ls more s o h.1 m,
            )
      ]
    ]

-- What is known stays known with more sites and rules.
is_known-more :
    (cfg : SharedCfg) (sites sites' : List HttpSite) (rules rules' : List Rule)
    → ((r : OnionRoute) → is_fronted sites r ≡ true → is_fronted sites' r ≡ true)
    → ((p : ℕ) → is_opened rules p ≡ true → is_opened rules' p ≡ true)
    → (r : OnionRoute) → is_known cfg sites rules r ≡ true
    → is_known cfg sites' rules' r ≡ true
unfolding is_known
is_known-more cfg sites sites' rules rules' f g r h = elim (Option-cases r.net_key) [
  | inl n ↦ ground arith
  | inr (key, n) ↦ elim (RouteKind-cases r.kind) [
    | inl k ↦ ground (arith, f r, g r.virtual_port)
    | inr k ↦ ground (arith, g r.virtual_port)
  ]
]

-- What the sites of a first network and of the others come to.
pub http_sites-cons :
    (ssl_enabled : Bool) (key : String) (cfg : SiteCfg) (spec : NetworkSpec)
    (nets : List (String × (SiteCfg × NetworkSpec))) (port_map : List (String × Items))
    (ports : Items) (sites : List HttpSite)
    → ports_of key port_map ≡ some ports
    → http_sites ssl_enabled ((key, (cfg, spec)) ∷ nets) port_map ≡ some sites
    → (own : List HttpSite) × (more : List HttpSite) × (sites_for ports
          (fronts ssl_enabled cfg spec)
        ≡ some own)
      × (http_sites ssl_enabled nets port_map ≡ some more)
      × (own ++ more ≡ sites)
unfolding http_sites
http_sites-cons ssl_enabled key cfg spec nets port_map ports sites n r =
    elim (Option-cases (sites_for ports (fronts ssl_enabled cfg spec))) [
      | inl m ↦ absurd (ground arith)
      | inr (own, m) ↦ elim (Option-cases (http_sites ssl_enabled nets port_map)) [
        | inl o ↦ absurd (ground arith)
        | inr (more, o) ↦ (own, more, m, o, ground arith)
      ]
    ]

is_fronted-first :
    (own more : List HttpSite) (r : OnionRoute)
    → is_fronted own r ≡ true
    → is_fronted (own ++ more) r ≡ true
unfolding is_fronted
is_fronted-first own more r h = any-append_left _ own more h

is_fronted-last :
    (own more : List HttpSite) (r : OnionRoute)
    → is_fronted more r ≡ true
    → is_fronted (own ++ more) r ≡ true
unfolding is_fronted
is_fronted-last own more r h = any-append_right _ own more h

pub network_routes-known :
    (cfg : SharedCfg) (ssl_enabled : Bool) (nets : List (String × (SiteCfg × NetworkSpec)))
    (port_map : List (String × Items)) (sites : List HttpSite) (rules : List Rule)
    (routes : List OnionRoute)
    → http_sites ssl_enabled nets port_map ≡ some sites
    → public_rules (public_nets nets) port_map ≡ some rules
    → network_routes cfg.tor nets port_map ≡ some routes
    → AllKnown cfg sites rules routes
unfolding network_routes public_nets
network_routes-known cfg ssl_enabled [] port_map sites rules routes s o e =
    let same : [] ≡ routes = ground arith in subst (AllKnown cfg sites rules) same tt
network_routes-known cfg ssl_enabled ((key, (net, spec)) ∷ nets) port_map sites rules routes s o e =
    elim (Option-cases (ports_of key port_map)) [
      | inl n ↦ absurd (ground arith)
      | inr (ports, n) ↦ elim (Option-cases (routes_for key ports (links cfg.tor net spec))) [
        | inl m ↦ absurd (ground arith)
        | inr (first, m) ↦ elim (Option-cases (network_routes cfg.tor nets port_map)) [
          | inl q ↦ absurd (ground arith)
          | inr (last, q) ↦
              let (own, more, a, b, c) =
                public_rules-cons key net.public spec (public_nets nets) port_map ports rules n o in
              let (site, rest, u, v, w) =
                http_sites-cons ssl_enabled key net spec nets port_map ports sites n s in
              let same : first ++ last ≡ routes = ground arith in
              let known : OnionRoute → Type 0 =
                λ r. is_known cfg (site ++ rest) (own ++ more) r ≡ true in
              let here =
                All-imp _ known first
                  (is_known-more cfg site (site ++ rest) own (own ++ more)
                    (is_fronted-first site rest) (is_opened-first own more))
                  (routes_for-known cfg key ports (fronts ssl_enabled net spec) site
                    (openings net.public spec) own (links cfg.tor net spec) first u a
                    (links-Known ssl_enabled cfg.tor net spec) m) in
              let there =
                All-imp _ known last
                  (is_known-more cfg rest (site ++ rest) more (own ++ more)
                    (is_fronted-last site rest) (is_opened-last own more))
                  (network_routes-known cfg ssl_enabled nets port_map rest more last v b q) in
              rw (← w, ← c, ← same) (All-append known first last here there)
        ]
      ]
    ]
