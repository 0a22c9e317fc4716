-- ===== src/Deploy/Onion/Known.antt =====
-- The routes of argus/tor.py against the sites of argus/shared.py and the rules of argus/firewall.py.
use bitcoin_argus.Common.{
  ℕ, ◌≡◌, sym, ap, ◌∙◌, String, Bool, true, ◌&&◌, ◌||◌, none, some, List, [], ◌∷◌, arith, ◌==◌, any,
  inl, inr, Bool-cases, Option-cases,
}
use bitcoin_argus.Deploy.Ports.{Items}
use bitcoin_argus.Deploy.Firewall.{Rule, port_of}
use bitcoin_argus.Deploy.Sites.{
  SharedCfg, HttpSite, Front, site_of, sites_for, web_backend_port, onion_site,
}
use bitcoin_argus.Deploy.Sites.Reachable.{is_opened, same_name→eq}
use bitcoin_argus.Deploy.Onion.{http, tcp, OnionRoute, Link, route_of, dashboard_onion_port}
use bitcoin_argus.Deploy.Onion.Names.{is_site}

-- A site has the ports of a route.
unfoldable pub is_fronted : List HttpSite → OnionRoute → Bool
is_fronted sites r =
    any (λ s. (s.public_port == r.virtual_port) && (s.backend_port == r.target_port)) sites

-- A local port that serves the root of the dashboard.
unfoldable pub is_served : SharedCfg → ℕ → Bool
is_served cfg port = (port == web_backend_port) || any (λ s. s.0 == port) (onion_site cfg)

-- The route of the dashboard is on the port of the root and leads to a port that serves it. Any other
-- is on a port that the firewall opens; a web route leads where the site on that port leads, and one for
-- peers leads to its own port.
unfoldable pub is_known : SharedCfg → List HttpSite → List Rule → OnionRoute → Bool
is_known cfg sites rules r = elim r.net_key [
  | none ↦
      cfg.web_enabled && ((r.virtual_port == dashboard_onion_port) && is_served cfg r.target_port)
  | some key ↦
      is_opened rules r.virtual_port
      && elim r.kind [ http ↦ is_fronted sites r | tcp ↦ r.target_port == r.virtual_port ]
]

site_of-ports :
    (ports : Items) (f : Front) (s : HttpSite)
    → site_of ports f ≡ some s
    → (port_of f.public ports ≡ some s.public_port)
      × (port_of f.backend ports ≡ some s.backend_port)
unfolding site_of
site_of-ports ports f s h = elim (Option-cases (port_of f.public ports)) [
  | inl n ↦ absurd (ground arith)
  | inr (p, n) ↦ elim (Option-cases (port_of f.backend ports)) [
    | inl m ↦ absurd (ground arith)
    | inr (b, m) ↦
        let same : record { public_port = p; backend_port = b; ssl = f.ssl; h2c = f.h2c } ≡ s =
          ground arith in
        (n ∙ ap (λ t. some t.public_port) same, m ∙ ap (λ t. some t.backend_port) same)
  ]
]

pub sites_for-fronted :
    (ports : Items) (l : Link) (r : OnionRoute) (fs : List Front) (sites : List HttpSite)
    → sites_for ports fs ≡ some sites
    → port_of l.virtual ports ≡ some r.virtual_port
    → port_of l.target ports ≡ some r.target_port
    → any (is_site l) fs ≡ true
    → is_fronted sites r ≡ true
unfolding sites_for is_fronted
sites_for-fronted ports l r [] sites e v t h = cc
sites_for-fronted ports l r (f ∷ fs) sites e v t h = elim (Option-cases (site_of ports f)) [
  | inl n ↦ absurd (ground arith)
  | inr (s, n) ↦ elim (Option-cases (sites_for ports fs)) [
    | inl m ↦ absurd (ground arith)
    | inr (more, m) ↦
        let same : s ∷ more ≡ sites = ground arith in
        elim (Bool-cases (is_site l f)) [
          | inl here ↦
              let public : l.virtual ≡ f.public = same_name→eq l.virtual f.public (ground arith) in
              let backend : l.target ≡ f.backend = same_name→eq l.target f.backend (ground arith) in
              let ports_of_site = site_of-ports ports f s n in
              let a : some s.public_port ≡ some r.virtual_port =
                sym ports_of_site.0 ∙ (ap (λ q. port_of q ports) (sym public) ∙ v) in
              let b : some s.backend_port ≡ some r.target_port =
                sym ports_of_site.1 ∙ (ap (λ q. port_of q ports) (sym backend) ∙ t) in
              rw (← same) (ground arith)
          | inr other ↦
              let later = sites_for-fronted ports l r fs more m v t (ground arith) in
              rw (← same) (ground (arith, later))
        ]
  ]
]

-- A route of a network has the ports of its link.
pub route_of-ports :
    (key : String) (ports : Items) (l : Link) (r : OnionRoute)
    → route_of key ports l ≡ some r
    → (port_of l.virtual ports ≡ some r.virtual_port)
      × (port_of l.target ports ≡ some r.target_port)
      × (r.kind ≡ l.kind)
      × (r.net_key ≡ some key)
unfolding route_of
route_of-ports key ports l r h = elim (Option-cases (port_of l.virtual ports)) [
  | inl n ↦ absurd (ground arith)
  | inr (v, n) ↦ elim (Option-cases (port_of l.target ports)) [
    | inl m ↦ absurd (ground arith)
    | inr (t, m) ↦
        let same : record { net_key = some key; virtual_port = v; target_port = t; kind = l.kind }
            ≡ r =
          ground arith in
        (
          n ∙ ap (λ q. some q.virtual_port) same,
          m ∙ ap (λ q. some q.target_port) same,
          sym (ap (λ q. q.kind) same),
          sym (ap (λ q. q.net_key) same),
        )
  ]
]
