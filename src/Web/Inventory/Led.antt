-- ===== src/Web/Inventory/Led.antt =====
-- Where the links of argus/web/inventory.py lead, against the sites of argus/shared.py.
use bitcoin_argus.Common.{
  ℕ, ◌≡◌, refl, sym, ap, ◌∙◌, String, Bool, true, ◌&&◌, Option, some, List, [], ◌∷◌, ◌++◌, ◌==◌,
  arith, any, All, inl, inr, Bool-cases, Option-cases,
}
use bitcoin_argus.Common.Float.{Float}
use bitcoin_argus.Common.Traverse.{All-traverse}
use bitcoin_argus.Deploy.Network.{NetworkSpec, PortName}
use bitcoin_argus.Deploy.Ports.{Items}
use bitcoin_argus.Deploy.Firewall.{port_of, ports_of}
use bitcoin_argus.Deploy.Sites.{SiteCfg, HttpSite, Front, fronts, site_of, sites_for, http_sites}
use bitcoin_argus.Deploy.Sites.Reachable.{same_name→eq}
use bitcoin_argus.Web.Inventory.{
  Bucket, Link, on_port, wallet, faucet, elsewhere, Nodes, planned_rows,
}
use bitcoin_argus.Web.Inventory.Links.{same_bool, is_front, leads, planned_rows-Led}
use bitcoin_argus.Web.Inventory.Rows.{
  LinkRef, site_link, wallet_link, faucet_link, outside, OnionView, Usage, ServiceRow, on_onion,
  link_ref, service_row, service_rows,
}
use bitcoin_argus.Web.Inventory.Shown.{service_row-parts}
use bitcoin_argus.Web.Inventory.Members.{Nets, http_sites-member}

-- A site answers on the port with the scheme.
unfoldable pub answers : List HttpSite → Bool → ℕ → Bool
answers sites https port = any (λ s. (s.public_port == port) && same_bool s.ssl https) sites

-- Every port that a link names is answered with the link's scheme.
unfoldable pub is_live : List HttpSite → LinkRef → Bool
is_live sites (site_link https port onion) = answers sites https port
is_live sites (wallet_link https port mint onion) =
    answers sites https port && answers sites https mint
is_live sites (faucet_link onion) = true
is_live sites outside = true

site_of-front :
    (ports : Items) (f : Front) (s : HttpSite)
    → site_of ports f ≡ some s
    → (port_of f.public ports ≡ some s.public_port) × (s.ssl ≡ f.ssl)
unfolding site_of
site_of-front ports f s h = elim (Option-cases (port_of f.public ports)) [
  | inl n ↦ absurd (ground arith)
  | inr (p, n) ↦ elim (Option-cases (port_of f.backend ports)) [
    | inl m ↦ absurd (ground arith)
    | inr (b, m) ↦
        let same : record { public_port = p; backend_port = b; ssl = f.ssl; h2c = f.h2c } ≡ s =
          ground arith in
        (n ∙ ap (λ t. some t.public_port) same, sym (ap (λ t. t.ssl) same))
  ]
]

sites_for-answers :
    (ports : Items) (https : Bool) (name : PortName) (p : ℕ) (fs : List Front)
    (sites : List HttpSite)
    → sites_for ports fs ≡ some sites
    → port_of name ports ≡ some p
    → any (is_front https name) fs ≡ true
    → answers sites https p ≡ true
unfolding sites_for answers
sites_for-answers ports https name p [] sites e n h = cc
sites_for-answers ports https name p (f ∷ fs) sites e n h = elim (Option-cases (site_of ports f)) [
  | inl a ↦ absurd (ground arith)
  | inr (s, a) ↦ elim (Option-cases (sites_for ports fs)) [
    | inl m ↦ absurd (ground arith)
    | inr (more, m) ↦
        let same : s ∷ more ≡ sites = ground arith in
        elim (Bool-cases (is_front https name f)) [
          | inl here ↦
              let public : name ≡ f.public = same_name→eq name f.public (ground arith) in
              let front = site_of-front ports f s a in
              let port : some s.public_port ≡ some p =
                sym front.0 ∙ (ap (λ q. port_of q ports) (sym public) ∙ n) in
              rw (← same) (ground (arith, front.1))
          | inr other ↦
              let later = sites_for-answers ports https name p fs more m n (ground arith) in
              rw (← same) (ground (arith, later))
        ]
  ]
]

link_ref-live :
    (view : OnionView) (ports : Items) (fs : List Front) (sites : List HttpSite)
    → ((https : Bool) (name : PortName) (p : ℕ)
        → port_of name ports ≡ some p
        → any (is_front https name) fs ≡ true
        → answers sites https p ≡ true)
    → (l : Link) (r : LinkRef) → link_ref view ports l ≡ some r
    → leads fs l ≡ true
    → is_live sites r ≡ true
unfolding link_ref is_live
link_ref-live view ports fs sites f (on_port https name) r e h =
    elim (Option-cases (port_of name ports)) [
      | inl n ↦ absurd (ground arith)
      | inr (p, n) ↦
          let same : site_link https p (on_onion view p) ≡ r = ground arith in
          rw (← same) (f https name p n h)
    ]
link_ref-live view ports fs sites f (wallet https name mint) r e h =
    elim (Option-cases (port_of name ports)) [
      | inl n ↦ absurd (ground arith)
      | inr (w, n) ↦ elim (Option-cases (port_of mint ports)) [
        | inl o ↦ absurd (ground arith)
        | inr (m, o) ↦
            let same : wallet_link https w m (on_onion view w && on_onion view m) ≡ r =
              ground arith in
            let page = f https name w n (ground arith) in
            let other = f https mint m o (ground arith) in rw (← same) (ground (arith, page, other))
      ]
    ]
link_ref-live view ports fs sites f faucet r e h =
    let same : faucet_link view.faucet ≡ r = ground arith in rw (← same) refl
link_ref-live view ports fs sites f elsewhere r e h =
    let same : outside ≡ r = ground arith in rw (← same) refl

-- If the sites are written for the enabled networks, every link in the rows of one of them that leads
-- to a port of the host, and the mint that the link to the wallet names, is answered by a site with
-- the link's scheme.
pub service_rows-live :
    {fl : Float} (usage : Bucket → Option (Usage fl)) (view : OnionView) (ssl_enabled : Bool)
    (port_map : List (String × Items)) (before after : Nets) (key : String) (cfg : SiteCfg)
    (spec : NetworkSpec) (nodes : Nodes) (ports : Items) (sites : List HttpSite)
    (rows : List (ServiceRow fl))
    → ports_of key port_map ≡ some ports
    → http_sites ssl_enabled (before ++ (key, (cfg, spec)) ∷ after) port_map ≡ some sites
    → service_rows usage view ssl_enabled key cfg spec nodes ports ≡ some rows
    → All (λ r. All (λ l. is_live sites l ≡ true) r.links) rows
unfolding service_rows answers
service_rows-live usage view ssl_enabled port_map before after key cfg spec nodes ports sites rows
      found fronted e =
    let fs = fronts ssl_enabled cfg spec in
    let live : (https : Bool) (name : PortName) (p : ℕ)
        → port_of name ports ≡ some p
        → any (is_front https name) fs ≡ true
        → answers sites https p ≡ true =
      λ https name p n h.
        let (own, a, more) =
          http_sites-member (λ s. (s.public_port == p) && same_bool s.ssl https) ssl_enabled before
            after key cfg spec port_map ports sites found fronted in
        more (sites_for-answers ports https name p fs own a n h) in
    All-traverse (λ r. All (λ l. leads fs l ≡ true) r.links)
      (λ s. All (λ l. is_live sites l ≡ true) s.links) (service_row usage view ports)
      (planned_rows ssl_enabled key cfg spec nodes) rows
      (λ r s made.
        All-traverse (λ l. leads fs l ≡ true) (λ l. is_live sites l ≡ true) (link_ref view ports)
          r.links s.links (link_ref-live view ports fs sites live)
          (service_row-parts usage view ports r s made).1)
      e (planned_rows-Led ssl_enabled key cfg spec nodes)
