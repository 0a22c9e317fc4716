-- ===== src/Deploy/Script/Reachable.antt =====
-- What the firewall script of argus/firewall.py lets through, against what Caddy and tor listen on.
use bitcoin_argus.Common.{
  ℕ, ◌≡◌, refl, Bool, true, false, ◌&&◌, ◌||◌, String, some, List, [], ◌∷◌, map, arith, ◌==◌, any,
  All, All-imp, inl, inr, Bool-cases, Option-cases, if◌then◌else◌,
}
use bitcoin_argus.Common.Segments.{flatten, any-flatten}
use bitcoin_argus.Deploy.Ports.{Items}
use bitcoin_argus.Deploy.Firewall.{Rule, public_rules}
use bitcoin_argus.Deploy.Sites.{SharedCfg, HttpSite, http_sites, web_public_port}
use bitcoin_argus.Deploy.Sites.Reachable.{is_opened, public_nets, http_sites-opened}
use bitcoin_argus.Deploy.Onion.{socks_open_to_containers}
use bitcoin_argus.Deploy.Script.{
  Allow, anywhere, from_containers, at_port, dashboard_allow, socks_allow, tor_socks_port,
  render_firewall,
}

-- The script lets everyone through to a port that is the first of a rule.
abbrev pub allows_port : ℕ → Allow → Bool
allows_port port (anywhere r) = r.first == port
allows_port port (from_containers p) = false

abbrev pub allows_containers : ℕ → Allow → Bool
allows_containers port (anywhere r) = false
allows_containers port (from_containers p) = p == port

unfoldable pub lets_in : List Allow → ℕ → Bool
lets_in lines port = any (allows_port port) lines

unfoldable pub lets_containers_in : List Allow → ℕ → Bool
lets_containers_in lines port = any (allows_containers port) lines

lets_in-rules :
    (rules : List Rule) (port : ℕ)
    → is_opened rules port ≡ true
    → any (allows_port port) (map anywhere rules) ≡ true
unfolding is_opened
lets_in-rules [] port h = cc
lets_in-rules (r ∷ rules) port h = ground (arith, lets_in-rules rules port)

-- A script that was written, part by part.
abbrev parts : SharedCfg → List Rule → List (List Allow)
parts cfg rules =
    (at_port 22 ∷ [])
    ∷ (if cfg.ssl_enabled then at_port 80 ∷ at_port 443 ∷ [] else [])
    ∷ dashboard_allow cfg
    ∷ map anywhere rules
    ∷ socks_allow cfg
    ∷ []

render_firewall-parts :
    (cfg : SharedCfg) (port_map : List (String × Items)) (lines : List Allow)
    → render_firewall cfg port_map ≡ some lines
    → (rules : List Rule) × (public_rules (public_nets cfg.enabled_networks) port_map ≡ some rules)
      × (flatten (parts cfg rules) ≡ lines)
unfolding render_firewall
render_firewall-parts cfg port_map lines h =
    elim (Option-cases (public_rules (public_nets cfg.enabled_networks) port_map)) [
      | inl n ↦ absurd (ground arith)
      | inr (rules, n) ↦ (rules, n, ground arith)
    ]

dashboard-lets_in :
    (cfg : SharedCfg) (rules : List Rule)
    → cfg.web_enabled ≡ true
    → lets_in (flatten (parts cfg rules)) (web_public_port cfg) ≡ true
unfolding dashboard_allow lets_in
dashboard-lets_in cfg rules h =
    let port = web_public_port cfg in
    let p = allows_port port in
    elim (Bool-cases (cfg.ssl_enabled && ((port == 80) || (port == 443)))) [
      | inl covered ↦
          let ssl : cfg.ssl_enabled ≡ true = ground arith in
          any-flatten p 1 (parts cfg rules) (rw ssl (ground arith))
      | inr open_port ↦ any-flatten p 2 (parts cfg rules) (rw (open_port, h) (ground arith))
    ]

-- If the script and the sites are written for the same ports, the script lets everyone through to the
-- public port of every site, and to the dashboard's if it is on; and it lets the containers through
-- to tor's proxy if the proxy listens for them.
pub render_firewall-reachable :
    (cfg : SharedCfg) (port_map : List (String × Items)) (lines : List Allow)
    (sites : List HttpSite)
    → render_firewall cfg port_map ≡ some lines
    → http_sites cfg.ssl_enabled cfg.enabled_networks port_map ≡ some sites
    → All (λ s. lets_in lines s.public_port ≡ true) sites
      × (cfg.web_enabled ≡ true → lets_in lines (web_public_port cfg) ≡ true)
      × (socks_open_to_containers cfg ≡ true → lets_containers_in lines tor_socks_port ≡ true)
unfolding lets_in lets_containers_in socks_open_to_containers socks_allow
render_firewall-reachable cfg port_map lines sites written fronted =
    let (rules, r, same) = render_firewall-parts cfg port_map lines written in
    rw (← same) (
      All-imp (λ s. is_opened rules s.public_port ≡ true)
          (λ s. lets_in (flatten (parts cfg rules)) s.public_port ≡ true) sites
          (λ s h.
            any-flatten (allows_port s.public_port) 3 (parts cfg rules)
              (lets_in-rules rules s.public_port h))
          (http_sites-opened cfg.ssl_enabled cfg.enabled_networks port_map sites rules fronted r),
      dashboard-lets_in cfg rules,
      λ h.
          let needed : (cfg.tor.enabled && cfg.tor.expose_lnd_p2p) ≡ true = ground arith in
          any-flatten (allows_containers tor_socks_port) 4 (parts cfg rules) (rw needed refl),
    )
