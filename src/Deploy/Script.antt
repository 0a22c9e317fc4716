-- ===== src/Deploy/Script.antt =====
-- The rules of the whole firewall script (argus/firewall.py) and the settings of torrc (argus/tor.py),
-- without their comments and the fixed lines around them.
pub mod Reachable
use bitcoin_argus.Common.{
  ℕ, Bool, true, false, ◌&&◌, ◌||◌, not, String, Option, none, some, List, [], ◌∷◌, ◌++◌, map, ◌==◌,
  if◌then◌else◌,
}
use bitcoin_argus.Deploy.Ports.{Items}
use bitcoin_argus.Deploy.Firewall.{Rule, public_rules}
use bitcoin_argus.Deploy.Sites.{SharedCfg, web_public_port}
use bitcoin_argus.Deploy.Sites.Reachable.{public_nets}
use bitcoin_argus.Deploy.Onion.{OnionRoute, onion_routes, socks_open_to_containers}

abbrev pub tor_socks_port : ℕ
tor_socks_port = 9050

-- `ufw allow`, from anywhere or from the range of the containers alone.
pub data Allow : Type 0 where
  anywhere : Rule → Allow
  from_containers : ℕ → Allow

abbrev pub at_port : ℕ → Allow
at_port port = anywhere (record { first = port; last = port })

unfoldable pub dashboard_allow : SharedCfg → List Allow
dashboard_allow cfg =
    let web_port = web_public_port cfg in
    let covered = cfg.ssl_enabled && ((web_port == 80) || (web_port == 443)) in
    if cfg.web_enabled && not covered then at_port web_port ∷ [] else []

unfoldable pub socks_allow : SharedCfg → List Allow
socks_allow cfg =
    if cfg.tor.enabled && cfg.tor.expose_lnd_p2p then from_containers tor_socks_port ∷ [] else []

-- `render_firewall`
unfoldable pub render_firewall : SharedCfg → List (String × Items) → Option (List Allow)
render_firewall cfg port_map = elim (public_rules (public_nets cfg.enabled_networks) port_map) [
  | none ↦ none
  | some rules ↦ some (
      at_port 22 ∷ (if cfg.ssl_enabled then at_port 80 ∷ at_port 443 ∷ [] else [])
      ++ (dashboard_allow cfg ++ (map anywhere rules ++ socks_allow cfg)))
]

-- Where tor's proxy listens: on all interfaces for the private ranges, or on the loopback.
pub record Torrc : Type 0 where
  pub socks_on_all : Bool
  pub socks_port : ℕ
  pub hidden_service_ports : List (ℕ × ℕ)

-- `render_torrc`
unfoldable pub render_torrc : SharedCfg → List (String × Items) → Option Torrc
render_torrc cfg port_map = elim (onion_routes cfg port_map) [
  | none ↦ none
  | some routes ↦ some (record {
    socks_on_all = socks_open_to_containers cfg;
    socks_port = tor_socks_port;
    hidden_service_ports = map (λ r. (r.virtual_port, r.target_port)) routes;
  })
]
