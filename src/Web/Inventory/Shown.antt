-- ===== src/Web/Inventory/Shown.antt =====
-- What argus/web/inventory.py shows, against the rules of argus/firewall.py.
use bitcoin_argus.Common.{
  ℕ, ◌≡◌, ◌≤◌, sym, ap, ◌∙◌, String, Bool, true, false, not, ◌||◌, Option, none, some, List, [],
  ◌∷◌, ◌++◌, ◌==◌, arith, any, All, inl, inr, Bool-cases, Option-cases, str_eq,
}
use bitcoin_argus.Common.Float.{Float}
use bitcoin_argus.Common.Traverse.{traverse, All-traverse}
use bitcoin_argus.Deploy.Network.{NetworkCfg, NetworkSpec, PortName, fixed}
use bitcoin_argus.Deploy.Ports.{Items, same_name, allocated, allocate}
use bitcoin_argus.Deploy.Firewall.{
  Opening, openings, Rule, port_of, rules_for, ports_of, public_rules,
}
use bitcoin_argus.Deploy.Firewall.Closed.{
  is_closed, closed_uses_in, closed_uses, public_rules-closed, same_name-is_closed,
}
use bitcoin_argus.Deploy.Sites.{SiteCfg}
use bitcoin_argus.Deploy.Sites.Reachable.{is_opened, public_nets, same_name→eq, rules_for-opened}
use bitcoin_argus.Deploy.Onion.Reach.{is_opened-closed}
use bitcoin_argus.Web.Inventory.{Bucket, Port, Planned, Nodes, planned_rows}
use bitcoin_argus.Web.Inventory.Ports.{is_right, planned_rows-Right}
use bitcoin_argus.Web.Inventory.Rows.{
  PortRef, OnionView, Usage, ServiceRow, port_ref, link_ref, service_row, service_rows,
}
use bitcoin_argus.Web.Inventory.Members.{Nets, public_rules-member}

-- The network's own port for the peers of its node.
unfoldable pub is_own_p2p : Items → ℕ → Bool
is_own_p2p ports p = elim (port_of (fixed "bitcoind_p2p") ports) [ none ↦ false | some q ↦ q == p ]

-- A rule begins at a port that is shown as public, and none at any other, the node's own for peers left
-- aside.
unfoldable pub is_told : List Rule → Items → PortRef → Bool
is_told rules ports q = elim q.public [
  | true ↦ is_opened rules q.port
  | false ↦ not (is_opened rules q.port) || is_own_p2p ports q.port
]

-- A port that is given to a closed name is counted.
port_of-closed_uses :
    (name : PortName) (p : ℕ) (ports : Items)
    → port_of name ports ≡ some p
    → is_closed name ≡ true
    → 1 ≤ closed_uses_in p ports
unfolding port_of closed_uses_in
port_of-closed_uses name p [] e h = cc
port_of-closed_uses name p (q ∷ ports) e h = elim (Bool-cases (same_name name q.0)) [
  | inl s ↦
      let closed : is_closed q.0 ≡ true = sym (same_name-is_closed name q.0 s) ∙ h in
      let port : q.1 ≡ p = ground arith in ground arith
  | inr s ↦
      let found : port_of name ports ≡ some p = ground arith in
      ground (arith, port_of-closed_uses name p ports found h)
]

ports_of-closed_uses :
    (key : String) (ports : Items) (p : ℕ) (result : List (String × Items))
    → ports_of key result ≡ some ports
    → 1 ≤ closed_uses_in p ports
    → 1 ≤ closed_uses p result
unfolding ports_of closed_uses
ports_of-closed_uses key ports p [] e h = cc
ports_of-closed_uses key ports p ((k, items) ∷ rest) e h = elim (Bool-cases (str_eq k key)) [
  | inl s ↦
      let same : items ≡ ports = ground arith in
      let here : 1 ≤ closed_uses_in p items = rw (same) h in omega (arith, here)
  | inr s ↦
      let later = ports_of-closed_uses key ports p rest (ground arith) h in omega (arith, later)
]

own_p2p :
    (ports : Items) (p : ℕ)
    → port_of (fixed "bitcoind_p2p") ports ≡ some p
    → is_own_p2p ports p ≡ true
unfolding is_own_p2p
own_p2p ports p h = ground arith

port_ref-told :
    (ports : Items) (os : List Opening) (own rules : List Rule) (result : List (String × Items))
    (key : String)
    → ports_of key result ≡ some ports
    → rules_for ports os ≡ some own
    → ((p : ℕ) → is_opened own p ≡ true → is_opened rules p ≡ true)
    → ((p : ℕ) → is_opened rules p ≡ true → closed_uses p result ≡ 0)
    → (q : Port) (r : PortRef) → port_ref ports q ≡ some r
    → is_right os q ≡ true
    → is_told rules ports r ≡ true
unfolding port_ref is_told is_own_p2p
port_ref-told ports os own rules result key given written more closed q r e h =
    elim (Option-cases (port_of q.name ports)) [
      | inl n ↦ absurd (ground arith)
      | inr (p, n) ↦
          let same : record { port = p; public = q.public } ≡ r = ground arith in
          rw (← same) (elim (Bool-cases q.public) [
            | inl public ↦
                let opens : any (λ o. same_name q.name o.name) os ≡ true = ground arith in
                rw public (more p (rules_for-opened q.name p ports os own written opens n))
            | inr private ↦ elim (Bool-cases (is_closed q.name)) [
              | inl c ↦
                  let used =
                    ports_of-closed_uses key ports p result given
                      (port_of-closed_uses q.name p ports n c) in
                  rw private (ground (arith, used, closed p))
              | inr c ↦
                  let p2p : same_name q.name (fixed "bitcoind_p2p") ≡ true = ground arith in
                  let own_port : port_of (fixed "bitcoind_p2p") ports ≡ some p =
                    ap (λ a. port_of a ports) (sym (same_name→eq q.name (fixed "bitcoind_p2p") p2p))
                    ∙ n in
                  rw (private) (ground (arith, own_p2p ports p own_port))
            ]
          ])
    ]

-- The ports and the links of a row are made from those of its plan.
pub service_row-parts :
    {fl : Float} (usage : Bucket → Option (Usage fl)) (view : OnionView) (ports : Items)
    (r : Planned) (s : ServiceRow fl)
    → service_row usage view ports r ≡ some s
    → (traverse (port_ref ports) r.ports ≡ some s.ports)
      × (traverse (link_ref view ports) r.links ≡ some s.links)
unfolding service_row
service_row-parts usage view ports r s h = elim (Option-cases (traverse (port_ref ports) r.ports)) [
  | inl n ↦ absurd (ground arith)
  | inr (ps, n) ↦ elim (Option-cases (traverse (link_ref view ports) r.links)) [
    | inl m ↦ absurd (ground arith)
    | inr (ls, m) ↦
        let same : record { bucket = r.bucket; ports = ps; links = ls; usage = usage r.bucket }
            ≡ s =
          ground arith in
        (n ∙ ap (λ t. some t.ports) same, m ∙ ap (λ t. some t.links) same)
  ]
]

-- If the ports were given out by the allocator and the firewall's rules are written for the enabled
-- networks, then in the rows of one of them a rule begins at every port that is shown as public, and
-- at no other port but the node's own for its peers.
pub service_rows-told :
    {fl : Float} (usage : Bucket → Option (Usage fl)) (view : OnionView) (ssl_enabled : Bool)
    (networks : String → Option NetworkCfg) (result : List (String × Items)) (before after : Nets)
    (key : String) (cfg : SiteCfg) (spec : NetworkSpec) (nodes : Nodes) (ports : Items)
    (rules : List Rule) (rows : List (ServiceRow fl))
    → allocate networks ≡ allocated result
    → ports_of key result ≡ some ports
    → public_rules (public_nets (before ++ (key, (cfg, spec)) ∷ after)) result ≡ some rules
    → service_rows usage view ssl_enabled key cfg spec nodes ports ≡ some rows
    → All (λ r. All (λ q. is_told rules ports q ≡ true) r.ports) rows
unfolding service_rows
service_rows-told usage view ssl_enabled networks result before after key cfg spec nodes ports rules
      rows given found written e =
    let (own, o, more) =
      public_rules-member before after key cfg spec result ports rules found written in
    let closed =
      public_rules-closed networks result (public_nets (before ++ (key, (cfg, spec)) ∷ after)) rules
        given written in
    All-traverse (λ r. All (λ q. is_right (openings cfg.public spec) q ≡ true) r.ports)
      (λ s. All (λ q. is_told rules ports q ≡ true) s.ports) (service_row usage view ports)
      (planned_rows ssl_enabled key cfg spec nodes) rows
      (λ r s made.
        All-traverse (λ q. is_right (openings cfg.public spec) q ≡ true)
          (λ q. is_told rules ports q ≡ true) (port_ref ports) r.ports s.ports
          (port_ref-told ports (openings cfg.public spec) own rules result key found o more
            (λ p. is_opened-closed result rules p closed))
          (service_row-parts usage view ports r s made).0)
      e (planned_rows-Right ssl_enabled key cfg spec nodes)
