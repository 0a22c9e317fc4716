-- ===== src/Deploy/Firewall/Closed.antt =====
-- The ports that argus/firewall.py says are closed, and the rules that it writes.
use mathlib.Core.Path.{subst}
use bitcoin_argus.Common.{
  ℕ, zero, suc, ◌+◌, ◌-◌, ◌≤◌, ◌≡◌, ◌∙◌, refl, sym, ap, String, Bool, true, false, ◌&&◌, Option,
  some, List, [], ◌∷◌, ◌++◌, arith, ◌==◌, str_eq, str_eq_iff, any, All, All-append, All-imp, inl,
  inr, Bool-cases, Option-cases,
}
use bitcoin_argus.Common.Table.{count}
use bitcoin_argus.Deploy.Network.{
  NetworkSpec, NetworkCfg, PortName, fixed, numbered, fedimint_enabled, lnd_secondary_enabled,
  lnd_tertiary_enabled, mempool_enabled,
}
use bitcoin_argus.Deploy.Ports.{Items, same_name, allocated, allocate}
use bitcoin_argus.Deploy.Ports.Distinct.{uses_in, uses_of_port, allocate_distinct}
use bitcoin_argus.Deploy.Firewall.{
  PublicCfg, Opening, when, electrum_openings, fedimint_openings, openings, ark_enabled,
  electrum_relay_enabled, Rule, port_of, rules_for, ports_of, public_rules,
}

-- The names that are marked 127.0.0.1 or reserved in the layout, and those of the numbered services' own
-- ends.
abbrev pub closed_names : List String
closed_names =
    "bitcoind_rpc" ∷ "lnd_rest" ∷ "lnd_grpc" ∷ "lnd2_rest" ∷ "lnd2_grpc" ∷ "lnd3_rest" ∷ "lnd3_grpc"
    ∷ "cashu_backend" ∷ "cashu_wallet_backend" ∷ "cashupayserver_backend" ∷ "bitcart_store"
    ∷ "bitcart_admin" ∷ "bitcart_api" ∷ "bitcart_daemon" ∷ "woocommerce_backend" ∷ "woocommerce_db"
    ∷ "mempool_web" ∷ "mempool_api" ∷ "mempool_db" ∷ "ark_captaind" ∷ "ark_captaind_admin"
    ∷ "ark_cln_grpc" ∷ "ark_cln_hold" ∷ "electrum_rpc" ∷ "nostr_relay_backend"
    ∷ "bitcart_btclnd_grpc_base" ∷ []

abbrev pub closed_ends : List String
closed_ends = "_admin" ∷ "_api" ∷ "_ui" ∷ []

unfoldable pub is_closed : PortName → Bool
is_closed (fixed name) = any (str_eq name) closed_names
is_closed (numbered service i end) = any (str_eq end) closed_ends

abbrev Public : List Opening → Type 0
Public os = All (λ o. is_closed o.name ≡ false) os

Public-append : (os ps : List Opening) → Public os → Public ps → Public (os ++ ps)
Public-append [] ps h k = k
Public-append (o ∷ os) ps h k = (h.0, Public-append os ps h.1 k)

Public-when : (b : Bool) (os : List Opening) → Public os → Public (when b os)
Public-when true os h = h
Public-when false os h = tt

electrum_openings-Public : (i n : ℕ) → Public (electrum_openings i n)
unfolding electrum_openings is_closed
electrum_openings-Public i zero = tt
electrum_openings-Public i (suc n) = (refl, electrum_openings-Public (suc i) n)

fedimint_openings-Public : (i n : ℕ) → Public (fedimint_openings i n)
unfolding fedimint_openings is_closed
fedimint_openings-Public i zero = tt
fedimint_openings-Public i (suc n) = (refl, (refl, fedimint_openings-Public (suc i) n))

openings-Public : (cfg : PublicCfg) (spec : NetworkSpec) → Public (openings cfg spec)
unfolding openings is_closed
openings-Public cfg spec =
    let net = cfg.network in
    Public-append _ _ (Public-when cfg.p2p_public _ (refl, tt)) (
      refl,
      Public-append _ _ (Public-when (lnd_secondary_enabled net) _ (refl, tt)) (
          Public-append _ _ (Public-when (lnd_tertiary_enabled net) _ (refl, tt)) (
            Public-append _ _ (electrum_openings-Public 0 _) (
              Public-append _ _
                (Public-when cfg.cashu _ (refl, Public-when cfg.cashu_wallet _ (refl, tt)))
                (Public-append _ _
                  (Public-when (fedimint_enabled net spec) _ (fedimint_openings-Public 0 _))
                  (Public-append _ _ (Public-when (ark_enabled net spec) _ (refl, (refl, tt))) (
                    Public-append _ _
                      (Public-when (electrum_relay_enabled cfg && cfg.relay_public) _ (refl, tt))
                      (Public-append _ _ (Public-when (mempool_enabled net spec) _ (refl, tt)) (
                        Public-append _ _
                          (Public-when net.bitcart _ (refl, (refl, (refl, (refl, tt)))))
                          (Public-append _ _ (Public-when cfg.cashupayserver _ (refl, tt))
                            (Public-when cfg.woocommerce _ (refl, tt))))))))))),
    )

-- How often a port is given to a closed name, by one network and in all.
unfoldable pub closed_uses_in : ℕ → Items → ℕ
closed_uses_in port ports = count (λ q. (q.1 == port) && is_closed q.0) ports

unfoldable pub closed_uses : ℕ → List (String × Items) → ℕ
closed_uses port [] = 0
closed_uses port ((key, ports) ∷ rest) = closed_uses_in port ports + closed_uses port rest

closed_uses_in-le : (port : ℕ) (ports : Items) → closed_uses_in port ports ≤ uses_in port ports
unfolding closed_uses_in uses_in
closed_uses_in-le port [] = omega arith
closed_uses_in-le port (q ∷ ports) = ground (arith, closed_uses_in-le port ports)

closed_uses-le :
    (port : ℕ) (result : List (String × Items)) → closed_uses port result ≤ uses_of_port port result
unfolding closed_uses uses_of_port
closed_uses-le port [] = omega arith
closed_uses-le port ((key, ports) ∷ rest) =
    omega (arith, closed_uses_in-le port ports, closed_uses-le port rest)

pub same_name-is_closed : (a b : PortName) → same_name a b ≡ true → is_closed a ≡ is_closed b
unfolding is_closed
same_name-is_closed (fixed a) (fixed b) h = ap (λ n. is_closed (fixed n)) ((str_eq_iff a b).0 h)
same_name-is_closed (numbered a i b) (numbered c j d) h =
    let ends : b ≡ d = ground (arith, str_eq_iff b d) in ap (λ e. any (str_eq e) closed_ends) ends
same_name-is_closed (fixed a) (numbered c j d) h = cc
same_name-is_closed (numbered a i b) (fixed c) h = cc

-- A port of a public name is used once more than it is used by closed names.
port_of-closed :
    (name : PortName) (p : ℕ) (ports : Items)
    → port_of name ports ≡ some p
    → is_closed name ≡ false
    → closed_uses_in p ports + 1 ≤ uses_in p ports
unfolding port_of closed_uses_in uses_in
port_of-closed name p [] e h = cc
port_of-closed name p (q ∷ ports) e h = elim (Bool-cases (same_name name q.0)) [
  | inl s ↦
      let open_name : is_closed q.0 ≡ false = sym (same_name-is_closed name q.0 s) ∙ h in
      let port : q.1 ≡ p = ground arith in ground (arith, closed_uses_in-le p ports)
  | inr s ↦
      let found : port_of name ports ≡ some p = ground arith in
      ground (arith, port_of-closed name p ports found h)
]

ports_of-closed :
    (key : String) (ports : Items) (port : ℕ) (result : List (String × Items))
    → ports_of key result ≡ some ports
    → closed_uses_in port ports + 1 ≤ uses_in port ports
    → closed_uses port result + 1 ≤ uses_of_port port result
unfolding ports_of closed_uses uses_of_port
ports_of-closed key ports port [] e h = cc
ports_of-closed key ports port ((k, items) ∷ rest) e h = elim (Bool-cases (str_eq k key)) [
  | inl s ↦
      let same : items ≡ ports = ground arith in
      let here : closed_uses_in port items + 1 ≤ uses_in port items = rw (same) h in
      omega (arith, here, closed_uses-le port rest)
  | inr s ↦
      let later = ports_of-closed key ports port rest (ground arith) h in
      omega (arith, later, closed_uses_in-le port items)
]

-- The first port of each rule has no closed name.
abbrev Kept : List (String × Items) → List Rule → Type 0
Kept result rules = All (λ r. closed_uses r.first result + 1 ≤ uses_of_port r.first result) rules

rules_for-Kept :
    (key : String) (ports : Items) (result : List (String × Items)) (os : List Opening)
    (rules : List Rule)
    → ports_of key result ≡ some ports
    → Public os
    → rules_for ports os ≡ some rules
    → Kept result rules
unfolding rules_for
rules_for-Kept key ports result [] rules e h r =
    let same : [] ≡ rules = ground arith in subst (Kept result) same tt
rules_for-Kept key ports result (o ∷ os) rules e h r = elim (Option-cases (port_of o.name ports)) [
  | inl n ↦ absurd (ground arith)
  | inr (p, n) ↦ elim (Option-cases (rules_for ports os)) [
    | inl m ↦ absurd (ground arith)
    | inr (more, m) ↦
        let same : record { first = p; last = p + o.size - 1 } ∷ more ≡ rules = ground arith in
        let here : closed_uses p result + 1 ≤ uses_of_port p result =
          ports_of-closed key ports p result e (port_of-closed o.name p ports n h.0) in
        subst (Kept result) same (here, rules_for-Kept key ports result os more e h.1 m)
  ]
]

public_rules-Kept :
    (nets : List (String × (PublicCfg × NetworkSpec))) (result : List (String × Items))
    (rules : List Rule)
    → public_rules nets result ≡ some rules
    → Kept result rules
unfolding public_rules
public_rules-Kept [] result rules r =
    let same : [] ≡ rules = ground arith in subst (Kept result) same tt
public_rules-Kept ((key, (cfg, spec)) ∷ nets) result rules r =
    elim (Option-cases (ports_of key result)) [
      | inl n ↦ absurd (ground arith)
      | inr (ports, n) ↦ elim (Option-cases (rules_for ports (openings cfg spec))) [
        | inl m ↦ absurd (ground arith)
        | inr (own, m) ↦ elim (Option-cases (public_rules nets result)) [
          | inl o ↦ absurd (ground arith)
          | inr (more, o) ↦
              let same : own ++ more ≡ rules = ground arith in
              subst (Kept result) same (
                All-append (λ r. closed_uses r.first result + 1 ≤ uses_of_port r.first result) own
                  more
                  (rules_for-Kept key ports result (openings cfg spec) own n
                    (openings-Public cfg spec) m)
                  (public_rules-Kept nets result more o))
        ]
      ]
    ]

-- If the ports were given out by the allocator, then no rule begins at a port that any network has under
-- a closed name, overrides included.
pub public_rules-closed :
    (networks : String → Option NetworkCfg) (result : List (String × Items))
    (nets : List (String × (PublicCfg × NetworkSpec))) (rules : List Rule)
    → allocate networks ≡ allocated result
    → public_rules nets result ≡ some rules
    → All (λ r. closed_uses r.first result ≡ 0) rules
public_rules-closed networks result nets rules given written =
    All-imp (λ r. closed_uses r.first result + 1 ≤ uses_of_port r.first result)
      (λ r. closed_uses r.first result ≡ 0) rules
      (λ r h. omega (arith, h, allocate_distinct networks result given r.first))
      (public_rules-Kept nets result rules written)
