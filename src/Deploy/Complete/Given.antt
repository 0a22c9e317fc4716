-- ===== src/Deploy/Complete/Given.antt =====
-- The names that have a port in what argus/ports.py gives a network.
use bitcoin_argus.Common.{
  ℕ, ◌+◌, ◌≡◌, refl, String, Bool, true, some, List, [], ◌∷◌, map, arith, ltb, ==_iff, str_eq,
  str_eq_iff, length, any, inl, inr, Bool-cases, Option-cases,
}
use bitcoin_argus.Common.Segments.{flatten, segment, any-flatten}
use bitcoin_argus.Common.Table.{find?}
use bitcoin_argus.Deploy.Network.{
  NetworkSpec, NetworkCfg, PortName, fixed, numbered, enabled_indexers, fedimint_guardian_count,
}
use bitcoin_argus.Deploy.Ports.{
  Items, allocated, same_name, assign, assign_all, block_base, port_offsets, fulcrum_max_instances,
  fulcrum_ports, guardian_ports, gateway_ports, bitcart_pools, bitcart_overrides, default_ports,
  apply_overrides, network_ports,
}
use bitcoin_argus.Deploy.Firewall.{port_of}
use bitcoin_argus.Deploy.Sites.Reachable.{same_name→eq}

abbrev pub is_given : PortName → Items → Bool
is_given name ports = any (λ q. same_name name q.0) ports

same_name_refl : (name : PortName) → same_name name name ≡ true
same_name_refl (fixed a) = (str_eq_iff a a).1 refl
same_name_refl (numbered a i b) =
    let first = (str_eq_iff a a).1 refl in
    let last = (str_eq_iff b b).1 refl in
    let number = (==_iff i i).1 refl in ground (arith, first, last, number)

is_given-assign :
    (name key : PortName) (port : ℕ) (ports : Items)
    → is_given name ports ≡ true
    → is_given name (assign key port ports) ≡ true
unfolding assign
is_given-assign name key port [] h = cc
is_given-assign name key port ((n, p) ∷ ports) h =
    ground (arith, is_given-assign name key port ports)

is_given-assign_self :
    (name : PortName) (port : ℕ) (ports : Items) → is_given name (assign name port ports) ≡ true
unfolding assign
is_given-assign_self name port [] = ground (arith, same_name_refl name)
is_given-assign_self name port ((n, p) ∷ ports) =
    ground (arith, is_given-assign_self name port ports)

is_given-assign_all :
    (name : PortName) (items ports : Items)
    → is_given name ports ≡ true
    → is_given name (assign_all items ports) ≡ true
unfolding assign_all
is_given-assign_all name [] ports h = h
is_given-assign_all name ((k, p) ∷ items) ports h =
    is_given-assign_all name items (assign k p ports) (is_given-assign name k p ports h)

is_given-assign_all_new :
    (name : PortName) (items ports : Items)
    → is_given name items ≡ true
    → is_given name (assign_all items ports) ≡ true
unfolding assign_all
is_given-assign_all_new name [] ports h = cc
is_given-assign_all_new name ((k, p) ∷ items) ports h = elim (Bool-cases (same_name name k)) [
  | inl e ↦
      let same : name ≡ k = same_name→eq name k e in
      is_given-assign_all name items (assign k p ports)
        (rw (← same) (is_given-assign_self name p ports))
  | inr e ↦ is_given-assign_all_new name items (assign k p ports) (ground arith)
]

is_given-apply_overrides :
    (name : PortName) (net_key : String) (items ports given : Items)
    → apply_overrides net_key items ports ≡ allocated given
    → is_given name ports ≡ true
    → is_given name given ≡ true
unfolding apply_overrides
is_given-apply_overrides name net_key [] ports given e h =
    let same : ports ≡ given = ground arith in rw (← same) h
is_given-apply_overrides name net_key ((k, p) ∷ items) ports given e h =
    elim (Option-cases (find? (λ q. same_name k q.0) ports)) [
      | inl n ↦ absurd (ground arith)
      | inr (q, n) ↦
          is_given-apply_overrides name net_key items (assign k p ports) given (ground arith)
            (is_given-assign name k p ports h)
    ]

-- A name that has a port before the overrides has one after them.
pub is_given-network_ports :
    (name : PortName) (net_key : String) (net : NetworkCfg) (spec : NetworkSpec) (given : Items)
    → network_ports net_key net spec ≡ allocated given
    → is_given name (default_ports net_key net spec) ≡ true
    → is_given name given ≡ true
unfolding network_ports
is_given-network_ports name net_key net spec given e h =
    elim (Bool-cases (ltb fulcrum_max_instances (length (enabled_indexers net)))) [
      | inl many ↦ absurd (ground arith)
      | inr few ↦
          is_given-apply_overrides name net_key net.ports
            (assign_all (bitcart_overrides net) (default_ports net_key net spec)) given
            (ground arith)
            (is_given-assign_all name (bitcart_overrides net) (default_ports net_key net spec) h)
    ]

pub port_of-given :
    (name : PortName) (ports : Items)
    → is_given name ports ≡ true
    → (p : ℕ) × (port_of name ports ≡ some p)
unfolding port_of
port_of-given name [] h = absurd cc
port_of-given name (q ∷ ports) h = elim (Bool-cases (same_name name q.0)) [
  | inl e ↦ (q.1, ground arith)
  | inr e ↦ let (p, f) = port_of-given name ports (ground arith) in (p, ground arith)
]

is_given-map :
    (name : String) (base : ℕ) (offsets : List (String × ℕ))
    → any (λ q. str_eq name q.0) offsets ≡ true
    → is_given (fixed name) (map (λ q. (fixed q.0, base + q.1)) offsets) ≡ true
is_given-map name base [] h = h
is_given-map name base (q ∷ offsets) h = ground (arith, is_given-map name base offsets)

abbrev offset_ports : String → Items
offset_ports net_key = map (λ q. (fixed q.0, block_base net_key + q.1)) port_offsets

-- The numbered services and the pools.
abbrev pub numbered_services : String → NetworkCfg → NetworkSpec → List Items
numbered_services net_key net spec =
    let base = block_base net_key in
    let guardians = fedimint_guardian_count net spec in
    fulcrum_ports base 0 (length (enabled_indexers net))
    ∷ guardian_ports base 0 guardians
    ∷ gateway_ports base 0 guardians
    ∷ bitcart_pools base net.bitcart
    ∷ []

-- The names that a network has before its overrides.
abbrev pub Named : String → NetworkCfg → NetworkSpec → PortName → Type 0
Named net_key net spec name = is_given name (default_ports net_key net spec) ≡ true

pub Named-fixed :
    (net_key : String) (net : NetworkCfg) (spec : NetworkSpec) (name : String)
    → any (λ q. str_eq name q.0) port_offsets ≡ true
    → Named net_key net spec (fixed name)
unfolding default_ports
Named-fixed net_key net spec name h =
    is_given-assign_all (fixed name) (flatten (numbered_services net_key net spec))
      (offset_ports net_key) (is_given-map name (block_base net_key) port_offsets h)

pub Named-service :
    (net_key : String) (net : NetworkCfg) (spec : NetworkSpec) (name : PortName) (i : ℕ)
    → is_given name (segment i (numbered_services net_key net spec)) ≡ true
    → Named net_key net spec name
unfolding default_ports
Named-service net_key net spec name i h =
    is_given-assign_all_new name (flatten (numbered_services net_key net spec))
      (offset_ports net_key)
      (any-flatten (λ q. same_name name q.0) i (numbered_services net_key net spec) h)
