-- ===== src/Deploy/Ports.antt =====
-- The host ports of argus/ports.py with the layout of a block of argus/constants.py. A dict is the
-- list of its items in their order.
pub mod Distinct
pub mod Blocks
use bitcoin_argus.Common.{
  ℕ, zero, suc, ◌+◌, ◌*◌, ◌-◌, ◌/◌, String, Bool, true, false, ◌&&◌, Option, none, some, List, [],
  ◌∷◌, ◌++◌, map, ltb, ◌==◌, if◌then◌else◌, str_eq, length,
}
use bitcoin_argus.Common.Table.{find?}
use bitcoin_argus.Deploy.Network.{
  NetworkSpec, NetworkCfg, PortName, fixed, numbered, enabled_indexers, fedimint_guardian_count,
}
pub use bitcoin_argus.Deploy.Layout.{
  network_block_base, network_block_size, network_order, port_offsets, fulcrum_base, fulcrum_stride,
  fulcrum_max_instances, fedimint_guardian_base, fedimint_guardian_stride, fedimint_gateway_base,
  fedimint_gateway_stride, bitcart_btclnd_p2p_offset, bitcart_btclnd_grpc_offset, network_specs,
}

abbrev pub Items : Type 0
Items = List (PortName × ℕ)

-- `PortAllocationError`, by what it reports.
pub data AllocationError : Type 0 where
  too_many_indexers : String → ℕ → AllocationError
  unknown_port : String → PortName → AllocationError
  claimed_twice : ℕ → String → PortName → AllocationError

pub data Allocation (A : Type 0) : Type 0 where
  allocated : A → Allocation A
  allocation_error : AllocationError → Allocation A

abbrev pub same_name : PortName → PortName → Bool
same_name (fixed a) (fixed b) = str_eq a b
same_name (numbered a i b) (numbered c j d) = str_eq a c && ((i == j) && str_eq b d)
same_name (fixed _) (numbered _ _ _) = false
same_name (numbered _ _ _) (fixed _) = false

-- `ports[name] = port`
unfoldable pub assign : PortName → ℕ → Items → Items
assign name port [] = (name, port) ∷ []
assign name port ((n, p) ∷ ports) =
    let rest = assign name port ports in
    if same_name name n then (n, port) ∷ ports else (n, p) ∷ rest

unfoldable pub assign_all : Items → Items → Items
assign_all [] ports = ports
assign_all ((name, port) ∷ items) ports = assign_all items (assign name port ports)

unfoldable pub index : String → List String → ℕ
index key [] = 0
index key (k ∷ ks) = let rest = index key ks in if str_eq k key then 0 else suc rest

unfoldable pub block_base : String → ℕ
block_base net_key = network_block_base + index net_key network_order * network_block_size

-- The first `n` numbered services from `i` on.
unfoldable pub fulcrum_ports : ℕ → ℕ → ℕ → Items
fulcrum_ports base i zero = []
fulcrum_ports base i (suc n) =
    let start = base + fulcrum_base + i * fulcrum_stride in
    (numbered "fulcrum_" i "_electrum_tcp", start)
    ∷ (numbered "fulcrum_" i "_electrum_ssl", start + 1)
    ∷ (numbered "fulcrum_" i "_admin", start + 2)
    ∷ fulcrum_ports base (suc i) n

unfoldable pub guardian_ports : ℕ → ℕ → ℕ → Items
guardian_ports base i zero = []
guardian_ports base i (suc n) =
    let g = base + fedimint_guardian_base + i * fedimint_guardian_stride in
    (numbered "fedimintd_" i "_api_public", g)
    ∷ (numbered "fedimintd_" i "_api", g + 1)
    ∷ (numbered "fedimintd_" i "_ui", g + 2)
    ∷ guardian_ports base (suc i) n

unfoldable pub gateway_ports : ℕ → ℕ → ℕ → Items
gateway_ports base i zero = []
gateway_ports base i (suc n) =
    let gw = base + fedimint_gateway_base + i * fedimint_gateway_stride in
    (numbered "gatewayd_" i "_api", gw)
    ∷ (numbered "gatewayd_" i "_api_public", gw + 1)
    ∷ gateway_ports base (suc i) n

unfoldable pub bitcart_pools : ℕ → Bool → Items
bitcart_pools base false = []
bitcart_pools base true =
    (fixed "bitcart_btclnd_p2p_base", base + bitcart_btclnd_p2p_offset)
    ∷ (fixed "bitcart_btclnd_grpc_base", base + bitcart_btclnd_grpc_offset)
    ∷ []

abbrev pub chosen : Option ℕ → String → Items
chosen none name = []
chosen (some port) name = (fixed name, port) ∷ []

unfoldable pub bitcart_overrides : NetworkCfg → Items
bitcart_overrides net =
    let bp = net.bitcart_ports in
    chosen bp.store "bitcart_store_public"
    ++ chosen bp.admin "bitcart_admin_public"
    ++ chosen bp.api "bitcart_api_public"
    ++ chosen bp.daemon "bitcart_daemon"

-- The generic overrides, of ports that are there.
unfoldable pub apply_overrides : String → Items → Items → Allocation Items
apply_overrides net_key [] ports = allocated ports
apply_overrides net_key ((name, port) ∷ items) ports =
    let rest = apply_overrides net_key items (assign name port ports) in
    elim (find? (λ q. same_name name q.0) ports) [
      | none ↦ allocation_error (unknown_port net_key name)
      | some _ ↦ rest
    ]

-- The ports of a network before its overrides.
unfoldable pub default_ports : String → NetworkCfg → NetworkSpec → Items
unfolding assign_all
default_ports net_key net spec =
    let base = block_base net_key in
    let guardians = fedimint_guardian_count net spec in
    assign_all
      (fulcrum_ports base 0 (length (enabled_indexers net))
        ++ (guardian_ports base 0 guardians
            ++ (gateway_ports base 0 guardians ++ bitcart_pools base net.bitcart)))
      (map (λ q. (fixed q.0, base + q.1)) port_offsets)

-- `_network_ports`
unfoldable pub network_ports : String → NetworkCfg → NetworkSpec → Allocation Items
network_ports net_key net spec =
    if ltb fulcrum_max_instances (length (enabled_indexers net))
    then allocation_error (too_many_indexers net_key (length (enabled_indexers net)))
    else apply_overrides net_key net.ports
        (assign_all (bitcart_overrides net) (default_ports net_key net spec))

-- The claims of one network's ports, among the ports that are owned already.
unfoldable pub claim_ports : String → Items → List ℕ → Allocation (List ℕ)
claim_ports net_key [] owner = allocated owner
claim_ports net_key ((name, port) ∷ ports) owner =
    let rest = claim_ports net_key ports (port ∷ owner) in
    elim (find? (λ q. q == port) owner) [
      | some _ ↦ allocation_error (claimed_twice port net_key name)
      | none ↦ rest
    ]

-- The enabled ones of `networks` in the order of the specs, which is that of `network_order`.
unfoldable pub enabled_from :
    List (String × NetworkSpec)
    → (String → Option NetworkCfg)
    → List (String × (NetworkCfg × NetworkSpec))
enabled_from [] networks = []
enabled_from ((key, spec) ∷ specs) networks =
    let rest = enabled_from specs networks in
    elim (networks key) [
      | none ↦ rest
      | some net ↦ if net.enabled then (key, (net, spec)) ∷ rest else rest
    ]

unfoldable pub enabled_networks :
    (String → Option NetworkCfg) → List (String × (NetworkCfg × NetworkSpec))
unfolding enabled_from
enabled_networks = enabled_from network_specs

-- `x` and then `k`, where an error ends the allocation.
unfoldable pub and_then : {A B : Type 0} → Allocation A → (A → Allocation B) → Allocation B
and_then (allocated a) k = k a
and_then (allocation_error e) k = allocation_error e

-- The loop of `allocate` over the enabled networks, with the ports owned so far.
unfoldable pub allocate_from :
    List (String × (NetworkCfg × NetworkSpec)) → List ℕ → Allocation (List (String × Items))
unfolding and_then
allocate_from [] owner = allocated []
allocate_from ((net_key, (net, spec)) ∷ nets) owner =
    and_then (network_ports net_key net spec) (λ ports.
      and_then (claim_ports net_key ports owner) (λ owner'.
        and_then (allocate_from nets owner') (λ result. allocated ((net_key, ports) ∷ result))))

-- `allocate`, for the configuration's dict of networks.
unfoldable pub allocate : (String → Option NetworkCfg) → Allocation (List (String × Items))
allocate networks = allocate_from (enabled_networks networks) []
