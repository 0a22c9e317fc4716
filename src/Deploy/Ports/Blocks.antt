-- ===== src/Deploy/Ports/Blocks.antt =====
-- The default ports of argus/ports.py and the block of their network.
use bitcoin_argus.Common.{
  ℕ, zero, suc, ◌+◌, ◌≤◌, ◌<◌, String, ◌≡◌, refl, Bool, true, false, List, [], ◌∷◌, ◌++◌, map,
  arith, inl, inr, Bool-cases, All, all, ltb, length,
}
use bitcoin_argus.Deploy.Network.{
  NetworkSpec, NetworkCfg, PortName, fixed, enabled_indexers, fedimint_guardian_count,
  fedimint_enabled,
}
use bitcoin_argus.Deploy.Ports.{
  Items, assign, assign_all, block_base, network_block_size, port_offsets, fulcrum_ports,
  guardian_ports, gateway_ports, bitcart_pools, default_ports, same_name, fulcrum_max_instances,
}

module _ (base : ℕ) where
  -- A port of the block that starts at `base`.
  abbrev pub InBlock : (PortName × ℕ) → Type 0
  InBlock q = (base ≤ q.1) × (q.1 < base + network_block_size)

  assign-InBlock :
      (name : PortName) (port : ℕ) (ports : Items)
      → InBlock (name, port)
      → All InBlock ports
      → All InBlock (assign name port ports)
  unfolding assign
  assign-InBlock name port [] h hs = (h, tt)
  assign-InBlock name port ((n, p) ∷ ports) h hs = elim (Bool-cases (same_name name n)) [
    | inl e ↦ rw (e) (h, hs.1)
    | inr e ↦ rw (e) (hs.0, assign-InBlock name port ports h hs.1)
  ]

  assign_all-InBlock :
      (items ports : Items)
      → All InBlock items
      → All InBlock ports
      → All InBlock (assign_all items ports)
  unfolding assign_all
  assign_all-InBlock [] ports hs ps = ps
  assign_all-InBlock ((name, port) ∷ items) ports hs ps =
      assign_all-InBlock items (assign name port ports) hs.1
        (assign-InBlock name port ports hs.0 ps)

  append-InBlock : (xs ys : Items) → All InBlock xs → All InBlock ys → All InBlock (xs ++ ys)
  append-InBlock [] ys hs ks = ks
  append-InBlock (x ∷ xs) ys hs ks = (hs.0, append-InBlock xs ys hs.1 ks)

  fulcrum-InBlock : (i n : ℕ) → i + n ≤ 15 → All InBlock (fulcrum_ports base i n)
  unfolding fulcrum_ports
  fulcrum-InBlock i zero h = tt
  fulcrum-InBlock i (suc n) h = (
    (omega (arith, h), omega (arith, h)),
    (
      (omega (arith, h), omega (arith, h)),
      ((omega (arith, h), omega (arith, h)), fulcrum-InBlock (suc i) n (omega (arith, h))),
    ),
  )

  guardian-InBlock : (i n : ℕ) → i + n ≤ 3 → All InBlock (guardian_ports base i n)
  unfolding guardian_ports
  guardian-InBlock i zero h = tt
  guardian-InBlock i (suc n) h = (
    (omega (arith, h), omega (arith, h)),
    (
      (omega (arith, h), omega (arith, h)),
      ((omega (arith, h), omega (arith, h)), guardian-InBlock (suc i) n (omega (arith, h))),
    ),
  )

  gateway-InBlock : (i n : ℕ) → i + n ≤ 3 → All InBlock (gateway_ports base i n)
  unfolding gateway_ports
  gateway-InBlock i zero h = tt
  gateway-InBlock i (suc n) h = (
    (omega (arith, h), omega (arith, h)),
    ((omega (arith, h), omega (arith, h)), gateway-InBlock (suc i) n (omega (arith, h))),
  )

  pools-InBlock : (on : Bool) → All InBlock (bitcart_pools base on)
  unfolding bitcart_pools
  pools-InBlock false = tt
  pools-InBlock true = ((omega arith, omega arith), ((omega arith, omega arith), tt))

  offsets-InBlock :
      (os : List (String × ℕ))
      → all (λ q. ltb q.1 network_block_size) os ≡ true
      → All InBlock (map (λ q. (fixed q.0, base + q.1)) os)
  offsets-InBlock [] h = tt
  offsets-InBlock (q ∷ os) h = ((omega arith, ground arith), offsets-InBlock os (ground arith))

-- With at most fifteen enabled indexers and at most three guardians, all ports that a network has
-- before its overrides lie in its block of a thousand ports.
pub default_ports-InBlock :
    (net_key : String) (net : NetworkCfg) (spec : NetworkSpec)
    → length (enabled_indexers net) ≤ fulcrum_max_instances
    → net.guardians ≤ 3
    → All (InBlock (block_base net_key)) (default_ports net_key net spec)
unfolding default_ports fedimint_guardian_count
default_ports-InBlock net_key net spec few small =
    let base = block_base net_key in
    let g = fedimint_guardian_count net spec in
    let gs : g ≤ 3 = elim (Bool-cases (fedimint_enabled net spec)) [
      | inl e ↦ ground arith
      | inr e ↦ ground arith
    ] in
    assign_all-InBlock base _ _
      (append-InBlock base (fulcrum_ports base 0 (length (enabled_indexers net))) _
        (fulcrum-InBlock base 0 (length (enabled_indexers net)) (omega (arith, few)))
        (append-InBlock base (guardian_ports base 0 g) _
          (guardian-InBlock base 0 g (omega (arith, gs)))
          (append-InBlock base (gateway_ports base 0 g) _
            (gateway-InBlock base 0 g (omega (arith, gs))) (pools-InBlock base net.bitcart))))
      (offsets-InBlock base port_offsets refl)
