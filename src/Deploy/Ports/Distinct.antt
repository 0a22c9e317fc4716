-- ===== src/Deploy/Ports/Distinct.antt =====
-- How often `allocate` (argus/ports.py) gives a port out.
use bitcoin_argus.Common.{
  ℕ, ◌+◌, ◌≤◌, String, ◌≡◌, refl, Option, none, List, [], ◌∷◌, arith, inl, inr, Option-cases, ◌==◌,
}
use bitcoin_argus.Common.Table.{find?, count}
use bitcoin_argus.Deploy.Network.{NetworkSpec, NetworkCfg}
use bitcoin_argus.Deploy.Ports.{
  Items, Allocation, allocated, allocation_error, claim_ports, network_ports, allocate_from,
  allocate, and_then, enabled_networks,
}

-- How often a port is given out by one network, and in all.
unfoldable pub uses_in : ℕ → Items → ℕ
uses_in port ports = count (λ q. q.1 == port) ports

unfoldable pub uses_of_port : ℕ → List (String × Items) → ℕ
uses_of_port port [] = 0
uses_of_port port ((key, ports) ∷ rest) = uses_in port ports + uses_of_port port rest

abbrev owned : ℕ → List ℕ → ℕ
owned port owner = count (λ q. q == port) owner

pub and_then-allocated :
    {A B : Type 0} (x : Allocation A) (k : A → Allocation B) (b : B)
    → and_then x k ≡ allocated b
    → (a : A) × (x ≡ allocated a) × (k a ≡ allocated b)
unfolding and_then
and_then-allocated (allocated a) k b h = (a, refl, h)
and_then-allocated (allocation_error e) k b h = absurd (cc)

find?-none_count :
    (port : ℕ) (owner : List ℕ) → find? (λ q. q == port) owner ≡ none → owned port owner ≡ 0
find?-none_count port [] h = refl
find?-none_count port (q ∷ owner) h = ground (arith, find?-none_count port owner)

-- Claiming keeps the owned ports apart, and owns what was claimed.
claim_ports-owned :
    (net_key : String) (ports : Items) (owner owner' : List ℕ)
    → claim_ports net_key ports owner ≡ allocated owner'
    → ((port : ℕ) → owned port owner ≤ 1)
    → (port : ℕ)
    → (owned port owner' ≤ 1) × (owned port owner' ≡ uses_in port ports + owned port owner)
unfolding claim_ports uses_in
claim_ports-owned net_key [] owner owner' h apart port =
    let e : owner ≡ owner' = ground arith in rw (← e) (apart port, omega arith)
claim_ports-owned net_key ((name, p) ∷ ports) owner owner' h apart port =
    elim (Option-cases (find? (λ q. q == p) owner)) [
      | inr (q, e) ↦ absurd (ground arith)
      | inl e ↦
          let free = find?-none_count p owner e in
          let apart' : (q : ℕ) → owned q (p ∷ owner) ≤ 1 = λ q. ground (arith, apart q) in
          let rest =
            claim_ports-owned net_key ports (p ∷ owner) owner' (ground arith) apart' port in
          (rest.0, ground (arith, rest.1))
    ]

allocate_from-apart :
    (nets : List (String × (NetworkCfg × NetworkSpec))) (owner : List ℕ)
    (result : List (String × Items))
    → allocate_from nets owner ≡ allocated result
    → ((port : ℕ) → owned port owner ≤ 1)
    → (port : ℕ) → uses_of_port port result + owned port owner ≤ 1
unfolding allocate_from uses_of_port
allocate_from-apart [] owner result h apart port =
    let e : [] ≡ result = ground arith in rw (← e) (omega (arith, apart port))
allocate_from-apart ((net_key, (net, spec)) ∷ nets) owner result h apart port =
    let (ports, a, b) = and_then-allocated (network_ports net_key net spec) _ result h in
    let (owner', c, d) = and_then-allocated (claim_ports net_key ports owner) _ result b in
    let (rest, e, f) = and_then-allocated (allocate_from nets owner') _ result d in
    let step = claim_ports-owned net_key ports owner owner' c apart in
    let more = allocate_from-apart nets owner' rest e (λ q. (step q).0) port in
    let same : (net_key, ports) ∷ rest ≡ result = ground arith in
    rw (← same) (omega (arith, more, (step port).1))

-- If `allocate` gives ports out, no host port is given out twice, not to one network and not to two,
-- overrides included.
pub allocate_distinct :
    (networks : String → Option NetworkCfg) (result : List (String × Items))
    → allocate networks ≡ allocated result
    → (port : ℕ) → uses_of_port port result ≤ 1
unfolding allocate
allocate_distinct networks result h port =
    let all = allocate_from-apart (enabled_networks networks) [] result h (λ q. omega arith) port in
    omega (arith, all)
