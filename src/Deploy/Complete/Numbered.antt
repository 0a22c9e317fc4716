-- ===== src/Deploy/Complete/Numbered.antt =====
-- The names of the numbered services in the layout of argus/ports.py.
use bitcoin_argus.Common.{
  ℕ, zero, suc, ◌+◌, ◌≡◌, ◌≤◌, ◌<◌, String, true, arith, ◌==◌, length, inl, inr, Bool-cases,
}
use bitcoin_argus.Deploy.Network.{
  NetworkSpec, NetworkCfg, numbered, enabled_indexers, fedimint_guardian_count,
}
use bitcoin_argus.Deploy.Ports.{block_base, fulcrum_ports, guardian_ports, gateway_ports}
use bitcoin_argus.Deploy.Complete.Given.{is_given, Named, Named-service}

fulcrum_ports-given :
    (base i n j : ℕ)
    → i ≤ j
    → j < i + n
    → is_given (numbered "fulcrum_" j "_electrum_tcp") (fulcrum_ports base i n) ≡ true
unfolding fulcrum_ports
fulcrum_ports-given base i zero j h k = absurd (omega (arith, h, k))
fulcrum_ports-given base i (suc n) j h k = elim (Bool-cases (j == i)) [
  | inl e ↦ ground arith
  | inr e ↦
      let later : suc i ≤ j = ground arith in
      ground (arith, fulcrum_ports-given base (suc i) n j later (omega (arith, k)))
]

guardian_ports-given :
    (base i n j : ℕ)
    → i ≤ j
    → j < i + n
    → (is_given (numbered "fedimintd_" j "_api_public") (guardian_ports base i n) ≡ true)
      × (is_given (numbered "fedimintd_" j "_api") (guardian_ports base i n) ≡ true)
unfolding guardian_ports
guardian_ports-given base i zero j h k = absurd (omega (arith, h, k))
guardian_ports-given base i (suc n) j h k = elim (Bool-cases (j == i)) [
  | inl e ↦ (ground arith, ground arith)
  | inr e ↦
      let later : suc i ≤ j = ground arith in
      let rest = guardian_ports-given base (suc i) n j later (omega (arith, k)) in
      (ground (arith, rest.0), ground (arith, rest.1))
]

gateway_ports-given :
    (base i n j : ℕ)
    → i ≤ j
    → j < i + n
    → (is_given (numbered "gatewayd_" j "_api_public") (gateway_ports base i n) ≡ true)
      × (is_given (numbered "gatewayd_" j "_api") (gateway_ports base i n) ≡ true)
unfolding gateway_ports
gateway_ports-given base i zero j h k = absurd (omega (arith, h, k))
gateway_ports-given base i (suc n) j h k = elim (Bool-cases (j == i)) [
  | inl e ↦ (ground arith, ground arith)
  | inr e ↦
      let later : suc i ≤ j = ground arith in
      let rest = gateway_ports-given base (suc i) n j later (omega (arith, k)) in
      (ground (arith, rest.0), ground (arith, rest.1))
]

module _ (net_key : String) (net : NetworkCfg) (spec : NetworkSpec) (j : ℕ) where
  pub fulcrum-Named :
      j < length (enabled_indexers net)
      → Named net_key net spec (numbered "fulcrum_" j "_electrum_tcp")
  fulcrum-Named h = Named-service net_key net spec (numbered "fulcrum_" j "_electrum_tcp") 0 (
      fulcrum_ports-given (block_base net_key) 0 (length (enabled_indexers net)) j (omega arith)
        (omega (arith, h)))

  pub guardian-Named :
      j < fedimint_guardian_count net spec
      → Named net_key net spec (numbered "fedimintd_" j "_api_public")
        × Named net_key net spec (numbered "fedimintd_" j "_api")
  guardian-Named h =
      let both =
        guardian_ports-given (block_base net_key) 0 (fedimint_guardian_count net spec) j
          (omega arith) (omega (arith, h)) in
      (
        Named-service net_key net spec (numbered "fedimintd_" j "_api_public") 1 both.0,
        Named-service net_key net spec (numbered "fedimintd_" j "_api") 1 both.1,
      )

  pub gateway-Named :
      j < fedimint_guardian_count net spec
      → Named net_key net spec (numbered "gatewayd_" j "_api_public")
        × Named net_key net spec (numbered "gatewayd_" j "_api")
  gateway-Named h =
      let both =
        gateway_ports-given (block_base net_key) 0 (fedimint_guardian_count net spec) j
          (omega arith) (omega (arith, h)) in
      (
        Named-service net_key net spec (numbered "gatewayd_" j "_api_public") 2 both.0,
        Named-service net_key net spec (numbered "gatewayd_" j "_api") 2 both.1,
      )
