-- ===== src/Deploy/Layout.antt =====
-- The layout of a network's block of ports and the networks that there are (argus/constants.py).
use bitcoin_argus.Common.{ℕ, ◌-◌, ◌/◌, String, true, false, List, [], ◌∷◌}
use bitcoin_argus.Deploy.Network.{NetworkSpec}

abbrev pub network_block_base : ℕ
network_block_base = 30_000

abbrev pub network_block_size : ℕ
network_block_size = 1000

abbrev pub network_order : List String
network_order =
    "regtest" ∷ "testnet3" ∷ "testnet4" ∷ "signet" ∷ "mutinynet" ∷ "custom-signet-short"
    ∷ "custom-signet-long" ∷ []

abbrev pub port_offsets : List (String × ℕ)
port_offsets =
    ("bitcoind_p2p", 0)
    ∷ ("bitcoind_rpc", 1)
    ∷ ("lnd_p2p", 10)
    ∷ ("lnd_rest", 11)
    ∷ ("lnd_grpc", 12)
    ∷ ("lnd2_p2p", 13)
    ∷ ("lnd2_rest", 14)
    ∷ ("lnd2_grpc", 15)
    ∷ ("lnd3_p2p", 16)
    ∷ ("lnd3_rest", 17)
    ∷ ("lnd3_grpc", 18)
    ∷ ("cashu_public", 100)
    ∷ ("cashu_wallet_public", 101)
    ∷ ("cashupayserver_public", 120)
    ∷ ("bitcart_store_public", 200)
    ∷ ("bitcart_admin_public", 201)
    ∷ ("bitcart_api_public", 202)
    ∷ ("woocommerce_public", 220)
    ∷ ("mempool_public", 300)
    ∷ ("cashu_backend", 110)
    ∷ ("cashu_wallet_backend", 111)
    ∷ ("cashupayserver_backend", 130)
    ∷ ("bitcart_store", 210)
    ∷ ("bitcart_admin", 211)
    ∷ ("bitcart_api", 212)
    ∷ ("bitcart_daemon", 213)
    ∷ ("woocommerce_backend", 230)
    ∷ ("woocommerce_db", 231)
    ∷ ("mempool_web", 301)
    ∷ ("mempool_api", 310)
    ∷ ("mempool_db", 311)
    ∷ ("ark_captaind_public", 600)
    ∷ ("ark_captaind", 601)
    ∷ ("ark_captaind_admin", 602)
    ∷ ("ark_cln_p2p", 603)
    ∷ ("ark_cln_grpc", 604)
    ∷ ("ark_cln_hold", 605)
    ∷ ("electrum_rpc", 700)
    ∷ ("nostr_relay_public", 701)
    ∷ ("nostr_relay_backend", 702)
    ∷ []

abbrev pub fulcrum_base : ℕ
fulcrum_base = 40

abbrev pub fulcrum_stride : ℕ
fulcrum_stride = 4

abbrev pub fulcrum_max_instances : ℕ
fulcrum_max_instances = (100 - fulcrum_base) / fulcrum_stride

abbrev pub fedimint_guardian_base : ℕ
fedimint_guardian_base = 500

abbrev pub fedimint_guardian_stride : ℕ
fedimint_guardian_stride = 4

abbrev pub fedimint_gateway_base : ℕ
fedimint_gateway_base = 520

abbrev pub fedimint_gateway_stride : ℕ
fedimint_gateway_stride = 2

abbrev pub bitcart_btclnd_p2p_offset : ℕ
bitcart_btclnd_p2p_offset = 400

abbrev pub bitcart_btclnd_grpc_offset : ℕ
bitcart_btclnd_grpc_offset = 450

-- `NETWORK_SPECS`, as far as `NetworkSpec` goes here; there is none for another key.
abbrev pub network_specs : List (String × NetworkSpec)
network_specs =
    ("regtest", record { chain = "regtest"; default_mempool = true; supports_miner = true })
    ∷ ("testnet3", record { chain = "test"; default_mempool = false; supports_miner = false })
    ∷ ("testnet4", record { chain = "testnet4"; default_mempool = false; supports_miner = false })
    ∷ ("signet", record { chain = "signet"; default_mempool = false; supports_miner = false })
    ∷ ("mutinynet", record { chain = "signet"; default_mempool = true; supports_miner = false })
    ∷ (
      "custom-signet-short",
      record { chain = "signet"; default_mempool = true; supports_miner = true },
    )
    ∷ (
      "custom-signet-long",
      record { chain = "signet"; default_mempool = true; supports_miner = true },
    )
    ∷ []
