-- ===== src/Web/Inventory/Ports.antt =====
-- The ports that argus/web/inventory.py shows, against the rules of argus/firewall.py, by their names.
use bitcoin_argus.Common.{
  ℕ, zero, suc, ◌≡◌, refl, String, Bool, true, false, ◌&&◌, ◌||◌, List, ◌++◌, arith, length, any,
  All, All-append, All-imp, inl, inr, Bool-cases,
}
use bitcoin_argus.Deploy.Network.{
  NetworkSpec, PortName, fixed, enabled_indexers, fedimint_enabled, fedimint_guardian_count,
  lnd_secondary_enabled, lnd_tertiary_enabled, mempool_enabled,
}
use bitcoin_argus.Deploy.Ports.{same_name}
use bitcoin_argus.Deploy.Firewall.{
  Opening, electrum_openings, fedimint_openings, openings, ark_enabled,
}
use bitcoin_argus.Deploy.Firewall.Closed.{is_closed}
use bitcoin_argus.Deploy.Sites.{SiteCfg}
use bitcoin_argus.Deploy.Sites.Opened.{Opens, Opens-service}
use bitcoin_argus.Web.Inventory.{
  Port, Planned, Nodes, rows_when, lnd_row, lnd_rows, indexer_rows, cashu_rows, guardian_rows,
  gateway_rows, ark_rows, shop_rows, planned_rows,
}

-- A port that is shown as public is opened, and any other is closed or the node's own for peers.
abbrev pub is_right : List Opening → Port → Bool
is_right os q = elim q.public [
  | true ↦ any (λ o. same_name q.name o.name) os
  | false ↦ is_closed q.name || same_name q.name (fixed "bitcoind_p2p")
]

abbrev pub Right : List Opening → List Planned → Type 0
Right os rows = All (λ r. All (λ q. is_right os q ≡ true) r.ports) rows

Right-append :
    (os : List Opening) (xs ys : List Planned) → Right os xs → Right os ys → Right os (xs ++ ys)
Right-append os = All-append (λ r. All (λ q. is_right os q ≡ true) r.ports)

Right-rows_when :
    (os : List Opening) (b : Bool) (rows : List Planned)
    → (b ≡ true → Right os rows)
    → Right os (rows_when b rows)
Right-rows_when os true rows h = h refl
Right-rows_when os false rows h = tt

-- Rows that are right for some of the openings are right for all of them.
Right-imp :
    (os ps : List Opening) (rows : List Planned)
    → ((name : PortName) → Opens os name → Opens ps name)
    → Right os rows
    → Right ps rows
Right-imp os ps rows f h =
    All-imp (λ r. All (λ q. is_right os q ≡ true) r.ports)
      (λ r. All (λ q. is_right ps q ≡ true) r.ports) rows
      (λ r.
        All-imp (λ q. is_right os q ≡ true) (λ q. is_right ps q ≡ true) r.ports
          (λ q k. elim (Bool-cases q.public) [
            | inl e ↦ ground (arith, f q.name)
            | inr e ↦ ground arith
          ]))
      h

module _ (ssl_enabled : Bool) (net_key : String) (cfg : SiteCfg) (spec : NetworkSpec) where
  indexer_rows-Right :
      (i n : ℕ) → Right (electrum_openings i n) (indexer_rows ssl_enabled net_key cfg spec i n)
  unfolding indexer_rows electrum_openings is_closed
  indexer_rows-Right i zero = tt
  indexer_rows-Right i (suc n) = (
    (ground arith, (refl, tt)),
    Right-imp (electrum_openings (suc i) n) (electrum_openings i (suc n)) _
        (λ name h. ground (arith, h)) (indexer_rows-Right (suc i) n),
  )

  guardian_rows-Right :
      (i n : ℕ) → Right (fedimint_openings i n) (guardian_rows ssl_enabled net_key cfg spec i n)
  unfolding guardian_rows fedimint_openings is_closed
  guardian_rows-Right i zero = tt
  guardian_rows-Right i (suc n) = (
    (ground arith, (refl, tt)),
    Right-imp (fedimint_openings (suc i) n) (fedimint_openings i (suc n)) _
        (λ name h. ground (arith, h)) (guardian_rows-Right (suc i) n),
  )

  gateway_rows-Right :
      (i n : ℕ) → Right (fedimint_openings i n) (gateway_rows ssl_enabled net_key cfg spec i n)
  unfolding gateway_rows fedimint_openings
  gateway_rows-Right i zero = tt
  gateway_rows-Right i (suc n) = (
    (ground arith, tt),
    Right-imp (fedimint_openings (suc i) n) (fedimint_openings i (suc n)) _
        (λ name h. ground (arith, h)) (gateway_rows-Right (suc i) n),
  )

  lnd_rows-Right :
      (nodes : Nodes)
      → Right (openings cfg.public spec) (lnd_rows ssl_enabled net_key cfg spec nodes)
  unfolding lnd_rows lnd_row is_closed
  lnd_rows-Right nodes =
      let net = cfg.public.network in
      let os = openings cfg.public spec in
      let service = Opens-service cfg.public spec in
      (
        (service (fixed "lnd_p2p") 1 refl, (refl, (refl, tt))),
        Right-append os _ _
            (Right-rows_when os (lnd_secondary_enabled net) _
              (λ e. ((service (fixed "lnd2_p2p") 2 (rw e refl), (refl, (refl, tt))), tt)))
            (Right-rows_when os (lnd_tertiary_enabled net) _
              (λ e. ((service (fixed "lnd3_p2p") 3 (rw e refl), (refl, (refl, tt))), tt))),
      )

  cashu_rows-Right :
      cfg.public.cashu ≡ true
      → Right (openings cfg.public spec) (cashu_rows ssl_enabled net_key cfg spec)
  unfolding cashu_rows
  cashu_rows-Right e =
      let service = Opens-service cfg.public spec in
      (
        (service (fixed "cashu_public") 5 (rw e refl), tt),
        Right-rows_when (openings cfg.public spec) cfg.public.cashu_wallet _
            (λ w. ((service (fixed "cashu_wallet_public") 5 (rw (e, w) refl), tt), tt)),
      )

  ark_rows-Right :
      ark_enabled cfg.public.network spec ≡ true
      → Right (openings cfg.public spec) (ark_rows ssl_enabled net_key cfg spec)
  unfolding ark_rows is_closed
  ark_rows-Right e =
      let service = Opens-service cfg.public spec in
      (
        (service (fixed "ark_captaind_public") 7 (rw e refl), (refl, tt)),
        ((service (fixed "ark_cln_p2p") 7 (rw e refl), (refl, tt)), tt),
      )

  shop_rows-Right : Right (openings cfg.public spec) (shop_rows ssl_enabled net_key cfg spec)
  unfolding shop_rows
  shop_rows-Right =
      let public = cfg.public in
      let net = public.network in
      let os = openings public spec in
      let service = Opens-service public spec in
      Right-append os _ _
        (Right-rows_when os (mempool_enabled net spec) _
          (λ e. ((service (fixed "mempool_public") 9 (rw e refl), tt), tt)))
        (Right-append os _ _
          (Right-rows_when os net.bitcart _ (λ e. (
            (
              service (fixed "bitcart_store_public") 10 (rw e refl),
              (
                service (fixed "bitcart_admin_public") 10 (rw e refl),
                (service (fixed "bitcart_api_public") 10 (rw e refl), tt),
              ),
            ),
            tt,
          )))
          (Right-append os _ _
            (Right-rows_when os public.cashupayserver _
              (λ e. ((service (fixed "cashupayserver_public") 11 (rw e refl), tt), tt)))
            (Right-rows_when os public.woocommerce _
              (λ e. ((service (fixed "woocommerce_public") 12 (rw e refl), tt), tt)))))

  pub planned_rows-Right :
      (nodes : Nodes)
      → Right (openings cfg.public spec) (planned_rows ssl_enabled net_key cfg spec nodes)
  unfolding planned_rows is_closed
  planned_rows-Right nodes =
      let net = cfg.public.network in
      let os = openings cfg.public spec in
      let service = Opens-service cfg.public spec in
      let guardians = fedimint_guardian_count net spec in
      Right-append os _ _ (Right-rows_when os net.faucet _ (λ e. (tt, tt))) (
        (
          elim (Bool-cases cfg.public.p2p_public) [
            | inl e ↦ rw e (service (fixed "bitcoind_p2p") 0 (rw e refl))
            | inr e ↦ rw e refl
          ],
          (refl, tt),
        ),
        Right-append os _ _
            (Right-rows_when os (net.miner && spec.supports_miner) _ (λ e. (tt, tt)))
            (Right-append os _ _ (lnd_rows-Right nodes) (
              Right-append os _ _
                (Right-imp (electrum_openings 0 (length (enabled_indexers net))) os _
                  (λ name h. service name 4 h) (indexer_rows-Right 0 _))
                (Right-append os _ _ (Right-rows_when os cfg.public.cashu _ cashu_rows-Right) (
                  Right-append os _ _
                    (Right-rows_when os (fedimint_enabled net spec) _ (λ e.
                      Right-append os _ _
                        (Right-imp (fedimint_openings 0 guardians) os _
                          (λ name h. service name 6 (rw e h)) (guardian_rows-Right 0 _))
                        (Right-imp (fedimint_openings 0 guardians) os _
                          (λ name h. service name 6 (rw e h)) (gateway_rows-Right 0 _))))
                    (Right-append os _ _
                      (Right-rows_when os (ark_enabled net spec) _ ark_rows-Right)
                      shop_rows-Right))))),
      )
