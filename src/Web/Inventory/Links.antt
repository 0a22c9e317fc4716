-- ===== src/Web/Inventory/Links.antt =====
-- The links of argus/web/inventory.py against the sites of argus/shared.py, by the names of their ports.
use bitcoin_argus.Common.{
  ℕ, zero, suc, ◌≡◌, refl, String, Bool, true, false, ◌&&◌, List, ◌++◌, arith, str_eq, length, any,
  All, All-append, All-imp, Option, inl, inr, Bool-cases,
}
use bitcoin_argus.Common.Segments.{segment, any-flatten}
use bitcoin_argus.Deploy.Network.{
  NetworkSpec, PortName, fixed, enabled_indexers, fedimint_enabled, fedimint_guardian_count,
  lnd_secondary_enabled, lnd_tertiary_enabled, mempool_enabled,
}
use bitcoin_argus.Deploy.Ports.{same_name}
use bitcoin_argus.Deploy.Firewall.{ark_enabled}
use bitcoin_argus.Deploy.Sites.{SiteCfg, Front, fedimint_fronts, fronts}
use bitcoin_argus.Deploy.Onion.Names.{web_services, fronts-web_services}
use bitcoin_argus.Web.Inventory.{
  Link, on_port, wallet, faucet, elsewhere, Planned, Nodes, rows_when, node_links, is_known_key,
  mempool_space_networks, lnd_row, lnd_rows, indexer_rows, cashu_rows, guardian_rows, gateway_rows,
  ark_rows, shop_rows, planned_rows,
}

abbrev pub same_bool : Bool → Bool → Bool
same_bool true b = b
same_bool false true = false
same_bool false false = true

pub same_bool_refl : (b : Bool) → same_bool b b ≡ true
same_bool_refl true = refl
same_bool_refl false = refl

-- A site has the public name and the scheme.
abbrev pub is_front : Bool → PortName → Front → Bool
is_front https name f = same_name name f.public && same_bool f.ssl https

-- A link into the host leads to a site, with its scheme.
abbrev pub leads : List Front → Link → Bool
leads fs (on_port https name) = any (is_front https name) fs
leads fs (wallet https name mint) = any (is_front https name) fs && any (is_front https mint) fs
leads fs faucet = true
leads fs elsewhere = true

abbrev pub Led : List Front → List Planned → Type 0
Led fs rows = All (λ r. All (λ l. leads fs l ≡ true) r.links) rows

Led-append : (fs : List Front) (xs ys : List Planned) → Led fs xs → Led fs ys → Led fs (xs ++ ys)
Led-append fs = All-append (λ r. All (λ l. leads fs l ≡ true) r.links)

Led-rows_when :
    (fs : List Front) (b : Bool) (rows : List Planned)
    → (b ≡ true → Led fs rows)
    → Led fs (rows_when b rows)
Led-rows_when fs true rows h = h refl
Led-rows_when fs false rows h = tt

-- Links that lead to some of the sites lead to one of more.
leads-imp :
    (fs gs : List Front)
    → ((https : Bool) (name : PortName)
        → any (is_front https name) fs ≡ true
        → any (is_front https name) gs ≡ true)
    → (l : Link) → leads fs l ≡ true
    → leads gs l ≡ true
leads-imp fs gs f (on_port https name) h = f https name h
leads-imp fs gs f (wallet https name mint) h = ground (arith, f https name, f https mint)
leads-imp fs gs f faucet h = refl
leads-imp fs gs f elsewhere h = refl

Led-imp :
    (fs gs : List Front) (rows : List Planned)
    → ((https : Bool) (name : PortName)
        → any (is_front https name) fs ≡ true
        → any (is_front https name) gs ≡ true)
    → Led fs rows
    → Led gs rows
Led-imp fs gs rows f h =
    All-imp (λ r. All (λ l. leads fs l ≡ true) r.links) (λ r. All (λ l. leads gs l ≡ true) r.links)
      rows
      (λ r. All-imp (λ l. leads fs l ≡ true) (λ l. leads gs l ≡ true) r.links (leads-imp fs gs f)) h

module _ (ssl_enabled : Bool) (net_key : String) (cfg : SiteCfg) (spec : NetworkSpec) where
  site :
      (https : Bool) (name : PortName) (i : ℕ)
      → any (is_front https name) (segment i (web_services ssl_enabled cfg spec)) ≡ true
      → any (is_front https name) (fronts ssl_enabled cfg spec) ≡ true
  site https name i h =
      rw (fronts-web_services ssl_enabled cfg spec)
        (any-flatten (is_front https name) i (web_services ssl_enabled cfg spec) h)

  mempool_site :
      mempool_enabled cfg.public.network spec ≡ true
      → any
          (is_front (ssl_enabled && cfg.mempool_ssl) (fixed "mempool_public"))
          (fronts ssl_enabled cfg spec)
        ≡ true
  mempool_site e =
      let https = ssl_enabled && cfg.mempool_ssl in
      site https (fixed "mempool_public") 4 (rw (e, same_bool_refl https) refl)

  node_links-led :
      (pk : Option String)
      → All
          (λ l. leads (fronts ssl_enabled cfg spec) l ≡ true)
          (node_links ssl_enabled net_key cfg spec pk)
  unfolding node_links
  node_links-led pk =
      elim (Bool-cases (is_known_key pk && mempool_enabled cfg.public.network spec)) [
        | inl e ↦ rw e (mempool_site (ground arith), tt)
        | inr e ↦
            elim (Bool-cases (is_known_key pk && any (str_eq net_key) mempool_space_networks)) [
              | inl k ↦ rw (e, k) (refl, tt)
              | inr k ↦ rw (e, k) tt
            ]
      ]

  lnd_rows-Led :
      (nodes : Nodes)
      → Led (fronts ssl_enabled cfg spec) (lnd_rows ssl_enabled net_key cfg spec nodes)
  unfolding lnd_rows lnd_row
  lnd_rows-Led nodes =
      let net = cfg.public.network in
      let fs = fronts ssl_enabled cfg spec in
      (
        node_links-led nodes.lnd,
        Led-append fs _ _
            (Led-rows_when fs (lnd_secondary_enabled net) _ (λ e. (node_links-led nodes.lnd2, tt)))
            (Led-rows_when fs (lnd_tertiary_enabled net) _ (λ e. (node_links-led nodes.lnd3, tt))),
      )

  cashu_rows-Led :
      cfg.public.cashu ≡ true
      → Led (fronts ssl_enabled cfg spec) (cashu_rows ssl_enabled net_key cfg spec)
  unfolding cashu_rows
  cashu_rows-Led e =
      let https = ssl_enabled && cfg.cashu_ssl in
      let mint = site https (fixed "cashu_public") 0 (rw (e, same_bool_refl https) refl) in
      (
        (mint, tt),
        Led-rows_when (fronts ssl_enabled cfg spec) cfg.public.cashu_wallet _ (λ w.
            let page =
              site https (fixed "cashu_wallet_public") 0 (rw (e, w, same_bool_refl https) refl) in
            ((ground arith, tt), tt)),
      )

  indexer_rows-Led :
      (i n : ℕ) → Led (fronts ssl_enabled cfg spec) (indexer_rows ssl_enabled net_key cfg spec i n)
  unfolding indexer_rows
  indexer_rows-Led i zero = tt
  indexer_rows-Led i (suc n) = (tt, indexer_rows-Led (suc i) n)

  guardian_rows-Led :
      (i n : ℕ) → Led (fronts ssl_enabled cfg spec) (guardian_rows ssl_enabled net_key cfg spec i n)
  unfolding guardian_rows
  guardian_rows-Led i zero = tt
  guardian_rows-Led i (suc n) = (tt, guardian_rows-Led (suc i) n)

  gateway_rows-Led :
      (i n : ℕ)
      → Led (fedimint_fronts ssl_enabled i n) (gateway_rows ssl_enabled net_key cfg spec i n)
  unfolding gateway_rows fedimint_fronts
  gateway_rows-Led i zero = tt
  gateway_rows-Led i (suc n) = (
    (ground (arith, same_bool_refl ssl_enabled), tt),
    Led-imp (fedimint_fronts ssl_enabled (suc i) n) (fedimint_fronts ssl_enabled i (suc n))
        (gateway_rows ssl_enabled net_key cfg spec (suc i) n) (λ https name h. ground (arith, h))
        (gateway_rows-Led (suc i) n),
  )

  shop_rows-Led : Led (fronts ssl_enabled cfg spec) (shop_rows ssl_enabled net_key cfg spec)
  unfolding shop_rows
  shop_rows-Led =
      let public = cfg.public in
      let net = public.network in
      let fs = fronts ssl_enabled cfg spec in
      let store = ssl_enabled && cfg.bitcart_ssl in
      let pay = ssl_enabled && cfg.cashupayserver_ssl in
      let shop = ssl_enabled && cfg.woocommerce_ssl in
      Led-append fs _ _
        (Led-rows_when fs (mempool_enabled net spec) _ (λ e. ((mempool_site e, tt), tt)))
        (Led-append fs _ _
          (Led-rows_when fs net.bitcart _ (λ e. (
            (
              site store (fixed "bitcart_store_public") 5 (rw (e, same_bool_refl store) refl),
              (
                site store (fixed "bitcart_admin_public") 5 (rw (e, same_bool_refl store) refl),
                (site store (fixed "bitcart_api_public") 5 (rw (e, same_bool_refl store) refl), tt),
              ),
            ),
            tt,
          )))
          (Led-append fs _ _
            (Led-rows_when fs public.cashupayserver _ (λ e. (
              (site pay (fixed "cashupayserver_public") 6 (rw (e, same_bool_refl pay) refl), tt),
              tt,
            )))
            (Led-rows_when fs public.woocommerce _ (λ e. (
              (site shop (fixed "woocommerce_public") 7 (rw (e, same_bool_refl shop) refl), tt),
              tt,
            )))))

  pub planned_rows-Led :
      (nodes : Nodes)
      → Led (fronts ssl_enabled cfg spec) (planned_rows ssl_enabled net_key cfg spec nodes)
  unfolding planned_rows ark_rows
  planned_rows-Led nodes =
      let net = cfg.public.network in
      let fs = fronts ssl_enabled cfg spec in
      let guardians = fedimint_guardian_count net spec in
      Led-append fs _ _ (Led-rows_when fs net.faucet _ (λ e. ((refl, tt), tt))) (
        tt,
        Led-append fs _ _ (Led-rows_when fs (net.miner && spec.supports_miner) _ (λ e. (tt, tt))) (
            Led-append fs _ _ (lnd_rows-Led nodes) (
              Led-append fs _ _ (indexer_rows-Led 0 (length (enabled_indexers net))) (
                Led-append fs _ _ (Led-rows_when fs cfg.public.cashu _ cashu_rows-Led) (
                  Led-append fs _ _
                    (Led-rows_when fs (fedimint_enabled net spec) _ (λ e.
                      Led-append fs _ _ (guardian_rows-Led 0 guardians) (
                        Led-imp (fedimint_fronts ssl_enabled 0 guardians) fs _
                          (λ https name h. site https name 1 (rw e h))
                          (gateway_rows-Led 0 guardians))))
                    (Led-append fs _ _
                      (Led-rows_when fs (ark_enabled net spec) _ (λ e. (tt, (tt, tt))))
                      shop_rows-Led))))),
      )
