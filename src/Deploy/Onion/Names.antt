-- ===== src/Deploy/Onion/Names.antt =====
-- The routes of argus/tor.py against the sites of argus/shared.py and the rules of argus/firewall.py, by
-- the names of their ports.
use bitcoin_argus.Common.{
  ℕ, zero, suc, ◌≡◌, refl, String, Bool, true, false, ◌&&◌, List, [], ◌∷◌, ◌++◌, arith, length, any,
  All, All-append, All-imp,
}
use bitcoin_argus.Common.Segments.{flatten, segment, any-flatten}
use bitcoin_argus.Deploy.Network.{
  NetworkSpec, fixed, fedimint_enabled, fedimint_guardian_count, mempool_enabled,
  lnd_secondary_enabled, lnd_tertiary_enabled, enabled_indexers,
}
use bitcoin_argus.Deploy.Ports.{same_name}
use bitcoin_argus.Deploy.Firewall.{electrum_openings, openings, ark_enabled, electrum_relay_enabled}
use bitcoin_argus.Deploy.Sites.{SiteCfg, TorCfg, Front, front, fronts_when, fedimint_fronts, fronts}
use bitcoin_argus.Deploy.Sites.Opened.{Opens, services, Opens-service}
use bitcoin_argus.Deploy.Onion.{
  http, tcp, Link, links_when, peer_link, electrum_links, web_links, lnd_links, links,
}

-- The sites of a network, service by service.
abbrev pub web_services : Bool → SiteCfg → NetworkSpec → List (List Front)
web_services ssl_enabled cfg spec =
    let public = cfg.public in
    let net = public.network in
    fronts_when public.cashu (
      front "cashu_public" "cashu_backend" (ssl_enabled && cfg.cashu_ssl)
      ++ fronts_when public.cashu_wallet
          (front "cashu_wallet_public" "cashu_wallet_backend" (ssl_enabled && cfg.cashu_ssl)))
    ∷ fronts_when (fedimint_enabled net spec)
        (fedimint_fronts ssl_enabled 0 (fedimint_guardian_count net spec))
    ∷ fronts_when (ark_enabled net spec) (
        record {
          public = fixed "ark_captaind_public";
          backend = fixed "ark_captaind";
          ssl = ssl_enabled;
          h2c = true;
        }
        ∷ [])
    ∷ fronts_when (electrum_relay_enabled public && public.relay_public)
        (front "nostr_relay_public" "nostr_relay_backend" (ssl_enabled && cfg.relay_ssl))
    ∷ fronts_when (mempool_enabled net spec)
        (front "mempool_public" "mempool_web" (ssl_enabled && cfg.mempool_ssl))
    ∷ fronts_when net.bitcart (
        front "bitcart_store_public" "bitcart_store" (ssl_enabled && cfg.bitcart_ssl)
        ++ (front "bitcart_admin_public" "bitcart_admin" (ssl_enabled && cfg.bitcart_ssl)
            ++ front "bitcart_api_public" "bitcart_api" (ssl_enabled && cfg.bitcart_ssl)))
    ∷ fronts_when public.cashupayserver (
        front "cashupayserver_public" "cashupayserver_backend"
          (ssl_enabled && cfg.cashupayserver_ssl))
    ∷ fronts_when public.woocommerce
        (front "woocommerce_public" "woocommerce_backend" (ssl_enabled && cfg.woocommerce_ssl))
    ∷ []

pub fronts-web_services :
    (ssl_enabled : Bool) (cfg : SiteCfg) (spec : NetworkSpec)
    → fronts ssl_enabled cfg spec ≡ flatten (web_services ssl_enabled cfg spec)
unfolding fronts
fronts-web_services ssl_enabled cfg spec = refl

-- A site is on the ports of a link.
abbrev pub is_site : Link → Front → Bool
is_site l f = same_name l.virtual f.public && same_name l.target f.backend

-- A link of a web page leads where a site leads, and any other to the port of its own name.
abbrev pub Fronted : List Front → Link → Type 0
Fronted fs l = elim l.kind [ http ↦ any (is_site l) fs ≡ true | tcp ↦ l.target ≡ l.virtual ]

-- A link is opened by the firewall and leads where it should.
abbrev pub Known : Bool → SiteCfg → NetworkSpec → Link → Type 0
Known ssl_enabled cfg spec l =
    Opens (openings cfg.public spec) l.virtual × Fronted (fronts ssl_enabled cfg spec) l

All-links_when :
    (P : Link → Type 0) (b : Bool) (ls : List Link)
    → (b ≡ true → All P ls)
    → All P (links_when b ls)
All-links_when P true ls h = h refl
All-links_when P false ls h = tt

module _ (ssl_enabled : Bool) (cfg : SiteCfg) (spec : NetworkSpec) where
  web-Known :
      (public target : String) (i j : ℕ)
      → Opens (segment i (services cfg.public spec)) (fixed public)
      → any
          (is_site (record { virtual = fixed public; target = fixed target; kind = http }))
          (segment j (web_services ssl_enabled cfg spec))
        ≡ true
      → Known ssl_enabled cfg spec
          (record { virtual = fixed public; target = fixed target; kind = http })
  web-Known public target i j h k =
      let l : Link = record { virtual = fixed public; target = fixed target; kind = http } in
      (
        Opens-service cfg.public spec (fixed public) i h,
        rw (fronts-web_services ssl_enabled cfg spec)
            (any-flatten (is_site l) j (web_services ssl_enabled cfg spec) k),
      )

  web_links-Known : All (Known ssl_enabled cfg spec) (web_links cfg spec)
  unfolding web_links
  web_links-Known =
      let public = cfg.public in
      let net = public.network in
      let known : Link → Type 0 = Known ssl_enabled cfg spec in
      All-append known _ _
        (All-links_when known public.cashu _ (λ e. (
          web-Known "cashu_public" "cashu_backend" 5 0 (rw e refl) (rw e refl),
          All-links_when known public.cashu_wallet _ (λ w. (
            web-Known "cashu_wallet_public" "cashu_wallet_backend" 5 0 (rw (e, w) refl)
                (rw (e, w) refl),
            tt,
          )),
        )))
        (All-append known _ _
          (All-links_when known (mempool_enabled net spec) _
            (λ e. (web-Known "mempool_public" "mempool_web" 9 4 (rw e refl) (rw e refl), tt)))
          (All-append known _ _
            (All-links_when known net.bitcart _ (λ e. (
              web-Known "bitcart_store_public" "bitcart_store" 10 5 (rw e refl) (rw e refl),
              (
                web-Known "bitcart_admin_public" "bitcart_admin" 10 5 (rw e refl) (rw e refl),
                (web-Known "bitcart_api_public" "bitcart_api" 10 5 (rw e refl) (rw e refl), tt),
              ),
            )))
            (All-append known _ _
              (All-links_when known public.cashupayserver _ (λ e. (
                web-Known "cashupayserver_public" "cashupayserver_backend" 11 6 (rw e refl)
                    (rw e refl),
                tt,
              )))
              (All-links_when known public.woocommerce _ (λ e. (
                web-Known "woocommerce_public" "woocommerce_backend" 12 7 (rw e refl) (rw e refl),
                tt,
              ))))))

  peer-Known :
      (name : String) (i : ℕ)
      → Opens (segment i (services cfg.public spec)) (fixed name)
      → All (Known ssl_enabled cfg spec) (peer_link name)
  peer-Known name i h = ((Opens-service cfg.public spec (fixed name) i h, refl), tt)

  lnd_links-Known : All (Known ssl_enabled cfg spec) (lnd_links cfg)
  unfolding lnd_links
  lnd_links-Known =
      let net = cfg.public.network in
      let known : Link → Type 0 = Known ssl_enabled cfg spec in
      All-append known (peer_link "lnd_p2p") _ (peer-Known "lnd_p2p" 1 refl) (
        All-append known _ _
          (All-links_when known (lnd_secondary_enabled net) _
            (λ e. peer-Known "lnd2_p2p" 2 (rw e refl)))
          (All-links_when known (lnd_tertiary_enabled net) _
            (λ e. peer-Known "lnd3_p2p" 3 (rw e refl))))

electrum_links-Opens :
    (fs : List Front) (i n : ℕ)
    → All (λ l. Opens (electrum_openings i n) l.virtual × Fronted fs l) (electrum_links i n)
unfolding electrum_links electrum_openings
electrum_links-Opens fs i zero = tt
electrum_links-Opens fs i (suc n) = (
  (ground arith, refl),
  All-imp (λ l. Opens (electrum_openings (suc i) n) l.virtual × Fronted fs l) _
      (electrum_links (suc i) n) (λ l h. (ground (arith, h.0), h.1))
      (electrum_links-Opens fs (suc i) n),
)

pub links-Known :
    (ssl_enabled : Bool) (tor : TorCfg) (cfg : SiteCfg) (spec : NetworkSpec)
    → All (Known ssl_enabled cfg spec) (links tor cfg spec)
unfolding links
links-Known ssl_enabled tor cfg spec =
    let net = cfg.public.network in
    let known : Link → Type 0 = Known ssl_enabled cfg spec in
    let indexers = length (enabled_indexers net) in
    All-append known _ _
      (All-links_when known tor.expose_web _ (λ e. web_links-Known ssl_enabled cfg spec))
      (All-append known _ _
        (All-links_when known tor.expose_electrum _ (λ e.
          All-imp
            (λ l.
              Opens (electrum_openings 0 indexers) l.virtual
              × Fronted (fronts ssl_enabled cfg spec) l)
            known (electrum_links 0 indexers)
            (λ l h. (Opens-service cfg.public spec l.virtual 4 h.0, h.1))
            (electrum_links-Opens (fronts ssl_enabled cfg spec) 0 indexers)))
        (All-append known _ _
          (All-links_when known tor.expose_lnd_p2p _ (λ e. lnd_links-Known ssl_enabled cfg spec))
          (All-links_when known (tor.expose_bitcoind_p2p && cfg.public.p2p_public) _ (λ e.
            let open_port : cfg.public.p2p_public ≡ true = ground arith in
            peer-Known ssl_enabled cfg spec "bitcoind_p2p" 0 (rw open_port refl)))))
