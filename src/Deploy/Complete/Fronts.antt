-- ===== src/Deploy/Complete/Fronts.antt =====
-- The names that the sites and the routes of a network ask for are in its layout.
use mathlib.Core.Path.{subst}
use bitcoin_argus.Common.{
  ℕ, zero, suc, ◌+◌, ◌≡◌, ◌≤◌, refl, String, Bool, true, false, ◌&&◌, List, [], ◌∷◌, arith, str_eq,
  any, All, All-append, All-imp, inl, inr, Bool-cases,
}
use bitcoin_argus.Deploy.Network.{
  NetworkSpec, PortName, fedimint_enabled, fedimint_guardian_count, mempool_enabled,
}
use bitcoin_argus.Deploy.Ports.{same_name, port_offsets}
use bitcoin_argus.Deploy.Firewall.{Opening, openings, ark_enabled, electrum_relay_enabled}
use bitcoin_argus.Deploy.Sites.{SiteCfg, TorCfg, Front, front, fronts_when, fedimint_fronts, fronts}
use bitcoin_argus.Deploy.Sites.Opened.{Opens}
use bitcoin_argus.Deploy.Sites.Reachable.{same_name→eq}
use bitcoin_argus.Deploy.Onion.{Link, links}
use bitcoin_argus.Deploy.Onion.Names.{is_site, Fronted, links-Known}
use bitcoin_argus.Deploy.Onion.Backed.{RouteKind-cases, Targets}
use bitcoin_argus.Deploy.Complete.Given.{Named, Named-fixed}
use bitcoin_argus.Deploy.Complete.Numbered.{guardian-Named, gateway-Named}
use bitcoin_argus.Deploy.Complete.Names.{openings-Named}

module _ (ssl_enabled : Bool) (net_key : String) (cfg : SiteCfg) (spec : NetworkSpec) where
  abbrev IsNamed : PortName → Type 0
  IsNamed = Named net_key cfg.public.network spec

  abbrev pub Sited : Front → Type 0
  Sited f = IsNamed f.public × IsNamed f.backend

  pair :
      (public backend : String) (ssl : Bool)
      → any (λ q. str_eq public q.0) port_offsets ≡ true
      → any (λ q. str_eq backend q.0) port_offsets ≡ true
      → All Sited (front public backend ssl)
  pair public backend ssl h k =
      let net = cfg.public.network in
      ((Named-fixed net_key net spec public h, Named-fixed net_key net spec backend k), tt)

  All-fronts_when :
      (b : Bool) (fs : List Front) → (b ≡ true → All Sited fs) → All Sited (fronts_when b fs)
  All-fronts_when true fs h = h refl
  All-fronts_when false fs h = tt

  fedimint_fronts-Sited :
      (i n : ℕ)
      → i + n ≤ fedimint_guardian_count cfg.public.network spec
      → All Sited (fedimint_fronts ssl_enabled i n)
  unfolding fedimint_fronts
  fedimint_fronts-Sited i zero h = tt
  fedimint_fronts-Sited i (suc n) h = (
    guardian-Named net_key cfg.public.network spec i (omega (arith, h)),
    (
      gateway-Named net_key cfg.public.network spec i (omega (arith, h)),
      fedimint_fronts-Sited (suc i) n (omega (arith, h)),
    ),
  )

  pub fronts-Sited : All Sited (fronts ssl_enabled cfg spec)
  unfolding fronts
  fronts-Sited =
      let public = cfg.public in
      let net = public.network in
      All-append Sited _ _
        (All-fronts_when public.cashu _ (λ e. (
          (pair "cashu_public" "cashu_backend" true refl refl).0,
          All-fronts_when public.cashu_wallet _
              (λ w. pair "cashu_wallet_public" "cashu_wallet_backend" true refl refl),
        )))
        (All-append Sited _ _
          (All-fronts_when (fedimint_enabled net spec) _
            (λ e. fedimint_fronts-Sited 0 (fedimint_guardian_count net spec) (omega arith)))
          (All-append Sited _ _
            (All-fronts_when (ark_enabled net spec) _
              (λ e. ((pair "ark_captaind_public" "ark_captaind" true refl refl).0, tt)))
            (All-append Sited _ _
              (All-fronts_when (electrum_relay_enabled public && public.relay_public) _
                (λ e. pair "nostr_relay_public" "nostr_relay_backend" true refl refl))
              (All-append Sited _ _
                (All-fronts_when (mempool_enabled net spec) _
                  (λ e. pair "mempool_public" "mempool_web" true refl refl))
                (All-append Sited _ _
                  (All-fronts_when net.bitcart _ (λ e. (
                    (pair "bitcart_store_public" "bitcart_store" true refl refl).0,
                    (
                      (pair "bitcart_admin_public" "bitcart_admin" true refl refl).0,
                      pair "bitcart_api_public" "bitcart_api" true refl refl,
                    ),
                  )))
                  (All-append Sited _ _
                    (All-fronts_when public.cashupayserver _
                      (λ e. pair "cashupayserver_public" "cashupayserver_backend" true refl refl))
                    (All-fronts_when public.woocommerce _
                      (λ e. pair "woocommerce_public" "woocommerce_backend" true refl refl))))))))

  opened-IsNamed :
      (name : PortName) (os : List Opening)
      → Opens os name
      → All (λ o. IsNamed o.name) os
      → IsNamed name
  opened-IsNamed name [] h k = absurd cc
  opened-IsNamed name (o ∷ os) h k = elim (Bool-cases (same_name name o.name)) [
    | inl e ↦ let same : name ≡ o.name = same_name→eq name o.name e in rw (same) k.0
    | inr e ↦ opened-IsNamed name os (ground arith) k.1
  ]

  Sited-IsNamed :
      (l : Link) (fs : List Front) → any (is_site l) fs ≡ true → All Sited fs → IsNamed l.target
  Sited-IsNamed l [] h k = absurd cc
  Sited-IsNamed l (f ∷ fs) h k = elim (Bool-cases (is_site l f)) [
    | inl e ↦
        let same : l.target ≡ f.backend = same_name→eq l.target f.backend (ground arith) in
        rw (same) k.0.1
    | inr e ↦ Sited-IsNamed l fs (ground arith) k.1
  ]

  pub links-Named :
      (tor : TorCfg) → All (λ l. IsNamed l.virtual × IsNamed l.target) (links tor cfg spec)
  links-Named tor =
      let os = openings cfg.public spec in
      let fs = fronts ssl_enabled cfg spec in
      All-imp (λ l. Opens os l.virtual × Fronted fs l) (λ l. IsNamed l.virtual × IsNamed l.target)
        (links tor cfg spec)
        (λ l h.
          let virtual = opened-IsNamed l.virtual os h.0 (openings-Named net_key cfg.public spec) in
          (
            virtual,
            elim (RouteKind-cases l.kind) [
              | inl k ↦ Sited-IsNamed l fs (subst (Targets fs l) k h.1) fronts-Sited
              | inr k ↦
                  let itself : l.target ≡ l.virtual = subst (Targets fs l) k h.1 in
                  rw (itself) virtual
            ],
          ))
        (links-Known ssl_enabled tor cfg spec)
