-- ===== src/Web/Donations/Resolved.antt =====
-- What the addresses of argus/web/inventory.py and argus/faucet/donations.py come to in argus/web/lnurl.py.
use bitcoin_argus.Common.{
  ◌≡◌, refl, ap, ◌∙◌, Bool, true, false, ◌&&◌, Option, none, some, List, [], ◌∷◌, ◌++◌, map, arith,
  if◌then◌else◌, filter, codes_eq, codes_eq→eq, All, inl, inr, Bool-cases,
}
use bitcoin_argus.Faucet.Address.{codes}
use bitcoin_argus.Deploy.Ports.{network_order}
use bitcoin_argus.Web.Lnurl.{
  Text, Resolved, Service, service_of, at_sign, is_one_of, parse_name, local_part, partition,
}
use bitcoin_argus.Web.Lnurl.Names.{parse_name-local_part, partition-append, Lacks}
use bitcoin_argus.Web.Inventory.Sections.{variant_order}
use bitcoin_argus.Web.Donations.{
  DonationCfg, Published, DonationRow, is_enabled, enabled_keys, default_net, donate_name,
  donation_row, build_donations, donation_reminder,
}

-- The service of the same settings.
abbrev pub lnurl_service : DonationCfg → Service
lnurl_service cfg = service_of cfg.lnurl (enabled_keys cfg)

-- What the part of an address before its at sign is resolved to.
unfoldable pub resolves : DonationCfg → Text → Option Resolved
resolves cfg identifier = parse_name (lnurl_service cfg) (partition at_sign identifier).0

-- An address, where one is shown, is resolved to the donations of the network.
abbrev pub Donates : DonationCfg → Text → Option Text → Type 0
Donates cfg key shown = elim shown [
  | none ↦ Unit
  | some t ↦ resolves cfg t ≡ some (record { purpose = codes "donate"; net_key = key })
]

donate_name-local_part :
    (cfg : DonationCfg) (key : Text)
    → donate_name cfg key ≡ local_part (lnurl_service cfg) (codes "donate") key
unfolding donate_name default_net local_part service_of
donate_name-local_part cfg key = refl

is_one_of-filter :
    (p : Text → Bool) (key : Text) (keys : List Text)
    → p key ≡ true
    → is_one_of key keys ≡ true
    → is_one_of key (filter p keys) ≡ true
is_one_of-filter p key [] h k = cc
is_one_of-filter p key (t ∷ ts) h k = elim (Bool-cases (codes_eq t key)) [
  | inl e ↦
      let same : t ≡ key = codes_eq→eq t key e in
      let kept : p t ≡ true = ap p same ∙ h in ground arith
  | inr e ↦ ground (arith, is_one_of-filter p key ts h)
]

-- A local part without an at sign is what is before the sign in its address.
before_at : (xs host : Text) → Lacks at_sign xs → (partition at_sign (xs ++ at_sign ∷ host)).0 ≡ xs
before_at xs host h = ap (λ r. r.0) (partition-append at_sign xs host h)

donate_name-Lacks :
    (cfg : DonationCfg) (key : Text) → Lacks at_sign key → Lacks at_sign (donate_name cfg key)
unfolding donate_name
donate_name-Lacks cfg key h =
    elim (Bool-cases (elim (default_net cfg) [ none ↦ false | some d ↦ codes_eq key d ])) [
      | inl e ↦ rw e refl
      | inr e ↦ rw e h
    ]

-- A key of a network that has no at sign.
abbrev Known : Text → Type 0
Known key = (is_one_of key (map codes network_order) ≡ true) × Lacks at_sign key

donate_name-resolves :
    (cfg : DonationCfg) (key host : Text)
    → Known key
    → is_enabled cfg key ≡ true
    → (cfg.lnurl.web_enabled && cfg.lnurl.enabled) ≡ true
    → resolves cfg (donate_name cfg key ++ at_sign ∷ host)
      ≡ some (record { purpose = codes "donate"; net_key = key })
unfolding resolves service_of enabled_keys
donate_name-resolves cfg key host known enabled on =
    let listed : is_one_of key (enabled_keys cfg) ≡ true =
      is_one_of-filter (is_enabled cfg) key (map codes network_order) enabled known.0 in
    ap (parse_name (lnurl_service cfg)) (
      before_at (donate_name cfg key) host (donate_name-Lacks cfg key known.1)
      ∙ donate_name-local_part cfg key)
    ∙ parse_name-local_part (lnurl_service cfg) on (codes "donate") key refl listed

-- What a row of the table and the faucet of its network show.
abbrev pub Agrees : DonationCfg → Option Text → DonationRow → Type 0
Agrees cfg address row =
    Donates cfg row.key row.lightning_address
    × Donates cfg row.key row.lightning_onion
    × ((donation_reminder cfg address row.key).lightning_address ≡ row.lightning_address)

Donates-if :
    (cfg : DonationCfg) (key : Text) (b : Bool) (shown : Option Text)
    → (b ≡ true → Donates cfg key shown)
    → Donates cfg key (if b then shown else none)
Donates-if cfg key true shown h = h refl
Donates-if cfg key false shown h = tt

Donates-onion :
    (cfg : DonationCfg) (key : Text) (onion_hostname : Option Text)
    → Known key
    → is_enabled cfg key ≡ true
    → (cfg.lnurl.web_enabled && cfg.lnurl.enabled) ≡ true
    → Donates cfg key (elim onion_hostname [
      | none ↦ none
      | some [] ↦ none
      | some (c ∷ cs) ↦ some (donate_name cfg key ++ at_sign ∷ c ∷ cs)
    ])
Donates-onion cfg key none known enabled on = tt
Donates-onion cfg key (some []) known enabled on = tt
Donates-onion cfg key (some (c ∷ cs)) known enabled on =
    donate_name-resolves cfg key (c ∷ cs) known enabled on

donation_row-Agrees :
    (cfg : DonationCfg) (onion_hostname : Option Text) (info : Text → Published)
    (address : Option Text) (key : Text)
    → Known key
    → is_enabled cfg key ≡ true
    → Agrees cfg address (donation_row cfg onion_hostname info key)
unfolding donation_row donation_reminder
donation_row-Agrees cfg onion_hostname info address key known enabled =
    let lnurl_on = cfg.lnurl.web_enabled && cfg.lnurl.enabled in
    (
      Donates-if cfg key (lnurl_on && cfg.ssl_enabled)
          (some (donate_name cfg key ++ at_sign ∷ cfg.hostname))
          (λ h. donate_name-resolves cfg key cfg.hostname known enabled (ground arith)),
      Donates-if cfg key lnurl_on _ (Donates-onion cfg key onion_hostname known enabled),
      ground arith,
    )

rows-Agrees :
    (cfg : DonationCfg) (onion_hostname : Option Text) (info : Text → Published)
    (address : Option Text) (keys : List Text)
    → All Known keys
    → All
        (Agrees cfg address)
        (map (donation_row cfg onion_hostname info) (filter (is_enabled cfg) keys))
rows-Agrees cfg onion_hostname info address [] h = tt
rows-Agrees cfg onion_hostname info address (key ∷ keys) h =
    elim (Bool-cases (is_enabled cfg key)) [
      | inl e ↦ rw e (
        donation_row-Agrees cfg onion_hostname info address key h.0 e,
        rows-Agrees cfg onion_hostname info address keys h.1,
      )
      | inr e ↦ rw e (rows-Agrees cfg onion_hostname info address keys h.1)
    ]

-- Every Lightning address in the table of donations, on the host's name or over the onion service, is one
-- that the service of the same settings resolves to the donations of the row's network; and the faucet
-- of the network shows the same address as the row.
pub build_donations-Agrees :
    (cfg : DonationCfg) (onion_hostname : Option Text) (info : Text → Published)
    (address : Option Text)
    → All (Agrees cfg address) (build_donations cfg onion_hostname info)
unfolding build_donations
build_donations-Agrees cfg onion_hostname info address =
    rows-Agrees cfg onion_hostname info address (map codes variant_order) (
      (refl, refl),
      (
        (refl, refl),
        ((refl, refl), ((refl, refl), ((refl, refl), ((refl, refl), ((refl, refl), tt))))),
      ),
    )
