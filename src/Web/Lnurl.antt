-- ===== src/Web/Lnurl.antt =====
-- The Lightning addresses and their invoices (argus/web/lnurl.py). A text is the list of its code points.
-- JSON, SHA-256 with base64, and the node behind HTTP and the container API are arguments; the chain of a
-- network, which only names a directory of its node, is with the reading of the credentials.
pub mod Names
pub mod Invoices
use bitcoin_argus.Common.{
  ℕ, zero, suc, ◌+◌, ◌*◌, ◌%◌, String, Bool, true, false, not, ◌&&◌, ◌||◌, Option, none, some, List,
  [], ◌∷◌, ◌++◌, ltb, leb, ◌==◌, if◌then◌else◌, codes_eq, any, length,
}
use bitcoin_argus.Common.Table.{delete}
use bitcoin_argus.Faucet.Address.{codes}

abbrev pub Text : Type 0
Text = List ℕ

-- What wallets are told; the numbers of a message are data.
pub data LnurlError : Type 0 where
  unknown_address : LnurlError
  amount_out_of_range : ℕ → ℕ → LnurlError
  not_whole_sats : LnurlError
  comment_too_long : ℕ → LnurlError
  not_reachable not_created no_invoice : LnurlError

pub data Answer {ℓ} (A : Type ℓ) : Type ℓ where
  answered : A → Answer A
  refused : LnurlError → Answer A

pub record Resolved : Type 0 where
  pub purpose : Text
  pub net_key : Text

-- `LnurlService`, built from the settings; `networks` are the enabled ones in their order.
pub record Service : Type 0 where
  pub enabled : Bool
  pub min_sat : ℕ
  pub max_sat : ℕ
  pub comment_length : ℕ
  pub networks : List Text
  pub default_network : Option Text

abbrev pub head? : List Text → Option Text
head? [] = none
head? (t ∷ ts) = some t

-- The settings of `web.lnurl` that the constructor reads.
pub record LnurlCfg : Type 0 where
  pub web_enabled : Bool
  pub enabled : Bool
  pub min_sat : ℕ
  pub max_sat : ℕ
  pub comment_length : ℕ
  pub default_network : Option Text

unfoldable pub service_of : LnurlCfg → List Text → Service
service_of cfg networks = record {
  enabled = cfg.web_enabled && cfg.enabled;
  min_sat = cfg.min_sat;
  max_sat = cfg.max_sat;
  comment_length = cfg.comment_length;
  networks = networks;
  default_network = elim cfg.default_network [
    | none ↦ head? networks
    | some [] ↦ head? networks
    | some (c ∷ cs) ↦ some (c ∷ cs)
  ];
}

abbrev pub is_one_of : Text → List Text → Bool
is_one_of t ts = any (λ u. codes_eq u t) ts

-- `PURPOSES`
abbrev pub purposes : List Text
purposes = codes "fees" ∷ codes "cashout" ∷ codes "donate" ∷ codes "referral" ∷ []

-- `str.partition` with one character: what is before the first, and what is after it if it is there.
unfoldable pub partition : ℕ → Text → Text × Option Text
partition sep [] = ([], none)
partition sep (c ∷ cs) =
    let rest = partition sep cs in if c == sep then ([], some cs) else (c ∷ rest.0, rest.1)

abbrev pub hyphen : ℕ
hyphen = 45

abbrev pub at_sign : ℕ
at_sign = 64

abbrev resolve_known : Service → Text → Text → Option Resolved
resolve_known svc purpose net_key =
    if is_one_of net_key svc.networks
    then some (record { purpose = purpose; net_key = net_key })
    else none

unfoldable pub parse_name : Service → Text → Option Resolved
parse_name svc [] = none
parse_name svc (c ∷ cs) =
    if not svc.enabled
    then none
    else if is_one_of (c ∷ cs) purposes
    then elim svc.default_network [
      | none ↦ none
      | some net_key ↦ resolve_known svc (c ∷ cs) net_key
    ]
    else let parts = partition hyphen (c ∷ cs) in
      elim parts.1 [
        | none ↦ none
        | some rest ↦
            if not (is_one_of parts.0 purposes) || not (is_one_of rest svc.networks)
            then none
            else resolve_known svc parts.0 rest
      ]

abbrev pub is_default : Service → Text → Bool
is_default svc net_key = elim svc.default_network [ none ↦ false | some d ↦ codes_eq net_key d ]

-- The local part of an address, and the address.
unfoldable pub local_part : Service → Text → Text → Text
local_part svc purpose net_key =
    if is_default svc net_key then purpose else purpose ++ hyphen ∷ net_key

unfoldable pub address : Service → Text → Text → Text → Text
unfolding local_part
address svc purpose net_key host = local_part svc purpose net_key ++ at_sign ∷ host

-- `identifier.split("@", 1)[-1]`
unfoldable pub after_at : Text → Text
after_at identifier = elim (partition at_sign identifier).1 [ none ↦ identifier | some rest ↦ rest ]

-- `_MEMOS`, filled in.
unfoldable pub memo : Text → Text → Text → Text
memo purpose host net =
    if codes_eq purpose (codes "fees")
    then codes "Fee payment to " ++ host
    else if codes_eq purpose (codes "cashout")
    then codes "Cashout to " ++ host
    else if codes_eq purpose (codes "donate")
    then codes "Donation to " ++ host ++ codes " (" ++ net ++ codes " testnet)"
    else codes "Referral / hosting fee to " ++ host

-- What invoices are minted with. A post that raises has no reply, and a reply may have no invoice.
pub record Lightning : Type 1 where
  pub Credentials : Type 0
  pub dumps : Text → Text → Text
  pub hash : Text → Text
  pub read_credentials : Text → Option Credentials
  pub post : Credentials → Text → ℕ → Text → Option (Option Text)

unfoldable pub metadata : Lightning → Resolved → Text → Text
metadata ln res identifier =
    ln.dumps (memo res.purpose (after_at identifier) res.net_key) identifier

pub record PayRequest : Type 0 where
  pub callback : Text
  pub min_sendable : ℕ
  pub max_sendable : ℕ
  pub metadata : Text
  pub comment_allowed : ℕ

unfoldable pub pay_request : Lightning → Service → Text → Text → Text → Answer PayRequest
pay_request ln svc name host callback_url = elim (parse_name svc name) [
  | none ↦ refused unknown_address
  | some res ↦ answered (record {
    callback = callback_url;
    min_sendable = svc.min_sat * 1000;
    max_sendable = svc.max_sat * 1000;
    metadata = metadata ln res (address svc res.purpose res.net_key host);
    comment_allowed = svc.comment_length;
  })
]

-- `_creds`
abbrev pub Cached : Lightning → Type 0
Cached ln = List (Text × ln.Credentials)

abbrev pub cached_for : (ln : Lightning) → Text → Cached ln → Option ln.Credentials
cached_for ln net [] = none
cached_for ln net (e ∷ creds) = if codes_eq e.0 net then some e.1 else cached_for ln net creds

unfoldable pub credentials : (ln : Lightning) → Text → Cached ln → Cached ln × Answer ln.Credentials
credentials ln net creds = elim (cached_for ln net creds) [
  | some c ↦ (creds, answered c)
  | none ↦ elim (ln.read_credentials net) [
    | none ↦ (creds, refused not_reachable)
    | some c ↦ ((net, c) ∷ creds, answered c)
  ]
]

-- The answer to a post; after one that raised, the credentials of the network are dropped.
unfoldable pub mint_answer :
    (ln : Lightning) → Text → Option (Option Text) → Cached ln → Cached ln × Answer Text
mint_answer ln net none creds = (delete (λ e. codes_eq e.0 net) creds, refused not_created)
mint_answer ln net (some none) creds = (creds, refused no_invoice)
mint_answer ln net (some (some [])) creds = (creds, refused no_invoice)
mint_answer ln net (some (some (c ∷ cs))) creds = (creds, answered (c ∷ cs))

unfoldable pub mint : (ln : Lightning) → Resolved → ℕ → Text → Cached ln → Cached ln × Answer Text
mint ln res amount_msat descr_hash creds =
    let (creds', found) = credentials ln res.net_key creds in
    elim found [
      | refused e ↦ (creds', refused e)
      | answered c ↦
          mint_answer ln res.net_key (ln.post c res.net_key amount_msat descr_hash) creds'
    ]

unfoldable pub invoice :
    (ln : Lightning) → Service → Text → Text → ℕ → Option Text → Cached ln → Cached ln × Answer Text
invoice ln svc name host amount_msat comment creds = elim (parse_name svc name) [
  | none ↦ (creds, refused unknown_address)
  | some res ↦
      let hash = ln.hash (metadata ln res (address svc res.purpose res.net_key host)) in
      let minted = mint ln res amount_msat hash creds in
      if ltb amount_msat (svc.min_sat * 1000) || ltb (svc.max_sat * 1000) amount_msat
      then (creds, refused (amount_out_of_range svc.min_sat svc.max_sat))
      else if not ((amount_msat % 1000) == 0)
      then (creds, refused not_whole_sats)
      else if elim comment [ none ↦ false | some t ↦ ltb svc.comment_length (length t) ]
      then (creds, refused (comment_too_long svc.comment_length))
      else minted
]
