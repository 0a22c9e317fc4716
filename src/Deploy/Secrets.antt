-- ===== src/Deploy/Secrets.antt =====
-- The secrets of a network (argus/secrets.py). A text is the list of its code points, a dict the list of its
-- items with one item per key, and the file of a network is its text, if there is one. The random numbers and
-- the signet key are arguments; the mode of the file is not modelled.
pub mod Lines
pub mod Dicts
pub mod Read
pub mod Created
pub mod Pair
pub mod Repeated
use bitcoin_argus.Common.{
  ℕ, zero, suc, ◌≤◌, String, Bool, true, false, not, ◌&&◌, ◌||◌, Option, none, some, is_some, List,
  [], ◌∷◌, ◌++◌, ltb, leb, ◌==◌, if◌then◌else◌, codes_eq, any, map,
}
use bitcoin_argus.Common.Table.{find?, upsert}
use bitcoin_argus.Faucet.Address.{codes, is_space}

abbrev pub Text : Type 0
Text = List ℕ

abbrev pub Values : Type 0
Values = List (Text × Text)

-- `values.get(key)`, `values[key] = value`.
unfoldable pub get : Text → Values → Option Text
get key values = elim (find? (λ r. codes_eq key r.0) values) [ none ↦ none | some r ↦ some r.1 ]

unfoldable pub set : Text → Text → Values → Values
set key value values = upsert (λ r. codes_eq key r.0) (λ r. (r.0, value)) (key, value) values

-- The characters at which `splitlines` ends a line. The line between the two of a pair is empty, and empty
-- lines are passed over.
abbrev pub is_break : ℕ → Bool
is_break c =
    (leb 10 c && leb c 13)
    || ((leb 28 c && leb c 30) || ((c == 133) || ((c == 8232) || (c == 8233))))

unfoldable pub splitlines : Text → List Text
splitlines [] = [] ∷ []
splitlines (c ∷ cs) =
    let rest = splitlines cs in
    if is_break c
    then [] ∷ rest
    else elim rest [ [] ↦ (c ∷ []) ∷ [] | line ∷ lines ↦ (c ∷ line) ∷ lines ]

unfoldable pub lstrip : Text → Text
lstrip [] = []
lstrip (c ∷ cs) = if is_space c then lstrip cs else c ∷ cs

unfoldable pub rstrip : Text → Text
rstrip [] = []
rstrip (c ∷ cs) =
    let rest = rstrip cs in
    elim rest [ [] ↦ (if is_space c then [] else c ∷ []) | d ∷ ds ↦ c ∷ d ∷ ds ]

unfoldable pub strip : Text → Text
strip t = rstrip (lstrip t)

abbrev pub equals_sign : ℕ
equals_sign = 61

abbrev pub hash_sign : ℕ
hash_sign = 35

abbrev pub newline : ℕ
newline = 10

-- `line.partition("=")`, if the line has the sign.
unfoldable pub parts : Text → Option (Text × Text)
parts [] = none
parts (c ∷ cs) =
    let rest = parts cs in
    if c == equals_sign
    then some ([], cs)
    else elim rest [ none ↦ none | some (k, v) ↦ some (c ∷ k, v) ]

-- The item of a line that was stripped; an empty line, a comment or one without the sign has none.
unfoldable pub line_item : Text → Option (Text × Text)
line_item [] = none
line_item (c ∷ cs) =
    if c == hash_sign
    then none
    else elim (parts (c ∷ cs)) [ none ↦ none | some (k, v) ↦ some (strip k, strip v) ]

unfoldable pub parse_lines : List Text → Values → Values
parse_lines [] out = out
parse_lines (line ∷ lines) out = elim (line_item (strip line)) [
  | none ↦ parse_lines lines out
  | some (k, v) ↦ parse_lines lines (set k v out)
]

-- `_parse_env`
unfoldable pub parse_env : Text → Values
parse_env text = parse_lines (splitlines text) []

-- The order of texts, and `sorted(values.items())` for keys that differ.
unfoldable pub text_leb : Text → Text → Bool
text_leb [] u = true
text_leb (c ∷ cs) [] = false
text_leb (c ∷ cs) (d ∷ ds) = ltb c d || ((c == d) && text_leb cs ds)

unfoldable pub insert : Text × Text → Values → Values
insert item [] = item ∷ []
insert item (r ∷ rows) =
    let rest = insert item rows in if text_leb item.0 r.0 then item ∷ r ∷ rows else r ∷ rest

unfoldable pub sorted : Values → Values
sorted [] = []
sorted (r ∷ rows) = insert r (sorted rows)

unfoldable pub body : Values → Text
body [] = []
body (r ∷ rows) = r.0 ++ equals_sign ∷ (r.1 ++ newline ∷ body rows)

-- `not values.get(key)`
unfoldable pub is_missing : Text → Values → Bool
is_missing key values = elim (get key values) [
  | none ↦ true
  | some [] ↦ true
  | some (c ∷ cs) ↦ false
]

-- The keys of `_REQUIRED`.
abbrev pub required_keys : List Text
required_keys = map codes (
    "RPC_USER" ∷ "RPC_PASSWORD" ∷ "MINT_PRIVATE_KEY" ∷ "MEMPOOL_DB_PASSWORD"
    ∷ "MEMPOOL_DB_ROOT_PASSWORD" ∷ "BITCART_ADMIN_PASSWORD" ∷ "CASHUPAYSERVER_ADMIN_PASSWORD"
    ∷ "WORDPRESS_ADMIN_PASSWORD" ∷ "WORDPRESS_DB_PASSWORD" ∷ "WORDPRESS_DB_ROOT_PASSWORD"
    ∷ "FEDIMINT_GUARDIAN_PASSWORD" ∷ "FEDIMINT_GATEWAY_PASSWORD" ∷ [])

-- What is generated for a network: a text for each required key, and the key of a signet with its
-- challenge.
pub record Generated : Type 0 where
  pub required : Text → Text
  pub challenge : Text
  pub wif : Text

abbrev pub challenge_key : Text
challenge_key = codes "SIGNET_CHALLENGE"

abbrev pub wif_key : Text
wif_key = codes "SIGNET_MINER_WIF"

-- The values with those that were missing, and whether there were any.
unfoldable pub add_required : Generated → List Text → Values → Values × Bool
add_required new [] values = (values, false)
add_required new (key ∷ keys) values =
    if is_missing key values
    then ((add_required new keys (set key (new.required key) values)).0, true)
    else add_required new keys values

unfoldable pub add_signet : Bool → Generated → Values → Values × Bool
add_signet signet_key new values =
    if signet_key && (is_missing challenge_key values || is_missing wif_key values)
    then (set wif_key new.wif (set challenge_key new.challenge values), true)
    else (values, false)

-- `read_secrets`
unfoldable pub read_secrets : Option Text → Values
read_secrets none = []
read_secrets (some text) = parse_env text

-- `load_or_create`: the values, and the file after the call.
unfoldable pub load_or_create : Generated → Bool → Option Text → Values × Option Text
load_or_create new signet_key file =
    let values = read_secrets file in
    let required = add_required new required_keys values in
    let all = add_signet signet_key new required.0 in
    (all.0, if required.1 || all.1 then some (body (sorted all.0)) else file)

-- `load_or_create_faucet_salt`: the salt, and the file after the call.
unfoldable pub load_or_create_faucet_salt : Text → Option Text → Text × Option Text
load_or_create_faucet_salt new none = (new, some (new ++ newline ∷ []))
load_or_create_faucet_salt new (some text) = (strip text, some text)
