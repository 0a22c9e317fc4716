-- ===== src/Examples/Lightning.antt =====
-- The theorems about Lightning addresses and the cache, at a service of two networks.
use bitcoin_argus.Common.{ℕ, ◌≡◌, refl, true, none, some, List, [], ◌∷◌}
use bitcoin_argus.Faucet.Address.{codes}
use bitcoin_argus.Web.Lnurl.{
  Text, LnurlError, not_created, answered, refused, Resolved, Service, parse_name, local_part,
  address, Lightning, PayRequest, pay_request, metadata, partition, mint, mint_answer, credentials,
  invoice,
}
use bitcoin_argus.Web.Lnurl.Names.{parse_name-local_part}
use bitcoin_argus.Web.Lnurl.Invoices.{Within, invoice-Within}
use bitcoin_argus.Web.Cache.{Snapshot}

abbrev service : Service
service = record {
  enabled = true;
  min_sat = 1;
  max_sat = 1000;
  comment_length = 5;
  networks = codes "signet" ∷ codes "custom-signet-short" ∷ [];
  default_network = some (codes "signet");
}

abbrev short_net : Text
short_net = codes "custom-signet-short"

abbrev host : Text
host = codes "argus.example"

parse_name-local_part_example :
    parse_name service (local_part service (codes "donate") short_net)
    ≡ some (record { purpose = codes "donate"; net_key = short_net })
parse_name-local_part_example =
    parse_name-local_part service refl (codes "donate") short_net refl refl

-- A node that takes no post.
abbrev lightning : Lightning
lightning = record {
  Credentials = ℕ;
  dumps = λ m i. i;
  hash = λ t. 1 ∷ t;
  read_credentials = λ n. some 7;
  post = λ c n a d. none;
}

abbrev donate : Text
donate = codes "donate"

abbrev resolved : Resolved
resolved = record { purpose = donate; net_key = codes "signet" }

abbrev callback : Text
callback = codes "https"

abbrev document : PayRequest
document = record {
  callback = callback;
  min_sendable = 1000;
  max_sendable = 1_000_000;
  metadata = metadata lightning resolved (address service donate (codes "signet") host);
  comment_allowed = 5;
}

donate-resolved : parse_name service donate ≡ some resolved
unfolding parse_name partition
donate-resolved = refl

donate-document : pay_request lightning service donate host callback ≡ answered document
unfolding pay_request
donate-document = rw (donate-resolved, pay_request) refl

invoice-Within_example :
    (Within document 21_000 none
      → (res : Resolved) × (parse_name service donate ≡ some res)
        × (invoice lightning service donate host 21_000 none []
            ≡ mint lightning res 21_000 (lightning.hash document.metadata) []))
    × (¬ Within document 21_000 none
        → (e : LnurlError) × (invoice lightning service donate host 21_000 none []
            ≡ ([], refused e)))
invoice-Within_example =
    invoice-Within lightning service donate host callback 21_000 none [] document donate-document

raised : (mint lightning resolved 21_000 (1 ∷ []) []).1 ≡ refused not_created
unfolding mint credentials mint_answer
raised = refl

abbrev snapshots : List (Snapshot ℕ)
snapshots = record { scope = "metrics"; payload = 4; created_at = 100 } ∷ []
