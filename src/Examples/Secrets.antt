-- ===== src/Examples/Secrets.antt =====
-- The theorems about the file of secrets, at a file with one value.
use mathlib.Core.Path.{subst}
use bitcoin_argus.Common.{◌≡◌, refl, true, false, some, [], ◌∷◌, inl, All, map}
use bitcoin_argus.Faucet.Address.{codes, is_space}
use bitcoin_argus.Deploy.Secrets.{
  Text, Values, get, set, Generated, load_or_create, read_secrets, required_keys, sorted, body,
  parse_env, parse_lines, splitlines, line_item, parts, lstrip, rstrip, strip, is_missing,
}
use bitcoin_argus.Deploy.Secrets.Lines.{IsPlain}
use bitcoin_argus.Deploy.Secrets.Read.{parse_env-body, parse_env-IsDict, IsDict}
use bitcoin_argus.Deploy.Secrets.Created.{IsGood}
use bitcoin_argus.Deploy.Secrets.Repeated.{load_or_create_idem, load_or_create_kept}

abbrev file : Text
file = codes "# kept\nRPC_USER = me\n\nBITCART_SMTP_PASSWORD=a b=c\n"

abbrev values : Values
values = (codes "RPC_USER", codes "me") ∷ (codes "BITCART_SMTP_PASSWORD", codes "a b=c") ∷ []

read : parse_env file ≡ values
unfolding parse_env parse_lines splitlines line_item parts lstrip rstrip strip set is_space
read = refl

values-IsDict : IsDict values
values-IsDict = subst IsDict read (parse_env-IsDict file)

parse_env-body_example :
    get (codes "RPC_USER") (parse_env (body (sorted values))) ≡ get (codes "RPC_USER") values
parse_env-body_example = parse_env-body values values-IsDict (codes "RPC_USER")

abbrev generated : Generated
generated = record { required = λ key. codes "00ff"; challenge = codes "5121"; wif = codes "cV" }

abbrev items : Values
items = map (λ key. (key, codes "00ff")) required_keys

items_read : parse_env (body items) ≡ items
unfolding parse_env parse_lines splitlines line_item parts lstrip rstrip strip set is_space body
items_read = refl

items-IsPlain : All IsPlain items
items-IsPlain = subst (All IsPlain) items_read (parse_env-IsDict (body items)).0

generated-IsGood : IsGood generated
unfolding is_space lstrip rstrip
generated-IsGood = record {
  required_full = λ key. refl;
  challenge_full = refl;
  wif_full = refl;
  required_plain = items-IsPlain;
  challenge_plain = record {
    key_trim = (refl, refl);
    value_trim = (refl, refl);
    key_no_comment = refl;
    key_no_equals = refl;
    key_one_line = refl;
    value_one_line = refl;
  };
  wif_plain = record {
    key_trim = (refl, refl);
    value_trim = (refl, refl);
    key_no_comment = refl;
    key_no_equals = refl;
    key_one_line = refl;
    value_one_line = refl;
  };
}

load_or_create_idem_example :
    ((key : Text)
      → get key (load_or_create generated true (load_or_create generated true (some file)).1).0
        ≡ get key (load_or_create generated true (some file)).0)
    × ((load_or_create generated true (load_or_create generated true (some file)).1).1
        ≡ (load_or_create generated true (some file)).1)
load_or_create_idem_example =
    load_or_create_idem generated generated true (some file) generated-IsGood

user_kept : is_missing (codes "RPC_USER") (read_secrets (some file)) ≡ false
unfolding is_missing get read_secrets parse_env parse_lines splitlines line_item parts lstrip rstrip
    strip set is_space
user_kept = refl

load_or_create_kept_example :
    get (codes "RPC_USER") (load_or_create generated true (some file)).0
    ≡ get (codes "RPC_USER") (read_secrets (some file))
load_or_create_kept_example =
    load_or_create_kept generated true (some file) (codes "RPC_USER") generated-IsGood user_kept
      (inl (refl, refl))
