-- ===== src/Faucet/Pow/Token.antt =====
-- The challenge token: `issue`, `verify` and `check_solution` of argus/faucet/pow.py. A token is the
-- list of its characters. HMAC, base64 with JSON, the hexadecimal form of a number and the hash
-- primitives are arguments.
pub mod Laws
use bitcoin_argus.Common.{
  ℕ, ◌+◌, ◌*◌, String, Bool, true, false, not, ◌&&◌, ◌||◌, Option, none, some, List, [], ◌∷◌, ◌++◌,
  ltb, leb, ◌==◌, if◌then◌else◌, or_else, str_eq, codes_eq, length, any,
}
use bitcoin_argus.Faucet.Clock.{second, whole_seconds}

abbrev pub Text : Type 0
Text = List ℕ

-- The dictionary in a token: each key with its value, if it is there.
pub record Payload : Type 0 where
  pub v : Option ℕ
  pub net : Option String
  pub addr : Option String
  pub amt : Option ℕ
  pub alg : Option String
  pub tgt : Option Text
  pub iat : Option ℕ
  pub ttl : Option ℕ
  pub non : Option String

-- `encode` is `json.dumps` and URL-safe base64; `decode` undoes both, `none` for what it raises.
-- `parse_hex` is `int(text, 16)`.
pub record Codec : Type 0 where
  pub sign : Text → String → Text
  pub encode : Payload → Text
  pub decode : Text → Option Payload
  pub format_hex : ℕ → Text
  pub parse_hex : Text → Option ℕ

-- What `get_hasher` yields: the hash of a text, read as a number, or an exception.
pub data Hasher : Type 0 where
  hasher : (Text → ℕ) → Hasher
  unavailable unknown : Hasher

pub record Challenge : Type 0 where
  pub net : String
  pub address : String
  pub amount_sat : ℕ
  pub algorithm : String
  pub target : ℕ
  pub issued_at : ℕ
  pub ttl : ℕ
  pub nonce : String

-- The texts of the `PowError`s.
pub data PowError : Type 0 where
  malformed bad_signature malformed_payload bad_version other_network other_address other_amount :
      PowError
  expired malformed_target malformed_solution unknown_algorithm : PowError

-- `compare_digest` raises a TypeError for a text that is not ASCII.
pub data Verdict : Type 0 where
  verified : Challenge → Verdict
  refused : PowError → Verdict
  type_error : Verdict

abbrev pub not_ascii : Text → Bool
not_ascii t = any (λ c. leb 128 c) t

-- `token.split(".", 1)`, `none` if there is no dot.
unfoldable pub split_dot : Text → Option (Text × Text)
split_dot [] = none
split_dot (c ∷ cs) =
    if c == b'.'
    then some ([], cs)
    else elim (split_dot cs) [ none ↦ none | some (p, s) ↦ some (c ∷ p, s) ]

abbrev pub token_version : ℕ
token_version = 1

-- `payload.get(key) != value`
abbrev pub differs_text : Option String → String → Bool
differs_text none s = true
differs_text (some t) s = not (str_eq t s)

abbrev pub differs_number : Option ℕ → ℕ → Bool
differs_number none n = true
differs_number (some m) n = not (m == n)

module _ (codec : Codec) where
  open codec use {sign, encode, decode, format_hex, parse_hex}

  abbrev pub issue_payload : String → String → ℕ → String → ℕ → ℕ → String → ℕ → Payload
  issue_payload net address amount_sat algorithm target ttl nonce now = record {
    v = some token_version;
    net = some net;
    addr = some address;
    amt = some amount_sat;
    alg = some algorithm;
    tgt = some (format_hex target);
    iat = some (whole_seconds now);
    ttl = some ttl;
    non = some nonce;
  }

  unfoldable pub issue : String → String → String → ℕ → String → ℕ → ℕ → String → ℕ → Text
  issue secret net address amount_sat algorithm target ttl nonce now =
      let payload = encode (issue_payload net address amount_sat algorithm target ttl nonce now) in
      payload ++ b'.' ∷ sign payload secret

  -- The checks of an authentic payload, in their order.
  unfoldable pub verify_payload : Payload → String → String → ℕ → ℕ → Verdict
  verify_payload p net address amount_sat now =
      let issued_at = or_else p.iat 0 in
      let ttl = or_else p.ttl 0 in
      if differs_number p.v token_version
      then refused bad_version
      else if differs_text p.net net
      then refused other_network
      else if differs_text p.addr address
      then refused other_address
      else if differs_number p.amt amount_sat
      then refused other_amount
      else if ltb ((issued_at + ttl) * second) now
      then refused expired
      else elim (parse_hex (or_else p.tgt [])) [
        | none ↦ refused malformed_target
        | some target ↦ verified (record {
          net = net;
          address = address;
          amount_sat = amount_sat;
          algorithm = or_else p.alg "None";
          target = target;
          issued_at = issued_at;
          ttl = ttl;
          nonce = or_else p.non "None";
        })
      ]

  -- A signature is hexadecimal, so one that is not ASCII is another, and the comparison raises.
  unfoldable pub verify : Text → String → String → String → ℕ → ℕ → Verdict
  unfolding split_dot verify_payload
  verify token secret net address amount_sat now = elim (split_dot token) [
    | none ↦ refused malformed
    | some (payload, sig) ↦
        if codes_eq sig (sign payload secret)
        then elim (decode payload) [
          | none ↦ refused malformed_payload
          | some p ↦ verify_payload p net address amount_sat now
        ]
        else if not_ascii sig
        then type_error
        else refused bad_signature
  ]

-- What `check_solution` does: it answers, raises a `PowError` or `PowUnavailable`, or the encoding of
-- a text that is not ASCII raises.
pub data Check : Type 0 where
  answer : Bool → Check
  pow_error : PowError → Check
  pow_unavailable : Check
  encoding_error : Check

abbrev pub max_solution_len : ℕ
max_solution_len = 80

unfoldable pub check_solution : (String → Hasher) → Text → Text → Challenge → Check
check_solution get_hasher token solution challenge =
    if (length solution == 0) || ltb max_solution_len (length solution)
    then pow_error malformed_solution
    else elim (get_hasher challenge.algorithm) [
      | unavailable ↦ pow_unavailable
      | unknown ↦ pow_error unknown_algorithm
      | hasher h ↦
          if not_ascii (token ++ solution)
          then encoding_error
          else answer (ltb (h (token ++ solution)) challenge.target)
    ]
