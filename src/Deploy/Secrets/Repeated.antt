-- ===== src/Deploy/Secrets/Repeated.antt =====
-- Calls of `load_or_create` of argus/secrets.py one after the other.
use bitcoin_argus.Common.{
  ◌≡◌, ◌⊎◌, refl, sym, ap, ◌∙◌, Bool, true, false, ◌||◌, Option, none, some, List, [], ◌∷◌, arith,
  if◌then◌else◌, codes_eq, inl, inr,
}
use bitcoin_argus.Deploy.Secrets.{
  Text, Values, get, sorted, body, is_missing, required_keys, Generated, challenge_key, wif_key,
  add_required, add_signet, read_secrets, load_or_create,
}
use bitcoin_argus.Deploy.Secrets.Read.{IsDict, parse_env-IsDict, parse_env-body}
use bitcoin_argus.Deploy.Secrets.Created.{
  IsGood, Full, add_required-keeps, add_required-Full, add_required-IsDict, add_required-get,
  add_required-nothing, add_required-unchanged,
}
use bitcoin_argus.Deploy.Secrets.Pair.{
  lacks_pair, add_signet-unwanted, add_signet-pair, add_signet-IsDict, Full-imp,
  add_signet-unchanged, add_signet-get,
}

-- Nothing is added to values that lack nothing.
load_or_create-nothing :
    (new : Generated) (signet_key : Bool) (file : Option Text)
    → Full required_keys (read_secrets file)
    → lacks_pair signet_key (read_secrets file) ≡ false
    → load_or_create new signet_key file ≡ (read_secrets file, file)
unfolding load_or_create
load_or_create-nothing new signet_key file full pair =
    rw
      (
        add_required-nothing new required_keys (read_secrets file) full,
        add_signet-unwanted signet_key new (read_secrets file) pair,
      )
      refl

read_secrets-IsDict : (file : Option Text) → IsDict (read_secrets file)
unfolding read_secrets
read_secrets-IsDict none = (tt, tt)
read_secrets-IsDict (some text) = parse_env-IsDict text

is_missing-same :
    (k : Text) (values values' : Values)
    → get k values' ≡ get k values
    → is_missing k values' ≡ is_missing k values
unfolding is_missing
is_missing-same k values values' h = ground (arith, h)

Full-same :
    (keys : List Text) (values values' : Values)
    → ((k : Text) → get k values' ≡ get k values)
    → Full keys values
    → Full keys values'
Full-same [] values values' same h = tt
Full-same (k ∷ keys) values values' same h =
    (is_missing-same k values values' (same k) ∙ h.0, Full-same keys values values' same h.1)

lacks_pair-same :
    (signet_key : Bool) (values values' : Values)
    → ((k : Text) → get k values' ≡ get k values)
    → lacks_pair signet_key values ≡ false
    → lacks_pair signet_key values' ≡ false
lacks_pair-same signet_key values values' same h =
    rw
      (
        is_missing-same challenge_key values values' (same challenge_key),
        is_missing-same wif_key values values' (same wif_key),
      )
      h

-- A second call after one with these values and this file.
again :
    (new : Generated) (signet_key : Bool) (values : Values) (file : Option Text)
    → ((k : Text) → get k (read_secrets file) ≡ get k values)
    → Full required_keys values
    → lacks_pair signet_key values ≡ false
    → ((k : Text) → get k (load_or_create new signet_key file).0 ≡ get k values)
      × ((load_or_create new signet_key file).1 ≡ file)
again new signet_key values file same full pair =
    let nothing =
      load_or_create-nothing new signet_key file
        (Full-same required_keys values (read_secrets file) same full)
        (lacks_pair-same signet_key values (read_secrets file) same pair) in
    (λ k. ap (λ r. get k r.0) nothing ∙ same k, ap (λ r. r.1) nothing)

-- The file after a call is read as the values, if they are written when they changed.
stored :
    (changed : Bool) (values : Values) (file : Option Text)
    → IsDict values
    → (changed ≡ false → values ≡ read_secrets file)
    → (k : Text)
    → get k (read_secrets (if changed then some (body (sorted values)) else file)) ≡ get k values
unfolding read_secrets
stored true values file h e k = parse_env-body values h k
stored false values file h e k = ap (get k) (sym (e refl))

-- If what is generated is not empty and is plain, then after a call a second one, whatever it would
-- generate, returns the same value for every key and leaves the file as it is.
pub load_or_create_idem :
    (new new' : Generated) (signet_key : Bool) (file : Option Text)
    → IsGood new
    → ((key : Text)
        → get key (load_or_create new' signet_key (load_or_create new signet_key file).1).0
          ≡ get key (load_or_create new signet_key file).0)
      × ((load_or_create new' signet_key (load_or_create new signet_key file).1).1
          ≡ (load_or_create new signet_key file).1)
unfolding load_or_create
load_or_create_idem new new' signet_key file good =
    let before = read_secrets file in
    let required = add_required new required_keys before in
    let all = add_signet signet_key new required.0 in
    let dict : IsDict all.0 = add_signet-IsDict new good signet_key required.0 (
      add_required-IsDict new good required_keys before good.required_plain
        (read_secrets-IsDict file)) in
    again new' signet_key all.0 (load_or_create new signet_key file).1
      (stored (required.1 || all.1) all.0 file dict (λ h.
        add_signet-unchanged signet_key new required.0 (ground arith)
        ∙ add_required-unchanged new required_keys before (ground arith)))
      (Full-imp new good signet_key required_keys required.0
        (add_required-Full new good required_keys before))
      (add_signet-pair new good signet_key required.0)

-- If what is generated is not empty, a call keeps the value of every key that has one, unless the key is
-- of the signet's pair and one of the pair has none.
pub load_or_create_kept :
    (new : Generated) (signet_key : Bool) (file : Option Text) (key : Text)
    → IsGood new
    → is_missing key (read_secrets file) ≡ false
    → ((codes_eq key challenge_key ≡ false) × (codes_eq key wif_key ≡ false))
      ⊎ ((is_missing challenge_key (read_secrets file) ≡ false)
          × (is_missing wif_key (read_secrets file) ≡ false))
    → get key (load_or_create new signet_key file).0 ≡ get key (read_secrets file)
unfolding load_or_create
load_or_create_kept new signet_key file key good h c =
    let before = read_secrets file in
    let required = add_required new required_keys before in
    add_signet-get new signet_key required.0 key (elim c [
      | inl apart ↦ inl apart
      | inr both ↦ inr (
        add_required-keeps new good challenge_key required_keys before both.0,
        add_required-keeps new good wif_key required_keys before both.1,
      )
    ])
    ∙ add_required-get new good key required_keys before h
