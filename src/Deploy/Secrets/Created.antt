-- ===== src/Deploy/Secrets/Created.antt =====
-- Calls of `load_or_create` of argus/secrets.py one after the other.
use mathlib.Core.Path.{subst}
use bitcoin_argus.Common.{
  ◌≡◌, refl, sym, ap, ◌∙◌, Bool, true, false, List, [], ◌∷◌, arith, if◌then◌else◌, codes_eq,
  codes_eq→eq, codes_eq_refl, All, inl, inr, Bool-cases,
}
use bitcoin_argus.Deploy.Secrets.{
  Text, Values, get, set, is_missing, required_keys, Generated, challenge_key, wif_key,
  add_required,
}
use bitcoin_argus.Deploy.Secrets.Dicts.{get-set}
use bitcoin_argus.Deploy.Secrets.Lines.{IsPlain}
use bitcoin_argus.Deploy.Secrets.Read.{IsDict, set-IsDict}

-- What is generated is not empty and can be written on a line.
abbrev is_empty : Text → Bool
is_empty [] = true
is_empty (c ∷ cs) = false

pub record IsGood (new : Generated) : Type 0 where
  pub required_full : (key : Text) → is_empty (new.required key) ≡ false
  pub challenge_full : is_empty new.challenge ≡ false
  pub wif_full : is_empty new.wif ≡ false
  pub required_plain : All (λ key. IsPlain (key, new.required key)) required_keys
  pub challenge_plain : IsPlain (challenge_key, new.challenge)
  pub wif_plain : IsPlain (wif_key, new.wif)

pub is_missing-set :
    (k key v : Text) (values : Values)
    → is_empty v ≡ false
    → is_missing k (set key v values) ≡ (if codes_eq k key then false else is_missing k values)
unfolding is_missing
is_missing-set k key [] values h = cc
is_missing-set k key (c ∷ v) values h = ground (arith, get-set k key (c ∷ v) values)

-- A set of another key or of the key itself leaves no more missing.
pub set-keeps :
    (k key v : Text) (values : Values)
    → is_empty v ≡ false
    → is_missing k values ≡ false
    → is_missing k (set key v values) ≡ false
set-keeps k key v values h m = is_missing-set k key v values h ∙ ground arith

different :
    (k key : Text) (values : Values)
    → is_missing k values ≡ false
    → is_missing key values ≡ true
    → codes_eq k key ≡ false
different k key values h e = elim (Bool-cases (codes_eq k key)) [
  | inl t ↦ let same : k ≡ key = codes_eq→eq k key t in absurd (ground arith)
  | inr t ↦ t
]

added_none :
    (new : Generated) (values : Values) → IsDict values → IsDict (add_required new [] values).0
unfolding add_required
added_none new values h = h

module _ (new : Generated) where
  -- The values after a key that is missing, and after one that is not.
  add_required-missing :
      (key : Text) (keys : List Text) (values : Values)
      → is_missing key values ≡ true
      → (add_required new (key ∷ keys) values).0
        ≡ (add_required new keys (set key (new.required key) values)).0
  unfolding add_required
  add_required-missing key keys values e = rw (e) refl

  add_required-present :
      (key : Text) (keys : List Text) (values : Values)
      → is_missing key values ≡ false
      → add_required new (key ∷ keys) values ≡ add_required new keys values
  unfolding add_required
  add_required-present key keys values e = rw (e) refl

abbrev pub Full : List Text → Values → Type 0
Full keys values = All (λ k. is_missing k values ≡ false) keys

module _ (new : Generated) (good : IsGood new) where
  pub add_required-keeps :
      (k : Text) (keys : List Text) (values : Values)
      → is_missing k values ≡ false
      → is_missing k (add_required new keys values).0 ≡ false
  unfolding add_required
  add_required-keeps k [] values h = h
  add_required-keeps k (key ∷ keys) values h = elim (Bool-cases (is_missing key values)) [
    | inl e ↦ rw e (
        add_required-keeps k keys (set key (new.required key) values)
          (set-keeps k key (new.required key) values (good.required_full key) h))
    | inr e ↦ rw e (add_required-keeps k keys values h)
  ]

  pub add_required-Full :
      (keys : List Text) (values : Values) → Full keys (add_required new keys values).0
  add_required-Full [] values = tt
  add_required-Full (key ∷ keys) values = elim (Bool-cases (is_missing key values)) [
    | inl e ↦
        let more = set key (new.required key) values in
        let here : is_missing key more ≡ false =
          is_missing-set key key (new.required key) values (good.required_full key)
          ∙ ground (arith, codes_eq_refl key) in
        subst (Full (key ∷ keys)) (sym (add_required-missing new key keys values e))
          (add_required-keeps key keys more here, add_required-Full keys more)
    | inr e ↦
        subst (Full (key ∷ keys)) (sym (ap (λ r. r.0) (add_required-present new key keys values e)))
          (add_required-keeps key keys values e, add_required-Full keys values)
  ]

  pub add_required-IsDict :
      (keys : List Text) (values : Values)
      → All (λ key. IsPlain (key, new.required key)) keys
      → IsDict values
      → IsDict (add_required new keys values).0
  add_required-IsDict [] values p h = added_none new values h
  add_required-IsDict (key ∷ keys) values p h = elim (Bool-cases (is_missing key values)) [
    | inl e ↦ subst IsDict (sym (add_required-missing new key keys values e)) (
        add_required-IsDict keys (set key (new.required key) values) p.1
          (set-IsDict values key (new.required key) h p.0))
    | inr e ↦
        subst IsDict (sym (ap (λ r. r.0) (add_required-present new key keys values e)))
          (add_required-IsDict keys values p.1 h)
  ]

  -- A key that is not missing keeps its value.
  pub add_required-get :
      (k : Text) (keys : List Text) (values : Values)
      → is_missing k values ≡ false
      → get k (add_required new keys values).0 ≡ get k values
  unfolding add_required
  add_required-get k [] values h = refl
  add_required-get k (key ∷ keys) values h = elim (Bool-cases (is_missing key values)) [
    | inl e ↦
        let apart : codes_eq k key ≡ false = different k key values h e in
        rw e (
          add_required-get k keys (set key (new.required key) values)
            (set-keeps k key (new.required key) values (good.required_full key) h)
          ∙ (get-set k key (new.required key) values ∙ rw (apart) refl))
    | inr e ↦ rw e (add_required-get k keys values h)
  ]

-- Where nothing is missing, nothing is added.
pub add_required-nothing :
    (new : Generated) (keys : List Text) (values : Values)
    → All (λ k. is_missing k values ≡ false) keys
    → add_required new keys values ≡ (values, false)
unfolding add_required
add_required-nothing new [] values h = refl
add_required-nothing new (key ∷ keys) values h = rw (h.0) (add_required-nothing new keys values h.1)

-- No change means that nothing was missing.
pub add_required-unchanged :
    (new : Generated) (keys : List Text) (values : Values)
    → (add_required new keys values).1 ≡ false
    → (add_required new keys values).0 ≡ values
unfolding add_required
add_required-unchanged new [] values h = refl
add_required-unchanged new (key ∷ keys) values h = elim (Bool-cases (is_missing key values)) [
  | inl e ↦ absurd (ground arith)
  | inr e ↦ rw e (add_required-unchanged new keys values (ground arith))
]
