-- ===== src/Deploy/Secrets/Pair.antt =====
-- The pair of values that a signet needs (argus/secrets.py).
use mathlib.Core.Path.{subst}
use bitcoin_argus.Common.{
  ◌≡◌, ◌⊎◌, refl, sym, ap, ◌∙◌, Bool, true, false, ◌&&◌, ◌||◌, List, [], ◌∷◌, arith, codes_eq, inl,
  inr, Bool-cases,
}
use bitcoin_argus.Deploy.Secrets.{
  Text, Values, get, set, is_missing, Generated, challenge_key, wif_key, add_signet,
}
use bitcoin_argus.Deploy.Secrets.Dicts.{get-set}
use bitcoin_argus.Deploy.Secrets.Read.{IsDict, set-IsDict}
use bitcoin_argus.Deploy.Secrets.Created.{IsGood, is_missing-set, set-keeps, Full}

-- Whether the pair of a signet is wanted and not there.
abbrev pub lacks_pair : Bool → Values → Bool
lacks_pair signet_key values =
    signet_key && (is_missing challenge_key values || is_missing wif_key values)

abbrev pub with_pair : Generated → Values → Values
with_pair new values = set wif_key new.wif (set challenge_key new.challenge values)

pub add_signet-wanted :
    (signet_key : Bool) (new : Generated) (values : Values)
    → lacks_pair signet_key values ≡ true
    → add_signet signet_key new values ≡ (with_pair new values, true)
unfolding add_signet
add_signet-wanted signet_key new values h = rw (h) refl

pub add_signet-unwanted :
    (signet_key : Bool) (new : Generated) (values : Values)
    → lacks_pair signet_key values ≡ false
    → add_signet signet_key new values ≡ (values, false)
unfolding add_signet
add_signet-unwanted signet_key new values h = rw (h) refl

module _ (new : Generated) (good : IsGood new) where
  with_pair-keeps :
      (k : Text) (values : Values)
      → is_missing k values ≡ false
      → is_missing k (with_pair new values) ≡ false
  with_pair-keeps k values h =
      set-keeps k wif_key new.wif (set challenge_key new.challenge values) good.wif_full
        (set-keeps k challenge_key new.challenge values good.challenge_full h)

  with_pair-full :
      (values : Values)
      → (is_missing challenge_key (with_pair new values) ≡ false)
        × (is_missing wif_key (with_pair new values) ≡ false)
  with_pair-full values =
      let first = set challenge_key new.challenge values in
      (
        set-keeps challenge_key wif_key new.wif first good.wif_full (
            is_missing-set challenge_key challenge_key new.challenge values good.challenge_full
            ∙ refl),
        is_missing-set wif_key wif_key new.wif first good.wif_full ∙ refl,
      )

  with_pair-IsDict : (values : Values) → IsDict values → IsDict (with_pair new values)
  with_pair-IsDict values h =
      set-IsDict (set challenge_key new.challenge values) wif_key new.wif
        (set-IsDict values challenge_key new.challenge h good.challenge_plain) good.wif_plain

  -- With the signet's pair, nothing that was there is missing, and the pair is not lacking.
  pub add_signet-keeps :
      (signet_key : Bool) (k : Text) (values : Values)
      → is_missing k values ≡ false
      → is_missing k (add_signet signet_key new values).0 ≡ false
  add_signet-keeps signet_key k values h = elim (Bool-cases (lacks_pair signet_key values)) [
    | inl e ↦ rw (add_signet-wanted signet_key new values e) (with_pair-keeps k values h)
    | inr e ↦ rw (add_signet-unwanted signet_key new values e) h
  ]

  pub add_signet-pair :
      (signet_key : Bool) (values : Values)
      → lacks_pair signet_key (add_signet signet_key new values).0 ≡ false
  add_signet-pair signet_key values = elim (Bool-cases (lacks_pair signet_key values)) [
    | inl e ↦
        let (a, b) = with_pair-full values in
        rw (add_signet-wanted signet_key new values e, a, b) (ground arith)
    | inr e ↦ rw (add_signet-unwanted signet_key new values e) e
  ]

  pub add_signet-IsDict :
      (signet_key : Bool) (values : Values)
      → IsDict values
      → IsDict (add_signet signet_key new values).0
  add_signet-IsDict signet_key values h = elim (Bool-cases (lacks_pair signet_key values)) [
    | inl e ↦
        subst IsDict (sym (ap (λ r. r.0) (add_signet-wanted signet_key new values e)))
          (with_pair-IsDict values h)
    | inr e ↦ subst IsDict (sym (ap (λ r. r.0) (add_signet-unwanted signet_key new values e))) h
  ]

  pub Full-imp :
      (signet_key : Bool) (keys : List Text) (values : Values)
      → Full keys values
      → Full keys (add_signet signet_key new values).0
  Full-imp signet_key [] values h = tt
  Full-imp signet_key (k ∷ keys) values h =
      (add_signet-keeps signet_key k values h.0, Full-imp signet_key keys values h.1)

pub add_signet-unchanged :
    (signet_key : Bool) (new : Generated) (values : Values)
    → (add_signet signet_key new values).1 ≡ false
    → (add_signet signet_key new values).0 ≡ values
unfolding add_signet
add_signet-unchanged signet_key new values h = elim (Bool-cases (lacks_pair signet_key values)) [
  | inl e ↦ absurd (ground arith)
  | inr e ↦ rw e refl
]

pub add_signet-get :
    (new : Generated) (signet_key : Bool) (values : Values) (key : Text)
    → ((codes_eq key challenge_key ≡ false) × (codes_eq key wif_key ≡ false))
      ⊎ ((is_missing challenge_key values ≡ false) × (is_missing wif_key values ≡ false))
    → get key (add_signet signet_key new values).0 ≡ get key values
add_signet-get new signet_key values key c = elim (Bool-cases (lacks_pair signet_key values)) [
  | inr e ↦ rw (add_signet-unwanted signet_key new values e) refl
  | inl e ↦ elim c [
    | inl apart ↦
        rw
          (
            add_signet-wanted signet_key new values e,
            get-set key wif_key new.wif (set challenge_key new.challenge values),
            get-set key challenge_key new.challenge values,
            apart.0,
            apart.1,
          )
          refl
    | inr both ↦ absurd (ground (arith, both.0, both.1))
  ]
]
