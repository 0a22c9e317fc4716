-- ===== src/Web/Lnurl/Names.antt =====
-- The names of Lightning addresses (argus/web/lnurl.py): writing one and reading it.
use bitcoin_argus.Common.{
  ℕ, ◌≡◌, ◌≢◌, ◌∙◌, refl, sym, ap, Bool, true, false, ◌||◌, some, List, [], ◌∷◌, ◌++◌, arith, ◌==◌,
  codes_eq, codes_eq→eq, any, inl, inr, Bool-cases, Option-cases,
}
use bitcoin_argus.Web.Lnurl.{
  Text, Service, is_one_of, purposes, partition, hyphen, at_sign, parse_name, is_default,
  local_part, address, after_at,
}

-- A text without a character.
abbrev pub Lacks : ℕ → Text → Type 0
Lacks sep t = any (λ c. c == sep) t ≡ false

pub partition-append :
    (sep : ℕ) (xs ys : Text) → Lacks sep xs → partition sep (xs ++ sep ∷ ys) ≡ (xs, some ys)
unfolding partition
partition-append sep [] ys h = ground arith
partition-append sep (x ∷ xs) ys h = ground (arith, partition-append sep xs ys)

any-append_cons : (sep : ℕ) (xs ys : Text) → any (λ c. c == sep) (xs ++ sep ∷ ys) ≡ true
any-append_cons sep [] ys = ground arith
any-append_cons sep (x ∷ xs) ys = ground (arith, any-append_cons sep xs ys)

any-append : (p : ℕ → Bool) (xs ys : Text) → any p (xs ++ ys) ≡ (any p xs || any p ys)
any-append p [] ys = refl
any-append p (x ∷ xs) ys = ground (arith, any-append p xs ys)

is_one_of-any :
    (p : Text → Bool) (t : Text) (ts : List Text)
    → is_one_of t ts ≡ true
    → any p ts ≡ false
    → p t ≡ false
is_one_of-any p t [] h a = cc
is_one_of-any p t (u ∷ ts) h a = elim (Bool-cases (codes_eq u t)) [
  | inl e ↦ let same : u ≡ t = codes_eq→eq u t e in ground arith
  | inr e ↦ is_one_of-any p t ts (ground arith) (ground arith)
]

purposes-Lacks-hyphen : (p : Text) → is_one_of p purposes ≡ true → Lacks hyphen p
purposes-Lacks-hyphen p h = is_one_of-any (any (λ c. c == hyphen)) p purposes h refl

purposes-Lacks-at_sign : (p : Text) → is_one_of p purposes ≡ true → Lacks at_sign p
purposes-Lacks-at_sign p h = is_one_of-any (any (λ c. c == at_sign)) p purposes h refl

hyphenated : (p n : Text) → is_one_of (p ++ hyphen ∷ n) purposes ≡ false
hyphenated p n = elim (Bool-cases (is_one_of (p ++ hyphen ∷ n) purposes)) [
  | inl e ↦
      absurd
        (true≢false (sym (any-append_cons hyphen p n) ∙ purposes-Lacks-hyphen (p ++ hyphen ∷ n) e))
  | inr e ↦ e
]
  where
    true≢false : true ≢ false
    true≢false e = cc

module _ (svc : Service) (on : svc.enabled ≡ true) where
  parse_name-purpose :
      (p d : Text)
      → is_one_of p purposes ≡ true
      → svc.default_network ≡ some d
      → is_one_of d svc.networks ≡ true
      → parse_name svc p ≡ some (record { purpose = p; net_key = d })
  unfolding parse_name
  parse_name-purpose [] d h e k = cc
  parse_name-purpose (c ∷ cs) d h e k = rw (on, h, e, k) refl

  parse_name-hyphenated :
      (t p n : Text)
      → t ≡ p ++ hyphen ∷ n
      → is_one_of p purposes ≡ true
      → is_one_of n svc.networks ≡ true
      → parse_name svc t ≡ some (record { purpose = p; net_key = n })
  unfolding parse_name
  parse_name-hyphenated [] [] n e h k = cc
  parse_name-hyphenated [] (x ∷ p) n e h k = cc
  parse_name-hyphenated (c ∷ cs) p n e h k =
      let parts : partition hyphen (c ∷ cs) ≡ (p, some n) =
        ap (partition hyphen) e ∙ partition-append hyphen p n (purposes-Lacks-hyphen p h) in
      let other : is_one_of (c ∷ cs) purposes ≡ false =
        ap (λ t. is_one_of t purposes) e ∙ hyphenated p n in
      let before : (partition hyphen (c ∷ cs)).0 ≡ p = ap (λ r. r.0) parts in
      let after : (partition hyphen (c ∷ cs)).1 ≡ some n = ap (λ r. r.1) parts in
      rw (on, other, after, before, h, k) refl

  -- If the service is on, the purpose is one of the four and the network is enabled, then the name that an
  -- address is written with is read as that purpose and network.
  pub parse_name-local_part :
      (p n : Text)
      → is_one_of p purposes ≡ true
      → is_one_of n svc.networks ≡ true
      → parse_name svc (local_part svc p n) ≡ some (record { purpose = p; net_key = n })
  unfolding local_part
  parse_name-local_part p n h k = elim (Option-cases svc.default_network) [
    | inl e ↦
        let f : is_default svc n ≡ false = rw (e) refl in
        rw (f) (parse_name-hyphenated (p ++ hyphen ∷ n) p n refl h k)
    | inr (d, e) ↦ elim (Bool-cases (codes_eq n d)) [
      | inl t ↦
          let same : n ≡ d = codes_eq→eq n d t in
          let f : is_default svc n ≡ true = rw (e) t in
          rw (f) (parse_name-purpose p n h (e ∙ ap some (sym same)) k)
      | inr t ↦
          let f : is_default svc n ≡ false = rw (e) t in
          rw (f) (parse_name-hyphenated (p ++ hyphen ∷ n) p n refl h k)
    ]
  ]

after_at-append : (xs host : Text) → Lacks at_sign xs → after_at (xs ++ at_sign ∷ host) ≡ host
unfolding after_at
after_at-append xs host h =
    let after : (partition at_sign (xs ++ at_sign ∷ host)).1 ≡ some host =
      ap (λ r. r.1) (partition-append at_sign xs host h) in
    rw (after, after_at) refl

-- The memo of an address names the host of the address, if the network's key has no at sign.
pub after_at-address :
    (svc : Service) (p n host : Text)
    → is_one_of p purposes ≡ true
    → Lacks at_sign n
    → after_at (address svc p n host) ≡ host
unfolding address local_part
after_at-address svc p n host h k = elim (Bool-cases (is_default svc n)) [
  | inl e ↦ rw (e) (after_at-append p host (purposes-Lacks-at_sign p h))
  | inr e ↦
      let lacks : Lacks at_sign (p ++ hyphen ∷ n) =
        any-append (λ c. c == at_sign) p (hyphen ∷ n)
        ∙ ground (arith, purposes-Lacks-at_sign p h) in
      rw (e) (after_at-append (p ++ hyphen ∷ n) host lacks)
]
