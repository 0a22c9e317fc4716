-- ===== src/Web/Metrics/Names.antt =====
-- The names that the generator gives containers (argus/web/metrics.py), and what they are taken for.
use mathlib.Core.Path.{subst}
use bitcoin_argus.Common.{
  ◌≡◌, ◌∙◌, refl, ap, Bool, true, false, ◌||◌, none, some, List, [], ◌∷◌, ◌++◌, arith, All, inl,
  inr, Bool-cases, Option-cases,
}
use bitcoin_argus.Faucet.Address.{codes}
use bitcoin_argus.Web.Metrics.{
  Text, starts_with, contains, keyword_buckets, first_keyword, ends_with, bucket_for, longest_first,
  insert_longest, split_net_of, networks, split_net, strip_prefix, argus_prefixes, bitcart_prefixes,
  classify_rest, classify, hyphen, underscore,
}

-- The containers and volumes of a network: both prefixes, both separators, any name of a service.
abbrev pub Attributed : (Text → Text) → Text → Text → Type 0
Attributed lower tail net =
    All
      (λ prefix.
        All
          (λ sep.
            classify lower (prefix ++ (net ++ sep ∷ tail)) ≡ some (net, bucket_for lower tail))
          (hyphen ∷ underscore ∷ []))
      argus_prefixes

-- Those of the Bitcart of a network, with each prefix and each separator.
abbrev pub BitcartAttributed : (Text → Text) → Text → Text → Type 0
BitcartAttributed lower tail net =
    All
      (λ argus.
        All
          (λ prefix.
            All
              (λ sep.
                classify lower (argus ++ (prefix ++ (net ++ sep ∷ tail)))
                ≡ some (net, codes "bitcart"))
              (hyphen ∷ underscore ∷ []))
          bitcart_prefixes)
      argus_prefixes

-- A name made of a prefix, a network's key, a separator and any tail is taken for that network, with the
-- bucket of the tail; a name of a Bitcart is taken for the network and the bucket bitcart.
pub classify-network :
    (lower : Text → Text) (tail : Text)
    → All (λ net. Attributed lower tail net × BitcartAttributed lower tail net) networks
unfolding classify classify_rest strip_prefix starts_with split_net split_net_of longest_first
    insert_longest
classify-network lower tail = (
  (
    ((refl, (refl, tt)), ((refl, (refl, tt)), tt)),
    (
      ((refl, (refl, tt)), ((refl, (refl, tt)), tt)),
      (((refl, (refl, tt)), ((refl, (refl, tt)), tt)), tt),
    ),
  ),
  (
    (
      ((refl, (refl, tt)), ((refl, (refl, tt)), tt)),
      (
        ((refl, (refl, tt)), ((refl, (refl, tt)), tt)),
        (((refl, (refl, tt)), ((refl, (refl, tt)), tt)), tt),
      ),
    ),
    (
      (
        ((refl, (refl, tt)), ((refl, (refl, tt)), tt)),
        (
          ((refl, (refl, tt)), ((refl, (refl, tt)), tt)),
          (((refl, (refl, tt)), ((refl, (refl, tt)), tt)), tt),
        ),
      ),
      (
        (
          ((refl, (refl, tt)), ((refl, (refl, tt)), tt)),
          (
            ((refl, (refl, tt)), ((refl, (refl, tt)), tt)),
            (((refl, (refl, tt)), ((refl, (refl, tt)), tt)), tt),
          ),
        ),
        (
          (
            ((refl, (refl, tt)), ((refl, (refl, tt)), tt)),
            (
              ((refl, (refl, tt)), ((refl, (refl, tt)), tt)),
              (((refl, (refl, tt)), ((refl, (refl, tt)), tt)), tt),
            ),
          ),
          (
            (
              ((refl, (refl, tt)), ((refl, (refl, tt)), tt)),
              (
                ((refl, (refl, tt)), ((refl, (refl, tt)), tt)),
                (((refl, (refl, tt)), ((refl, (refl, tt)), tt)), tt),
              ),
            ),
            (
              (
                ((refl, (refl, tt)), ((refl, (refl, tt)), tt)),
                (
                  ((refl, (refl, tt)), ((refl, (refl, tt)), tt)),
                  (((refl, (refl, tt)), ((refl, (refl, tt)), tt)), tt),
                ),
              ),
              tt,
            ),
          ),
        ),
      ),
    ),
  ),
)

-- A keyword is its own bucket.
own_bucket : All (λ k. first_keyword keyword_buckets k ≡ some k) keyword_buckets
unfolding first_keyword contains starts_with
own_bucket = (
  refl,
  (
    refl,
    (refl, (refl, (refl, (refl, (refl, (refl, (refl, (refl, (refl, (refl, (refl, tt))))))))))),
  ),
)

first_keyword-All :
    (P : Text → Type 0) (keys : List Text) (t k : Text)
    → All P keys
    → first_keyword keys t ≡ some k
    → P k
unfolding first_keyword
first_keyword-All P [] t k h e = cc
first_keyword-All P (key ∷ keys) t k h e = elim (Bool-cases (contains key t)) [
  | inl c ↦ let same : key ≡ k = ground arith in subst P same h.0
  | inr c ↦ first_keyword-All P keys t k h.1 (ground arith)
]

All-and : (P Q : Text → Type 0) (ts : List Text) → All P ts → All Q ts → All (λ t. P t × Q t) ts
All-and P Q [] p q = tt
All-and P Q (t ∷ ts) p q = ((p.0, q.0), All-and P Q ts p.1 q.1)

other_bucket : first_keyword keyword_buckets (codes "other") ≡ none
unfolding first_keyword contains starts_with
other_bucket = refl

mempool_bucket : first_keyword keyword_buckets (codes "mempool") ≡ some (codes "mempool")
unfolding first_keyword contains starts_with
mempool_bucket = refl

other_mempool :
    (contains (codes "mariadb") (codes "other")
      || (ends_with (codes "_db") (codes "other") || ends_with (codes "-db") (codes "other")))
    ≡ false
unfolding contains starts_with ends_with
other_mempool = refl

-- Whether a name without a keyword belongs to the database of the mempool.
abbrev is_database : Text → Bool
is_database t =
    contains (codes "mariadb") t || (ends_with (codes "_db") t || ends_with (codes "-db") t)

abbrev or_other : Text → Text
or_other [] = codes "other"
or_other (c ∷ cs) = c ∷ cs

bucket_for-keyword :
    (lower : Text → Text) (t k : Text)
    → first_keyword keyword_buckets (lower t) ≡ some k
    → bucket_for lower t ≡ k
unfolding bucket_for
bucket_for-keyword lower t k e = rw (e, bucket_for) refl

bucket_for-database :
    (lower : Text → Text) (t : Text)
    → first_keyword keyword_buckets (lower t) ≡ none
    → is_database (lower t) ≡ true
    → bucket_for lower t ≡ codes "mempool"
unfolding bucket_for
bucket_for-database lower t e d = rw (e, d, bucket_for) refl

bucket_for-own :
    (lower : Text → Text) (t : Text)
    → first_keyword keyword_buckets (lower t) ≡ none
    → is_database (lower t) ≡ false
    → bucket_for lower t ≡ or_other t
unfolding bucket_for
bucket_for-own lower [] e d = rw (e, d, bucket_for) refl
bucket_for-own lower (c ∷ cs) e d = rw (e, d, bucket_for) refl

-- If lower case leaves the keywords and the word other as they are, then the bucket of a bucket is that
-- bucket.
pub bucket_for_idem :
    (lower : Text → Text) (tail : Text)
    → All (λ k. lower k ≡ k) keyword_buckets
    → lower (codes "other") ≡ codes "other"
    → bucket_for lower (bucket_for lower tail) ≡ bucket_for lower tail
bucket_for_idem lower tail words other =
    elim (Option-cases (first_keyword keyword_buckets (lower tail))) [
      | inr (k, e) ↦ rw (bucket_for-keyword lower tail k e) (keyword k (lower tail) e)
      | inl e ↦ elim (Bool-cases (is_database (lower tail))) [
        | inl d ↦
            rw (bucket_for-database lower tail e d)
              (keyword (codes "mempool") (codes "mempool") mempool_bucket)
        | inr d ↦ rw (bucket_for-own lower tail e d) (own tail e d)
      ]
    ]
  where
    keyword : (k t : Text) → first_keyword keyword_buckets t ≡ some k → bucket_for lower k ≡ k
    keyword k t e =
        let fixed : (first_keyword keyword_buckets k ≡ some k) × (lower k ≡ k) =
          first_keyword-All (λ k. (first_keyword keyword_buckets k ≡ some k) × (lower k ≡ k))
            keyword_buckets t k
            (All-and (λ k. first_keyword keyword_buckets k ≡ some k) (λ k. lower k ≡ k)
              keyword_buckets own_bucket words)
            e in
        bucket_for-keyword lower k k (ap (first_keyword keyword_buckets) fixed.1 ∙ fixed.0)

    own :
        (t : Text)
        → first_keyword keyword_buckets (lower t) ≡ none
        → is_database (lower t) ≡ false
        → bucket_for lower (or_other t) ≡ or_other t
    own [] e d =
        bucket_for-own lower (codes "other")
          (ap (first_keyword keyword_buckets) other ∙ other_bucket)
          (ap is_database other ∙ other_mempool)
    own (c ∷ cs) e d = bucket_for-own lower (c ∷ cs) e d
