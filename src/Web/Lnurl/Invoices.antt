-- ===== src/Web/Lnurl/Invoices.antt =====
-- The two requests that a wallet makes (argus/web/lnurl.py), compared.
use mathlib.Core.Path.{subst}
use bitcoin_argus.Common.{
  ℕ, ◌*◌, ◌%◌, ◌≤◌, ◌≡◌, refl, ◌||◌, Option, none, some, [], ◌∷◌, arith, ltb, ◌==◌, codes_eq,
  length, inl, inr, Bool-cases, Option-cases,
}
use bitcoin_argus.Common.Table.{delete}
use bitcoin_argus.Web.Lnurl.{
  Text, LnurlError, amount_out_of_range, not_whole_sats, comment_too_long, not_created, answered,
  refused, Resolved, Service, parse_name, address, Lightning, metadata, PayRequest, pay_request,
  Cached, cached_for, credentials, mint, mint_answer, invoice,
}

-- What a wallet may ask for after it read the document.
pub record Within (pay : PayRequest) (amount_msat : ℕ) (comment : Option Text) : Type 0 where
  pub at_least : pay.min_sendable ≤ amount_msat
  pub at_most : amount_msat ≤ pay.max_sendable
  pub whole : amount_msat % 1000 ≡ 0
  pub short : (t : Text) → comment ≡ some t → length t ≤ pay.comment_allowed

module _ (ln : Lightning) (svc : Service) (name host callback_url : Text) (amount_msat : ℕ)
    (comment : Option Text) (creds : Cached ln) where
  -- A name that the document is refused for is refused an invoice with the same words.
  pub invoice-refused :
      (e : LnurlError)
      → pay_request ln svc name host callback_url ≡ refused e
      → invoice ln svc name host amount_msat comment creds ≡ (creds, refused e)
  unfolding pay_request invoice
  invoice-refused e h = elim (Option-cases (parse_name svc name)) [
    | inl n ↦ ground arith
    | inr (res, n) ↦ absurd (ground arith)
  ]

  document : Resolved → PayRequest
  document res = record {
    callback = callback_url;
    min_sendable = svc.min_sat * 1000;
    max_sendable = svc.max_sat * 1000;
    metadata = metadata ln res (address svc res.purpose res.net_key host);
    comment_allowed = svc.comment_length;
  }

  pay_request-document :
      (pay : PayRequest)
      → pay_request ln svc name host callback_url ≡ answered pay
      → (res : Resolved) × (parse_name svc name ≡ some res) × (document res ≡ pay)
  unfolding pay_request document
  pay_request-document pay h = elim (Option-cases (parse_name svc name)) [
    | inl n ↦ absurd (ground arith)
    | inr (res, n) ↦ (res, n, ground arith)
  ]

  mint-document :
      (res : Resolved)
      → parse_name svc name ≡ some res
      → Within (document res) amount_msat comment
      → invoice ln svc name host amount_msat comment creds
        ≡ mint ln res amount_msat (ln.hash (document res).metadata) creds
  unfolding invoice document
  mint-document res n w = elim (Option-cases comment) [
    | inl c ↦ ground arith
    | inr (t, c) ↦ ground (arith, w.short t c)
  ]

  refuse-document :
      (res : Resolved)
      → parse_name svc name ≡ some res
      → ¬ Within (document res) amount_msat comment
      → (e : LnurlError) × (invoice ln svc name host amount_msat comment creds ≡ (creds, refused e))
  unfolding invoice document
  refuse-document res n w =
      elim (Bool-cases
        (ltb amount_msat (svc.min_sat * 1000) || ltb (svc.max_sat * 1000) amount_msat)) [
          | inl r ↦ (amount_out_of_range svc.min_sat svc.max_sat, ground arith)
          | inr r ↦ elim (Bool-cases ((amount_msat % 1000) == 0)) [
            | inr m ↦ (not_whole_sats, ground arith)
            | inl m ↦ elim (Option-cases comment) [
              | inl c ↦ absurd (
                  w (record {
                    at_least = ground arith;
                    at_most = ground arith;
                    whole = ground arith;
                    short = λ t e. cc;
                  }))
              | inr (t, c) ↦ elim (Bool-cases (ltb svc.comment_length (length t))) [
                | inl l ↦ (comment_too_long svc.comment_length, ground arith)
                | inr l ↦ absurd (
                    w (record {
                      at_least = ground arith;
                      at_most = ground arith;
                      whole = ground arith;
                      short = λ u e. ground arith;
                    }))
              ]
            ]
          ]
        ]

  -- If the name has a document, a request that keeps to it is minted, with the hash of the document's own
  -- metadata, and any other request is refused and leaves the cache as it is.
  pub invoice-Within :
      (pay : PayRequest)
      → pay_request ln svc name host callback_url ≡ answered pay
      → (Within pay amount_msat comment
          → (res : Resolved) × (parse_name svc name ≡ some res)
            × (invoice ln svc name host amount_msat comment creds
                ≡ mint ln res amount_msat (ln.hash pay.metadata) creds))
        × (¬ Within pay amount_msat comment
            → (e : LnurlError) × (invoice ln svc name host amount_msat comment creds
                ≡ (creds, refused e)))
  invoice-Within pay h =
      let (res, n, same) = pay_request-document pay h in
      subst
        (λ p.
          (Within p amount_msat comment
            → (res : Resolved) × (parse_name svc name ≡ some res)
              × (invoice ln svc name host amount_msat comment creds
                  ≡ mint ln res amount_msat (ln.hash p.metadata) creds))
          × (¬ Within p amount_msat comment
              → (e : LnurlError) × (invoice ln svc name host amount_msat comment creds
                  ≡ (creds, refused e))))
        same (λ w. (res, n, mint-document res n w), refuse-document res n)

cached_for-delete :
    (ln : Lightning) (net : Text) (creds : Cached ln)
    → cached_for ln net (delete (λ e. codes_eq e.0 net) creds) ≡ none
cached_for-delete ln net [] = refl
cached_for-delete ln net (e ∷ creds) = ground (arith, cached_for-delete ln net creds)

mint_answer-not_created :
    (ln : Lightning) (net : Text) (reply : Option (Option Text)) (creds : Cached ln)
    → (mint_answer ln net reply creds).1 ≡ refused not_created
    → cached_for ln net (mint_answer ln net reply creds).0 ≡ none
unfolding mint_answer
mint_answer-not_created ln net none creds h = cached_for-delete ln net creds
mint_answer-not_created ln net (some none) creds h = cc
mint_answer-not_created ln net (some (some [])) creds h = cc
mint_answer-not_created ln net (some (some (c ∷ cs))) creds h = cc

-- After a post that raised, the cache has no credentials for the network, so the next invoice reads them
-- again.
pub mint-not_created :
    (ln : Lightning) (res : Resolved) (amount_msat : ℕ) (descr_hash : Text) (creds : Cached ln)
    → (mint ln res amount_msat descr_hash creds).1 ≡ refused not_created
    → cached_for ln res.net_key (mint ln res amount_msat descr_hash creds).0 ≡ none
unfolding mint credentials
mint-not_created ln res amount_msat descr_hash creds h =
    elim (Option-cases (cached_for ln res.net_key creds)) [
      | inl n ↦ elim (Option-cases (ln.read_credentials res.net_key)) [
        | inl r ↦ ground arith
        | inr (c, r) ↦ ground (
          arith,
          mint_answer-not_created ln res.net_key (ln.post c res.net_key amount_msat descr_hash)
              ((res.net_key, c) ∷ creds),
        )
      ]
      | inr (c, n) ↦ ground (
        arith,
        mint_answer-not_created ln res.net_key (ln.post c res.net_key amount_msat descr_hash) creds,
      )
    ]
