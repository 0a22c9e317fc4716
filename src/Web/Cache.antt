-- ===== src/Web/Cache.antt =====
-- The cache of the metrics snapshot (argus/web/cache.py): one row for each scope, with what was collected
-- and when. JSON is left out: what is stored is read back as it was. Times are whole seconds.
use bitcoin_argus.Common.{
  ℕ, ◌+◌, ◌-◌, ◌<◌, ◌≡◌, ◌∙◌, ◌⊎◌, inl, inr, refl, String, Bool, true, false, not, ◌&&◌, none, some,
  List, arith, ltb, if◌then◌else◌, str_eq, str_eq_iff, Bool-cases, Option-cases,
}
use bitcoin_argus.Common.Table.{find?, upsert, find?-upsert_self}

-- `CACHE_TTL_SECONDS`
abbrev pub cache_ttl_seconds : ℕ
cache_ttl_seconds = 3600

module _ (Payload : Type 0) where
  pub record Snapshot : Type 0 where
    pub scope : String
    pub payload : Payload
    pub created_at : ℕ

module _ {Payload : Type 0} where
  abbrev pub of_scope : String → Snapshot Payload → Bool
  of_scope scope row = str_eq row.scope scope

  -- The payload, its age, and the rows afterwards; `fresh` is what `refresh()` returns.
  unfoldable pub get_or_refresh :
      Payload
      → String
      → ℕ
      → Bool
      → ℕ
      → List (Snapshot Payload)
      → List (Snapshot Payload) × (Payload × ℕ)
  get_or_refresh fresh scope ttl force now rows =
      let written =
        upsert (of_scope scope)
          (λ row. record { scope = row.scope; payload = fresh; created_at = now })
          (record { scope = scope; payload = fresh; created_at = now }) rows in
      elim (find? (of_scope scope) rows) [
        | none ↦ (written, (fresh, 0))
        | some row ↦
            if not force && ltb (now - row.created_at) ttl
            then (rows, (row.payload, now - row.created_at))
            else (written, (fresh, 0))
      ]

  -- Whether a call is served from the table.
  abbrev pub is_served : String → ℕ → Bool → ℕ → List (Snapshot Payload) → Bool
  is_served scope ttl force now rows = elim (find? (of_scope scope) rows) [
    | none ↦ false
    | some row ↦ not force && ltb (now - row.created_at) ttl
  ]

  abbrev write : Payload → String → ℕ → List (Snapshot Payload) → List (Snapshot Payload)
  write fresh scope t rows =
      upsert (of_scope scope) (λ row. record { scope = row.scope; payload = fresh; created_at = t })
        (record { scope = scope; payload = fresh; created_at = t }) rows

  get_or_refresh-write :
      (fresh : Payload) (scope : String) (ttl t : ℕ) (force : Bool) (rows : List (Snapshot Payload))
      → is_served scope ttl force t rows ≡ false
      → get_or_refresh fresh scope ttl force t rows ≡ (write fresh scope t rows, (fresh, 0))
  unfolding get_or_refresh
  get_or_refresh-write fresh scope ttl t force rows h =
      elim (Option-cases (find? (of_scope scope) rows)) [
        | inl n ↦ rw (n, get_or_refresh) refl
        | inr (row, n) ↦
            let late : (not force && ltb (t - row.created_at) ttl) ≡ false = ground arith in
            rw (n, late, get_or_refresh) refl
      ]

  find?-write :
      (fresh : Payload) (scope : String) (t : ℕ) (rows : List (Snapshot Payload))
      → (row : Snapshot Payload) × (find? (of_scope scope) (write fresh scope t rows) ≡ some row)
        × (row.payload ≡ fresh)
        × (row.created_at ≡ t)
  find?-write fresh scope t rows =
      let f : Snapshot Payload → Snapshot Payload =
        λ row. record { scope = row.scope; payload = fresh; created_at = t } in
      let new : Snapshot Payload = record { scope = scope; payload = fresh; created_at = t } in
      let found =
        find?-upsert_self (of_scope scope) f new rows ((str_eq_iff scope scope).1 refl)
          (λ r. refl) in
      elim (Option-cases (find? (of_scope scope) rows)) [
        | inl n ↦ (new, found ∙ rw (n) refl, refl, refl)
        | inr (r, n) ↦ (f r, found ∙ rw (n) refl, refl, refl)
      ]

  -- If a call is not served from the table, then what it refreshed is what the calls for the scope that
  -- are not forced get for as long as the time to live, without a change to the table.
  pub get_or_refresh_once :
      (fresh fresh' : Payload) (scope : String) (ttl t t' : ℕ) (force : Bool)
      (rows : List (Snapshot Payload))
      → is_served scope ttl force t rows ≡ false
      → t' < t + ttl
      → 0 < ttl
      → get_or_refresh fresh' scope ttl false t' (get_or_refresh fresh scope ttl force t rows).0
        ≡ ((get_or_refresh fresh scope ttl force t rows).0, (fresh, t' - t))
  unfolding get_or_refresh
  get_or_refresh_once fresh fresh' scope ttl t t' force rows h soon pos =
      let (row, found, same, at) = find?-write fresh scope t rows in
      let early : ltb (t' - row.created_at) ttl ≡ true = ground arith in
      let call : get_or_refresh fresh scope ttl force t rows
          ≡ (write fresh scope t rows, (fresh, 0)) =
        get_or_refresh-write fresh scope ttl t force rows h in
      let again : get_or_refresh fresh' scope ttl false t' (write fresh scope t rows)
          ≡ (write fresh scope t rows, (row.payload, t' - row.created_at)) =
        rw (found, early, get_or_refresh) refl in
      rw (call) (again ∙ rw (same, at) refl)

  -- No call answers with a payload as old as the time to live.
  pub get_or_refresh-age :
      (fresh : Payload) (scope : String) (ttl t : ℕ) (force : Bool) (rows : List (Snapshot Payload))
      → 0 < ttl
      → ((get_or_refresh fresh scope ttl force t rows).1.1 < ttl)
        × (((get_or_refresh fresh scope ttl force t rows).1.0 ≡ fresh)
            ⊎ ((row : Snapshot Payload) × (find? (of_scope scope) rows ≡ some row)
                × ((get_or_refresh fresh scope ttl force t rows).1
                    ≡ (row.payload, t - row.created_at))))
  unfolding get_or_refresh
  get_or_refresh-age fresh scope ttl t force rows pos =
      elim (Option-cases (find? (of_scope scope) rows)) [
        | inl n ↦ (ground arith, inl (ground arith))
        | inr (row, n) ↦ elim (Bool-cases (not force && ltb (t - row.created_at) ttl)) [
          | inl y ↦ (ground arith, inr (row, n, ground arith))
          | inr y ↦ (ground arith, inl (ground arith))
        ]
      ]
