-- ===== src/Web/History/Keys.antt =====
-- The primary key of the table of argus/web/history.py, and what an INSERT OR REPLACE does to reads.
use bitcoin_argus.Common.{
  ◌+◌, ◌≤◌, ◌≡◌, ◌↔◌, refl, Bool, true, false, not, none, some, List, [], ◌∷◌, ◌++◌, map, ◌∙◌,
  arith, if◌then◌else◌, str_eq_iff, filter, any, inl, inr, Bool-cases,
}
use bitcoin_argus.Common.Table.{find?, delete, count, find?-delete_ne, count-delete-le}
use bitcoin_argus.Web.History.{
  Tier, raw, hour, day, same_tier, Key, same_key, MetricRow, Gauge, put, put_all, distinct,
}

pub same_tier_iff : (a b : Tier) → (same_tier a b ≡ true) ↔ (a ≡ b)
same_tier_iff raw raw = (λ h. refl, λ h. refl)
same_tier_iff raw hour = (λ h. cc, λ h. cc)
same_tier_iff raw day = (λ h. cc, λ h. cc)
same_tier_iff hour raw = (λ h. cc, λ h. cc)
same_tier_iff hour hour = (λ h. refl, λ h. refl)
same_tier_iff hour day = (λ h. cc, λ h. cc)
same_tier_iff day raw = (λ h. cc, λ h. cc)
same_tier_iff day hour = (λ h. cc, λ h. cc)
same_tier_iff day day = (λ h. refl, λ h. refl)

pub same_key_iff : (a b : Key) → (same_key a b ≡ true) ↔ (a ≡ b)
same_key_iff a b =
    ground
      (arith, same_tier_iff a.tier b.tier, str_eq_iff a.net b.net, str_eq_iff a.bucket b.bucket)

pub same_key_refl : (a : Key) → same_key a a ≡ true
same_key_refl a = (same_key_iff a a).1 refl

-- Two keys that are the same agree with any third.
pub same_key_trans : (a b c : Key) → same_key a b ≡ true → same_key a c ≡ same_key b c
same_key_trans a b c h = let e : a ≡ b = (same_key_iff a b).0 h in rw (e)

module _ {g : Gauge} where
  -- The row of a key.
  abbrev pub at : Key → MetricRow g → Bool
  at k r = same_key r.key k

module _ {ℓ} {R : Type ℓ} (p : R → Bool) where
  find?-append_one :
      (rs : List R) (x : R)
      → find? p (rs ++ x ∷ [])
        ≡ elim (find? p rs) [ none ↦ if p x then some x else none | some r ↦ some r ]
  find?-append_one [] x = refl
  find?-append_one (r ∷ rs) x = ground (arith, find?-append_one rs x)

  find?-delete_self : (rs : List R) → find? p (delete p rs) ≡ none
  find?-delete_self [] = refl
  find?-delete_self (r ∷ rs) = ground (arith, find?-delete_self rs)

  count-append_one :
      (rs : List R) (x : R) → count p (rs ++ x ∷ []) ≡ count p rs + (if p x then 1 else 0)
  count-append_one [] x = ground arith
  count-append_one (r ∷ rs) x = ground (arith, count-append_one rs x)

  count-delete_self : (rs : List R) → count p (delete p rs) ≡ 0
  count-delete_self [] = refl
  count-delete_self (r ∷ rs) = ground (arith, count-delete_self rs)

  filter-append_one :
      (rs : List R) (x : R) → filter p (rs ++ x ∷ []) ≡ filter p rs ++ (if p x then x ∷ [] else [])
  filter-append_one [] x = refl
  filter-append_one (r ∷ rs) x = ground (arith, filter-append_one rs x)

module _ {g : Gauge} (new : MetricRow g) where
  -- A read of the written key finds the new row, and a read of another what it found before.
  pub find?-put :
      (k : Key) (rows : List (MetricRow g))
      → find? (at k) (put new rows) ≡ (if same_key new.key k then some new else find? (at k) rows)
  unfolding put
  find?-put k rows = elim (Bool-cases (same_key new.key k)) [
    | inl e ↦
        let q : new.key ≡ k = (same_key_iff new.key k).0 e in
        ground
          (arith, find?-append_one (at k) (delete (at k) rows) new, find?-delete_self (at k) rows)
    | inr e ↦ ground (
      arith,
      find?-append_one (at k) (delete (at new.key) rows) new,
      find?-delete_ne (at new.key) (at k) rows (other e),
    )
  ]
    where
      other :
          same_key new.key k ≡ false
          → (r : MetricRow g) → same_key r.key k ≡ true
          → same_key r.key new.key ≡ false
      other e r h =
          ground (arith, same_key_iff r.key k, same_key_iff r.key new.key, same_key_iff new.key k)

  -- A key is there once after a write if it was there at most once before.
  pub count-put :
      (k : Key) (rows : List (MetricRow g))
      → count (at k) rows ≤ 1
      → count (at k) (put new rows) ≤ 1
  unfolding put
  count-put k rows h = elim (Bool-cases (same_key new.key k)) [
    | inl e ↦
        let q : new.key ≡ k = (same_key_iff new.key k).0 e in
        ground
          (arith, count-append_one (at k) (delete (at k) rows) new, count-delete_self (at k) rows)
    | inr e ↦ ground (
      arith,
      count-append_one (at k) (delete (at new.key) rows) new,
      count-delete-le (at new.key) (at k) rows,
    )
  ]

  -- A filter that the written key does not pass is not changed by the write.
  pub filter-put :
      (q : MetricRow g → Bool) (rows : List (MetricRow g))
      → ((r : MetricRow g) → same_key r.key new.key ≡ true → q r ≡ false)
      → filter q (put new rows) ≡ filter q rows
  unfolding put
  filter-put q rows h = ground (
    arith,
    filter-append_one q (delete (at new.key) rows) new,
    h new (same_key_refl new.key),
    kept rows,
  )
    where
      kept : (rs : List (MetricRow g)) → filter q (delete (at new.key) rs) ++ [] ≡ filter q rs
      kept [] = refl
      kept (r ∷ rs) = ground (arith, kept rs, h r)

module _ {g : Gauge} where
  pub count-put_all :
      (news rows : List (MetricRow g)) (k : Key)
      → count (at k) rows ≤ 1
      → count (at k) (put_all news rows) ≤ 1
  unfolding put_all
  count-put_all [] rows k h = h
  count-put_all (new ∷ news) rows k h = count-put_all news (put new rows) k (count-put new k rows h)

-- Rows that are made from their keys.
module _ {g : Gauge} (make : Key → MetricRow g) (keyed : (k : Key) → (make k).key ≡ k) where
  pub find?-put_all :
      (ks : List Key) (rows : List (MetricRow g)) (k : Key)
      → find? (at k) (put_all (map make ks) rows)
        ≡ (if any (λ k'. same_key k' k) ks then some (make k) else find? (at k) rows)
  unfolding put_all
  find?-put_all [] rows k = refl
  find?-put_all (k' ∷ ks) rows k = elim (Bool-cases (same_key k' k)) [
    | inl e ↦
        let q : k' ≡ k = (same_key_iff k' k).0 e in
        ground
          (arith, find?-put_all ks (put (make k') rows) k, find?-put (make k') k rows, keyed k')
    | inr e ↦
        ground
          (arith, find?-put_all ks (put (make k') rows) k, find?-put (make k') k rows, keyed k')
  ]

  pub filter-put_all :
      (q : MetricRow g → Bool) (ks : List Key) (rows : List (MetricRow g))
      → ((k : Key) (r : MetricRow g)
          → any (λ a. same_key a k) ks ≡ true
          → same_key r.key k ≡ true
          → q r ≡ false)
      → filter q (put_all (map make ks) rows) ≡ filter q rows
  unfolding put_all
  filter-put_all q [] rows h = refl
  filter-put_all q (k ∷ ks) rows h =
      filter-put_all q ks (put (make k) rows) (λ k' r m e. h k' r (ground arith) e)
      ∙ filter-put (make k) q rows
          (λ r e. h k r (ground (arith, same_key_refl k)) (rw (keyed k) at e))

any-filter_other :
    (k k' : Key) (ks : List Key)
    → same_key k' k ≡ false
    → any (λ a. same_key a k) (filter (λ a. not (same_key a k')) ks) ≡ any (λ a. same_key a k) ks
any-filter_other k k' [] d = refl
any-filter_other k k' (a ∷ ks) d = elim (Bool-cases (same_key a k')) [
  | inl e ↦
      let other : same_key a k ≡ false = same_key_trans a k' k e ∙ d in
      rw (e, other) (any-filter_other k k' ks d)
  | inr e ↦ rw (e, any-filter_other k k' ks d)
]

-- Naming each key once loses none.
pub any-distinct :
    (k : Key) (ks : List Key) → any (λ a. same_key a k) (distinct ks) ≡ any (λ a. same_key a k) ks
unfolding distinct
any-distinct k [] = refl
any-distinct k (a ∷ ks) = elim (Bool-cases (same_key a k)) [
  | inl e ↦ rw (e)
  | inr e ↦ rw (e) (any-filter_other k a (distinct ks) e ∙ any-distinct k ks)
]
