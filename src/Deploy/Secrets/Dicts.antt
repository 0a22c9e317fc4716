-- ===== src/Deploy/Secrets/Dicts.antt =====
-- The dicts of argus/secrets.py as lists of items: reads after writes, and after the sort.
use bitcoin_argus.Common.{codes_eq_sym}
use bitcoin_argus.Common.{
  ◌≡◌, refl, sym, ap, ◌∙◌, false, Option, none, some, [], ◌∷◌, arith, if◌then◌else◌, codes_eq,
  codes_eq→eq, All, inl, inr, Bool-cases,
}
use bitcoin_argus.Deploy.Secrets.{Text, Values, get, set, insert, sorted, text_leb}
use bitcoin_argus.Deploy.Secrets.Lines.{set_all}

pub get-cons :
    (key : Text) (r : Text × Text) (rows : Values)
    → get key (r ∷ rows) ≡ (if codes_eq key r.0 then some r.1 else get key rows)
unfolding get
get-cons key r rows = ground arith

pub get-empty : (key : Text) → get key [] ≡ none
unfolding get
get-empty key = refl

set-cons :
    (key v : Text) (r : Text × Text) (rows : Values)
    → set key v (r ∷ rows) ≡ (if codes_eq key r.0 then (r.0, v) ∷ rows else r ∷ set key v rows)
unfolding set
set-cons key v r rows = refl

pub get-set :
    (k key v : Text) (values : Values)
    → get k (set key v values) ≡ (if codes_eq k key then some v else get k values)
unfolding set
get-set k key v [] = get-cons k (key, v) []
get-set k key v (r ∷ rows) = elim (Bool-cases (codes_eq key r.0)) [
  | inl e ↦
      let same : key ≡ r.0 = codes_eq→eq key r.0 e in
      rw (set-cons key v r rows, e, same, get-cons k (r.0, v) rows, get-cons k r rows)
        (ground arith)
  | inr e ↦
      rw (set-cons key v r rows, e, get-cons k r (set key v rows), get-cons k r rows)
        (elim (Bool-cases (codes_eq k r.0)) [
          | inl t ↦
              let same : k ≡ r.0 = codes_eq→eq k r.0 t in
              let other : codes_eq k key ≡ false =
                ap (λ c. codes_eq c key) same ∙ (codes_eq_sym r.0 key ∙ e) in
              rw (t, other) refl
          | inr t ↦ rw t (get-set k key v rows)
        ])
]

-- No key has two items.
abbrev pub Distinct : Values → Type 0
Distinct [] = Unit
Distinct (r ∷ rows) = (get r.0 rows ≡ none) × Distinct rows

pub set-Distinct : (key v : Text) (values : Values) → Distinct values → Distinct (set key v values)
unfolding set get
set-Distinct key v [] h = (refl, tt)
set-Distinct key v (r ∷ rows) h = elim (Bool-cases (codes_eq key r.0)) [
  | inl e ↦ rw (set-cons key v r rows, e) h
  | inr e ↦
      let other : codes_eq r.0 key ≡ false = codes_eq_sym r.0 key ∙ e in
      let absent : get r.0 (set key v rows) ≡ none = get-set r.0 key v rows ∙ rw (other) h.0 in
      rw (set-cons key v r rows, e) (absent, set-Distinct key v rows h.1)
]

abbrev pub first_of : Option Text → Option Text → Option Text
first_of none other = other
first_of (some v) other = some v

-- Setting items one after the other is read as the items, and where there is none as before.
pub get-set_all :
    (k : Text) (rows out : Values)
    → Distinct rows
    → get k (set_all rows out) ≡ first_of (get k rows) (get k out)
unfolding set_all
get-set_all k [] out h = rw (get-empty k) refl
get-set_all k (r ∷ rows) out h =
    get-set_all k rows (set r.0 r.1 out) h.1 ∙ elim (Bool-cases (codes_eq k r.0)) [
      | inl e ↦
          let same : k ≡ r.0 = codes_eq→eq k r.0 e in
          let absent : get k rows ≡ none = ap (λ c. get c rows) same ∙ h.0 in
          rw (absent, get-set k r.0 r.1 out, get-cons k r rows, e) refl
      | inr e ↦ rw (get-set k r.0 r.1 out, get-cons k r rows, e) refl
    ]

insert-cons :
    (item r : Text × Text) (rows : Values)
    → insert item (r ∷ rows)
      ≡ (if text_leb item.0 r.0 then item ∷ r ∷ rows else r ∷ insert item rows)
unfolding insert
insert-cons item r rows = refl

get-insert :
    (k : Text) (item : Text × Text) (rows : Values)
    → get item.0 rows ≡ none
    → get k (insert item rows) ≡ get k (item ∷ rows)
unfolding insert
get-insert k item [] h = refl
get-insert k item (r ∷ rows) h = elim (Bool-cases (text_leb item.0 r.0)) [
  | inl e ↦ rw e refl
  | inr e ↦
      let apart : codes_eq item.0 r.0 ≡ false = ground (arith, get-cons item.0 r rows) in
      let absent : get item.0 rows ≡ none = ground (arith, get-cons item.0 r rows) in
      rw
        (
          e,
          get-cons k r (insert item rows),
          get-insert k item rows absent,
          get-cons k item rows,
          get-cons k item (r ∷ rows),
          get-cons k r rows,
        )
        (elim (Bool-cases (codes_eq k r.0)) [
          | inl t ↦
              let same : k ≡ r.0 = codes_eq→eq k r.0 t in
              let other : codes_eq k item.0 ≡ false =
                ap (λ c. codes_eq c item.0) same ∙ (codes_eq_sym r.0 item.0 ∙ apart) in
              rw (t, other) refl
          | inr t ↦ rw t refl
        ])
]

insert-Distinct :
    (item : Text × Text) (rows : Values)
    → get item.0 rows ≡ none
    → Distinct rows
    → Distinct (insert item rows)
unfolding insert
insert-Distinct item [] h d = (h, tt)
insert-Distinct item (r ∷ rows) h d = elim (Bool-cases (text_leb item.0 r.0)) [
  | inl e ↦ rw e (h, d)
  | inr e ↦
      let apart : codes_eq item.0 r.0 ≡ false = ground (arith, get-cons item.0 r rows) in
      let absent : get item.0 rows ≡ none = ground (arith, get-cons item.0 r rows) in
      let other : codes_eq r.0 item.0 ≡ false = codes_eq_sym r.0 item.0 ∙ apart in
      rw e (
        get-insert r.0 item rows absent ∙ (get-cons r.0 item rows ∙ rw (other) d.0),
        insert-Distinct item rows absent d.1,
      )
]

-- The sorted items are read as the items are, and no key has two.
pub sorted-same :
    (rows : Values)
    → Distinct rows
    → ((k : Text) → get k (sorted rows) ≡ get k rows) × Distinct (sorted rows)
unfolding sorted
sorted-same [] h = (λ k. refl, tt)
sorted-same (r ∷ rows) h =
    let (same, distinct) = sorted-same rows h.1 in
    let absent : get r.0 (sorted rows) ≡ none = same r.0 ∙ h.0 in
    (
      λ k.
          get-insert k r (sorted rows) absent
          ∙ (get-cons k r (sorted rows) ∙ (rw (same k) refl ∙ sym (get-cons k r rows))),
      insert-Distinct r (sorted rows) absent distinct,
    )

pub All-insert :
    (P : Text × Text → Type 0) (item : Text × Text) (rows : Values)
    → P item
    → All P rows
    → All P (insert item rows)
unfolding insert
All-insert P item [] h k = (h, tt)
All-insert P item (r ∷ rows) h k = elim (Bool-cases (text_leb item.0 r.0)) [
  | inl e ↦ rw e (h, k)
  | inr e ↦ rw e (k.0, All-insert P item rows h k.1)
]

pub All-sorted : (P : Text × Text → Type 0) (rows : Values) → All P rows → All P (sorted rows)
unfolding sorted
All-sorted P [] h = tt
All-sorted P (r ∷ rows) h = All-insert P r (sorted rows) h.0 (All-sorted P rows h.1)
