-- ===== src/Platform/Learning/Records.antt =====
-- Bank records of a counterparty: which are learned, and which count as known.
use envelockserver.Prelude.Dict.{lookup}
use envelockserver.Prelude.{
  String, ◌≡◌, refl, sym, ap, ◌∙◌, inl, inr, Bool, true, false, Option, none, some, List, [], ◌∷◌,
  ◌++◌, map, arith, is_some, Bool-cases, ◌==◌, eq_refl, text_comparable, number_comparable, filter,
  any,
}
use envelockserver.Platform.Learning.{
  is_of, new_bank, learn_banks, active_ids, ids_of_row, known_bank_ids, MailEvent, BankIdentifier,
  BankRecord, Counterparty, PipelineStore,
}

abbrev pub banks_of : {V : Type 0} → String → PipelineStore V → List BankRecord
banks_of domain store = filter (is_of domain) store.bank_records

filter-append {ℓ} :
    {A : Type ℓ}
    → (p : A → Bool) (xs ys : List A) → filter p (xs ++ ys) ≡ filter p xs ++ filter p ys
filter-append p [] ys = refl
filter-append p (x ∷ xs) ys = elim (Bool-cases (p x)) [
  | inl good ↦ rw good (ap (λ r. x ∷ r) (filter-append p xs ys))
  | inr bad ↦ rw bad (filter-append p xs ys)
]

append_none {ℓ} : {A : Type ℓ} → (xs : List A) → xs ++ [] ≡ xs
append_none [] = refl
append_none (x ∷ xs) = ap (λ r. x ∷ r) (append_none xs)

filter-any_none {ℓ} :
    {A : Type ℓ} → (p : A → Bool) (xs : List A) → any p xs ≡ false → filter p xs ≡ []
filter-any_none p [] h = refl
filter-any_none p (x ∷ xs) h = ground (arith, filter-any_none p xs)

other_banks :
    (d domain : String) (event : MailEvent) (ids : List BankIdentifier)
    → (domain == d) ≡ false
    → filter (is_of d) (map (new_bank domain event) ids) ≡ []
unfolding is_of new_bank
other_banks d domain event [] other = refl
other_banks d domain event (i ∷ ids) other = rw other (other_banks d domain event ids other)

own_banks :
    (domain : String) (event : MailEvent) (ids : List BankIdentifier)
    → filter (is_of domain) (map (new_bank domain event) ids) ≡ map (new_bank domain event) ids
unfolding is_of new_bank
own_banks domain event [] = refl
own_banks domain event (i ∷ ids) =
    rw (eq_refl domain) (ap (λ r. new_bank domain event i ∷ r) (own_banks domain event ids))

pub learn_banks-kept :
    (d domain : String) (event : MailEvent) (ids : List BankIdentifier) (records : List BankRecord)
    → any (is_of d) records ≡ true
    → filter (is_of d) (learn_banks ids domain event records) ≡ filter (is_of d) records
unfolding learn_banks
learn_banks-kept d domain event ids records known = elim (Bool-cases (any (is_of domain) records)) [
  | inl has ↦ rw has refl
  | inr lacks ↦ elim (Bool-cases (domain == d)) [
    | inl same ↦
        let one : domain ≡ d = (text_comparable.equal_iff domain d).0 same in
        let clash : any (is_of d) records ≡ false = rw one at lacks in cc
    | inr other ↦ rw lacks (
        filter-append (is_of d) records (map (new_bank domain event) ids)
        ∙ ap (λ r. filter (is_of d) records ++ r) (other_banks d domain event ids other)
        ∙ append_none (filter (is_of d) records))
  ]
]

pub learn_banks-first :
    (domain : String) (event : MailEvent) (ids : List BankIdentifier) (records : List BankRecord)
    → any (is_of domain) records ≡ false
    → filter (is_of domain) (learn_banks ids domain event records) ≡ map (new_bank domain event) ids
unfolding learn_banks
learn_banks-first domain event ids records lacks = rw lacks (
    filter-append (is_of domain) records (map (new_bank domain event) ids)
    ∙ ap (λ r. r ++ filter (is_of domain) (map (new_bank domain event) ids))
        (filter-any_none (is_of domain) records lacks)
    ∙ own_banks domain event ids)

active_ids-filter :
    (d : String) (records : List BankRecord)
    → active_ids d (filter (is_of d) records) ≡ active_ids d records
unfolding active_ids
active_ids-filter d [] = refl
active_ids-filter d (b ∷ records) = elim (Bool-cases (is_of d b)) [
  | inl own ↦ rw own (rw (own, active_ids-filter d records) refl)
  | inr other ↦ rw other (active_ids-filter d records)
]

-- What a message is compared with depends on the records of its counterparty only.
pub known_bank_ids_same :
    {V : Type 0} (d : String) (s t : PipelineStore V)
    → banks_of d t ≡ banks_of d s
    → is_some (lookup d s.counterparties) ≡ true
    → is_some (lookup d t.counterparties) ≡ true
    → known_bank_ids d t ≡ known_bank_ids d s
unfolding known_bank_ids
known_bank_ids_same d s t same there after =
    by_rows (lookup d t.counterparties) (lookup d s.counterparties) after there
  where
    by_rows :
        (o p : Option Counterparty)
        → is_some o ≡ true
        → is_some p ≡ true
        → ids_of_row d t.bank_records o ≡ ids_of_row d s.bank_records p
    by_rows none p a b = cc
    by_rows (some row) none a b = cc
    by_rows (some row) (some row') a b =
        unfold ids_of_row in
        ap some (
          sym (active_ids-filter d t.bank_records)
          ∙ ap (λ r. active_ids d r) same
          ∙ active_ids-filter d s.bank_records)
