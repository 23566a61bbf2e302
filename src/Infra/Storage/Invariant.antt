-- ===== src/Infra/Storage/Invariant.antt =====
-- The invariant of the database between two calls of the store (crates/byos/src/infra/storage.rs).
use byos_service.Prelude.{
  ℕ, suc, ◌≤◌, ◌<◌, ◌≡◌, inl, inr, Bool, true, Bool-cases, Option, some, List, [], ◌∷◌, ◌++◌, All,
  arith, subst, ◌==◌, filter_by,
}
use byos_service.Domain.Proposal.{
  ProposalId, ProposalStatus, B256, settled, settle_failed, penalized,
}
use byos_service.Infra.Storage.Rows.{Column, Row}
use byos_service.Infra.Storage.Db.{Db, empty, update_where, find_row}
use byos_service.Infra.Storage.Trail.{IsTrail, Below, IsRecorded}

-- Ids rise along the table, from `lo` and below `hi`.
abbrev pub Ids : ℕ → ℕ → List Row → Type 0
Ids lo hi [] = lo ≤ hi
Ids lo hi (r ∷ rows) = (lo ≤ r.id) × Ids (suc r.id) hi rows

abbrev pub IsCited : Column (Option B256) → Type 0
IsCited c = (tx : B256) × (c ≡ some (some tx))

-- A settlement outcome cites its transaction, and a penalty its debit as well.
abbrev pub Cites : Column ProposalStatus → Column (Option B256) → Column (Option B256) → Type 0
Cites (some settled) tx penalty_tx = IsCited tx
Cites (some settle_failed) tx penalty_tx = IsCited tx
Cites (some penalized) tx penalty_tx = IsCited tx × IsCited penalty_tx
Cites _ tx penalty_tx = Unit

abbrev pub HasEvidence : Row → Type 0
HasEvidence r = Cites r.status r.settlement_tx_hash r.penalty_tx_hash

pub record Inv (db : Db) : Type 0 where
  pub ids : Ids 0 db.next_id db.rows
  pub below : Below db.next_id db.audit
  pub trail : IsTrail db.audit
  pub recorded : All (IsRecorded db.audit) db.rows
  pub evidence : All HasEvidence db.rows

pub empty-Inv : Inv empty
unfolding Below
empty-Inv = record { ids = omega arith; below = tt; trail = tt; recorded = tt; evidence = tt }

pub Ids-mono : (a b hi : ℕ) (rows : List Row) → a ≤ b → Ids b hi rows → Ids a hi rows
Ids-mono a b hi [] h i = omega arith
Ids-mono a b hi (r ∷ rows) h i = (omega arith, i.1)

pub Ids-update :
    (lo hi : ℕ) (p : Row → Bool) (f : Row → Row) (rows : List Row)
    → ((r : Row) → (f r).id ≡ r.id)
    → Ids lo hi rows
    → Ids lo hi (update_where p f rows)
unfolding update_where
Ids-update lo hi p f [] keep i = i
Ids-update lo hi p f (r ∷ rows) keep i = elim (Bool-cases (p r)) [
  | inl y ↦ let rest = Ids-update (suc r.id) hi p f rows keep i.1 in rw (y, keep r) (i.0, rest)
  | inr n ↦ rw n (i.0, Ids-update (suc r.id) hi p f rows keep i.1)
]

pub Ids-filter :
    (lo hi : ℕ) (p : Row → Bool) (rows : List Row) → Ids lo hi rows → Ids lo hi (filter_by p rows)
Ids-filter lo hi p [] i = i
Ids-filter lo hi p (r ∷ rows) i = elim (Bool-cases (p r)) [
  | inl y ↦ rw y (i.0, Ids-filter (suc r.id) hi p rows i.1)
  | inr n ↦ rw n (
      Ids-mono lo (suc r.id) hi (filter_by p rows) (omega arith)
        (Ids-filter (suc r.id) hi p rows i.1))
]

pub Ids-append :
    (lo hi : ℕ) (rows : List Row) (r : Row)
    → r.id ≡ hi
    → Ids lo hi rows
    → Ids lo (suc hi) (rows ++ (r ∷ []))
Ids-append lo hi [] r e i = omega arith
Ids-append lo hi (x ∷ rows) r e i = (i.0, Ids-append (suc x.id) hi rows r e i.1)

Ids-le : (lo hi : ℕ) (rows : List Row) → Ids lo hi rows → lo ≤ hi
Ids-le lo hi [] i = i
Ids-le lo hi (r ∷ rows) i = omega (arith, Ids-le (suc r.id) hi rows i.1)

pub Ids-below : (lo hi : ℕ) (rows : List Row) → Ids lo hi rows → All (λ r. r.id < hi) rows
Ids-below lo hi [] i = tt
Ids-below lo hi (r ∷ rows) i = (Ids-le (suc r.id) hi rows i.1, Ids-below (suc r.id) hi rows i.1)

pub All-filter {κ} :
    (P : Row → Type κ) (p : Row → Bool) (rows : List Row) → All P rows → All P (filter_by p rows)
All-filter P p [] h = tt
All-filter P p (r ∷ rows) h = elim (Bool-cases (p r)) [
  | inl y ↦ rw y (h.0, All-filter P p rows h.1)
  | inr n ↦ rw n (All-filter P p rows h.1)
]

pub All-update {κ} :
    (P : Row → Type κ) (p : Row → Bool) (f : Row → Row) (rows : List Row)
    → ((r : Row) → p r ≡ true → P r → P (f r))
    → All P rows
    → All P (update_where p f rows)
unfolding update_where
All-update P p f [] keep h = tt
All-update P p f (r ∷ rows) keep h = elim (Bool-cases (p r)) [
  | inl y ↦ rw y (keep r y h.0, All-update P p f rows keep h.1)
  | inr n ↦ rw n (h.0, All-update P p f rows keep h.1)
]

-- What is known of every row is known of the row that is found.
pub All-find_row {κ} :
    (P : Row → Type κ) (id : ProposalId) (rows : List Row) {r : Row}
    → find_row id rows ≡ some r
    → All P rows
    → P r × (r.id ≡ id)
unfolding find_row
All-find_row P id [] e h = cc
All-find_row P id (x ∷ rows) {r} e h = elim (Bool-cases (x.id == id)) [
  | inl y ↦ let same : x ≡ r = ground arith in (subst P same h.0, ground arith)
  | inr n ↦ All-find_row P id rows (ground arith) h.1
]
