-- ===== src/Infra/Validation/Late.antt =====
-- The expiry sweep and the rows past their deadline (crates/byos/src/infra/validation.rs).
use byos_service.Prelude.{
  ℕ, ◌<◌, ◌≡◌, refl, inl, inr, Bool, Bool-cases, true, false, ◌&&◌, ◌||◌, none, some, ok, List, [],
  ◌∷◌, All, In-All, All-map, All-In, In, In-cases, arith, ltb,
}
use byos_service.Prelude.Ints.{i64_limit}
use byos_service.Domain.Proposal.{
  Proposal, submitted, active, expired, same_status, same_status_refl,
}
use byos_service.Infra.Storage.Rows.{Row, decode, status_is}
use byos_service.Infra.Storage.Db.{Db, Faults, healthy, update_where, affects}
use byos_service.Infra.Storage.Ops.{is_at, transition}
use byos_service.Infra.Storage.Queries.{snapshot_by_statuses, status_in}
use byos_service.Infra.Storage.Effects.{swapped}
use byos_service.Infra.Storage.Snapshots.{snapshot-has, snapshot-of}
use byos_service.Infra.Storage.Decoding.{decode-eq-ok}
use byos_service.Infra.Validation.{expire_all}

-- The row reads as a live proposal whose deadline is behind `now`.
abbrev pub is_late : ℕ → Row → Bool
is_late now row =
    (elim row.valid_until [ none ↦ false | some v ↦ ltb v now ])
    && (status_is row.status submitted || status_is row.status active)

-- A proposal of the snapshot that shows the row as it is, and that the sweep can expire.
abbrev Shows : ℕ → List Proposal → Row → Type 0
Shows now ps row =
    (p : Proposal) × In p ps
    × (p.id ≡ row.id)
    × (row.status ≡ some p.status)
    × (p.valid_until < now)
    × (p.id < i64_limit)

update_where-miss :
    (t : Row → Bool) (g : Row → Row) (rows : List Row)
    → affects t rows ≡ false
    → update_where t g rows ≡ rows
unfolding update_where affects
update_where-miss t g [] h = refl
update_where-miss t g (r ∷ rows) h =
    let m : t r ≡ false = ground arith in rw (m, update_where-miss t g rows (ground arith)) refl

transition-hit :
    (p : Proposal) (db : Db)
    → p.id < i64_limit
    → affects (is_at p.id p.status) db.rows ≡ true
    → (transition healthy p expired db).1.rows
      ≡ update_where (is_at p.id p.status) (swapped expired db.clock) db.rows
unfolding transition
transition-hit p db b h = ground arith

transition-miss :
    (p : Proposal) (db : Db)
    → affects (is_at p.id p.status) db.rows ≡ false
    → (transition healthy p expired db).1.rows ≡ db.rows
unfolding transition
transition-miss p db h = ground arith

transition-rows :
    (p : Proposal) (db : Db)
    → p.id < i64_limit
    → (transition healthy p expired db).1.rows
      ≡ update_where (is_at p.id p.status) (swapped expired db.clock) db.rows
transition-rows p db b = elim (Bool-cases (affects (is_at p.id p.status) db.rows)) [
  | inl y ↦ transition-hit p db b y
  | inr n ↦
      rw (transition-miss p db n, update_where-miss _ (swapped expired db.clock) db.rows n) refl
]

-- What a row that reads as late needs of the remaining snapshot.
abbrev Covered : ℕ → List Proposal → Row → Type 0
Covered now ps row = is_late now row ≡ true → Shows now ps row

swapped-ended : (now clock : ℕ) (r : Row) → is_late now (swapped expired clock r) ≡ true → ⊥
unfolding same_status
swapped-ended now clock r late = ground arith

-- A row that the swap of `p` passes over is shown by the rest.
Covered-swap :
    (now clock : ℕ) (p : Proposal) (ps : List Proposal) (rows : List Row)
    → All (Covered now (p ∷ ps)) rows
    → All (Covered now ps) (update_where (is_at p.id p.status) (swapped expired clock) rows)
unfolding update_where
Covered-swap now clock p ps [] h = tt
Covered-swap now clock p ps (r ∷ rows) h = elim (Bool-cases (is_at p.id p.status r)) [
  | inl y ↦
      rw y ((λ late. absurd (swapped-ended now clock r late)), Covered-swap now clock p ps rows h.1)
  | inr n ↦ rw n ((λ late. later (h.0 late) n), Covered-swap now clock p ps rows h.1)
]
  where
    later : Shows now (p ∷ ps) r → is_at p.id p.status r ≡ false → Shows now ps r
    later (q, i, e, s, v, b) n = elim (In-cases i) [
      | inr j ↦ (q, j, e, s, v, b)
      | inl same ↦ absurd (ground (arith, same_status_refl p.status))
    ]

Covered-keep :
    (now : ℕ) (p : Proposal) (ps : List Proposal) (rows : List Row)
    → ltb p.valid_until now ≡ false
    → All (Covered now (p ∷ ps)) rows
    → All (Covered now ps) rows
Covered-keep now p ps rows early h = All-map _ _ rows (λ r c late. other r (c late)) h
  where
    other : (r : Row) → Shows now (p ∷ ps) r → Shows now ps r
    other r (q, i, e, s, v, b) = elim (In-cases i) [
      | inr j ↦ (q, j, e, s, v, b)
      | inl same ↦ absurd (ground arith)
    ]

expire_all-Covered :
    (now : ℕ) (ps : List Proposal) (db : Db)
    → All (λ p. p.id < i64_limit) ps
    → All (Covered now ps) db.rows
    → All (Covered now []) (expire_all (λ n. healthy) now ps db).1.rows
unfolding expire_all
expire_all-Covered now [] db b h = h
expire_all-Covered now (p ∷ ps) db b h = elim (Bool-cases (ltb p.valid_until now)) [
  | inl y ↦
      rw (y, expire_all)
        (expire_all-Covered now ps (transition healthy p expired db).1 b.1
          (rw (transition-rows p db b.0) (Covered-swap now db.clock p ps db.rows h)))
  | inr n ↦
      rw (n, expire_all) (expire_all-Covered now ps db b.1 (Covered-keep now p ps db.rows n h))
]

late-live :
    (now : ℕ) (row : Row) → is_late now row ≡ true → status_in (submitted ∷ active ∷ []) row ≡ true
late-live now row late = ground arith

-- If all rows can be read, their ids fit BIGINT and the snapshot of the live proposals answers,
-- the expiry sweep over the snapshot, with no fault of its database calls, leaves no row that
-- reads as submitted or active past its deadline.
pub expire_all-none_late :
    (f : Faults) (now : ℕ) (db : Db) (live : List Proposal)
    → All (λ row. (p : Proposal) × (decode row ≡ ok p)) db.rows
    → All (λ row. row.id < i64_limit) db.rows
    → snapshot_by_statuses f (submitted ∷ active ∷ []) db ≡ ok live
    → All (λ row. is_late now row ≡ false) (expire_all (λ n. healthy) now live db).1.rows
expire_all-none_late f now db live readable ids h =
    All-map _ _ _ (λ row c. never row c)
      (expire_all-Covered now live db small (In-All _ db.rows covered))
  where
    never : (row : Row) → Covered now [] row → is_late now row ≡ false
    never row c = elim (Bool-cases (is_late now row)) [ inr n ↦ n | inl y ↦ elim (c y).1 [ ] ]

    small : All (λ p. p.id < i64_limit) live
    small = In-All _ live (λ p i.
        let (row, j, d) = snapshot-of f db live h p i in
        let k : row.id < i64_limit = All-In (λ row. row.id < i64_limit) ids j in
        let e : p.id ≡ row.id = (decode-eq-ok row p d).0 in omega arith)

    covered : (row : Row) → In row db.rows → Covered now live row
    covered row i late =
        let (p, d) = All-In (λ row. (p : Proposal) × (decode row ≡ ok p)) readable i in
        let (a, s, v, o, u) = decode-eq-ok row p d in
        let k : row.id < i64_limit = All-In (λ row. row.id < i64_limit) ids i in
        (
          p,
          snapshot-has f db live h row p i d (late-live now row late),
          a,
          s,
          ground arith,
          omega arith,
        )
