-- ===== src/Infra/Api/Notify/Attributed.antt =====
-- The proposals that a notification is attributed to (`attributed_proposals` of
-- crates/byos/src/infra/api/notify.rs).
use Prim.Native.String.{String}
use byos_service.Prelude.{
  ℕ, ◌≡◌, ◌⊎◌, refl, inl, inr, Bool-cases, Option-cases, true, Option, some, ok, and_then, List, [],
  ◌∷◌, ◌++◌, In, here, there, In-cases, In-filter_by, ltb, ◌==◌, ◌&&◌, ==→eq, filter_by, arith,
  subst,
}
use byos_service.Prelude.Ints.{i64_limit}
use byos_service.Domain.Proposal.{Proposal}
use byos_service.Infra.Storage.Rows.{Row, decode}
use byos_service.Infra.Storage.Db.{SolutionRow, Db, Faults}
use byos_service.Infra.Storage.Queries.{decode_rows, id_in, join_row, join_rows, solution_proposals}
use byos_service.Infra.Storage.Snapshots.{In-decode_rows}
use byos_service.Infra.Api.Notify.{Notification, ids_of, attributed_proposals}

-- A row of the solutions table names the proposal's row under the notification's auction and one of
-- its solutions.
pub record IsAttributed (parse_i64 : String → Option ℕ) (n : Notification) (db : Db) (p : Proposal)
    : Type 0 where
  pub auction : ℕ
  pub ids : List ℕ
  pub bid : SolutionRow
  pub row : Row
  pub of_auction : and_then n.auction_id parse_i64 ≡ some auction
  pub of_solutions : and_then n.solution_id (λ s. some (ids_of s)) ≡ some ids
  pub recorded : In bid db.solutions
  pub bid_auction : bid.auction_id ≡ auction
  pub bid_solution : In bid.solution_id ids
  pub stored : In row db.rows
  pub named : bid.proposal_id ≡ row.id
  pub decoded : decode row ≡ ok p

id_in-In : (is : List ℕ) (id : ℕ) → id_in is id ≡ true → In id is
id_in-In [] id h = absurd (ground arith)
id_in-In (i ∷ is) id h = elim (Bool-cases (i == id)) [
  | inl y ↦ here (==→eq i id y)
  | inr n ↦ there (id_in-In is id (ground arith))
]

-- The solution of a joined row.
abbrev Joins : ℕ → List ℕ → List SolutionRow → Row → Type 0
Joins auction ids ss row =
    (s : SolutionRow) × In s ss
    × (s.auction_id ≡ auction)
    × In s.solution_id ids
    × (s.proposal_id ≡ row.id)

In-join_row :
    (auction : ℕ) (ids : List ℕ) (ss : List SolutionRow) (row r : Row)
    → In r (join_row auction ids ss row)
    → (row ≡ r) × Joins auction ids ss row
unfolding join_row
In-join_row auction ids [] row r i = elim i [ ]
In-join_row auction ids (s ∷ ss) row r i =
    elim (Bool-cases
      (s.proposal_id == row.id && s.auction_id == auction && id_in ids s.solution_id)) [
        | inr n ↦
            let (e, (t, j, a, m, k)) = In-join_row auction ids ss row r (rw n at i) in
            (e, (t, there j, a, m, k))
        | inl y ↦ elim (In-cases {xs = join_row auction ids ss row} (rw y at i)) [
          | inl e ↦ (
            e,
            (s, here refl, ground arith, id_in-In ids s.solution_id (ground arith), ground arith),
          )
          | inr j ↦
              let (e, (t, k, a, m, l)) = In-join_row auction ids ss row r j in
              (e, (t, there k, a, m, l))
        ]
      ]

In-append : (front back : List Row) (r : Row) → In r (front ++ back) → In r front ⊎ In r back
In-append [] back r i = inr i
In-append (x ∷ front) back r i = elim (In-cases {xs = front ++ back} i) [
  | inl e ↦ inl (here e)
  | inr j ↦ elim (In-append front back r j) [ inl k ↦ inl (there k) | inr k ↦ inr k ]
]

In-join_rows :
    (auction : ℕ) (ids : List ℕ) (ss : List SolutionRow) (rows : List Row) (r : Row)
    → In r (join_rows auction ids ss rows)
    → In r rows × Joins auction ids ss r
unfolding join_rows
In-join_rows auction ids ss [] r i = elim i [ ]
In-join_rows auction ids ss (row ∷ rows) r i =
    elim (In-append (join_row auction ids ss row) (join_rows auction ids ss rows) r i) [
      | inl j ↦
          let (e, joins) = In-join_row auction ids ss row r j in
          (here e, subst (Joins auction ids ss) e joins)
      | inr j ↦ let (k, joins) = In-join_rows auction ids ss rows r j in (there k, joins)
    ]

In-join_rows-IsAttributed :
    (f : Faults) (parse_i64 : String → Option ℕ) (n : Notification) (db : Db) (p : Proposal)
    (auction : ℕ) (ids : List ℕ)
    → and_then n.auction_id parse_i64 ≡ some auction
    → and_then n.solution_id (λ s. some (ids_of s)) ≡ some ids
    → In p (
        decode_rows
          (join_rows auction (filter_by (λ id. ltb id i64_limit) ids) db.solutions db.rows))
    → IsAttributed parse_i64 n db p
In-join_rows-IsAttributed f parse_i64 n db p auction ids a s i =
    let within = filter_by (λ id. ltb id i64_limit) ids in
    let (row, j, decoded) = In-decode_rows p (join_rows auction within db.solutions db.rows) i in
    let (stored, (bid, recorded, of_auction, of_solution, named)) =
      In-join_rows auction within db.solutions db.rows row j in
    record {
      auction = auction;
      ids = ids;
      bid = bid;
      row = row;
      of_auction = a;
      of_solutions = s;
      recorded = recorded;
      bid_auction = of_auction;
      bid_solution = (In-filter_by (λ id. ltb id i64_limit) ids of_solution).0;
      stored = stored;
      named = named;
      decoded = decoded;
    }

pub attributed_proposals-IsAttributed :
    (f : Faults) (parse_i64 : String → Option ℕ) (n : Notification) (db : Db) (p : Proposal)
    → In p (attributed_proposals f parse_i64 n db)
    → IsAttributed parse_i64 n db p
unfolding attributed_proposals solution_proposals
attributed_proposals-IsAttributed f parse_i64 n db p i =
    elim (Option-cases (and_then n.auction_id parse_i64)) [
      | inl q ↦ nothing (rw (q, attributed_proposals) at i)
      | inr (auction, q) ↦ elim (Option-cases n.solution_id) [
        | inl t ↦ nothing (rw (q, t, attributed_proposals) at i)
        | inr (ids, t) ↦ elim (Option-cases (f 0)) [
          | inr (e, fault) ↦
              nothing (rw (q, t, fault, attributed_proposals, solution_proposals) at i)
          | inl fine ↦
              In-join_rows-IsAttributed f parse_i64 n db p auction (ids_of ids) q (rw t refl)
                (rw (q, t, fine, attributed_proposals, solution_proposals) at i)
        ]
      ]
    ]
  where
    nothing : {A : Type 0} → In p [] → A
    nothing i = elim i [ ]
