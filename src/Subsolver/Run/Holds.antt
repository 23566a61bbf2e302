-- ===== src/Subsolver/Run/Holds.antt =====
-- A live proposal is not submitted again (crates/subsolver/src/run.rs).
use byos_service.Prelude.{
  ℕ, ◌<◌, ◌≡◌, refl, sym, subst, inl, inr, Bool-cases, Option-cases, true, false, Option, none,
  some, List, [], ◌∷◌, map, All, arith,
}
use byos_service.Domain.Proposal.{Address, B256, U256, Bytes}
use byos_service.Common.Dto.{WireStatus, is_terminal}
use byos_service.Common.Eip712.{Crypto}
use byos_service.Subsolver.Proposal.{RouteOrder, Calls}
use byos_service.Subsolver.Run.LiveMap.{
  same_bytes, same_bytes→eq, Live, find_live, retain, find_live-retain, find_live-release,
  find_live-hold,
}
use byos_service.Subsolver.Run.{
  Remote, Subsolver, SubsolverConfig, solvable, reserves, holds_live_proposal, pending, propose,
  propose_one, propose_all, query_of, poll_once,
}

module _ {N : Type 0} (remote : Remote N) (uid : Bytes) (l : Live) where
  -- The service has not reported that the proposal is dead.
  abbrev pub IsAlive : Type 0
  IsAlive =
      (net : N) (status : WireStatus)
      → (remote.status_of l.id net).0 ≡ some status
      → is_terminal status ≡ false

  abbrev pub IsHeld : Subsolver N → Type 0
  IsHeld s = find_live uid s.live ≡ some l

  -- Orders other than that of `uid`.
  abbrev Others : List RouteOrder → Type 0
  Others = All (λ o. same_bytes o.uid uid ≡ false)

  own-IsHeld :
      (s : Subsolver N)
      → IsAlive
      → IsHeld s
      → IsHeld (holds_live_proposal remote uid s).1 × ((holds_live_proposal remote uid s).0 ≡ true)
  unfolding holds_live_proposal
  own-IsHeld s alive held = elim (Option-cases (remote.status_of l.id s.net).0) [
    | inl q ↦ rw (held, q, holds_live_proposal) (held, refl)
    | inr (status, q) ↦ rw (held, q, alive s.net status q, holds_live_proposal) (held, refl)
  ]

  other-IsHeld :
      (other : Bytes) (s : Subsolver N)
      → same_bytes other uid ≡ false
      → IsHeld s
      → IsHeld (holds_live_proposal remote other s).1
  unfolding holds_live_proposal
  other-IsHeld other s differs held = elim (Option-cases (find_live other s.live)) [
    | inl q ↦ rw (q, holds_live_proposal) held
    | inr (k, q) ↦ elim (Option-cases (remote.status_of k.id s.net).0) [
      | inl t ↦ rw (q, t, holds_live_proposal) held
      | inr (status, t) ↦ elim (Bool-cases (is_terminal status)) [
        | inl y ↦
            rw (q, t, y, holds_live_proposal) (rw (find_live-release uid other s.live differs) held)
        | inr n ↦ rw (q, t, n, holds_live_proposal) held
      ]
    ]
  ]

  pending-IsHeld :
      (os : List RouteOrder) (s : Subsolver N)
      → IsAlive
      → IsHeld s
      → IsHeld (pending remote os s).1 × Others (pending remote os s).0
  unfolding pending
  pending-IsHeld [] s alive held = (held, tt)
  pending-IsHeld (o ∷ os) s alive held = elim (Bool-cases (same_bytes o.uid uid)) [
    | inl y ↦
        let same : o.uid ≡ uid = same_bytes→eq o.uid uid y in
        let (kept, stands) =
          subst
            (λ u.
              IsHeld (holds_live_proposal remote u s).1
              × ((holds_live_proposal remote u s).0 ≡ true))
            (sym same) (own-IsHeld s alive held) in
        rw stands (pending-IsHeld os (holds_live_proposal remote o.uid s).1 alive kept)
    | inr n ↦
        let kept = other-IsHeld o.uid s n held in
        let rest = pending-IsHeld os (holds_live_proposal remote o.uid s).1 alive kept in
        elim (Bool-cases (holds_live_proposal remote o.uid s).0) [
          | inl y ↦ rw y rest
          | inr m ↦ rw m (rest.0, (n, rest.1))
        ]
  ]

  module _ (c : Crypto) (calls : Calls) (config : SubsolverConfig) where
    propose_live :
        (o : RouteOrder) (rs rb : U256) (now : ℕ) (s : Subsolver N)
        → (propose remote c calls config o rs rb now s).1.live ≡ s.live
    unfolding propose
    propose_live o rs rb now s = ground arith

    propose_one-IsHeld :
        (now : ℕ) (o : RouteOrder) (r : Option (U256 × U256)) (s : Subsolver N)
        → same_bytes o.uid uid ≡ false
        → IsHeld s
        → IsHeld (propose_one remote c calls config now o r s)
    unfolding propose_one
    propose_one-IsHeld now o none s n held = held
    propose_one-IsHeld now o (some (rs, rb)) s n held =
        let s' = (propose remote c calls config o rs rb now s).1 in
        elim (Option-cases (propose remote c calls config o rs rb now s).0) [
          | inl q ↦ rw (q, propose_one, propose_live o rs rb now s) held
          | inr (live, q) ↦
              rw
                (
                  q,
                  propose_one,
                  find_live-hold uid o.uid live s'.live n,
                  propose_live o rs rb now s,
                )
                held
        ]

    propose_all-IsHeld :
        (now : ℕ) (os : List RouteOrder) (rs : List (Option (U256 × U256))) (s : Subsolver N)
        → Others os
        → IsHeld s
        → IsHeld (propose_all remote c calls config now os rs s)
    unfolding propose_all
    propose_all-IsHeld now [] rs s others held = held
    propose_all-IsHeld now (o ∷ os) [] s others held = held
    propose_all-IsHeld now (o ∷ os) (r ∷ rs) s others held =
        propose_all-IsHeld now os rs (propose_one remote c calls config now o r s) others.1
          (propose_one-IsHeld now o r s others.0 held)

    -- A live submission of an order whose deadline has not passed, and which the service has not
    -- reported as dead, is still the one that the sub-solver holds for that order after a pass of
    -- its loop.
    pub poll_once-IsHeld :
        (create2 : Address → B256 → B256 → Address) (now : ℕ) (s : Subsolver N)
        → IsAlive
        → now < l.valid_until
        → IsHeld s
        → IsHeld (poll_once remote c calls config create2 now s).1
    unfolding poll_once
    poll_once-IsHeld create2 now s alive lasts held =
        let kept : Subsolver N = record s { live = retain now s.live } in
        let asked : Subsolver N = record kept { net = (remote.auction kept.net).1 } in
        let stays : IsHeld asked = find_live-retain uid l now s.live lasts held in
        elim (Option-cases (remote.auction kept.net).0) [
          | inl q ↦ rw (q, poll_once) stays
          | inr (entries, q) ↦
              let (orders, t) = pending remote (solvable entries) asked in
              let (later, others) = pending-IsHeld (solvable entries) asked alive stays in
              let (answers, net) =
                reserves remote (map (query_of remote c calls config create2) orders) t.net in
              elim (Option-cases answers) [
                | inl r ↦ rw (q, r, poll_once) later
                | inr (rs, r) ↦
                    rw (q, r, poll_once)
                      (propose_all-IsHeld now orders rs (record t { net = net }) others later)
              ]
        ]
