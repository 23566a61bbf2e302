-- ===== src/Infra/Audit/Drain.antt =====
-- The writer lands every event (crates/byos/src/infra/audit.rs).
use byos_service.Prelude.{
  ℕ, zero, suc, ◌+◌, ◌≤◌, ◌<◌, ◌≡◌, refl, subst, ◌∙◌, inl, inr, Bool, Bool-cases, true, some, List,
  [], ◌∷◌, ◌++◌, map, All, arith,
}
use native.Mathlib.Nat.{add-zero}
use mathlib.Core.List.{append-nil, append_assoc}
use byos_service.Domain.Audit.{AuditKind}
use byos_service.Infra.Audit.{
  Writer, row_of, next_backoff, retry, insert_with_retry, drain, initial_backoff,
}

-- A sleep of the writer.
abbrev pub IsBackoff : ℕ → Type 0
IsBackoff ms = (100 ≤ ms) × (ms ≤ 5000)

-- Of any `k` inserts in a row, one lands.
abbrev pub Recovers : (ℕ → Bool) → ℕ → Type 0
Recovers lands k = (n : ℕ) → (i : ℕ) × (i < k) × (lands (n + i) ≡ true)

next_backoff-IsBackoff : (ms : ℕ) → IsBackoff ms → IsBackoff (next_backoff ms)
unfolding next_backoff
next_backoff-IsBackoff ms h = ground arith

-- What has landed, and how long it slept.
abbrev Landed : AuditKind → Writer → Writer → Type 0
Landed e w w' = (w'.table ≡ w.table ++ (row_of e ∷ [])) × All IsBackoff w'.sleeps

retry-Landed :
    (i fuel : ℕ) (lands : ℕ → Bool) (backoff : ℕ) (e : AuditKind) (w : Writer)
    → IsBackoff backoff
    → All IsBackoff w.sleeps
    → lands (w.tried + i) ≡ true
    → i < fuel
    → (w' : Writer) × (retry fuel lands backoff e w ≡ some w') × Landed e w w'
unfolding retry
retry-Landed i zero lands backoff e w b s h lt = absurd (omega arith)
retry-Landed zero (suc fuel) lands backoff e w b s h lt =
    let now : lands w.tried ≡ true = subst (λ n. lands n ≡ true) (add-zero w.tried) h in
    rw now (record w { table = w.table ++ (row_of e ∷ []); tried = suc w.tried }, refl, (refl, s))
retry-Landed (suc i) (suc fuel) lands backoff e w b s h lt = elim (Bool-cases (lands w.tried)) [
  | inl y ↦
      rw y (record w { table = w.table ++ (row_of e ∷ []); tried = suc w.tried }, refl, (refl, s))
  | inr n ↦ rw n (
      retry-Landed i fuel lands (next_backoff backoff) e
        (record w { tried = suc w.tried; sleeps = backoff ∷ w.sleeps })
        (next_backoff-IsBackoff backoff b) (b, s) (subst (λ m. lands m ≡ true) (omega arith) h)
        (omega arith))
]

-- If one of any k inserts in a row lands and the fuel is at least k, the audit writer drains the
-- events, its table then holds their rows in order after what it held, and each sleep is between
-- 100 and 5000 milliseconds, given that the earlier ones are.
pub drain_total :
    (k fuel : ℕ) (lands : ℕ → Bool) (es : List AuditKind) (w : Writer)
    → Recovers lands k
    → k ≤ fuel
    → All IsBackoff w.sleeps
    → (w' : Writer) × (drain fuel lands es w ≡ some w')
      × (w'.table ≡ w.table ++ map row_of es)
      × All IsBackoff w'.sleeps
unfolding drain insert_with_retry
drain_total k fuel lands [] w recovers enough slept = (w, refl, rw (append-nil w.table) refl, slept)
drain_total k fuel lands (e ∷ es) w recovers enough slept =
    let (i, lt, h) = recovers w.tried in
    let (w1, q, landed) =
      retry-Landed i fuel lands initial_backoff e w (omega arith) slept h (omega arith) in
    let (w2, r, written, last) = drain_total k fuel lands es w1 recovers enough landed.1 in
    (
      w2,
      rw (q, drain) r,
      written ∙ rw landed.0 (append_assoc w.table (row_of e ∷ []) (map row_of es)),
      last,
    )
