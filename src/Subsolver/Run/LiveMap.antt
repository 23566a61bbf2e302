-- ===== src/Subsolver/Run/LiveMap.antt =====
-- The submissions whose fate the sub-solver tracks (`live` of crates/subsolver/src/run.rs): a
-- `HashMap` by the bytes of the order's uid.
use byos_service.Prelude.{
  ℕ, ◌<◌, ◌≡◌, refl, Bool, true, false, ◌&&◌, Option, none, some, List, [], ◌∷◌, ltb, ◌==◌,
  if◌then◌else◌, arith,
}
use byos_service.Domain.Proposal.{Bytes}

-- `==` on bytes.
unfoldable pub same_bytes : Bytes → Bytes → Bool
same_bytes [] [] = true
same_bytes [] (y ∷ ys) = false
same_bytes (x ∷ xs) [] = false
same_bytes (x ∷ xs) (y ∷ ys) = x == y && same_bytes xs ys

pub record Live : Type 0 where
  pub id : ℕ
  pub valid_until : ℕ

abbrev pub Entries : Type 0
Entries = List (Bytes × Live)

-- `live.get`
unfoldable pub find_live : Bytes → Entries → Option Live
find_live uid [] = none
find_live uid ((u, l) ∷ m) = if same_bytes u uid then some l else find_live uid m

-- `live.insert`
unfoldable pub hold : Bytes → Live → Entries → Entries
hold uid live [] = (uid, live) ∷ []
hold uid live ((u, l) ∷ m) = if same_bytes u uid then (uid, live) ∷ m else (u, l) ∷ hold uid live m

-- `live.remove`
unfoldable pub release : Bytes → Entries → Entries
release uid [] = []
release uid ((u, l) ∷ m) = if same_bytes u uid then release uid m else (u, l) ∷ release uid m

-- `live.retain(|_, live| live.valid_until > now)`
unfoldable pub retain : ℕ → Entries → Entries
retain now [] = []
retain now ((u, l) ∷ m) = if ltb now l.valid_until then (u, l) ∷ retain now m else retain now m

pub same_bytes→eq : (a b : Bytes) → same_bytes a b ≡ true → a ≡ b
unfolding same_bytes
same_bytes→eq [] [] h = refl
same_bytes→eq [] (y ∷ ys) h = cc
same_bytes→eq (x ∷ xs) [] h = cc
same_bytes→eq (x ∷ xs) (y ∷ ys) h = ground (arith, same_bytes→eq xs ys)

same_bytes_refl : (a : Bytes) → same_bytes a a ≡ true
unfolding same_bytes
same_bytes_refl [] = refl
same_bytes_refl (x ∷ xs) = ground (arith, same_bytes_refl xs)

pub find_live-retain :
    (uid : Bytes) (l : Live) (now : ℕ) (m : Entries)
    → now < l.valid_until
    → find_live uid m ≡ some l
    → find_live uid (retain now m) ≡ some l
unfolding find_live retain
find_live-retain uid l now [] h e = cc
find_live-retain uid l now ((u, k) ∷ m) h e = ground (arith, find_live-retain uid l now m)

-- Two uids that both equal a third are equal.
same_bytes-joins :
    (u other uid : Bytes)
    → same_bytes u other ≡ true
    → same_bytes u uid ≡ true
    → same_bytes other uid ≡ true
same_bytes-joins u other uid p q =
    rw (← same_bytes→eq u other p, same_bytes→eq u uid q) (same_bytes_refl uid)

pub find_live-release :
    (uid other : Bytes) (m : Entries)
    → same_bytes other uid ≡ false
    → find_live uid (release other m) ≡ find_live uid m
unfolding find_live release
find_live-release uid other [] h = refl
find_live-release uid other ((u, k) ∷ m) h =
    ground (arith, find_live-release uid other m, same_bytes-joins u other uid)

pub find_live-hold :
    (uid other : Bytes) (l : Live) (m : Entries)
    → same_bytes other uid ≡ false
    → find_live uid (hold other l m) ≡ find_live uid m
unfolding find_live hold
find_live-hold uid other l [] h = ground arith
find_live-hold uid other l ((u, k) ∷ m) h =
    ground (arith, find_live-hold uid other l m, same_bytes-joins u other uid)
