-- ===== src/Infra/Api/Auth/Bearer.antt =====
-- Which requests pass the bearer check (crates/byos/src/infra/api/mod.rs).
use Prim.Native.Char.{Char, code}
use Prim.Native.String.{String, ◌++◌}
use Prim.Native.String.append
use byos_service.Prelude.{
  ℕ, ◌≡◌, ◌⊎◌, refl, subst, sym, ap, ◌∙◌, inl, inr, Bool-cases, Option-cases, true, Option, none,
  some, str_eq, ◌==◌, ==→eq, arith,
}
use text.Mathlib.TextEquality.{eq_iff}
use byos_service.Infra.Storage.Db.{Db}
use byos_service.Infra.Api.Auth.{
  split_once_space, eq_ignore_ascii_case, is_authorized, guarded, status_unauthorized,
}

-- `s` is `a`, a space and `b`.
abbrev pub IsSplit : String → String → String → Type 0
IsSplit s a b = (c : Char) × (code c ≡ b' ') × (s ≡ a ++ String.◌∷◌ c b)

split_once_space-IsSplit : (s a b : String) → split_once_space s ≡ some (a, b) → IsSplit s a b
unfolding split_once_space
split_once_space-IsSplit String.[] a b h = absurd (ground arith)
split_once_space-IsSplit (String.◌∷◌ c s) a b h = elim (Bool-cases (code c == b' ')) [
  | inl y ↦
      let front : String.[] ≡ a = ground arith in
      let back : s ≡ b = ground arith in
      (
        c,
        ==→eq (code c) b' ' y,
        subst (λ v. String.◌∷◌ c s ≡ v ++ String.◌∷◌ c b) front
            (subst (λ v. String.◌∷◌ c s ≡ String.[] ++ String.◌∷◌ c v) back
              (sym (append.nil (String.◌∷◌ c s)))),
      )
  | inr n ↦ elim (Option-cases (split_once_space s)) [
    | inl q ↦ absurd (ground arith)
    | inr ((head, tail), q) ↦
        let (d, space, e) = split_once_space-IsSplit s head tail q in
        let front : String.◌∷◌ c head ≡ a = ground arith in
        let back : tail ≡ b = ground arith in
        (
          d,
          space,
          subst (λ v. String.◌∷◌ c s ≡ v ++ String.◌∷◌ d b) front
              (subst (λ v. String.◌∷◌ c s ≡ String.◌∷◌ c head ++ String.◌∷◌ d v) back
                (ap (λ v. String.◌∷◌ c v) e ∙ sym (append.cons c head (String.◌∷◌ d tail)))),
        )
  ]
]

-- The header is a scheme that reads as Bearer in any case, a space and the token.
abbrev pub Bears : String → Option (Option String) → Type 0
Bears token header =
    (text : String) × (scheme : String) × (header ≡ some (some text))
    × IsSplit text scheme token
    × (eq_ignore_ascii_case scheme "Bearer" ≡ true)

is_authorized-Bears :
    (token : String) (header : Option (Option String))
    → is_authorized token header ≡ true
    → Bears token header
unfolding is_authorized
is_authorized-Bears token none h = absurd (ground arith)
is_authorized-Bears token (some none) h = absurd (ground arith)
is_authorized-Bears token (some (some text)) h = elim (Option-cases (split_once_space text)) [
  | inl q ↦ absurd (ground arith)
  | inr ((scheme, t), q) ↦
      let known : str_eq t token ≡ true = ground arith in
      let same : t ≡ token = (eq_iff t token).0 known in
      (
        text,
        scheme,
        refl,
        subst (IsSplit text scheme) same (split_once_space-IsSplit text scheme t q),
        ground arith,
      )
]

-- With a token configured, a request either is answered 401 and leaves the database as it was, or
-- reaches the handler, and its header is then a scheme that reads as Bearer in any case, a space
-- and the token.
pub guarded_cases :
    (token : String) (header : Option (Option String)) (handler : Db → ℕ × Db) (db : Db)
    → (guarded (some token) header handler db ≡ (status_unauthorized, db))
      ⊎ ((guarded (some token) header handler db ≡ handler db) × Bears token header)
unfolding guarded
guarded_cases token header handler db = elim (Bool-cases (is_authorized token header)) [
  | inl y ↦ inr (rw (y, guarded) refl, is_authorized-Bears token header y)
  | inr n ↦ inl (rw (n, guarded) refl)
]
