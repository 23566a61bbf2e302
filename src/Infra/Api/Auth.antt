-- ===== src/Infra/Api/Auth.antt =====
-- The bearer check of the internal router (`internal_router` of crates/byos/src/infra/api/mod.rs).
pub mod Bearer
use Prim.Native.Char.{code}
use Prim.Native.String.{String}
use byos_service.Prelude.{
  ℕ, ◌+◌, Bool, true, false, ◌&&◌, Option, none, some, and_then, str_eq, leb, ◌==◌, if◌then◌else◌,
}
use byos_service.Infra.Storage.Db.{Db}

-- `split_once(' ')`
unfoldable pub split_once_space : String → Option (String × String)
split_once_space String.[] = none
split_once_space (String.◌∷◌ c s) =
    let rest = split_once_space s in
    if code c == b' '
    then some (String.[], s)
    else and_then rest (λ parts. some (String.◌∷◌ c parts.0, parts.1))

unfoldable pub to_ascii_lower : ℕ → ℕ
to_ascii_lower c = if leb b'A' c && leb c b'Z' then c + 32 else c

unfoldable pub eq_ignore_ascii_case : String → String → Bool
unfolding to_ascii_lower
eq_ignore_ascii_case String.[] String.[] = true
eq_ignore_ascii_case String.[] (String.◌∷◌ d t) = false
eq_ignore_ascii_case (String.◌∷◌ c s) String.[] = false
eq_ignore_ascii_case (String.◌∷◌ c s) (String.◌∷◌ d t) =
    to_ascii_lower (code c) == to_ascii_lower (code d) && eq_ignore_ascii_case s t

-- The `Authorization` header: absent, or with its text, if `to_str` gives one.
unfoldable pub is_authorized : String → Option (Option String) → Bool
is_authorized expected header =
    elim (and_then (and_then header (λ value. value)) split_once_space) [
      | none ↦ false
      | some (scheme, token) ↦ eq_ignore_ascii_case scheme "Bearer" && str_eq token expected
    ]

abbrev pub status_unauthorized : ℕ
status_unauthorized = 401

-- A handler behind the layer, which is there if a token is configured.
unfoldable pub guarded : Option String → Option (Option String) → (Db → ℕ × Db) → Db → ℕ × Db
guarded none header handler db = handler db
guarded (some expected) header handler db =
    if is_authorized expected header then handler db else (status_unauthorized, db)
