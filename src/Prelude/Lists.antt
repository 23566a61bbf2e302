-- ===== src/Prelude/Lists.antt =====
-- Lists measured by native numbers, and predicates on lists by recursion.
use Prim.Native.Nat.{ℕ, suc}
use mathlib.Core.Path.{◌≡◌, refl, sym, subst}
use mathlib.Core.Bool.{Bool, true}
use mathlib.Core.Logic.{◌⊎◌, inl, inr}
use mathlib.Core.List.{List, [], ◌∷◌, ◌++◌}
use mathlib.Core.Option.{Option, none, some}
use byos_service.Prelude.Tests.{if◌then◌else◌, Bool-cases, Option-cases}

abbrev pub length {ℓ} : {A : Type ℓ} → List A → ℕ
length [] = 0
length (x ∷ xs) = suc (length xs)

-- `Iterator::filter`
abbrev pub filter_by {ℓ} : {A : Type ℓ} → (A → Bool) → List A → List A
filter_by p [] = []
filter_by p (x ∷ xs) = if p x then x ∷ filter_by p xs else filter_by p xs

-- `Iterator::filter_map`
abbrev pub filter_map {ℓ κ} : {A : Type ℓ} {B : Type κ} → (A → Option B) → List A → List B
filter_map f [] = []
filter_map f (x ∷ xs) = elim (f x) [ none ↦ filter_map f xs | some y ↦ y ∷ filter_map f xs ]

-- Each element satisfies `P`.
abbrev pub All {ℓ κ} : {A : Type ℓ} → (A → Type κ) → List A → Type κ
All Q (a ∷ rest) = Q a × All Q rest
All Q [] = Unit

-- `x` occurs in the list.
pub data In {ℓ} {A : Type ℓ} (a : A) : List A → Type ℓ where
  here : {x : A} {xs : List A} → x ≡ a → In a (x ∷ xs)
  there : {x : A} {xs : List A} → In a xs → In a (x ∷ xs)

pub All-In {ℓ κ} : {A : Type ℓ} (P : A → Type κ) {a : A} {xs : List A} → All P xs → In a xs → P a
All-In P h (here e) = subst P e h.0
All-In P h (there i) = All-In P h.1 i

pub All-map {ℓ κ ν} :
    {A : Type ℓ} (P : A → Type κ) (Q : A → Type ν) (xs : List A)
    → ((a : A) → P a → Q a)
    → All P xs
    → All Q xs
All-map P Q [] f h = tt
All-map P Q (x ∷ xs) f h = (f x h.0, All-map P Q xs f h.1)

pub All-append {ℓ κ} :
    {A : Type ℓ} (Q : A → Type κ) (front back : List A)
    → All Q front
    → All Q back
    → All Q (front ++ back)
All-append Q [] back known rest = rest
All-append Q (a ∷ front) back (first, known) rest = (first, All-append Q front back known rest)

pub In-cases {ℓ} : {A : Type ℓ} {a x : A} {xs : List A} → In a (x ∷ xs) → (x ≡ a) ⊎ In a xs
In-cases (here e) = inl e
In-cases (there i) = inr i

pub In-filter_by {ℓ} :
    {A : Type ℓ} (p : A → Bool) (xs : List A) {a : A}
    → In a (filter_by p xs)
    → In a xs × (p a ≡ true)
In-filter_by p [] i = elim i [ ]
In-filter_by p (x ∷ xs) {a} i = elim (Bool-cases (p x)) [
  | inr n ↦ let (j, t) = In-filter_by p xs (rw n at i) in (there j, t)
  | inl y ↦ elim (In-cases {xs = filter_by p xs} (rw y at i)) [
    | inl e ↦ (here e, subst (λ z. p z ≡ true) e y)
    | inr k ↦ let (j, t) = In-filter_by p xs k in (there j, t)
  ]
]

pub filter_by-In {ℓ} :
    {A : Type ℓ} (p : A → Bool) {a : A} {xs : List A} → In a xs → p a ≡ true → In a (filter_by p xs)
filter_by-In p {a = a} (here e) t = rw (subst (λ z. p z ≡ true) (sym e) t) (here e)
filter_by-In p (there {x = x} {xs = xs} i) t = elim (Bool-cases (p x)) [
  | inl y ↦ rw y (there (filter_by-In p i t))
  | inr n ↦ rw n (filter_by-In p i t)
]

pub In-filter_map {ℓ κ} :
    {A : Type ℓ} {B : Type κ} (f : A → Option B) (xs : List A) {b : B}
    → In b (filter_map f xs)
    → (a : A) × In a xs × (f a ≡ some b)
In-filter_map f [] i = elim i [ ]
In-filter_map f (x ∷ xs) {b} i = elim (Option-cases (f x)) [
  | inl q ↦ let (a, j, e) = In-filter_map f xs (rw (q, filter_map) at i) in (a, there j, e)
  | inr (y, q) ↦ elim (In-cases {xs = filter_map f xs} (rw (q, filter_map) at i)) [
    | inl e ↦ (x, here refl, subst (λ z. f x ≡ some z) e q)
    | inr k ↦ let (a, j, e) = In-filter_map f xs k in (a, there j, e)
  ]
]

pub filter_map-In {ℓ κ} :
    {A : Type ℓ} {B : Type κ} (f : A → Option B) {a : A} {b : B} {xs : List A}
    → In a xs
    → f a ≡ some b
    → In b (filter_map f xs)
filter_map-In f {b = b} (here e) q =
    rw (subst (λ z. f z ≡ some b) (sym e) q, filter_map) (here refl)
filter_map-In f (there {x = x} i) q = elim (Option-cases (f x)) [
  | inl p ↦ rw (p, filter_map) (filter_map-In f i q)
  | inr (y, p) ↦ rw (p, filter_map) (there (filter_map-In f i q))
]

pub In-All {ℓ κ} :
    {A : Type ℓ} (P : A → Type κ) (xs : List A) → ((a : A) → In a xs → P a) → All P xs
In-All P [] f = tt
In-All P (x ∷ xs) f = (f x (here refl), In-All P xs (λ a i. f a (there i)))

pub length-snoc {ℓ} : {A : Type ℓ} (xs : List A) (x : A) → length (xs ++ (x ∷ [])) ≡ suc (length xs)
length-snoc [] x = refl
length-snoc (y ∷ xs) x = rw (length-snoc xs x) refl
