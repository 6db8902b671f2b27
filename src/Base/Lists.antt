-- ===== src/Base/Lists.antt =====
-- Lists measured by native numbers, under the library's names.
use Prim.Native.Nat.{ℕ, zero, suc, ◌+◌, ◌≤◌}
use mathlib.Core.Logic.{◌≢◌}
use mathlib.Core.Path.{◌≡◌, refl, sym, ap, ◌∙◌, subst}
use mathlib.Core.List.{List, [], ◌∷◌, ◌++◌, map}
use mathlib.Core.Option.{Option, none, some}
use native.Mathlib.Omega.{arith}
use liburing_rs.Base.Tests.{some-inj, if◌then◌else◌, ◌==◌}

module _ {ℓ} {A : Type ℓ} where
  abbrev pub length : List A → ℕ
  length [] = 0
  length (x ∷ xs) = suc (length xs)

  pub length-append : (xs ys : List A) → length (xs ++ ys) ≡ length xs + length ys
  length-append [] ys = omega arith
  length-append (x ∷ xs) ys = omega (arith, length-append xs ys)

  -- A predicate of every element; it computes to a tuple.
  abbrev pub All {κ} : (A → Type κ) → List A → Type κ
  All P [] = Unit
  All P (x ∷ xs) = P x × All P xs

  pub All-append {κ} : (P : A → Type κ) (xs ys : List A) → All P xs → All P ys → All P (xs ++ ys)
  All-append P [] ys hx hy = hy
  All-append P (x ∷ xs) ys hx hy = (hx.0, All-append P xs ys hx.1 hy)

  abbrev pub take : ℕ → List A → List A
  take zero xs = []
  take (suc n) [] = []
  take (suc n) (x ∷ xs) = x ∷ take n xs

  abbrev pub drop : ℕ → List A → List A
  drop zero xs = xs
  drop (suc n) [] = []
  drop (suc n) (x ∷ xs) = drop n xs

  pub take_all : (n : ℕ) (xs : List A) → length xs ≤ n → take n xs ≡ xs
  take_all zero [] h = refl
  take_all zero (x ∷ xs) h = absurd (omega arith)
  take_all (suc n) [] h = refl
  take_all (suc n) (x ∷ xs) h = ap (λ ys. x ∷ ys) (take_all n xs (omega arith))

  pub length-take-le : (n : ℕ) (xs : List A) → length (take n xs) ≤ n
  length-take-le zero xs = omega arith
  length-take-le (suc n) [] = omega arith
  length-take-le (suc n) (x ∷ xs) = omega (arith, length-take-le n xs)

  take-nil : (n : ℕ) → take n [] ≡ []
  take-nil zero = refl
  take-nil (suc n) = refl

  pub take_add : (m n : ℕ) (xs : List A) → take (m + n) xs ≡ take m xs ++ take n (drop m xs)
  take_add zero n xs = let e : 0 + n ≡ n = omega arith in ap (λ k. take k xs) e
  take_add (suc m) n [] = take-nil (suc m + n) ∙ sym (take-nil n)
  take_add (suc m) n (x ∷ xs) =
      let e : suc m + n ≡ suc (m + n) = omega arith in
      ap (λ k. take k (x ∷ xs)) e ∙ ap (λ ys. x ∷ ys) (take_add m n xs)

  -- How many elements have the key `k`.
  abbrev pub occurs : (A → ℕ) → ℕ → List A → ℕ
  occurs key k [] = 0
  occurs key k (x ∷ xs) = (if key x == k then 1 else 0) + occurs key k xs

  pub occurs-append :
      (key : A → ℕ) (k : ℕ) (xs ys : List A)
      → occurs key k (xs ++ ys) ≡ occurs key k xs + occurs key k ys
  occurs-append key k [] ys = omega arith
  occurs-append key k (x ∷ xs) ys = omega (arith, occurs-append key k xs ys)

  pub occurs-le-length : (key : A → ℕ) (k : ℕ) (xs : List A) → occurs key k xs ≤ length xs
  occurs-le-length key k [] = omega arith
  occurs-le-length key k (x ∷ xs) = ground (arith, occurs-le-length key k xs)

  pub occurs_none :
      (key : A → ℕ) (k : ℕ) (xs : List A) → All (λ x. key x ≢ k) xs → occurs key k xs ≡ 0
  occurs_none key k [] h = refl
  occurs_none key k (x ∷ xs) h = ground (arith, h.0, occurs_none key k xs h.1)

module _ {ℓ} {A : Type ℓ} where
  abbrev pub get_elem? : List A → ℕ → Option A
  get_elem? [] i = none
  get_elem? (x ∷ xs) zero = some x
  get_elem? (x ∷ xs) (suc i) = get_elem? xs i

  -- A write out of bounds changes nothing.
  abbrev pub set : List A → ℕ → A → List A
  set [] i v = []
  set (x ∷ xs) zero v = v ∷ xs
  set (x ∷ xs) (suc i) v = x ∷ set xs i v

  pub All-get_elem? {κ} :
      (P : A → Type κ) (xs : List A) (i : ℕ) {x : A} → All P xs → get_elem? xs i ≡ some x → P x
  All-get_elem? P [] i h e = cc
  All-get_elem? P (x ∷ xs) zero h e = subst P (some-inj e) h.0
  All-get_elem? P (x ∷ xs) (suc i) h e = All-get_elem? P xs i h.1 e

  pub All-set {κ} :
      (P : A → Type κ) (xs : List A) (i : ℕ) {x : A} → All P xs → P x → All P (set xs i x)
  All-set P [] i h p = tt
  All-set P (x ∷ xs) zero h p = (p, h.1)
  All-set P (x ∷ xs) (suc i) h p = (h.0, All-set P xs i h.1 p)

  pub All-map_of {κ μ} :
      (P : A → Type κ) (Q : A → Type μ) (f : (x : A) → P x → Q x) (xs : List A)
      → All P xs
      → All Q xs
  All-map_of P Q f [] h = tt
  All-map_of P Q f (x ∷ xs) h = (f x h.0, All-map_of P Q f xs h.1)

  pub set_same : (xs : List A) (i : ℕ) {x : A} → get_elem? xs i ≡ some x → set xs i x ≡ xs
  set_same [] i e = refl
  set_same (x ∷ xs) zero e = ap (λ y. y ∷ xs) (sym (some-inj e))
  set_same (x ∷ xs) (suc i) e = ap (λ ys. x ∷ ys) (set_same xs i e)

module _ {ℓ κ} {A : Type ℓ} {B : Type κ} (f : A → B) where
  pub get_elem?-map :
      (xs : List A) (i : ℕ) {x : A} → get_elem? xs i ≡ some x → get_elem? (map f xs) i ≡ some (f x)
  get_elem?-map [] i e = cc
  get_elem?-map (x ∷ xs) zero e = ap (λ y. some (f y)) (some-inj e)
  get_elem?-map (x ∷ xs) (suc i) e = get_elem?-map xs i e

  pub map-set : (xs : List A) (i : ℕ) (x : A) → map f (set xs i x) ≡ set (map f xs) i (f x)
  map-set [] i x = refl
  map-set (y ∷ xs) zero x = refl
  map-set (y ∷ xs) (suc i) x = ap (λ ys. f y ∷ ys) (map-set xs i x)

pub length-map {ℓ κ} :
    {A : Type ℓ} {B : Type κ} (f : A → B) (xs : List A) → length (map f xs) ≡ length xs
length-map f [] = refl
length-map f (x ∷ xs) = omega (arith, length-map f xs)

pub occurs-map {ℓ κ} :
    {A : Type ℓ} {B : Type κ} (key : B → ℕ) (f : A → B) (k : ℕ) (xs : List A)
    → occurs key k (map f xs) ≡ occurs (λ x. key (f x)) k xs
occurs-map key f k [] = refl
occurs-map key f k (x ∷ xs) = omega (arith, occurs-map key f k xs)
