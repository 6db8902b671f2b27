-- ===== src/Base/Outcome.antt =====
-- `std::result::Result`, with `?` as the bind of a `do` block, and the same over a state.

pub data StdResult {ℓ κ} (A : Type ℓ) (E : Type κ) : Type (ℓ ⊔ κ) where
  ok : A → StdResult A E
  err : E → StdResult A E

module _ {ℓ κ} {A : Type ℓ} {E : Type κ} where
  abbrev pub map_ok {μ} : {B : Type μ} → (A → B) → StdResult A E → StdResult B E
  map_ok f (ok a) = ok (f a)
  map_ok f (err e) = err e

  abbrev pub map_err {μ} : {F : Type μ} → (E → F) → StdResult A E → StdResult A F
  map_err f (ok a) = ok a
  map_err f (err e) = err (f e)

-- A fallible step over a state, which an error leaves as it stood where the step failed.
abbrev pub Step {ℓ} : (S E A : Type ℓ) → Type ℓ
Step S E A = S → StdResult A E × S

module _ {ℓ} {S E : Type ℓ} where
  infixl 5 ◌>>=◌ ◌>>◌
  abbrev pub ◌>>=◌ : {A B : Type ℓ} → Step S E A → (A → Step S E B) → Step S E B
  ◌>>=◌ m f s = let (r, s') = m s in elim r [ ok a ↦ f a s' | err e ↦ (err e, s') ]

  abbrev pub ◌>>◌ : {A B : Type ℓ} → Step S E A → Step S E B → Step S E B
  m >> k = m >>= λ _. k

  abbrev pub pure : {A : Type ℓ} → A → Step S E A
  pure a s = (ok a, s)
