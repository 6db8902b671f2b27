-- ===== src/AsyncIo/Tokio/Apart.antt =====
-- Lists of user data with no duplicate among those that are given, for the futures of
-- src/async_io/tokio_impl.rs.
use liburing_rs.Base.{
  ℕ, zero, suc, ◌<◌, ◌≡◌, refl, sym, ap, subst, ◌≢◌, Option, none, some, List, [], ◌∷◌, ◌++◌, All,
  All-append, All-get_elem?, All-set, All-map_of, get_elem?, set, arith, some-inj,
}

-- Two futures do not share a user data.
abbrev pub Apart : Option ℕ → Option ℕ → Type 0
Apart none v = Unit
Apart (some a) none = Unit
Apart (some a) (some b) = a ≢ b

abbrev pub AllApart : List (Option ℕ) → Type 0
AllApart [] = Unit
AllApart (u ∷ us) = All (Apart u) us × AllApart us

-- The user data is none, or below the counter.
abbrev pub Below : ℕ → Option ℕ → Type 0
Below n none = Unit
Below n (some k) = k < n

Apart-symm : (u v : Option ℕ) → Apart u v → Apart v u
Apart-symm none none h = tt
Apart-symm none (some b) h = tt
Apart-symm (some a) none h = tt
Apart-symm (some a) (some b) h = λ e. h (sym e)

Below-Apart : (n : ℕ) (u : Option ℕ) → Below n u → Apart u (some n)
Below-Apart n none h = tt
Below-Apart n (some k) h = λ e. omega arith

-- A new user data in one place.
pub AllApart-set :
    (n : ℕ) (us : List (Option ℕ)) (i : ℕ)
    → All (Below n) us
    → AllApart us
    → AllApart (set us i (some n))
AllApart-set n [] i b h = tt
AllApart-set n (u ∷ us) zero b h = (
  All-map_of (Below n) (Apart (some n)) (λ v p. Apart-symm v (some n) (Below-Apart n v p)) us b.1,
  h.1,
)
AllApart-set n (u ∷ us) (suc i) b h =
    (All-set (Apart u) us i h.0 (Below-Apart n u b.0), AllApart-set n us i b.1 h.1)

Apart-none : (u : Option ℕ) → Apart u none
Apart-none none = tt
Apart-none (some a) = tt

pub AllApart-append : (us : List (Option ℕ)) → AllApart us → AllApart (us ++ none ∷ [])
AllApart-append [] h = (tt, tt)
AllApart-append (u ∷ us) h =
    (All-append (Apart u) us (none ∷ []) h.0 (Apart-none u, tt), AllApart-append us h.1)

pub AllApart-index :
    (us : List (Option ℕ)) (i j k : ℕ)
    → AllApart us
    → get_elem? us i ≡ some (some k)
    → get_elem? us j ≡ some (some k)
    → i ≡ j
AllApart-index [] i j k h ei ej = cc
AllApart-index (u ∷ us) zero zero k h ei ej = refl
AllApart-index (u ∷ us) zero (suc j) k h ei ej =
    absurd (subst (λ v. Apart v (some k)) (some-inj ei) (All-get_elem? (Apart u) us j h.0 ej) refl)
AllApart-index (u ∷ us) (suc i) zero k h ei ej =
    absurd (subst (λ v. Apart v (some k)) (some-inj ej) (All-get_elem? (Apart u) us i h.0 ei) refl)
AllApart-index (u ∷ us) (suc i) (suc j) k h ei ej = ap suc (AllApart-index us i j k h.1 ei ej)
