-- ===== src/Examples/Outcome.antt =====
-- How a part of an example program ends.
use liburing_rs.Error.{Error}

-- How a part of the program ends: with a value, by `return Err(..)` or `?`, by the panic of a slice
-- out of range, or not within the fuel.
pub data Outcome (A : Type 0) : Type 0 where
  done : A → Outcome A
  fails : Error → Outcome A
  panics : Outcome A
  unfinished : Outcome A

abbrev pub and_then : {A B : Type 0} → Outcome A → (A → Outcome B) → Outcome B
and_then (done a) f = f a
and_then (fails e) f = fails e
and_then panics f = panics
and_then unfinished f = unfinished

-- A part of the program that does not panic, and whose value, if it gives one, has the property.
abbrev pub Good : {A : Type 0} → (A → Type 0) → Outcome A → Type 0
Good P (done a) = P a
Good P (fails e) = Unit
Good P panics = ⊥
Good P unfinished = Unit

pub and_then-Good :
    {A B : Type 0} (P : A → Type 0) (Q : B → Type 0) (o : Outcome A) (f : A → Outcome B)
    → Good P o
    → ((a : A) → P a → Good Q (f a))
    → Good Q (and_then o f)
and_then-Good P Q (done a) f h k = k a h
and_then-Good P Q (fails e) f h k = tt
and_then-Good P Q panics f h k = h
and_then-Good P Q unfinished f h k = tt

pub Good-mono :
    {A : Type 0} (P Q : A → Type 0) (o : Outcome A) → ((a : A) → P a → Q a) → Good P o → Good Q o
Good-mono P Q (done a) k h = k a h
Good-mono P Q (fails e) k h = tt
Good-mono P Q panics k h = h
Good-mono P Q unfinished k h = tt

-- A part of the program that ends within the fuel and does not panic: its value has the property, or
-- it fails with an error that the other allows.
abbrev pub Ensures : {A : Type 0} → (A → Type 0) → Type 0 → Outcome A → Type 0
Ensures P F (done a) = P a
Ensures P F (fails e) = F
Ensures P F panics = ⊥
Ensures P F unfinished = ⊥

pub and_then-Ensures :
    {A B : Type 0} (P : A → Type 0) (Q : B → Type 0) (F : Type 0) (o : Outcome A)
    (f : A → Outcome B)
    → Ensures P F o
    → ((a : A) → P a → Ensures Q F (f a))
    → Ensures Q F (and_then o f)
and_then-Ensures P Q F (done a) f h k = k a h
and_then-Ensures P Q F (fails e) f h k = h
and_then-Ensures P Q F panics f h k = h
and_then-Ensures P Q F unfinished f h k = h

pub Ensures-mono :
    {A : Type 0} (P Q : A → Type 0) (F : Type 0) (o : Outcome A)
    → ((a : A) → P a → Q a)
    → Ensures P F o
    → Ensures Q F o
Ensures-mono P Q F (done a) k h = k a h
Ensures-mono P Q F (fails e) k h = h
Ensures-mono P Q F panics k h = h
Ensures-mono P Q F unfinished k h = h
