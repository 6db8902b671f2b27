-- ===== src/Sim/Entries.antt =====
-- The entries of a simulated ring of 64: one is handed out, written and read back by its index.
use liburing_rs.Base.{
  ℕ, ◌+◌, ◌-◌, ◌≤◌, ◌<◌, ◌≡◌, ◌≢◌, refl, sym, ap, ◌∙◌, Option, none, some, List, [], ◌∷◌, ◌++◌,
  length, length-append, take, take_all, get_elem?, set, ltb, if◌then◌else◌, arith,
}
use liburing_rs.Sys.{null}
use liburing_rs.Sim.Defs.{SimSqe, blank}

abbrev pub or_blank : Option SimSqe → SimSqe
or_blank none = blank
or_blank (some s) = s

abbrev pub add_entry : List SimSqe → ℕ × List SimSqe
add_entry es = if ltb (length es) 64 then (length es + 1, es ++ blank ∷ []) else (null, es)

pub add_full :
    (es : List SimSqe) → 64 ≤ length es → ((add_entry es).0 ≡ null) × ((add_entry es).1 ≡ es)
add_full es h = ground arith

pub add_room :
    (es : List SimSqe)
    → length es < 64
    → ((add_entry es).0 ≡ length es + 1) × ((add_entry es).1 ≡ es ++ blank ∷ [])
add_room es h = ground arith

set-append : (es : List SimSqe) (a s : SimSqe) → set (es ++ a ∷ []) (length es) s ≡ es ++ s ∷ []
set-append [] a s = refl
set-append (e ∷ es) a s = ap (λ xs. e ∷ xs) (set-append es a s)

get_elem?-append : (es : List SimSqe) (s : SimSqe) → get_elem? (es ++ s ∷ []) (length es) ≡ some s
get_elem?-append [] s = refl
get_elem?-append (e ∷ es) s = get_elem?-append es s

-- A write to the entry just handed out.
pub written :
    (es : List SimSqe) (s : SimSqe)
    → length es < 64
    → set (add_entry es).1 ((add_entry es).0 - 1) s ≡ es ++ s ∷ []
written es s h =
    let (p, new) = add_room es h in
    let i : (add_entry es).0 - 1 ≡ length es = omega (arith, p) in
    ap (λ xs. set xs ((add_entry es).0 - 1) s) new
    ∙ ap (λ k. set (es ++ blank ∷ []) k s) i
    ∙ set-append es blank s

pub rewritten :
    (es : List SimSqe) (s t : SimSqe)
    → length es < 64
    → set (set (add_entry es).1 ((add_entry es).0 - 1) s) ((add_entry es).0 - 1) t
      ≡ set (add_entry es).1 ((add_entry es).0 - 1) t
rewritten es s t h =
    let (p, new) = add_room es h in
    let i : (add_entry es).0 - 1 ≡ length es = omega (arith, p) in
    ap (λ xs. set xs ((add_entry es).0 - 1) t) (written es s h)
    ∙ ap (λ k. set (es ++ s ∷ []) k t) i
    ∙ set-append es s t
    ∙ sym (written es t h)

pub still_queued :
    (es : List SimSqe) (s : SimSqe) → length es < 64 → take 64 (es ++ s ∷ []) ≡ es ++ s ∷ []
still_queued es s h = take_all 64 (es ++ s ∷ []) (omega (arith, length-append es (s ∷ [])))

pub read_back :
    (es : List SimSqe) (s : SimSqe)
    → length es < 64
    → or_blank (get_elem? (set (add_entry es).1 ((add_entry es).0 - 1) s) ((add_entry es).0 - 1))
      ≡ s
read_back es s h =
    let i : (add_entry es).0 - 1 ≡ length es = omega (arith, (add_room es h).0) in
    ap (λ xs. or_blank (get_elem? xs ((add_entry es).0 - 1))) (written es s h)
    ∙ ap (λ k. or_blank (get_elem? (es ++ s ∷ []) k)) i
    ∙ ap or_blank (get_elem?-append es s)

pub get_ne_null : (es : List SimSqe) → length es < 64 → (add_entry es).0 ≢ null
get_ne_null es h = λ e. absurd (omega (arith, (add_room es h).0, e))
