-- ===== src/AsyncIo/Tokio/Check.antt =====
-- src/async_io/tokio_impl.rs: the loop of `poll` over the completions, against its meaning on lists.
use liburing_rs.Base.{
  some-inj, ℕ, zero, suc, ◌+◌, ◌≤◌, ◌<◌, ◌≡◌, refl, sym, ap, ◌∙◌, subst, ◌≢◌, inl, inr, true,
  Option, none, some, List, [], ◌∷◌, ◌++◌, append-nil, append_assoc, length, All, arith, ◌==◌,
  Bool-cases, ==_iff,
}
use liburing_rs.Base.Int.{ℤ}
use liburing_rs.Base.Map.{lookup, erase}
use liburing_rs.Sys.{Sys, IoUringCqe}
use liburing_rs.Sys.Documented.{Documented, Posts}
use liburing_rs.Sys.Progress.{Posts-trans, Posts-cons, Posts-total}
use liburing_rs.Queue.Cqe
use liburing_rs.Queue.Cqe.{Cqe}
use liburing_rs.Queue.Completion.{peek_cqe}
use liburing_rs.Queue.Delivery.{Peeks, empty, found, IsGuard, Keeps, peek_cqe-Peeks, drop_lem}
use liburing_rs.AsyncIo.Runtime.{Runtime}
use liburing_rs.AsyncIo.Tokio.Defs.{Inner, Checked, check, check_round, to_list}

-- The registered wakers behind the completions `cs`, and those of them that are woken.
module _ {W : Type 0} where
  abbrev pub forget : List IoUringCqe → List (ℕ × W) → List (ℕ × W)
  forget [] m = m
  forget (c ∷ cs) m = forget cs (erase c.user_data m)

  abbrev pub wakes : List IoUringCqe → List (ℕ × W) → List W
  wakes [] m = []
  wakes (c ∷ cs) m = to_list (lookup c.user_data m) ++ wakes cs (erase c.user_data m)

  abbrev pub settle : Option ℤ → ℕ → List (ℕ × W) → List (ℕ × W)
  settle none k m = m
  settle (some res) k m = erase k m

-- How the loop ended: with an empty queue, or at the completion `x` of the future `k`.
abbrev pub Ends : ℕ → Option ℤ → List IoUringCqe → List IoUringCqe → Type 0
Ends k none tail left = (tail ≡ []) × (left ≡ [])
Ends k (some res) tail left =
    (x : IoUringCqe) × (tail ≡ x ∷ left) × (x.user_data ≡ k) × (x.res ≡ res)

module _ (sys : Sys) (doc : Documented sys) (rt : Runtime) where
  open sys use {Ring}
  open rt use {Waker}
  open doc use {sq, cq, inflight}

  abbrev pub load : Ring → ℕ
  load r = length (cq r) + length (inflight r)

  -- From the ring `r`, the peeks find completions of others, whose guards are dropped, and then one
  -- with user data `k` and the code `res`, and `end` is the ring behind its drop.
  pub data Takes (k : ℕ) (res : ℤ) (end : Ring) : Ring → Type 0 where
    own :
        {r : Ring} (c : Cqe)
        → (peek_cqe sys r).0 ≡ some c
        → Cqe.user_data sys (peek_cqe sys r).1 c ≡ k
        → Cqe.result sys (peek_cqe sys r).1 c ≡ res
        → end ≡ Cqe.drop sys (peek_cqe sys r).1 c
        → Takes k res end r
    after_other :
        {r : Ring} (c : Cqe)
        → (peek_cqe sys r).0 ≡ some c
        → Cqe.user_data sys (peek_cqe sys r).1 c ≢ k
        → Takes k res end (Cqe.drop sys (peek_cqe sys r).1 c)
        → Takes k res end r

  pub record Checks (k : ℕ) (s : Inner sys rt) (woken : List Waker) (c : Checked sys rt)
      : Type 0 where
    -- the completions of other futures that the loop took out, oldest first
    pub seen : List IoUringCqe
    pub tail : List IoUringCqe
    pub others : All (λ x. x.user_data ≢ k) seen
    pub ends : Ends k c.answer tail (cq c.inner.ring.ring)
    pub posts :
        Posts (cq s.ring.ring) (inflight s.ring.ring) (seen ++ tail) (inflight c.inner.ring.ring)
    pub same : sq c.inner.ring.ring ≡ sq s.ring.ring
    pub wakers : c.inner.wakers ≡ settle c.answer k (forget seen s.wakers)
    pub wakened : c.woken ≡ woken ++ wakes seen s.wakers
    pub descriptor : c.inner.async_fd ≡ s.async_fd
    pub takes : (res : ℤ) → c.answer ≡ some res → Takes k res c.inner.ring.ring s.ring.ring
    pub counter : c.inner.next_user_data ≡ s.next_user_data

  abbrev Finds : ℕ → Inner sys rt → List Waker → Option (Checked sys rt) → Type 0
  Finds k s woken o = (c : Checked sys rt) × (o ≡ some c) × Checks k s woken c

  -- A round that takes out another future's completion, before rounds that are right.
  cons-Checks :
      (k : ℕ) (s s' : Inner sys rt) (woken : List Waker) (x : IoUringCqe) (rest : List IoUringCqe)
      (r : Ring) {o : Option (Checked sys rt)}
      → x.user_data ≢ k
      → ((res : ℤ) (end : Ring) → Takes k res end s'.ring.ring → Takes k res end s.ring.ring)
      → Keeps sys doc s.ring.ring r
      → cq r ≡ x ∷ rest
      → Posts rest (inflight r) (cq s'.ring.ring) (inflight s'.ring.ring)
      → sq s'.ring.ring ≡ sq r
      → s'.wakers ≡ erase x.user_data s.wakers
      → s'.async_fd ≡ s.async_fd
      → s'.next_user_data ≡ s.next_user_data
      → Finds k s' (woken ++ to_list (lookup x.user_data s.wakers)) o
      → Finds k s woken o
  cons-Checks k s s' woken x rest r ne step keeps e drops same wk fd nx (c, q, h) = (
    c,
    q,
    record {
      seen = x ∷ h.seen;
      tail = h.tail;
      others = (ne, h.others);
      ends = h.ends;
      posts =
          Posts-trans
            (subst (λ cs. Posts (cq s.ring.ring) (inflight s.ring.ring) cs (inflight r)) e
              keeps.posts)
            (Posts-cons x (Posts-trans drops h.posts));
      same = h.same ∙ same ∙ keeps.same;
      wakers = h.wakers ∙ ap (λ m. settle c.answer k (forget h.seen m)) wk;
      wakened =
          h.wakened
          ∙ append_assoc woken (to_list (lookup x.user_data s.wakers)) (wakes h.seen s'.wakers)
          ∙ ap (λ m. woken ++ (to_list (lookup x.user_data s.wakers) ++ wakes h.seen m)) wk;
      descriptor = h.descriptor ∙ fd;
      takes = λ res q. step res _ (h.takes res q);
      counter = h.counter ∙ nx;
    },
  )

  -- What a round leaves behind the completion of the guard `c`.
  abbrev after : Inner sys rt → Ring → Cqe → Inner sys rt
  after s r c = record s {
    ring = record { ring = Cqe.drop sys r c };
    wakers = erase (Cqe.user_data sys r c) s.wakers;
  }

  match-Checks :
      (k : ℕ) (s : Inner sys rt) (woken : List Waker) (c : Cqe) (x : IoUringCqe)
      (rest : List IoUringCqe) (r : Ring)
      → Cqe.user_data sys r c ≡ k
      → ((res : ℤ) → Cqe.result sys r c ≡ res → Takes k res (Cqe.drop sys r c) s.ring.ring)
      → Keeps sys doc s.ring.ring r
      → IsGuard sys doc r c x rest
      → Checks k s woken
          (record { answer = some (Cqe.result sys r c); inner = after s r c; woken = woken })
  match-Checks k s woken c x rest r hit step keeps g = record {
    seen = [];
    tail = x ∷ cq (Cqe.drop sys r c);
    others = tt;
    ends = (x, refl, sym g.user_data ∙ hit, sym g.result);
    posts =
        Posts-trans
          (subst (λ cs. Posts (cq s.ring.ring) (inflight s.ring.ring) cs (inflight r)) g.oldest
            keeps.posts)
          (Posts-cons x (drop_lem sys doc r c x rest g).0);
    same = (drop_lem sys doc r c x rest g).1 ∙ keeps.same;
    wakers = ap (λ j. erase j s.wakers) hit;
    wakened = sym (append-nil woken);
    descriptor = refl;
    takes = λ res q. step res (some-inj q);
    counter = refl;
  }

  check_round_lem :
      (fuel k : ℕ) (s : Inner sys rt) (woken : List Waker) (o : Option Cqe)
      → ((s' : Inner sys rt) (woken' : List Waker)
          → load s'.ring.ring < fuel
          → Finds k s' woken' (check sys rt fuel k s' woken'))
      → load s.ring.ring ≤ fuel
      → (peek_cqe sys s.ring.ring).0 ≡ o
      → Peeks sys doc s.ring.ring (peek_cqe sys s.ring.ring).1 o
      → Finds k s woken
          (check_round sys rt (check sys rt fuel k) k s woken o (peek_cqe sys s.ring.ring).1)
  unfolding check_round
  check_round_lem fuel k s woken none again h shown (empty keeps e) = (
    record {
      answer = none;
      inner = record s { ring = record { ring = (peek_cqe sys s.ring.ring).1 } };
      woken = woken;
    },
    refl,
    record {
      seen = [];
      tail = [];
      others = tt;
      ends = (refl, e);
      posts =
          subst
            (λ cs.
              Posts (cq s.ring.ring) (inflight s.ring.ring) cs
                (inflight (peek_cqe sys s.ring.ring).1))
            e keeps.posts;
      same = keeps.same;
      wakers = refl;
      wakened = sym (append-nil woken);
      descriptor = refl;
      takes = λ res q. cc;
      counter = refl;
    },
  )
  check_round_lem fuel k s woken (some c) again h shown (found _ x rest keeps g) =
      let r = (peek_cqe sys s.ring.ring).1 in
      let (drops, same) = drop_lem sys doc r c x rest g in
      let j = Cqe.user_data sys r c in
      elim (Bool-cases (j == k)) [
        | inl hit ↦
            rw (hit, check_round)
              (
                _,
                refl,
                match-Checks k s woken c x rest r ((==_iff j k).0 hit)
                    (λ res e. own c shown ((==_iff j k).0 hit) e refl) keeps g,
              )
        | inr miss ↦
            rw (miss, check_round)
              (cons-Checks k s (after s r c) woken x rest r
                (λ e. let hit : (j == k) ≡ true = (==_iff j k).1 (g.user_data ∙ e) in cc)
                (λ res end later.
                  after_other c shown (λ e. let hit : (j == k) ≡ true = (==_iff j k).1 e in cc)
                    later)
                keeps g.oldest drops same (ap (λ i. erase i s.wakers) g.user_data) refl refl
                (subst
                  (λ i.
                    Finds k (after s r c) (woken ++ to_list (lookup i s.wakers))
                      (check sys rt fuel k (after s r c) (woken ++ to_list (lookup j s.wakers))))
                  g.user_data
                  (again (after s r c) (woken ++ to_list (lookup j s.wakers)) (
                    omega
                      (arith, Posts-total keeps.posts, Posts-total drops, ap length g.oldest)))))
      ]

  -- With more fuel than completions posted and owed, the loop of `poll` ends, and does this: it takes
  -- out the completions before the first one with user data `k`, wakes and forgets the wakers
  -- registered for them, and then either takes out that completion and answers its result code, or
  -- stops at an empty queue with no answer. Every completion that the kernel posted meanwhile is
  -- accounted for, and the submission queue, the descriptor and the counter are as before.
  pub check-Checks :
      (fuel k : ℕ) (s : Inner sys rt) (woken : List Waker)
      → load s.ring.ring < fuel
      → (c : Checked sys rt) × (check sys rt fuel k s woken ≡ some c) × Checks k s woken c
  unfolding check
  check-Checks zero k s woken h = absurd (omega arith)
  check-Checks (suc fuel) k s woken h =
      check_round_lem fuel k s woken _ (check-Checks fuel k) (omega arith) refl
        (peek_cqe-Peeks sys doc s.ring.ring)
