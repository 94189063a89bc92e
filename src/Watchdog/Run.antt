-- ===== src/Watchdog/Run.antt =====
-- The loop: which stalls and exits it captures, and when it ends.
use mathlib.Core.List.Memᴰ
use hang_analyzer.Prelude.{
  ℕ, ◌+◌, ◌≤◌, ◌≡◌, ◌≢◌, refl, sym, ap, subst, Bool, true, false, not, ◌⊎◌, inl, inr, ⊎_elim, ◌↔◌,
  some, List, [], ◌∷◌, All, Memᴰ, if◌then◌else◌, Bool-cases, arith,
}
use hang_analyzer.Format.{Header}
use hang_analyzer.Watchdog.{
  alive, Capture, stalled, exited, State, Sighting, is_overdue, capture_stall, capture_exit,
  handle_header, handle_headers,
}
use hang_analyzer.Watchdog.Captures.{
  IsSound, Adds, pid_of, writes_of, capture_stall-Adds, capture_exit-Adds, Observes, IsAnswered,
}

pub Adds-iff :
    {Q R : Capture → Type 0} {st st' : State}
    → ((c : Capture) → Q c ↔ R c)
    → Adds Q st st'
    → Adds R st st'
Adds-iff same a = record {
  sound = a.sound;
  added = λ c. (
    λ m. ⊎_elim inl (λ q. inr ((same c).0 q)) ((a.added c).0 m),
    λ m. (a.added c).1 (⊎_elim inl (λ r. inr ((same c).1 r)) m),
  );
}

pub unchanged-Adds :
    (Q : Capture → Type 0) (st : State) → IsSound st → ((c : Capture) → ¬ Q c) → Adds Q st st
unchanged-Adds Q st s none_there = record {
  sound = s;
  added = λ c. (inl, ⊎_elim (λ m. m) (λ q. absurd (none_there c q)));
}

pub Adds-trans :
    {Q R : Capture → Type 0} {a b c : State} → Adds Q a b → Adds R b c → Adds (λ x. Q x ⊎ R x) a c
Adds-trans f g = record {
  sound = g.sound;
  added = λ x. (
    λ m.
        ⊎_elim (λ n. ⊎_elim inl (λ q. inr (inl q)) ((f.added x).0 n)) (λ r. inr (inr r))
          ((g.added x).0 m),
    λ m. (g.added x).1 (
        ⊎_elim (λ n. inl ((f.added x).1 (inl n))) (⊎_elim (λ q. inl ((f.added x).1 (inr q))) inr)
          m),
  );
}

overdue_iff :
    (timeout now : ℕ) (h : Header) → (is_overdue timeout now h ≡ true) ↔ (h.last_ns + timeout ≤ now)
unfolding is_overdue
overdue_iff timeout now h = ground arith

stall-Observes :
    (timeout now : ℕ) (s : Sighting)
    → (alive s.first ≡ some true)
    → (s.header.last_ns + timeout ≤ now)
    → (c : Capture) → (c ≡ stalled s.header.pid s.header.write_seq) ↔ Observes timeout now s c
unfolding Observes pid_of writes_of
stall-Observes timeout now s a o (stalled p w) = (
  λ e. (sym (ap pid_of e), sym (ap writes_of e), a, o),
  λ (p, w, _, _). λ i. stalled (sym p i) (sym w i),
)
stall-Observes timeout now s a o (exited p) =
    (λ e. absurd (the_case e), λ (_, _, n). absurd (n (a, o)))
  where
    the_case : exited p ≢ stalled s.header.pid s.header.write_seq
    the_case e = cc

exit-Observes :
    (timeout now : ℕ) (s : Sighting)
    → ¬ ((alive s.first ≡ some true) × (s.header.last_ns + timeout ≤ now))
    → (alive s.second ≡ some false)
    → (c : Capture) → (c ≡ exited s.header.pid) ↔ Observes timeout now s c
unfolding Observes pid_of
exit-Observes timeout now s n b (stalled p w) =
    (λ e. absurd (the_case e), λ (_, _, a, o). absurd (n (a, o)))
  where
    the_case : stalled p w ≢ exited s.header.pid
    the_case e = cc
exit-Observes timeout now s n b (exited p) =
    (λ e. (sym (ap pid_of e), b, n), λ (p, _, _). λ i. exited (sym p i))

quiet-Observes :
    (timeout now : ℕ) (s : Sighting)
    → ¬ ((alive s.first ≡ some true) × (s.header.last_ns + timeout ≤ now))
    → (alive s.second ≡ some true)
    → (c : Capture) → ¬ Observes timeout now s c
unfolding Observes
quiet-Observes timeout now s n b (stalled p w) o = n (o.2, o.3)
quiet-Observes timeout now s n b (exited p) o = cc (o.1, b)

-- The branches behind the first test.
not_stalled-Adds :
    (timeout now : ℕ) (s : Sighting) (st : State) (b : Bool)
    → IsSound st
    → alive s.second ≡ some b
    → ¬ ((alive s.first ≡ some true) × (s.header.last_ns + timeout ≤ now))
    → Adds (Observes timeout now s) st (if not b then capture_exit s.header st else st)
not_stalled-Adds timeout now s st true sound q n =
    unchanged-Adds (Observes timeout now s) st sound (quiet-Observes timeout now s n q)
not_stalled-Adds timeout now s st false sound q n =
    Adds-iff (exit-Observes timeout now s n q) (capture_exit-Adds s.header st sound)

-- With both answers, the body of the inner loop goes on and captures what it observes.
pub handle_header-Adds :
    (timeout now : ℕ) (s : Sighting) (st : State)
    → IsAnswered s
    → IsSound st
    → (st' : State) × (handle_header timeout now s st ≡ some st')
      × Adds (Observes timeout now s) st st'
unfolding handle_header
handle_header-Adds timeout now s st ((a, qa), (b, qb)) sound =
    go a b qa qb (Bool-cases (is_overdue timeout now s.header))
  where
    go :
        (a b : Bool)
        → alive s.first ≡ some a
        → alive s.second ≡ some b
        → (is_overdue timeout now s.header ≡ true) ⊎ (is_overdue timeout now s.header ≡ false)
        → (st' : State) × (handle_header timeout now s st ≡ some st')
          × Adds (Observes timeout now s) st st'
    go true b qa qb (inl o) = (
      capture_stall s.header st,
      rw (qa, handle_header) (rw o refl),
      Adds-iff (stall-Observes timeout now s qa ((overdue_iff timeout now s.header).0 o))
          (capture_stall-Adds s.header st sound),
    )
    go true b qa qb (inr o) = (
      (if not b then capture_exit s.header st else st),
      rw (qa, handle_header) (rw o (rw qb refl)),
      not_stalled-Adds timeout now s st b sound qb
          (λ k. cc ((overdue_iff timeout now s.header).1 k.1, o)),
    )
    go false b qa qb o = (
      (if not b then capture_exit s.header st else st),
      rw (qa, handle_header) (rw qb refl),
      not_stalled-Adds timeout now s st b sound qb (λ k. cc (k.0, qa)),
    )

-- One of the sightings observes it.
unfoldable pub ObservedIn : ℕ → ℕ → List Sighting → Capture → Type 0
ObservedIn timeout now ss c = (s : Sighting) × Memᴰ s ss × Observes timeout now s c

pub handle_headers-Adds :
    (timeout now : ℕ) (ss : List Sighting) (st : State)
    → All IsAnswered ss
    → IsSound st
    → (st' : State) × (handle_headers timeout now ss st ≡ some st')
      × Adds (ObservedIn timeout now ss) st st'
unfolding handle_headers ObservedIn
handle_headers-Adds timeout now [] st a sound =
    (st, refl, unchanged-Adds _ st sound (λ c k. Memᴰ.not-nil k.1))
handle_headers-Adds timeout now (s ∷ ss) st a sound =
    let (st', q, here) = handle_header-Adds timeout now s st a.0 sound in
    let (st'', qs, later) = handle_headers-Adds timeout now ss st' a.1 here.sound in
    (
      st'',
      rw (q, handle_headers) qs,
      Adds-iff
          (λ c. (
            ⊎_elim (λ o. (s, Memᴰ.head refl, o)) (λ k. (k.0, Memᴰ.tail k.1, k.2)),
            λ k.
                ⊎_elim (λ e. inl (subst (λ x. Observes timeout now x c) e k.2))
                  (λ t. inr (k.0, t, k.2)) (Memᴰ.cases_cons k.1),
          ))
          (Adds-trans here later),
    )
