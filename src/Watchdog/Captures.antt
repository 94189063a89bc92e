-- ===== src/Watchdog/Captures.antt =====
-- What the loop captures: each stall and each exit that it observes, once.
use mathlib.Core.List.Memᴰ
use hang_analyzer.Prelude.{
  ℕ, ◌+◌, ◌≤◌, ◌≡◌, ◌≢◌, refl, sym, ap, ◌∙◌, Bool, true, false, ◌⊎◌, inl, inr, ⊎_elim, ◌↔◌, some,
  List, [], ◌∷◌, ◌++◌, Memᴰ, contains, contains_iff, Bool-cases, ℕ_discrete,
}
use hang_analyzer.Format.{Header}
use hang_analyzer.Watchdog.{
  Probe, alive, Capture, stalled, exited, State, StallKey-discrete, Sighting, capture_stall,
  capture_exit,
}

-- No entry occurs twice.
unfoldable pub IsUnique : {A : Type 0} → List A → Type 0
IsUnique [] = Unit
IsUnique (x ∷ xs) = ¬ Memᴰ x xs × IsUnique xs

pub mem-snoc : {A : Type 0} (x y : A) (l : List A) → Memᴰ x (l ++ y ∷ []) ↔ (Memᴰ x l ⊎ (x ≡ y))
mem-snoc x y [] = (
  λ m. ⊎_elim inr (λ n. absurd (Memᴰ.not-nil n)) (Memᴰ.cases_cons m),
  ⊎_elim (λ n. absurd (Memᴰ.not-nil n)) Memᴰ.head,
)
mem-snoc x y (z ∷ l) =
    let rest = mem-snoc x y l in
    (
      λ m.
          ⊎_elim (λ e. inl (Memᴰ.head e)) (λ t. ⊎_elim (λ n. inl (Memᴰ.tail n)) inr (rest.0 t))
            (Memᴰ.cases_cons m),
      ⊎_elim (λ m. ⊎_elim Memᴰ.head (λ t. Memᴰ.tail (rest.1 (inl t))) (Memᴰ.cases_cons m))
          (λ e. Memᴰ.tail (rest.1 (inr e))),
    )

IsUnique-snoc : {A : Type 0} (y : A) (l : List A) → ¬ Memᴰ y l → IsUnique l → IsUnique (l ++ y ∷ [])
unfolding IsUnique
IsUnique-snoc y [] new u = (λ m. absurd (Memᴰ.not-nil m), tt)
IsUnique-snoc y (x ∷ l) new u = (
  λ m. ⊎_elim u.0 (λ e. new (Memᴰ.head (sym e))) ((mem-snoc x y l).0 m),
  IsUnique-snoc y l (λ m. new (Memᴰ.tail m)) u.1,
)

-- The sets of the state hold what has been captured, and nothing has been captured twice.
pub record IsSound (st : State) : Type 0 where
  pub stalls : (p w : ℕ) → Memᴰ (p, w) st.seen_stalls ↔ Memᴰ (stalled p w) st.captures
  pub exits : (p : ℕ) → Memᴰ p st.seen_exit ↔ Memᴰ (exited p) st.captures
  pub unique : IsUnique st.captures

-- From `st` to `st'`, exactly the captures in `Q` have been added.
pub record Adds (Q : Capture → Type 0) (st st' : State) : Type 0 where
  pub sound : IsSound st'
  pub added : (c : Capture) → Memᴰ c st'.captures ↔ (Memᴰ c st.captures ⊎ Q c)

unfoldable pub pid_of : Capture → ℕ
pid_of (stalled p w) = p
pid_of (exited p) = p

unfoldable pub writes_of : Capture → ℕ
writes_of (stalled p w) = w
writes_of (exited p) = 0

-- A set and the captures that stand for its members grow together.
grown :
    {K : Type 0} (f : K → Capture) (g : Capture → K) (k x : K) (seen : List K) (cs : List Capture)
    → ((y : K) → g (f y) ≡ y)
    → (Memᴰ x seen ↔ Memᴰ (f x) cs)
    → Memᴰ x (k ∷ seen) ↔ Memᴰ (f x) (cs ++ f k ∷ [])
grown f g k x seen cs inverse same =
    let snoc = mem-snoc (f x) (f k) cs in
    (
      λ m. snoc.1 (⊎_elim (λ e. inr (ap f e)) (λ t. inl (same.0 t)) (Memᴰ.cases_cons m)),
      λ m.
          ⊎_elim (λ t. Memᴰ.tail (same.1 t)) (λ e. Memᴰ.head (sym (inverse x) ∙ ap g e ∙ inverse k))
            (snoc.0 m),
    )

-- The other set is not affected.
kept :
    {K : Type 0} (f : K → Capture) (c : Capture) (x : K) (seen : List K) (cs : List Capture)
    → f x ≢ c
    → (Memᴰ x seen ↔ Memᴰ (f x) cs)
    → Memᴰ x seen ↔ Memᴰ (f x) (cs ++ c ∷ [])
kept f c x seen cs other same =
    let snoc = mem-snoc (f x) c cs in
    (λ m. snoc.1 (inl (same.0 m)), λ m. ⊎_elim same.1 (λ e. absurd (other e)) (snoc.0 m))

nothing-Adds :
    (c : Capture) (st : State) → IsSound st → Memᴰ c st.captures → Adds (λ x. x ≡ c) st st
nothing-Adds c st s m = record {
  sound = s;
  added = λ x. (inl, ⊎_elim (λ n. n) (λ e. Memᴰ.cast e m));
}

pub capture_stall-Adds :
    (h : Header) (st : State)
    → IsSound st
    → Adds (λ c. c ≡ stalled h.pid h.write_seq) st (capture_stall h st)
unfolding capture_stall pid_of writes_of
capture_stall-Adds h st s =
    let key : ℕ × ℕ = (h.pid, h.write_seq) in
    let c = stalled h.pid h.write_seq in
    let known = contains_iff StallKey-discrete key st.seen_stalls in
    elim (Bool-cases (contains StallKey-discrete key st.seen_stalls)) [
      | inl old ↦ rw old (nothing-Adds c st s ((s.stalls h.pid h.write_seq).0 (known.0 old)))
      | inr new ↦ rw new (record {
        sound = record {
          stalls = λ p w.
              grown (λ k. stalled k.0 k.1) (λ x. (pid_of x, writes_of x)) key (p, w) st.seen_stalls
                st.captures (λ y. refl) (s.stalls p w);
          exits = λ p. kept exited c p st.seen_exit st.captures (λ e. cc) (s.exits p);
          unique =
              IsUnique-snoc c st.captures
                (λ m. cc (new, known.1 ((s.stalls h.pid h.write_seq).1 m))) s.unique;
        };
        added = λ x. mem-snoc x c st.captures;
      })
    ]

pub capture_exit-Adds :
    (h : Header) (st : State) → IsSound st → Adds (λ c. c ≡ exited h.pid) st (capture_exit h st)
unfolding capture_exit pid_of
capture_exit-Adds h st s =
    let c = exited h.pid in
    let known = contains_iff ℕ_discrete h.pid st.seen_exit in
    elim (Bool-cases (contains ℕ_discrete h.pid st.seen_exit)) [
      | inl old ↦ rw old (nothing-Adds c st s ((s.exits h.pid).0 (known.0 old)))
      | inr new ↦ rw new (record {
        sound = record {
          stalls = λ p w.
              kept (λ (k : ℕ × ℕ). stalled k.0 k.1) c (p, w) st.seen_stalls st.captures (λ e. cc)
                (s.stalls p w);
          exits = λ p. grown exited pid_of h.pid p st.seen_exit st.captures (λ y. refl) (s.exits p);
          unique =
              IsUnique-snoc c st.captures (λ m. cc (new, known.1 ((s.exits h.pid).1 m))) s.unique;
        };
        added = λ x. mem-snoc x c st.captures;
      })
    ]

-- What the watchdog observes at a header: a stall, if the process is alive and its last event too
-- long ago; an exit, if it is not the first and the process is then gone.
unfoldable pub Observes : ℕ → ℕ → Sighting → Capture → Type 0
Observes timeout now s (stalled p w) =
    (s.header.pid ≡ p)
    × (s.header.write_seq ≡ w)
    × (alive s.first ≡ some true)
    × (s.header.last_ns + timeout ≤ now)
Observes timeout now s (exited p) =
    (s.header.pid ≡ p)
    × (alive s.second ≡ some false)
    × ¬ ((alive s.first ≡ some true) × (s.header.last_ns + timeout ≤ now))

-- `alive` returns.
abbrev pub Responds : Probe → Type 0
Responds p = (a : Bool) × (alive p ≡ some a)

-- Both calls of `alive` return.
abbrev pub IsAnswered : Sighting → Type 0
IsAnswered s = Responds s.first × Responds s.second
