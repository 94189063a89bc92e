-- ===== src/Watchdog/Loop.antt =====
-- The outer loop: what it captures in all, and when it ends.
use mathlib.Core.List.Memᴰ
use hang_analyzer.Prelude.{
  ℕ, ◌+◌, ◌≡◌, ◌≢◌, refl, sym, subst, ◌∙◌, Bool, true, false, ◌⊎◌, inl, inr, ⊎_elim, ◌↔◌, some,
  List, [], ◌∷◌, ◌++◌, All, Memᴰ, Bool-cases, Text,
}
use hang_analyzer.Prelude.Result.{Result, ok, err, os_error, value_error, struct_error}
use hang_analyzer.Format.{Bytes, Header, read_header}
use hang_analyzer.Format.Errors.{IsCaught, read_header-IsCaught}
use hang_analyzer.Watchdog.{
  Probe, alive, Capture, State, start, sightings, read_headers, Poll, all_gone, is_finished,
  handle_poll, watch,
}
use hang_analyzer.Watchdog.Captures.{IsUnique, IsSound, Adds, Responds, IsAnswered}
use hang_analyzer.Watchdog.Run.{
  Adds-iff, Adds-trans, unchanged-Adds, ObservedIn, handle_headers-Adds,
}

-- Reading the file raises only what is caught.
abbrev pub IsReadable : Text × Result Bytes → Type 0
IsReadable f = IsCaught f.1

-- The files raise only what is caught, and every call of `alive` returns.
pub record IsReady (p : Poll) : Type 0 where
  pub files : All IsReadable p.files
  pub probes : (i : ℕ) → Responds (p.probes i).0 × Responds (p.probes i).1
  pub monitored : All Responds p.monitored

-- There are monitored processes, and all of them are gone.
abbrev pub IsGone : Poll → Type 0
IsGone p = (p.monitored ≢ []) × All (λ (q : Probe). alive q ≡ some false) p.monitored

-- The round observes it at one of the headers that it can read.
pub ObservedAt : ℕ → Poll → Capture → Type 0
ObservedAt timeout p c =
    (hs : List Header) × (read_headers p.files ≡ some hs)
    × ObservedIn timeout p.now (sightings p.probes 0 hs) c

read_headers_returns :
    (files : List (Text × Result Bytes))
    → All IsReadable files
    → (hs : List Header) × (read_headers files ≡ some hs)
unfolding read_headers
read_headers_returns [] a = ([], refl)
read_headers_returns ((path, file) ∷ files) a =
    let (hs, q) = read_headers_returns files a.1 in
    go hs q (read_header path file) refl (read_header-IsCaught path file a.0)
  where
    go :
        (hs : List Header)
        → read_headers files ≡ some hs
        → (r : Result Header) → read_header path file ≡ r
        → IsCaught r
        → (hs : List Header) × (read_headers ((path, file) ∷ files) ≡ some hs)
    go hs q (ok h) e c = (h ∷ hs, rw (q, read_headers) (rw e refl))
    go hs q (err (os_error _)) e c = (hs, rw (q, read_headers) (rw e refl))
    go hs q (err (value_error _)) e c = (hs, rw (q, read_headers) (rw e refl))
    go hs q (err struct_error) e c = absurd c

sightings-IsAnswered :
    (probes : ℕ → Probe × Probe) (i : ℕ) (hs : List Header)
    → ((i : ℕ) → Responds (probes i).0 × Responds (probes i).1)
    → All IsAnswered (sightings probes i hs)
unfolding sightings
sightings-IsAnswered probes i [] a = tt
sightings-IsAnswered probes i (h ∷ hs) a = (a i, sightings-IsAnswered probes (i + 1) hs a)

handle_poll-Adds :
    (timeout : ℕ) (p : Poll) (st : State)
    → IsReady p
    → IsSound st
    → (st' : State) × (handle_poll timeout p st ≡ some st') × Adds (ObservedAt timeout p) st st'
unfolding handle_poll ObservedAt
handle_poll-Adds timeout p st ready sound =
    let (hs, q) = read_headers_returns p.files ready.files in
    let (st', qs, a) =
      handle_headers-Adds timeout p.now (sightings p.probes 0 hs) st
        (sightings-IsAnswered p.probes 0 hs ready.probes) sound in
    (
      st',
      rw (q, handle_poll) qs,
      Adds-iff
          (λ c. (
            λ o. (hs, q, o),
            λ k.
                subst (λ l. ObservedIn timeout p.now (sightings p.probes 0 l) c)
                  (some_injective (sym k.1 ∙ q)) k.2,
          ))
          a,
    )
  where
    some_injective : {x y : List Header} → some x ≡ some y → x ≡ y
    some_injective e = cc

all_gone_returns :
    (ms : List Probe)
    → All Responds ms
    → (d : Bool) × (all_gone ms ≡ some d)
      × ((d ≡ true) ↔ All (λ (q : Probe). alive q ≡ some false) ms)
unfolding all_gone
all_gone_returns [] a = (true, refl, (λ _. tt, λ _. refl))
all_gone_returns (m ∷ ms) ((true, q), a) =
    (false, rw (q, all_gone) refl, (λ e. cc, λ k. cc (k.0, q)))
all_gone_returns (m ∷ ms) ((false, q), a) =
    let (d, r, same) = all_gone_returns ms a in
    (d, rw (q, all_gone) r, (λ e. (q, same.0 e), λ k. same.1 k.1))

is_finished_returns :
    (ms : List Probe)
    → All Responds ms
    → (d : Bool) × (is_finished ms ≡ some d)
      × ((d ≡ true) ↔ ((ms ≢ []) × All (λ (q : Probe). alive q ≡ some false) ms))
unfolding is_finished
is_finished_returns [] a = (false, refl, (λ e. cc, λ k. absurd (k.0 refl)))
is_finished_returns (m ∷ ms) a =
    let (d, q, same) = all_gone_returns (m ∷ ms) a in
    (d, q, (λ e. (λ n. cc, same.0 e), λ k. same.1 k.1))

abbrev pub ObservedInPolls : ℕ → List Poll → Capture → Type 0
ObservedInPolls timeout ps c = (p : Poll) × Memᴰ p ps × ObservedAt timeout p c

-- The rounds that the loop goes through, what it captures in them, and how it ends: by itself behind
-- the first round in which the monitored processes are gone, or with the last round.
pub record Handles (timeout : ℕ) (ps : List Poll) (st st' : State) (stopped : Bool) : Type 0 where
  pub handled : List Poll
  pub rest : List Poll
  pub parts : ps ≡ handled ++ rest
  pub adds : Adds (ObservedInPolls timeout handled) st st'
  pub ended :
      ((stopped ≡ true)
        × ((before : List Poll) × (last : Poll) × (handled ≡ before ++ last ∷ [])
            × All (λ p. ¬ IsGone p) before
            × IsGone last))
      ⊎ ((stopped ≡ false) × (rest ≡ []) × All (λ p. ¬ IsGone p) handled)

stops-Handles :
    (timeout : ℕ) (p : Poll) (ps : List Poll) {st st' : State}
    → Adds (ObservedAt timeout p) st st'
    → IsGone p
    → Handles timeout (p ∷ ps) st st' true
stops-Handles timeout p ps here gone = record {
  handled = p ∷ [];
  rest = ps;
  parts = refl;
  adds =
      Adds-iff
        (λ c. (
          λ o. (p, Memᴰ.head refl, o),
          λ k.
              ⊎_elim (λ e. subst (λ x. ObservedAt timeout x c) e k.2) (λ t. absurd (Memᴰ.not-nil t))
                (Memᴰ.cases_cons k.1),
        ))
        here;
  ended = inl (refl, ([], p, refl, tt, gone));
}

goes_on-Handles :
    (timeout : ℕ) (p : Poll) (ps : List Poll) {st st' st'' : State} {stopped : Bool}
    → Adds (ObservedAt timeout p) st st'
    → ¬ IsGone p
    → Handles timeout ps st' st'' stopped
    → Handles timeout (p ∷ ps) st st'' stopped
goes_on-Handles timeout p ps here still later = record {
  handled = p ∷ later.handled;
  rest = later.rest;
  parts = λ i. p ∷ later.parts i;
  adds =
      Adds-iff
        (λ c. (
          ⊎_elim (λ o. (p, Memᴰ.head refl, o)) (λ k. (k.0, Memᴰ.tail k.1, k.2)),
          λ k.
              ⊎_elim (λ e. inl (subst (λ x. ObservedAt timeout x c) e k.2)) (λ t. inr (k.0, t, k.2))
                (Memᴰ.cases_cons k.1),
        ))
        (Adds-trans here later.adds);
  ended =
      ⊎_elim (λ k. inl (k.0, (p ∷ k.1.0, k.1.1, (λ i. p ∷ k.1.2 i), (still, k.1.3), k.1.4)))
        (λ (s, r, h). inr (s, r, (still, h))) later.ended;
}

watch-Handles :
    (timeout : ℕ) (ps : List Poll) (st : State)
    → All IsReady ps
    → IsSound st
    → (st' : State) × (stopped : Bool) × (watch timeout ps st ≡ some (st', stopped))
      × Handles timeout ps st st' stopped
unfolding watch
watch-Handles timeout [] st a sound = (
  st,
  false,
  refl,
  record {
    handled = [];
    rest = [];
    parts = refl;
    adds = unchanged-Adds _ st sound (λ c k. Memᴰ.not-nil k.1);
    ended = inr (refl, refl, tt);
  },
)
watch-Handles timeout (p ∷ ps) st a sound =
    let (st', q, here) = handle_poll-Adds timeout p st a.0 sound in
    let (d, qd, gone) = is_finished_returns p.monitored a.0.monitored in
    let (st'', stopped, qs, later) = watch-Handles timeout ps st' a.1 here.sound in
    elim (Bool-cases d) [
      | inl e ↦ (
        st',
        true,
        rw (q, watch) (rw (qd, watch) (rw e refl)),
        stops-Handles timeout p ps here (gone.0 e),
      )
      | inr e ↦ (
        st'',
        stopped,
        rw (q, watch) (rw (qd, watch) (rw e qs)),
        goes_on-Handles timeout p ps here (λ g. cc (gone.1 g, e)) later,
      )
    ]

start-IsSound : IsSound start
unfolding IsUnique
start-IsSound = record {
  stalls = λ p w. (λ m. absurd (Memᴰ.not-nil m), λ m. absurd (Memᴰ.not-nil m));
  exits = λ p. (λ m. absurd (Memᴰ.not-nil m), λ m. absurd (Memᴰ.not-nil m));
  unique = tt;
}

-- If the files raise only what is caught and `alive` answers, the loop runs; it captures the stalls
-- and exits that it observes in the rounds it goes through, each once, and it ends by itself exactly
-- behind the first round in which there are monitored processes and all of them are gone.
pub watch_captures :
    (timeout : ℕ) (ps : List Poll)
    → All IsReady ps
    → (st : State) × (stopped : Bool) × (h : Handles timeout ps start st stopped) × (watch timeout
          ps start
        ≡ some (st, stopped))
      × IsUnique st.captures
      × ((c : Capture) → Memᴰ c st.captures ↔ ObservedInPolls timeout h.handled c)
watch_captures timeout ps ready =
    let (st, stopped, runs, h) = watch-Handles timeout ps start ready start-IsSound in
    (
      st,
      stopped,
      h,
      runs,
      h.adds.sound.unique,
      λ c. (
        λ m. ⊎_elim (λ n. absurd (Memᴰ.not-nil n)) (λ o. o) ((h.adds.added c).0 m),
        λ o. (h.adds.added c).1 (inr o),
      ),
    )
