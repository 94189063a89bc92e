-- ===== src/MsptiRing/Report/Rows.antt =====
-- Which records the report joins, and which it shows for a stream.
use mathlib.Core.List.Memᴰ
use hang_analyzer.Prelude.{
  ℕ, ◌≡◌, ◌≢◌, refl, sym, ap, subst, ◌∙◌, true, ◌↔◌, ◌⊎◌, inl, inr, ⊎_elim, some, List, [], ◌∷◌,
  ◌++◌, All, Memᴰ, Bool-cases, mem-passing, contains, contains_iff, if◌then◌else◌, arith, Dict,
  keys, lookup, insert, lookup-insert_self, lookup-insert_ne, mem-keys-insert, mem-entries,
  HasKeysOnce, insert-HasKeysOnce, mem-sort_with, ℕ_discrete, codes,
}
use hang_analyzer.MsptiRing.{RingEvent}
use hang_analyzer.MsptiRing.Report.Activities.{
  has_kind, is_api, api_by_correlation, kernels_of, joined_of, StreamKey, StreamKey-discrete,
  stream_key, is_done, last_by_stream, stream_le, stream_rows,
}

-- An activity of this stream.
abbrev pub Finishes : StreamKey → RingEvent → Type 0
Finishes k e = (is_done e ≡ true) × (stream_key e ≡ k)

-- `e` is the last activity of the stream.
abbrev pub IsLastDone : StreamKey → RingEvent → List RingEvent → Type 0
IsLastDone k e es =
    (before : List RingEvent) × (behind : List RingEvent) × (es ≡ before ++ e ∷ behind)
    × Finishes k e
    × All (λ x. ¬ Finishes k x) behind

abbrev update : RingEvent → Dict StreamKey RingEvent → Dict StreamKey RingEvent
update e last = if is_done e then insert StreamKey-discrete (stream_key e) e last else last

module _ (k : StreamKey) (e : RingEvent) (d : Dict StreamKey RingEvent) where
  update-Finishes : Finishes k e → lookup StreamKey-discrete k (update e d) ≡ some e
  update-Finishes (f, q) = rw f (
      subst
        (λ j. lookup StreamKey-discrete j (insert StreamKey-discrete (stream_key e) e d) ≡ some e) q
        (lookup-insert_self StreamKey-discrete (stream_key e) e d))

  update-other :
      ¬ Finishes k e → lookup StreamKey-discrete k (update e d) ≡ lookup StreamKey-discrete k d
  update-other n = elim (Bool-cases (is_done e)) [
    | inl f ↦ rw f (lookup-insert_ne StreamKey-discrete (stream_key e) k e d (λ q. n (f, q)))
    | inr f ↦ rw f refl
  ]

Finishes-cases : (k : StreamKey) (e : RingEvent) → Finishes k e ⊎ ¬ Finishes k e
Finishes-cases k e = elim (Bool-cases (is_done e)) [
  | inl f ↦ (elim (StreamKey-discrete (stream_key e) k) [
    | yes q ↦ inl (f, q)
    | no n ↦ inr (λ h. n h.1)
  ])
  | inr f ↦ inr (λ h. cc)
]

-- After the events, from a dict `d`.
last_by_stream-IsLastDone :
    (k : StreamKey) (e : RingEvent) (es : List RingEvent) (d : Dict StreamKey RingEvent)
    → lookup StreamKey-discrete k (last_by_stream es d) ≡ some e
    → IsLastDone k e es ⊎ All (λ x. ¬ Finishes k x) es × (lookup StreamKey-discrete k d ≡ some e)
unfolding last_by_stream
last_by_stream-IsLastDone k e [] d h = inr (tt, h)
last_by_stream-IsLastDone k e (x ∷ es) d h =
    elim (last_by_stream-IsLastDone k e es (update x d) h) [
      | inl (before, behind, q, f, s) ↦ inl (x ∷ before, behind, ap (◌∷◌ x) q, f, s)
      | inr (s, found) ↦ elim (Finishes-cases k x) [
        | inl f ↦
            let same : x ≡ e = cc (update-Finishes k x d f) in
            inl ([], es, ap (λ y. y ∷ es) same, subst (Finishes k) same f, s)
        | inr n ↦ inr ((n, s), sym (update-other k x d n) ∙ found)
      ]
    ]

last_by_stream-quiet :
    (k : StreamKey) (es : List RingEvent) (d : Dict StreamKey RingEvent)
    → All (λ x. ¬ Finishes k x) es
    → lookup StreamKey-discrete k (last_by_stream es d) ≡ lookup StreamKey-discrete k d
unfolding last_by_stream
last_by_stream-quiet k [] d h = refl
last_by_stream-quiet k (x ∷ es) d h =
    last_by_stream-quiet k es (update x d) h.1 ∙ update-other k x d h.0

last_by_stream-append :
    (xs ys : List RingEvent) (d : Dict StreamKey RingEvent)
    → last_by_stream (xs ++ ys) d ≡ last_by_stream ys (last_by_stream xs d)
unfolding last_by_stream
last_by_stream-append [] ys d = refl
last_by_stream-append (x ∷ xs) ys d = last_by_stream-append xs ys (update x d)

IsLastDone-last_by_stream :
    (k : StreamKey) (e : RingEvent) (es : List RingEvent)
    → IsLastDone k e es
    → lookup StreamKey-discrete k (last_by_stream es []) ≡ some e
unfolding last_by_stream
IsLastDone-last_by_stream k e es (before, behind, q, f, s) =
    ap (λ xs. lookup StreamKey-discrete k (last_by_stream xs [])) q
    ∙ (ap (lookup StreamKey-discrete k) (last_by_stream-append before (e ∷ behind) [])
        ∙ (last_by_stream-quiet k behind (update e (last_by_stream before [])) s
            ∙ update-Finishes k e (last_by_stream before []) f))

last_by_stream-HasKeysOnce :
    (es : List RingEvent) (d : Dict StreamKey RingEvent)
    → HasKeysOnce StreamKey-discrete d
    → HasKeysOnce StreamKey-discrete (last_by_stream es d)
unfolding last_by_stream
last_by_stream-HasKeysOnce [] d h = h
last_by_stream-HasKeysOnce (x ∷ es) d h = elim (Bool-cases (is_done x)) [
  | inl f ↦
      rw f (
        last_by_stream-HasKeysOnce es _
          (insert-HasKeysOnce StreamKey-discrete (stream_key x) x d h))
  | inr f ↦ rw f (last_by_stream-HasKeysOnce es d h)
]

stream_rows_iff :
    (es : List RingEvent) (k : StreamKey) (e : RingEvent)
    → Memᴰ (k, e) (stream_rows es) ↔ IsLastDone k e es
unfolding stream_rows lookup
stream_rows_iff es k e =
    let sorted =
      mem-sort_with (λ (p q : StreamKey × RingEvent). stream_le p.0 q.0) (k, e)
        (last_by_stream es []) in
    let entries =
      mem-entries StreamKey-discrete k e (last_by_stream es [])
        (last_by_stream-HasKeysOnce es [] tt) in
    (
      λ m. elim (last_by_stream-IsLastDone k e es [] (entries.0 (sorted.0 m))) [
        | inl l ↦ l
        | inr (s, h) ↦ cc h
      ],
      λ l. sorted.1 (entries.1 (IsLastDone-last_by_stream k e es l)),
    )

-- The record has an activity of the Runtime API with its correlation, which is not 0.
abbrev pub HasApi : RingEvent → List RingEvent → Type 0
HasApi e es =
    (a : RingEvent) × Memᴰ a es
    × (has_kind (codes "runtime_api_done") a ≡ true)
    × (a.correlation_id ≡ e.correlation_id)
    × (e.correlation_id ≢ 0)

-- A key of the dict is a correlation of one of the activities.
abbrev HasKey : ℕ → List RingEvent → Type 0
HasKey c es = (a : RingEvent) × Memᴰ a es × (is_api a ≡ true) × (a.correlation_id ≡ c)

more_keys : (c : ℕ) (x : RingEvent) (es : List RingEvent) → HasKey c es → HasKey c (x ∷ es)
more_keys c x es (a, at, f, q) = (a, Memᴰ.tail at, f, q)

fewer_keys :
    (c : ℕ) (x : RingEvent) (es : List RingEvent)
    → HasKey c (x ∷ es)
    → (is_api x ≡ true) × (x.correlation_id ≡ c) ⊎ HasKey c es
fewer_keys c x es (a, at, f, q) =
    ⊎_elim (λ e. inl (ap is_api (sym e) ∙ f, ap (λ (y : RingEvent). y.correlation_id) (sym e) ∙ q))
      (λ t. inr (a, t, f, q)) (Memᴰ.cases_cons at)

api_keys :
    (c : ℕ) (es : List RingEvent) (d : Dict ℕ RingEvent)
    → Memᴰ c (keys (api_by_correlation es d)) ↔ (HasKey c es ⊎ Memᴰ c (keys d))
unfolding api_by_correlation
api_keys c [] d = (inr, ⊎_elim (λ h. absurd (Memᴰ.not-nil h.1)) (λ m. m))
api_keys c (x ∷ es) d = elim (Bool-cases (is_api x)) [
  | inl f ↦
      let rest = api_keys c es (insert ℕ_discrete x.correlation_id x d) in
      let added = mem-keys-insert ℕ_discrete c x.correlation_id x d in
      rw f (
        λ m.
            ⊎_elim (λ h. inl (more_keys c x es h))
              (λ n. ⊎_elim (λ q. inl (x, Memᴰ.head refl, f, sym q)) inr (added.0 n)) (rest.0 m),
        ⊎_elim
            (λ h.
              ⊎_elim (λ own. rest.1 (inr (added.1 (inl (sym own.1))))) (λ t. rest.1 (inl t))
                (fewer_keys c x es h))
            (λ m. rest.1 (inr (added.1 (inr m)))),
      )
  | inr f ↦
      let rest = api_keys c es d in
      rw f (
        λ m. ⊎_elim (λ h. inl (more_keys c x es h)) inr (rest.0 m),
        ⊎_elim (λ h. ⊎_elim (λ own. cc own.0) (λ t. rest.1 (inl t)) (fewer_keys c x es h))
            (λ m. rest.1 (inr m)),
      )
]

is_api-parts :
    (a : RingEvent)
    → (is_api a ≡ true) ↔ ((has_kind (codes "runtime_api_done") a ≡ true) × (a.correlation_id ≢ 0))
unfolding is_api
is_api-parts a = ground arith

HasKey-HasApi : (e : RingEvent) (es : List RingEvent) → HasKey e.correlation_id es ↔ HasApi e es
HasKey-HasApi e es = (
  λ h.
      let (a, at, f, q) = h in
      (a, at, ((is_api-parts a).0 f).0, q, λ z. ((is_api-parts a).0 f).1 (q ∙ z)),
  λ h. let (a, at, f, q, n) = h in (a, at, (is_api-parts a).1 (f, λ z. n (sym q ∙ z)), q),
)

joined_of_iff :
    (es : List RingEvent) (e : RingEvent)
    → Memᴰ e (joined_of es) ↔ (Memᴰ e es × (has_kind (codes "kernel_done") e ≡ true) × HasApi e es)
unfolding joined_of kernels_of
joined_of_iff es e =
    let ids = keys (api_by_correlation es []) in
    let joined =
      mem-passing (λ (x : RingEvent). contains ℕ_discrete x.correlation_id ids) e (kernels_of es) in
    let kernel = mem-passing (has_kind (codes "kernel_done")) e es in
    let found = contains_iff ℕ_discrete e.correlation_id ids in
    let key = api_keys e.correlation_id es [] in
    let api = HasKey-HasApi e es in
    (
      λ m.
          let (k, f) = joined.0 m in
          let (at, kind) = kernel.0 k in
          (at, kind, api.0 (⊎_elim (λ h. h) (λ n. absurd (Memᴰ.not-nil n)) (key.0 (found.0 f)))),
      λ m. let (at, kind, h) = m in joined.1 (kernel.1 (at, kind), found.1 (key.1 (inl (api.1 h)))),
    )

-- Whatever the records: the report counts as joined exactly the completed kernels whose correlation is
-- that of an activity of the Runtime API and not 0; and it shows for a stream exactly the stream's last
-- completed kernel or collective, and no row for a stream without one.
pub report-selects :
    (es : List RingEvent)
    → ((e : RingEvent)
        → Memᴰ e (joined_of es)
          ↔ (Memᴰ e es × (has_kind (codes "kernel_done") e ≡ true) × HasApi e es))
      × ((k : StreamKey) (e : RingEvent) → Memᴰ (k, e) (stream_rows es) ↔ IsLastDone k e es)
report-selects es = (joined_of_iff es, stream_rows_iff es)
