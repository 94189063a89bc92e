-- ===== src/Analyzer/Progress/Exact.antt =====
-- Which checkpoints count as exactly confirmed, which confirmations as stale, and how the submitted
-- checkpoints are told apart by stream.
use mathlib.Core.List.Memᴰ
use hang_analyzer.Prelude.{
  ◌≡◌, ◌≢◌, refl, sym, subst, ◌∙◌, true, false, not, ◌⊎◌, inl, inr, ⊎_elim, ◌↔◌, ◌==◌, ==_iff, some,
  List, [], ◌∷◌, map, Memᴰ, mem-passing, contains, contains_iff, Dict, lookup, insert,
  lookup-insert_self, lookup-insert_ne, Bool-cases, if◌then◌else◌, arith,
}
use hang_analyzer.Format.{Event}
use hang_analyzer.Analyzer.Progress.{
  CheckpointKey, CheckpointKey-discrete, checkpoint_key, record_confirmations, exact_confirmations,
  is_confirmed, is_stale, stale_confirmations,
}

-- One of the confirmations has a generation, and is about this checkpoint in every field.
abbrev pub IsConfirmedBy : List Event → CheckpointKey → Type 0
IsConfirmedBy confirmed k = (c : Event) × Memᴰ c confirmed × (c.arg1 ≢ 0) × (checkpoint_key c ≡ k)

abbrev HasKey : CheckpointKey → Dict CheckpointKey Event → Type 0
HasKey k d = (c : Event) × (lookup CheckpointKey-discrete k d ≡ some c)

HasKey-insert :
    (k j : CheckpointKey) (e : Event) (d : Dict CheckpointKey Event)
    → HasKey j (insert CheckpointKey-discrete k e d) ↔ ((k ≡ j) ⊎ HasKey j d)
HasKey-insert k j e d = elim (CheckpointKey-discrete k j) [
  | yes q ↦ (
    λ _. inl q,
    λ _. (
      e,
      subst (λ i. lookup CheckpointKey-discrete i (insert CheckpointKey-discrete k e d) ≡ some e) q
          (lookup-insert_self CheckpointKey-discrete k e d),
    ),
  )
  | no n ↦ (
    λ (c, h). inr (c, sym (lookup-insert_ne CheckpointKey-discrete k j e d n) ∙ h),
    ⊎_elim (λ q. absurd (n q))
        (λ (c, h). (c, lookup-insert_ne CheckpointKey-discrete k j e d n ∙ h)),
  )
]

HasKey-step :
    (j : CheckpointKey) (e : Event) (d : Dict CheckpointKey Event)
    → HasKey j
        (if not (e.arg1 == 0) then insert CheckpointKey-discrete (checkpoint_key e) e d else d)
      ↔ (((e.arg1 ≢ 0) × (checkpoint_key e ≡ j)) ⊎ HasKey j d)
HasKey-step j e d = elim (Bool-cases (e.arg1 == 0)) [
  | inl zero_generation ↦
      rw zero_generation
        (inr, ⊎_elim (λ k. absurd (k.0 ((==_iff e.arg1 0).0 zero_generation))) (λ h. h))
  | inr generation ↦
      let h = HasKey-insert (checkpoint_key e) j e d in
      let some_generation : e.arg1 ≢ 0 = ground arith in
      rw generation (
        λ k. ⊎_elim (λ q. inl (some_generation, q)) inr (h.0 k),
        λ k. h.1 (⊎_elim (λ q. inl q.1) inr k),
      )
]

record_confirmations-HasKey :
    (j : CheckpointKey) (es : List Event) (d : Dict CheckpointKey Event)
    → HasKey j (record_confirmations es d) ↔ (IsConfirmedBy es j ⊎ HasKey j d)
unfolding record_confirmations
record_confirmations-HasKey j [] d = (inr, ⊎_elim (λ k. absurd (Memᴰ.not-nil k.1)) (λ h. h))
record_confirmations-HasKey j (e ∷ es) d =
    let later =
      record_confirmations-HasKey j es
        (if not (e.arg1 == 0) then insert CheckpointKey-discrete (checkpoint_key e) e d else d) in
    let now = HasKey-step j e d in
    (
      λ k.
          ⊎_elim (λ (c, m, g, q). inl (c, Memᴰ.tail m, g, q))
            (λ h. ⊎_elim (λ (g, q). inl (e, Memᴰ.head refl, g, q)) inr (now.0 h)) (later.0 k),
      ⊎_elim
          (λ (c, m, g, q).
            ⊎_elim
              (λ same. later.1 (
                inr (
                  now.1 (
                    inl
                      (subst (λ (x : Event). (x.arg1 ≢ 0) × (checkpoint_key x ≡ j)) same (g, q))))))
              (λ t. later.1 (inl (c, t, g, q))) (Memᴰ.cases_cons m))
          (λ h. later.1 (inr (now.1 (inr h)))),
    )

-- A checkpoint counts as exactly confirmed if and only if some confirmation with a generation other
-- than 0 has its stream, its id, its sequence number and its generation.
pub is_confirmed_iff :
    (confirmed : List Event) (e : Event)
    → (is_confirmed (exact_confirmations confirmed) e ≡ true)
      ↔ IsConfirmedBy confirmed (checkpoint_key e)
unfolding is_confirmed exact_confirmations
is_confirmed_iff confirmed e =
    let h = record_confirmations-HasKey (checkpoint_key e) confirmed [] in
    (λ t. ⊎_elim (λ k. k) (λ k. cc) (h.0 (found t)), λ k. hit (h.1 (inl k)))
  where
    found :
        is_confirmed (exact_confirmations confirmed) e ≡ true
        → HasKey (checkpoint_key e) (record_confirmations confirmed [])
    found t = ground arith

    hit :
        HasKey (checkpoint_key e) (record_confirmations confirmed [])
        → is_confirmed (exact_confirmations confirmed) e ≡ true
    hit (c, q) = ground arith

is_stale_iff :
    (submitted : List Event) (e : Event)
    → (is_stale submitted e ≡ true)
      ↔ ((e.arg1 ≢ 0) × ((s : Event) → Memᴰ s submitted → checkpoint_key s ≢ checkpoint_key e))
unfolding is_stale
is_stale_iff submitted e = (
  λ t.
      let unknown : contains CheckpointKey-discrete (checkpoint_key e)
            (map checkpoint_key submitted)
          ≡ false =
        ground arith in
      (ground arith, λ s m q. cc (known.1 (Memᴰ.cast (sym q) (Memᴰ.map checkpoint_key m)))),
  λ (generation, other).
      elim (Bool-cases
        (contains CheckpointKey-discrete (checkpoint_key e) (map checkpoint_key submitted))) [
          | inl old ↦
              let (s, m, q) = Memᴰ.of_map checkpoint_key submitted (known.0 old) in
              absurd (other s m q)
          | inr new ↦ ground arith
        ],
)
  where
    known :
        (contains CheckpointKey-discrete (checkpoint_key e) (map checkpoint_key submitted) ≡ true)
        ↔ Memᴰ (checkpoint_key e) (map checkpoint_key submitted)
    known = contains_iff CheckpointKey-discrete (checkpoint_key e) (map checkpoint_key submitted)

-- A confirmation is reported as stale if and only if it has a generation and no submitted checkpoint
-- of the rank agrees with it in every field.
pub stale_confirmations_iff :
    (confirmed submitted : List Event) (e : Event)
    → Memᴰ e (stale_confirmations confirmed submitted) ↔ (
        Memᴰ e confirmed
        × (e.arg1 ≢ 0)
        × ((s : Event) → Memᴰ s submitted → checkpoint_key s ≢ checkpoint_key e))
unfolding stale_confirmations
stale_confirmations_iff confirmed submitted e =
    let passes = mem-passing (is_stale submitted) e confirmed in
    let test = is_stale_iff submitted e in
    (
      λ m. ((passes.0 m).0, (test.0 (passes.0 m).1).0, (test.0 (passes.0 m).1).1),
      λ (m, generation, other). passes.1 (m, test.1 (generation, other)),
    )
