-- ===== src/Analyzer/Scan/Groups.antt =====
-- Which ranks have entered a collective.
use mathlib.Core.List.Memᴰ
use hang_analyzer.Prelude.{
  ℕ, ◌≡◌, refl, subst, ◌⊎◌, inl, inr, ⊎_elim, ◌↔◌, List, [], ◌∷◌, Memᴰ, codes, text_eq, text_eq_iff,
  Dict, keys, insert, lookup-insert_self, lookup-insert_ne, mem-keys-insert, ℕ_discrete, Bool-cases,
}
use hang_analyzer.Format.{Event}
use hang_analyzer.Analyzer.Scan.{
  PairKey, PairKey-discrete, group_of, enter_group, is_type, Shared, scan_shared,
  scan_events_shared,
}

-- The event enters the collective: `arg0` is the communicator and the correlation the operation.
abbrev pub Enters : PairKey → Event → Type 0
Enters key e = (e.type ≡ codes "HCCL_BEGIN") × ((e.arg0, e.correlation_id) ≡ key)

abbrev pub EnteredIn : PairKey → List Event → Type 0
EnteredIn key es = (e : Event) × Memᴰ e es × Enters key e

abbrev pub entered : PairKey → Shared → List ℕ
entered key s = keys (group_of key s.groups)

group_of-enter_self :
    (rank : ℕ) (e : Event) (g : Dict PairKey (Dict ℕ Event))
    → group_of (e.arg0, e.correlation_id) (enter_group rank e g)
      ≡ insert ℕ_discrete rank e (group_of (e.arg0, e.correlation_id) g)
unfolding group_of enter_group
group_of-enter_self rank e g =
    let key : PairKey = (e.arg0, e.correlation_id) in
    rw
      (
        lookup-insert_self PairKey-discrete key (insert ℕ_discrete rank e (group_of key g)) g,
        group_of,
      )
      refl

group_of-enter_ne :
    (key : PairKey) (rank : ℕ) (e : Event) (g : Dict PairKey (Dict ℕ Event))
    → ¬ ((e.arg0, e.correlation_id) ≡ key)
    → group_of key (enter_group rank e g) ≡ group_of key g
unfolding group_of enter_group
group_of-enter_ne key rank e g n =
    let own : PairKey = (e.arg0, e.correlation_id) in
    rw
      (
        lookup-insert_ne PairKey-discrete own key (insert ℕ_discrete rank e (group_of own g)) g n,
        group_of,
      )
      refl

group_of-enter_group :
    (key : PairKey) (rank r : ℕ) (e : Event) (g : Dict PairKey (Dict ℕ Event))
    → Memᴰ r (keys (group_of key (enter_group rank e g)))
      ↔ (((r ≡ rank) × ((e.arg0, e.correlation_id) ≡ key)) ⊎ Memᴰ r (keys (group_of key g)))
group_of-enter_group key rank r e g = elim (PairKey-discrete (e.arg0, e.correlation_id) key) [
  | yes q ↦
      let same =
        subst (λ k. group_of k (enter_group rank e g) ≡ insert ℕ_discrete rank e (group_of k g)) q
          (group_of-enter_self rank e g) in
      let h = mem-keys-insert ℕ_discrete r rank e (group_of key g) in
      rw same (λ m. ⊎_elim (λ k. inl (k, q)) inr (h.0 m), λ m. h.1 (⊎_elim (λ k. inl k.0) inr m))
  | no n ↦ rw (group_of-enter_ne key rank e g n) (inr, ⊎_elim (λ k. absurd (n k.1)) (λ m. m))
]

scan_shared-entered :
    (key : PairKey) (rank r : ℕ) (e : Event) (s : Shared)
    → Memᴰ r (entered key (scan_shared rank e s))
      ↔ (((r ≡ rank) × Enters key e) ⊎ Memᴰ r (entered key s))
unfolding scan_shared is_type
scan_shared-entered key rank r e s = elim (Bool-cases (text_eq e.type (codes "HCCL_BEGIN"))) [
  | inl begins ↦
      let h = group_of-enter_group key rank r e s.groups in
      let t = (text_eq_iff e.type (codes "HCCL_BEGIN")).0 begins in
      rw begins (
        λ m. ⊎_elim (λ (k, q). inl (k, (t, q))) inr (h.0 m),
        λ m. h.1 (⊎_elim (λ k. inl (k.0, k.1.1)) inr m),
      )
  | inr other ↦
      rw other (inr, ⊎_elim (λ k. cc ((text_eq_iff e.type (codes "HCCL_BEGIN")).1 k.1.0)) (λ m. m))
]

pub scan_events_shared-entered :
    (key : PairKey) (rank r : ℕ) (es : List Event) (s : Shared)
    → Memᴰ r (entered key (scan_events_shared rank es s))
      ↔ (((r ≡ rank) × EnteredIn key es) ⊎ Memᴰ r (entered key s))
unfolding scan_events_shared
scan_events_shared-entered key rank r [] s =
    (inr, ⊎_elim (λ k. absurd (Memᴰ.not-nil k.1.1)) (λ m. m))
scan_events_shared-entered key rank r (e ∷ es) s =
    let now = scan_shared-entered key rank r e s in
    let later = scan_events_shared-entered key rank r es (scan_shared rank e s) in
    (
      λ m.
          ⊎_elim (λ k. inl (k.0, (k.1.0, Memᴰ.tail k.1.1, k.1.2)))
            (λ n. ⊎_elim (λ k. inl (k.0, (e, Memᴰ.head refl, k.1))) inr (now.0 n)) (later.0 m),
      ⊎_elim
          (λ k.
            ⊎_elim (λ same. later.1 (inr (now.1 (inl (k.0, subst (Enters key) same k.1.2)))))
              (λ t. later.1 (inl (k.0, (k.1.0, t, k.1.2)))) (Memᴰ.cases_cons k.1.1))
          (λ n. later.1 (inr (now.1 (inr n)))),
    )
