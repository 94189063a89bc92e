-- ===== src/Outputs/Full/Listing.antt =====
-- The sorted events of a dict that is keyed by their numbers.
use mathlib.Core.List.Memᴰ
use hang_analyzer.Prelude.{
  ℕ, ◌<◌, ◌==◌, ◌≡◌, ◌≢◌, ◌⊎◌, ⊎_elim, refl, sym, ap, subst, ◌∙◌, inl, inr, Bool-cases, Option,
  Option-cases, none, some, List, [], ◌∷◌, if◌then◌else◌, All, All-mono, Memᴰ, mem-sort_by, sort_by,
  IsStrict, Dict, values, lookup, lookup-insert_self, lookup-insert_ne, insert, ℕ_discrete, arith,
}
use hang_analyzer.Format.{Event}
use hang_analyzer.Outputs.Full.{by_seq, merge_events}
use hang_analyzer.Outputs.Full.Keyed.{
  number, IsKeyed, by_seq-IsKeyed, lookup-number, mem-values, sorted-IsStrict,
}

-- The last event with the number, if there is one.
unfoldable pub latest : ℕ → List Event → Option Event → Option Event
latest n [] o = o
latest n (e ∷ es) o = latest n es (if e.seq == n then some e else o)

lookup-by_seq :
    (n : ℕ) (es : List Event) (d : Dict ℕ Event)
    → lookup ℕ_discrete n (by_seq es d) ≡ latest n es (lookup ℕ_discrete n d)
unfolding by_seq latest
lookup-by_seq n [] d = refl
lookup-by_seq n (e ∷ es) d =
    lookup-by_seq n es (insert ℕ_discrete e.seq e d) ∙ ap (latest n es) at_insert
  where
    at_insert :
        lookup ℕ_discrete n (insert ℕ_discrete e.seq e d)
        ≡ (if e.seq == n then some e else lookup ℕ_discrete n d)
    at_insert = elim (ℕ_discrete e.seq n) [
      | yes p ↦ ground (arith, p, lookup-insert_self ℕ_discrete e.seq e d)
      | no q ↦ lookup-insert_ne ℕ_discrete e.seq n e d q ∙ ground (arith, q)
    ]

latest-absent :
    (n : ℕ) (es : List Event) (o : Option Event) → All (λ e. n ≢ number e) es → latest n es o ≡ o
unfolding latest
latest-absent n [] o h = refl
latest-absent n (e ∷ es) o h = latest-absent n es _ h.1 ∙ ground (arith, h.0)

pub latest-source :
    (n : ℕ) (es : List Event) (o : Option Event) {e : Event}
    → latest n es o ≡ some e
    → (Memᴰ e es × (e.seq ≡ n)) ⊎ (o ≡ some e)
unfolding latest
latest-source n [] o q = inr q
latest-source n (x ∷ es) o {e} q = elim (Bool-cases (x.seq == n)) [
  | inl same ↦
      ⊎_elim (λ m. inl (Memᴰ.tail m.0, m.1))
        (λ here. inl (Memᴰ.head (cc here), ground (arith, same, here)))
        (latest-source n es (some x) {e = e} (ground (arith, same, q)))
  | inr other ↦
      ⊎_elim (λ m. inl (Memᴰ.tail m.0, m.1)) (λ here. inr here)
        (latest-source n es o {e = e} (ground (arith, other, q)))
]

pub latest-mem :
    (e : Event) (es : List Event) (o : Option Event)
    → IsStrict number es
    → Memᴰ e es
    → latest e.seq es o ≡ some e
unfolding latest
latest-mem e [] o s m = absurd (Memᴰ.not-nil m)
latest-mem e (x ∷ es) o s m =
    ⊎_elim
      (λ q.
        latest-absent e.seq es _ (
          All-mono (λ y. number x < number y) (λ y. e.seq ≢ number y) es
            (λ y lt. ground (arith, lt, ap number q)) s.0)
        ∙ ground (arith, q))
      (λ t. latest-mem e es _ s.1 t) (Memᴰ.cases_cons m)

-- A list of events in strictly ascending order, that has the event `o n` under each number `n`.
pub record IsListing (es : List Event) (o : ℕ → Option Event) : Type 0 where
  pub ascending : IsStrict number es
  pub finds : (n : ℕ) → latest n es none ≡ o n

-- The sorted values of a keyed dict list it.
values-IsListing :
    (d : Dict ℕ Event)
    → IsKeyed d
    → IsListing (sort_by number (values d)) (λ n. lookup ℕ_discrete n d)
values-IsListing d i = record {
  ascending = sorted-IsStrict d i;
  finds = λ n. elim (Option-cases (lookup ℕ_discrete n d)) [
    | inl absent ↦ elim (Option-cases (latest n es none)) [
      | inl q ↦ q ∙ sym absent
      | inr (e, q) ↦
          absurd
            (⊎_elim (λ m. not_both n e absent m) (λ h. cc h) (latest-source n es none {e = e} q))
    ]
    | inr (e, found) ↦
        subst (λ k. latest k es none ≡ some e) (lookup-number n d i found)
          (latest-mem e es none (sorted-IsStrict d i) (
            (mem-sort_by number e (values d)).1 (
              (mem-values e d i).1 (
                subst (λ k. lookup ℕ_discrete k d ≡ some e) (sym (lookup-number n d i found))
                  found))))
        ∙ sym found
  ];
}
  where
    es : List Event
    es = sort_by number (values d)

    not_both : (n : ℕ) (e : Event) → lookup ℕ_discrete n d ≡ none → Memᴰ e es × (e.seq ≡ n) → ⊥
    not_both n e absent (m, q) = cc (
        sym absent
        ∙ ap (λ k. lookup ℕ_discrete k d) (sym q)
        ∙ (mem-values e d i).0 ((mem-sort_by number e (values d)).0 m))

pub merge_events-IsListing :
    (old events : List Event) (o : ℕ → Option Event)
    → IsListing old o
    → IsListing (merge_events old events) (λ n. latest n events (o n))
unfolding merge_events lookup
merge_events-IsListing old events o l =
    let d0 = by_seq old [] in
    let i0 = by_seq-IsKeyed old [] (record { agree = tt; distinct = tt }) in
    let listing = values-IsListing (by_seq events d0) (by_seq-IsKeyed events d0 i0) in
    record {
      ascending = listing.ascending;
      finds = λ n.
          listing.finds n
          ∙ lookup-by_seq n events d0
          ∙ ap (latest n events) (lookup-by_seq n old [] ∙ l.finds n);
    }
