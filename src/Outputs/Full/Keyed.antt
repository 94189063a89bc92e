-- ===== src/Outputs/Full/Keyed.antt =====
-- A dict of events by their sequence numbers, sorted into a list.
use mathlib.Core.List.Memᴰ
use hang_analyzer.Prelude.{
  ℕ, ◌≡◌, ◌≢◌, ◌↔◌, ⊎_elim, refl, sym, ap, ◌∙◌, none, some, List, [], ◌∷◌, All, Memᴰ, sort_by,
  sort_by-IsStrict, IsStrict, HasDistinctKeys, Dict, values, lookup, insert, ℕ_discrete, arith,
}
use hang_analyzer.Format.{Event}
use hang_analyzer.Outputs.Full.{by_seq}

abbrev pub number : Event → ℕ
number e = e.seq

-- Each event stands under its number, and each number once.
pub record IsKeyed (d : Dict ℕ Event) : Type 0 where
  pub agree : All (λ p. p.0 ≡ p.1.seq) d
  pub distinct : HasDistinctKeys (λ (p : ℕ × Event). p.0) d

ne-insert :
    (j k : ℕ) (v : Event) (d : Dict ℕ Event)
    → j ≢ k
    → All (λ p. j ≢ p.0) d
    → All (λ p. j ≢ p.0) (insert ℕ_discrete k v d)
unfolding insert
ne-insert j k v [] n h = (n, tt)
ne-insert j k v ((i, w) ∷ d) n h = ground (arith, n, h, ne-insert j k v d n h.1)

insert-IsKeyed : (e : Event) (d : Dict ℕ Event) → IsKeyed d → IsKeyed (insert ℕ_discrete e.seq e d)
unfolding insert
insert-IsKeyed e [] i = record { agree = (refl, tt); distinct = (tt, tt) }
insert-IsKeyed e ((j, w) ∷ d) i =
    let rest = insert-IsKeyed e d (record { agree = i.agree.1; distinct = i.distinct.1 }) in
    record {
      agree = ground (arith, i.agree, rest.agree);
      distinct =
          elim (ℕ_discrete j e.seq)
            as (λ x.
              HasDistinctKeys (λ (p : ℕ × Event). p.0)
                (elim x [ yes _ ↦ (j, e) ∷ d | no _ ↦ (j, w) ∷ insert ℕ_discrete e.seq e d ])) [
                  | yes p ↦ i.distinct
                  | no n ↦ (ne-insert j e.seq e d n i.distinct.0, rest.distinct)
                ];
    }

pub by_seq-IsKeyed : (es : List Event) (d : Dict ℕ Event) → IsKeyed d → IsKeyed (by_seq es d)
unfolding by_seq
by_seq-IsKeyed [] d i = i
by_seq-IsKeyed (e ∷ es) d i = by_seq-IsKeyed es (insert ℕ_discrete e.seq e d) (insert-IsKeyed e d i)

lookup-absent : (k : ℕ) (d : Dict ℕ Event) → All (λ p. k ≢ p.0) d → lookup ℕ_discrete k d ≡ none
unfolding lookup
lookup-absent k [] h = refl
lookup-absent k ((j, w) ∷ d) h = ground (arith, h.0, lookup-absent k d h.1)

rest-IsKeyed : {p : ℕ × Event} {d : Dict ℕ Event} → IsKeyed (p ∷ d) → IsKeyed d
rest-IsKeyed i = record { agree = i.agree.1; distinct = i.distinct.1 }

-- An event under one number is not in the rest.
not_again :
    (j : ℕ) (e : Event) (d : Dict ℕ Event)
    → All (λ p. p.0 ≡ p.1.seq) d
    → All (λ p. j ≢ p.0) d
    → Memᴰ e (values d)
    → j ≢ e.seq
not_again j e [] a h m = absurd (Memᴰ.not-nil m)
not_again j e ((i, w) ∷ d) a h m =
    ⊎_elim (λ q p. h.0 (p ∙ ap number q ∙ sym a.0)) (not_again j e d a.1 h.1) (Memᴰ.cases_cons m)

pub lookup-number :
    (k : ℕ) (d : Dict ℕ Event) {e : Event} → IsKeyed d → lookup ℕ_discrete k d ≡ some e → e.seq ≡ k
unfolding lookup
lookup-number k [] i q = cc q
lookup-number k ((j, w) ∷ d) {e} i q = elim (ℕ_discrete j k) [
  | yes p ↦ ground (arith, i.agree.0, q)
  | no n ↦ lookup-number k d {e = e} (rest-IsKeyed i) (ground (arith, q))
]

pub mem-values :
    (e : Event) (d : Dict ℕ Event)
    → IsKeyed d
    → Memᴰ e (values d) ↔ (lookup ℕ_discrete e.seq d ≡ some e)
unfolding lookup
mem-values e [] i = (λ m. absurd (Memᴰ.not-nil m), λ q. cc q)
mem-values e ((j, w) ∷ d) i = elim (ℕ_discrete j e.seq) [
  | yes p ↦ (
    λ m.
        ⊎_elim (λ q. ground (arith, q)) (λ t. absurd (not_again j e d i.agree.1 i.distinct.0 t p))
          (Memᴰ.cases_cons m),
    λ q. Memᴰ.head (ground (arith, q)),
  )
  | no n ↦ (
    λ m.
        ⊎_elim (λ q. absurd (n (i.agree.0 ∙ ap number (sym q))))
          (λ t. ground (arith, (mem-values e d (rest-IsKeyed i)).0 t)) (Memᴰ.cases_cons m),
    λ q. Memᴰ.tail ((mem-values e d (rest-IsKeyed i)).1 (ground (arith, q))),
  )
]

values-distinct : (d : Dict ℕ Event) → IsKeyed d → HasDistinctKeys number (values d)
values-distinct [] i = tt
values-distinct ((j, w) ∷ d) i =
    (all_distinct d i.agree.1 i.distinct.0, values-distinct d (rest-IsKeyed i))
  where
    all_distinct :
        (d : Dict ℕ Event)
        → All (λ p. p.0 ≡ p.1.seq) d
        → All (λ p. j ≢ p.0) d
        → All (λ y. number w ≢ number y) (values d)
    all_distinct [] a h = tt
    all_distinct ((k, v) ∷ d) a h = (λ q. h.0 (i.agree.0 ∙ q ∙ sym a.0), all_distinct d a.1 h.1)

-- The sorted values: each number once, ascending, and the events that the dict has.
pub sorted-IsStrict : (d : Dict ℕ Event) → IsKeyed d → IsStrict number (sort_by number (values d))
sorted-IsStrict d i = sort_by-IsStrict number (values d) (values-distinct d i)
