-- ===== src/Prelude/Dicts.antt =====
-- Python's `dict`: an association list in insertion order, where a key that is there keeps its place.
use mathlib.Core.Path.{◌≡◌, refl, sym, ap, subst}
use mathlib.Core.Logic.{◌⊎◌, ◌↔◌, ⊎_elim}
use mathlib.Core.Option.{Option, none, some}
use mathlib.Core.List.{List, [], ◌∷◌, map, Memᴰ}
use mathlib.Core.List.Memᴰ
use native.Mathlib.Omega.{arith}
use hang_analyzer.Prelude.Lists.{Memᴰ-cons}

abbrev pub Dict : Type 0 → Type 0 → Type 0
Dict K V = List (K × V)

abbrev pub keys : {K V : Type 0} → Dict K V → List K
keys d = map (λ e. e.0) d

abbrev pub values : {K V : Type 0} → Dict K V → List V
values d = map (λ e. e.1) d

module _ {K V : Type 0} (dec : Discrete K) where
  -- `d.get(k)`
  unfoldable pub lookup : K → Dict K V → Option V
  lookup k [] = none
  lookup k ((j, v) ∷ d) = elim (dec j k) [ yes _ ↦ some v | no _ ↦ lookup k d ]

  -- `d[k] = v`
  unfoldable pub insert : K → V → Dict K V → Dict K V
  insert k v [] = (k, v) ∷ []
  insert k v ((j, w) ∷ d) = elim (dec j k) [ yes _ ↦ (j, v) ∷ d | no _ ↦ (j, w) ∷ insert k v d ]

  -- `d.pop(k, None)`
  unfoldable pub delete : K → Dict K V → Dict K V
  delete k [] = []
  delete k ((j, w) ∷ d) = elim (dec j k) [ yes _ ↦ delete k d | no _ ↦ (j, w) ∷ delete k d ]

  pub lookup-insert_self : (k : K) (v : V) (d : Dict K V) → lookup k (insert k v d) ≡ some v
  unfolding lookup insert
  lookup-insert_self k v [] = ground arith
  lookup-insert_self k v ((j, w) ∷ d) = ground (arith, lookup-insert_self k v d)

  pub lookup-insert_ne :
      (k j : K) (v : V) (d : Dict K V) → ¬ (k ≡ j) → lookup j (insert k v d) ≡ lookup j d
  unfolding lookup insert
  lookup-insert_ne k j v [] n = ground arith
  lookup-insert_ne k j v ((i, w) ∷ d) n = ground (arith, lookup-insert_ne k j v d n)

  pub lookup-delete_self : (k : K) (d : Dict K V) → lookup k (delete k d) ≡ none
  unfolding lookup delete
  lookup-delete_self k [] = refl
  lookup-delete_self k ((j, w) ∷ d) = ground (arith, lookup-delete_self k d)

  pub lookup-delete_ne : (k j : K) (d : Dict K V) → ¬ (k ≡ j) → lookup j (delete k d) ≡ lookup j d
  unfolding lookup delete
  lookup-delete_ne k j [] n = refl
  lookup-delete_ne k j ((i, w) ∷ d) n = ground (arith, lookup-delete_ne k j d n)

  pub mem-keys-insert :
      (j k : K) (v : V) (d : Dict K V) → Memᴰ j (keys (insert k v d)) ↔ ((j ≡ k) ⊎ Memᴰ j (keys d))
  unfolding insert
  mem-keys-insert j k v [] = Memᴰ-cons j k []
  mem-keys-insert j k v ((i, w) ∷ d) =
      ground (
        arith,
        Memᴰ-cons j i (keys d),
        Memᴰ-cons j i (keys (insert k v d)),
        mem-keys-insert j k v d,
      )

  pub lookup-mem : (k : K) (v : V) (d : Dict K V) → lookup k d ≡ some v → Memᴰ k (keys d)
  unfolding lookup
  lookup-mem k v [] h = cc
  lookup-mem k v ((j, w) ∷ d) h = elim (dec j k) [
    | yes p ↦ Memᴰ.head (sym p)
    | no p ↦ Memᴰ.tail (lookup-mem k v d (ground arith))
  ]

  pub mem-lookup : (k : K) (d : Dict K V) → Memᴰ k (keys d) → (v : V) × (lookup k d ≡ some v)
  unfolding lookup
  mem-lookup k [] m = absurd (Memᴰ.not-nil m)
  mem-lookup k ((j, w) ∷ d) m = elim (dec j k) [
    | yes p ↦ (w, ground arith)
    | no p ↦
        let (v, e) =
          mem-lookup k d (⊎_elim (λ q. absurd (p (sym q))) (λ t. t) (Memᴰ.cases_cons m)) in
        (v, ground arith)
  ]

  -- Each key once.
  abbrev pub HasKeysOnce : Dict K V → Type 0
  HasKeysOnce [] = Unit
  HasKeysOnce ((j, w) ∷ d) = ¬ Memᴰ j (keys d) × HasKeysOnce d

  pub insert-HasKeysOnce :
      (k : K) (v : V) (d : Dict K V) → HasKeysOnce d → HasKeysOnce (insert k v d)
  unfolding insert
  insert-HasKeysOnce k v [] h = (Memᴰ.not-nil, tt)
  insert-HasKeysOnce k v ((j, w) ∷ d) h =
      elim (dec j k)
        as (λ x. HasKeysOnce (elim x [ yes _ ↦ (j, v) ∷ d | no _ ↦ (j, w) ∷ insert k v d ])) [
          | yes p ↦ h
          | no p ↦ (λ m. ⊎_elim p h.0 ((mem-keys-insert j k v d).0 m), insert-HasKeysOnce k v d h.1)
        ]

  mem-key : (k : K) (v : V) (d : Dict K V) → Memᴰ (k, v) d → Memᴰ k (keys d)
  mem-key k v [] m = absurd (Memᴰ.not-nil m)
  mem-key k v ((j, w) ∷ d) m =
      ⊎_elim (λ e. Memᴰ.head (ap (λ (p : K × V). p.0) e)) (λ t. Memᴰ.tail (mem-key k v d t))
        (Memᴰ.cases_cons m)

  -- With each key once, the entries are what `get` finds.
  pub mem-entries :
      (k : K) (v : V) (d : Dict K V) → HasKeysOnce d → Memᴰ (k, v) d ↔ (lookup k d ≡ some v)
  unfolding lookup
  mem-entries k v [] h = (λ m. absurd (Memᴰ.not-nil m), λ q. cc q)
  mem-entries k v ((j, w) ∷ d) h = elim (dec j k) [
    | yes p ↦ (
      λ m.
          ⊎_elim (λ e. ground (arith, e))
            (λ t. absurd (h.0 (subst (λ i. Memᴰ i (keys d)) (sym p) (mem-key k v d t))))
            (Memᴰ.cases_cons m),
      λ q. Memᴰ.head (ground (arith, q)),
    )
    | no p ↦ (
      λ m.
          ⊎_elim (λ e. absurd (p (sym (ap (λ (x : K × V). x.0) e))))
            (λ t. ground (arith, (mem-entries k v d h.1).0 t)) (Memᴰ.cases_cons m),
      λ q. Memᴰ.tail ((mem-entries k v d h.1).1 (ground (arith, q))),
    )
  ]
