-- ===== src/FourCard/Chosen.antt =====
-- The files that `analyze` keeps from the watchdog's snapshots, each of which has one file for each
-- device, in the order of their paths.
use hang_analyzer.Prelude.{
  ℕ, ◌≡◌, refl, sym, ap, subst, ◌∙◌, false, Bool-cases, inl, inr, some, Option-cases, List, [], ◌∷◌,
  ◌++◌, map, All, arith, Dict, keys, lookup, insert, ℕ_discrete,
}
use hang_analyzer.Prelude.Result.{ok, ◌>>=◌}
use hang_analyzer.Format.{Header, Event}
use hang_analyzer.Analyzer.Select.{
  Read, RankData, Selection, replaces, select_path, select_paths, select,
}
use hang_analyzer.FourCard.{devices}
use hang_analyzer.FourCard.Groups.{add_key, keys-insert}

abbrev pub Content : Type 0
Content = Header × List Event

abbrev pub entry : Content → RankData
entry c = record { header = c.0; events = c.1 }

-- The contents of a snapshot's files, by the device.
abbrev pub Snapshot : Type 0
Snapshot = ℕ → Content

abbrev pub contents_of : List Snapshot → List Content
contents_of [] = []
contents_of (f ∷ fs) = map f devices ++ contents_of fs

-- `sorted((output / "dumps").rglob("*.flight"))`, read.
abbrev pub reads_of : List Snapshot → List Read
reads_of fs = map (λ c. ok c) (contents_of fs)

add_key-present :
    {V : Type 0} (r : ℕ) (d : Dict ℕ V) {v : V}
    → lookup ℕ_discrete r d ≡ some v
    → add_key r (keys d) ≡ keys d
unfolding lookup add_key
add_key-present r [] h = cc
add_key-present {V} r ((j, w) ∷ d) {v} h =
    ground (arith, λ (q : lookup ℕ_discrete r d ≡ some v). add_key-present r d q)

add_keys : List ℕ → List ℕ → List ℕ
add_keys [] ks = ks
add_keys (r ∷ rs) ks = add_keys rs (add_key r ks)

abbrev ranks_of : List Content → List ℕ
ranks_of = map (λ c. c.0.rank)

module _ (P : ℕ → List Event → Type 0) where
  abbrev pub Holds : Dict ℕ RankData → Type 0
  Holds d = All (λ e. P e.0 e.1.events) d

  insert-Holds :
      (r : ℕ) (x : RankData) (d : Dict ℕ RankData)
      → P r x.events
      → Holds d
      → Holds (insert ℕ_discrete r x d)
  unfolding insert
  insert-Holds r x [] p h = (p, tt)
  insert-Holds r x ((j, w) ∷ d) p h =
      elim (ℕ_discrete j r)
        as (λ b. Holds (elim b [ yes _ ↦ (j, x) ∷ d | no _ ↦ (j, w) ∷ insert ℕ_discrete r x d ])) [
          | yes q ↦ (subst (λ k. P k x.events) (sym q) p, h.1)
          | no q ↦ (h.0, insert-Holds r x d p h.1)
        ]

  -- What a step of the selection keeps.
  abbrev Keeps : List ℕ → Selection → Selection → Type 0
  Keeps rs s u = (keys u.ranks ≡ add_keys rs (keys s.ranks)) × Holds u.ranks

  module _ (h : Header) (ev : List Event) (s : Selection) where
    -- A rank whose file is not replaced has one.
    kept-keys :
        replaces h (lookup ℕ_discrete h.rank s.ranks) ≡ false
        → keys s.ranks ≡ add_key h.rank (keys s.ranks)
    unfolding replaces
    kept-keys old = elim (Option-cases (lookup ℕ_discrete h.rank s.ranks)) [
      | inl q ↦ cc (ap (replaces h) (sym q) ∙ old)
      | inr (d, q) ↦ sym (add_key-present h.rank s.ranks q)
    ]

    select_path-Keeps :
        P h.rank ev
        → Holds s.ranks
        → (u : Selection) × (select_path (ok (h, ev)) s ≡ ok u) × Keeps (h.rank ∷ []) s u
    unfolding select_path add_keys
    select_path-Keeps p held = elim (Bool-cases (replaces h (lookup ℕ_discrete h.rank s.ranks))) [
      | inl new ↦
          let x = entry (h, ev) in
          (
            record s { ranks = insert ℕ_discrete h.rank x s.ranks },
            rw new refl,
            (keys-insert h.rank x s.ranks, insert-Holds h.rank x s.ranks p held),
          )
      | inr old ↦ (s, rw old refl, (kept-keys old, held))
    ]

  select_paths-Keeps :
      (cs : List Content) (s : Selection)
      → All (λ c. P c.0.rank c.1) cs
      → Holds s.ranks
      → (u : Selection) × (select_paths (map (λ c. ok c) cs) s ≡ ok u) × Keeps (ranks_of cs) s u
  unfolding select_paths add_keys
  select_paths-Keeps [] s p held = (s, refl, (refl, held))
  select_paths-Keeps ((h, ev) ∷ cs) s p held =
      let (u, run, step) = select_path-Keeps h ev s p.0 held in
      let (u', run', steps) = select_paths-Keeps cs u p.1 step.1 in
      (
        u',
        ap (λ m. m >>= select_paths (map (λ c. ok c) cs)) run ∙ run',
        (steps.0 ∙ ap (add_keys (ranks_of cs)) step.0, steps.1),
      )

  -- Each device has a file in the snapshot, with `P`.
  abbrev pub IsComplete : Snapshot → Type 0
  IsComplete f = All (λ r. ((f r).0.rank ≡ r) × P r (f r).1) devices

  contents-Holds :
      (fs : List Snapshot) → All IsComplete fs → All (λ c. P c.0.rank c.1) (contents_of fs)
  contents-Holds [] h = tt
  contents-Holds (f ∷ fs) h =
      let own =
        λ (r : ℕ) (q : ((f r).0.rank ≡ r) × P r (f r).1). subst (λ k. P k (f r).1) (sym q.0) q.1 in
      let (a, (b, (c, (d, _)))) = h.0 in
      (own 4 a, (own 5 b, (own 6 c, (own 7 d, contents-Holds fs h.1))))

  module _ (f : Snapshot) (fs : List Snapshot) (complete : IsComplete f) where
    add_keys-snapshot :
        (ks : List ℕ)
        → add_keys (ranks_of (contents_of (f ∷ fs))) ks
          ≡ add_keys (ranks_of (contents_of fs)) (add_keys devices ks)
    unfolding add_keys
    add_keys-snapshot ks = let (a, (b, (c, (d, _)))) = complete in rw (a.0, b.0, c.0, d.0) refl

  add_keys-snapshots :
      (fs : List Snapshot)
      → All IsComplete fs
      → add_keys (ranks_of (contents_of fs)) devices ≡ devices
  unfolding add_keys add_key ℕ_discrete
  add_keys-snapshots [] h = refl
  add_keys-snapshots (f ∷ fs) h = add_keys-snapshot f fs h.0 devices ∙ add_keys-snapshots fs h.1

  -- From complete snapshots, one file is kept for each device, in their order.
  pub select-devices :
      (f : Snapshot) (fs : List Snapshot)
      → All IsComplete (f ∷ fs)
      → (u : Selection) × (select (reads_of (f ∷ fs)) ≡ ok u)
        × (keys u.ranks ≡ devices)
        × Holds u.ranks
  unfolding select add_keys add_key ℕ_discrete
  select-devices f fs h =
      let (u, run, kept) =
        select_paths-Keeps (contents_of (f ∷ fs)) (record { ranks = []; errors = [] })
          (contents-Holds (f ∷ fs) h) tt in
      (u, run, kept.0 ∙ (add_keys-snapshot f fs h.0 [] ∙ add_keys-snapshots fs h.1), kept.1)
