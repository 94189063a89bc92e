-- ===== src/FourCard/Groups.antt =====
-- Which ranks enter which collective, by the keys alone.
use hang_analyzer.Prelude.{
  ℕ, ◌≡◌, refl, ap, ◌∙◌, true, false, Bool-cases, inl, inr, List, [], ◌∷◌, map, passing, arith,
  Dict, keys, lookup, insert, ℕ_discrete,
}
use hang_analyzer.Format.{Event}
use hang_analyzer.Analyzer.Scan.{
  PairKey, PairKey-discrete, Shared, group_of, enter_group, scan_shared, scan_events_shared,
}
use hang_analyzer.FourCard.Hang.{group_key, begins}

-- The keys of a dict once one has been stored.
unfoldable pub add_key : ℕ → List ℕ → List ℕ
add_key r [] = r ∷ []
add_key r (j ∷ js) = elim (ℕ_discrete j r) [ yes _ ↦ j ∷ js | no _ ↦ j ∷ add_key r js ]

pub keys-insert :
    {V : Type 0} (r : ℕ) (v : V) (d : Dict ℕ V)
    → keys (insert ℕ_discrete r v d) ≡ add_key r (keys d)
unfolding insert add_key
keys-insert r v [] = refl
keys-insert r v ((j, w) ∷ d) = ground (arith, keys-insert r v d)

-- The ranks of each group.
abbrev pub entered_by : Dict PairKey (Dict ℕ Event) → Dict PairKey (List ℕ)
entered_by groups = map (λ g. (g.0, keys g.1)) groups

unfoldable pub enter_key : ℕ → PairKey → Dict PairKey (List ℕ) → Dict PairKey (List ℕ)
unfolding add_key
enter_key r key [] = (key, r ∷ []) ∷ []
enter_key r key ((k, rs) ∷ d) = elim (PairKey-discrete k key) [
  | yes _ ↦ (k, add_key r rs) ∷ d
  | no _ ↦ (k, rs) ∷ enter_key r key d
]

entered_by-enter_group :
    (r : ℕ) (e : Event) (groups : Dict PairKey (Dict ℕ Event))
    → entered_by (enter_group r e groups) ≡ enter_key r (group_key e) (entered_by groups)
unfolding enter_group enter_key insert group_of lookup
entered_by-enter_group r e [] = refl
entered_by-enter_group r e ((k, g) ∷ groups) =
    ground (arith, keys-insert r e g, entered_by-enter_group r e groups)

unfoldable pub enter_keys : ℕ → List PairKey → Dict PairKey (List ℕ) → Dict PairKey (List ℕ)
unfolding enter_key
enter_keys r [] d = d
enter_keys r (k ∷ ks) d = enter_keys r ks (enter_key r k d)

module _ (r : ℕ) (e : Event) (s : Shared) where
  scan_shared-begins :
      begins e ≡ true
      → entered_by (scan_shared r e s).groups ≡ enter_key r (group_key e) (entered_by s.groups)
  unfolding scan_shared
  scan_shared-begins h = rw h (entered_by-enter_group r e s.groups)

  scan_shared-else : begins e ≡ false → entered_by (scan_shared r e s).groups ≡ entered_by s.groups
  unfolding scan_shared
  scan_shared-else h = rw h refl

-- The groups after the scan of a rank, by the keys of the events that begin a collective.
pub entered_by-scan :
    (r : ℕ) (es : List Event) (s : Shared)
    → entered_by (scan_events_shared r es s).groups
      ≡ enter_keys r (map group_key (passing begins es)) (entered_by s.groups)
unfolding scan_events_shared enter_keys passing
entered_by-scan r [] s = refl
entered_by-scan r (e ∷ es) s = elim (Bool-cases (begins e)) [
  | inl h ↦ rw h (
      entered_by-scan r es (scan_shared r e s)
      ∙ ap (enter_keys r (map group_key (passing begins es))) (scan_shared-begins r e s h))
  | inr h ↦ rw h (
      entered_by-scan r es (scan_shared r e s)
      ∙ ap (enter_keys r (map group_key (passing begins es))) (scan_shared-else r e s h))
]
