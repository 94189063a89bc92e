-- ===== src/Analyzer/Progress/Split.antt =====
-- Where `last_index` cuts the checkpoints of a stream.
use mathlib.Core.List.{append_assoc}
use hang_analyzer.Prelude.{
  ℕ, suc, ◌+◌, ◌≡◌, refl, sym, ap, subst, ◌∙◌, Bool, true, false, ◌⊎◌, inl, inr, Option, none, some,
  List, [], ◌∷◌, ◌++◌, length, length-append, drop, get_elem?, passing, All, Bool-cases, arith,
}
use hang_analyzer.Format.{Event}
use hang_analyzer.Analyzer.Progress.{indices, maximum, end_of, item_at}

-- No item passes the test.
abbrev pub NonePass : (Event → Bool) → List Event → Type 0
NonePass p es = All (λ e. p e ≡ false) es

-- `last` is the index of the last item that passes the test, counted from `i`, if there is one.
abbrev pub LastPass : (Event → Bool) → ℕ → List Event → Option ℕ → Type 0
LastPass p i es last =
    ((last ≡ none) × NonePass p es)
    ⊎ ((done : List Event) × (e : Event) × (open_ : List Event) × (es ≡ done ++ e ∷ open_)
        × (last ≡ some (i + length done))
        × (p e ≡ true)
        × NonePass p open_)

maximum-indices :
    (p : Event → Bool) (i : ℕ) (es : List Event) → LastPass p i es (maximum (indices p i es))
unfolding maximum indices
maximum-indices p i [] = inl (refl, tt)
maximum-indices p i (x ∷ es) = elim (Bool-cases (p x)) [
  | inl h ↦ elim (maximum-indices p (i + 1) es) [
    | inl (m, n) ↦ inr ([], x, es, refl, rw (h, maximum) (rw m (ground arith)), h, n)
    | inr (done, e, open_, q, m, t, n) ↦
        inr (x ∷ done, e, open_, ap (◌∷◌ x) q, rw (h, maximum) (rw m (ground arith)), t, n)
  ]
  | inr h ↦ elim (maximum-indices p (i + 1) es) [
    | inl (m, n) ↦ inl (rw h m, (h, n))
    | inr (done, e, open_, q, m, t, n) ↦
        inr (x ∷ done, e, open_, ap (◌∷◌ x) q, rw h (rw m (ground arith)), t, n)
  ]
]

pub length-indices :
    (p : Event → Bool) (i : ℕ) (es : List Event) → length (indices p i es) ≡ length (passing p es)
unfolding indices passing
length-indices p i [] = refl
length-indices p i (x ∷ es) = elim (Bool-cases (p x)) [
  | inl h ↦ rw h (ap suc (length-indices p (i + 1) es))
  | inr h ↦ rw h (length-indices p (i + 1) es)
]

drop-append :
    (xs : List Event) (e : Event) (ys : List Event) → drop (suc (length xs)) (xs ++ e ∷ ys) ≡ ys
drop-append [] e ys = refl
drop-append (x ∷ xs) e ys = drop-append xs e ys

get_elem?-append :
    (xs : List Event) (e : Event) (ys : List Event) → get_elem? (xs ++ e ∷ ys) (length xs) ≡ some e
get_elem?-append [] e ys = refl
get_elem?-append (x ∷ xs) e ys = get_elem?-append xs e ys

-- The cut that the code makes at `last_index`.
pub record Cut (p : Event → Bool) (es : List Event) : Type 0 where
  pub through : List Event
  pub open_ : List Event
  pub parts : es ≡ through ++ open_
  pub ends : end_of (maximum (indices p 0 es)) ≡ length through
  pub after : drop (end_of (maximum (indices p 0 es))) es ≡ open_
  pub none_open : NonePass p open_
  -- Nothing stands before the cut and there is no last item, or the item before the cut passes.
  pub last :
      ((through ≡ []) × (item_at es (maximum (indices p 0 es)) ≡ none))
      ⊎ ((before : List Event) × (e : Event) × (through ≡ before ++ e ∷ [])
          × (p e ≡ true)
          × (item_at es (maximum (indices p 0 es)) ≡ some e))

pub cut : (p : Event → Bool) (es : List Event) → Cut p es
unfolding item_at
cut p es = elim (maximum-indices p 0 es) [
  | inl (m, n) ↦ record {
    through = [];
    open_ = es;
    parts = refl;
    ends = rw m;
    after = rw m;
    none_open = n;
    last = inl (refl, rw m);
  }
  | inr (done, e, open_, q, m, t, n) ↦
      let at : maximum (indices p 0 es) ≡ some (length done) = m ∙ ground arith in
      record {
        through = done ++ e ∷ [];
        open_ = open_;
        parts = q ∙ sym (append_assoc done (e ∷ []) open_);
        ends = rw at (omega (arith, length-append done (e ∷ [])));
        after =
            rw at
              (subst (λ l. drop (suc (length done)) l ≡ open_) (sym q) (drop-append done e open_));
        none_open = n;
        last = inr (
          done,
          e,
          refl,
          t,
          rw at (
              subst (λ l. get_elem? l (length done) ≡ some e) (sym q)
                (get_elem?-append done e open_)),
        );
      }
]
