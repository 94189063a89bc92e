-- ===== src/MsptiRing/Calls/Balanced.antt =====
-- Calls that are left in the reverse order of their entries leave no trace.
use hang_analyzer.Prelude.{
  ◌≡◌, ◌≢◌, refl, ap, ◌∙◌, true, false, ◌⊎◌, inl, inr, List, [], ◌∷◌, ◌++◌, Bool-cases, Dict,
  insert, lookup-insert_self, lookup-insert_ne,
}
use hang_analyzer.MsptiRing.{RingEvent}
use hang_analyzer.MsptiRing.Calls.{
  CallKey, CallKey-discrete, call_key, enters_call, leaves_call, stack_of, pop, track_call,
  track_calls,
}

abbrev Calls : Type 0
Calls = Dict CallKey (List RingEvent)

-- The event enters a call with this key.
abbrev pub Enters : CallKey → RingEvent → Type 0
Enters k e = (enters_call e ≡ true) × (call_key e ≡ k)

-- The event leaves a call with this key.
abbrev pub Leaves : CallKey → RingEvent → Type 0
Leaves k e = (enters_call e ≡ false) × (leaves_call e ≡ true) × (call_key e ≡ k)

-- Every entry with the key is left again, and nothing else is left with that key.
pub data IsBalanced (k : CallKey) : List RingEvent → Type 0 where
  empty : IsBalanced k []
  other :
      (e : RingEvent) (es : List RingEvent)
      → (call_key e ≢ k) ⊎ ((enters_call e ≡ false) × (leaves_call e ≡ false))
      → IsBalanced k es
      → IsBalanced k (e ∷ es)
  call :
      (b : RingEvent) (body : List RingEvent) (e : RingEvent) (es : List RingEvent)
      → Enters k b
      → IsBalanced k body
      → Leaves k e
      → IsBalanced k es
      → IsBalanced k (b ∷ body ++ e ∷ es)

stack_of-insert_self :
    (k : CallKey) (l : List RingEvent) (d : Calls) → stack_of k (insert CallKey-discrete k l d) ≡ l
unfolding stack_of
stack_of-insert_self k l d = rw (lookup-insert_self CallKey-discrete k l d, stack_of) refl

stack_of-insert_ne :
    (j k : CallKey) (l : List RingEvent) (d : Calls)
    → j ≢ k
    → stack_of k (insert CallKey-discrete j l d) ≡ stack_of k d
unfolding stack_of
stack_of-insert_ne j k l d n = rw (lookup-insert_ne CallKey-discrete j k l d n, stack_of) refl

track_calls-append :
    (xs ys : List RingEvent) (d : Calls)
    → track_calls (xs ++ ys) d ≡ track_calls ys (track_calls xs d)
unfolding track_calls
track_calls-append [] ys d = refl
track_calls-append (x ∷ xs) ys d = track_calls-append xs ys (track_call x d)

track_call-Enters :
    (k : CallKey) (e : RingEvent) (d : Calls)
    → Enters k e
    → stack_of k (track_call e d) ≡ e ∷ stack_of k d
unfolding track_call
track_call-Enters k e d (t, q) = rw (t, q) (stack_of-insert_self k (e ∷ stack_of k d) d)

track_call-Leaves :
    (k : CallKey) (e : RingEvent) (d : Calls)
    → Leaves k e
    → stack_of k (track_call e d) ≡ pop (stack_of k d)
unfolding track_call
track_call-Leaves k e d (n, t, q) = rw (n, t, q) (stack_of-insert_self k (pop (stack_of k d)) d)

track_call-other :
    (k : CallKey) (e : RingEvent) (d : Calls)
    → (call_key e ≢ k) ⊎ ((enters_call e ≡ false) × (leaves_call e ≡ false))
    → stack_of k (track_call e d) ≡ stack_of k d
unfolding track_call
track_call-other k e d (inr (n, t)) = rw (n, t) refl
track_call-other k e d (inl n) = elim (Bool-cases (enters_call e)) [
  | inl t ↦ rw t (stack_of-insert_ne (call_key e) k (e ∷ stack_of (call_key e) d) d n)
  | inr t ↦ rw t (elim (Bool-cases (leaves_call e)) [
    | inl l ↦ rw l (stack_of-insert_ne (call_key e) k (pop (stack_of (call_key e) d)) d n)
    | inr l ↦ rw l refl
  ])
]

track_calls-balanced :
    (k : CallKey) (es : List RingEvent) (d : Calls)
    → IsBalanced k es
    → stack_of k (track_calls es d) ≡ stack_of k d
unfolding track_calls
track_calls-balanced k _ d empty = refl
track_calls-balanced k _ d (other e es o h) =
    track_calls-balanced k es (track_call e d) h ∙ track_call-other k e d o
track_calls-balanced k _ d (call b body e es i h l hs) =
    let inside = track_calls body (track_call b d) in
    ap (stack_of k) (track_calls-append body (e ∷ es) (track_call b d))
    ∙ track_calls-balanced k es (track_call e inside) hs
    ∙ track_call-Leaves k e inside l
    ∙ ap pop (track_calls-balanced k body (track_call b d) h ∙ track_call-Enters k b d i)

-- If a call is entered, and all calls with its key that are entered behind it are left again, it is
-- the innermost open call with its key; and the next exit with the key leaves it, which restores the
-- open calls with the key from before its entry.
pub track_calls-open :
    (k : CallKey) (before : List RingEvent) (b : RingEvent) (behind : List RingEvent)
    → Enters k b
    → IsBalanced k behind
    → (stack_of k (track_calls (before ++ b ∷ behind) []) ≡ b ∷ stack_of k (track_calls before []))
      × ((e : RingEvent)
          → Leaves k e
          → stack_of k (track_call e (track_calls (before ++ b ∷ behind) []))
            ≡ stack_of k (track_calls before []))
unfolding track_calls
track_calls-open k before b behind i h =
    let d = track_calls before [] in
    let entered : stack_of k (track_calls (before ++ b ∷ behind) []) ≡ b ∷ stack_of k d =
      ap (stack_of k) (track_calls-append before (b ∷ behind) [])
      ∙ track_calls-balanced k behind (track_call b d) h
      ∙ track_call-Enters k b d i in
    (
      entered,
      λ e l. track_call-Leaves k e (track_calls (before ++ b ∷ behind) []) l ∙ ap pop entered,
    )
