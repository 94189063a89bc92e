-- ===== src/HangMspti/Protocol.antt =====
-- The order of the calls that `start` and `worker` make of the native library.
use hang_analyzer.Prelude.{
  ℕ, ◌==◌, ◌≡◌, refl, sym, ap, subst, ◌∙◌, inl, inr, arith, Bool, true, false, not, ◌||◌,
  Bool-cases, Option-cases, Option, none, some, List, [], ◌∷◌, ◌++◌, if◌then◌else◌, Text,
}
use hang_analyzer.MsptiCapture.{Answer, returned, raised}
use hang_analyzer.HangMspti.{
  Call, start_call, set_enabled_call, flush_call, stop_call, Worker, Round, Outcome, goes_on,
  start_failed, set_failed, died, start_error, switch_error, enabled_now, activate, set_collecting,
  differs, act, worker_round,
}

-- What the library has been told: not started, started with its collection on or off, stopped, its
-- start failed, or switching it failed.
pub data Native : Type 0 where
  off stopped refused : Native
  on stuck : (collecting : Bool) → Native

-- The calls that are in order, and the state that they lead to: no start but the first; a switch only of
-- a started library and only to the other state; a flush only while it collects; a stop only after
-- a start; and nothing after a failure or the stop.
unfoldable pub calling : Native → Call → Option Native
calling off (start_call result) = some (if result == 0 then on true else refused)
calling (on collecting) (set_enabled_call enabled result) =
    if differs enabled collecting
    then some (if result == 0 then on enabled else stuck collecting)
    else none
calling (on true) flush_call = some (on true)
calling (on collecting) stop_call = some stopped
calling _ _ = none

-- The state after some calls, if they are in order.
unfoldable pub after_calls : List Call → Native → Option Native
unfolding calling
after_calls [] n = some n
after_calls (c ∷ cs) n = elim (calling n c) [ none ↦ none | some n' ↦ after_calls cs n' ]

-- What the worker's variables say of the library.
abbrev pub native_of : Worker → Native
native_of w = if w.active then on w.collecting else off

-- The state in which an outcome leaves the library.
pub data Leaves : Outcome → Native → Type 0 where
  going_on : (w : Worker) → Leaves (goes_on w) (native_of w)
  not_started : (m : Text) → Leaves (start_failed m) refused
  not_switched : (m : Text) (collecting : Bool) → Leaves (set_failed m) (stuck collecting)
  in_exception : (m : Text) (w : Worker) → Leaves (died m) (native_of w)

-- The calls are in order from there, and leave the library as the outcome says.
pub record IsInOrder (n : Native) (p : List Call × Outcome) : Type 0 where
  pub left : Native
  pub calls : after_calls p.0 n ≡ some left
  pub leaves : Leaves p.1 left

-- Nothing is collected before the start.
unfoldable pub is_sound : Worker → Bool
is_sound w = w.active || not w.collecting

activate-IsInOrder : (result : ℕ) → IsInOrder off (activate result)
unfolding activate after_calls calling
activate-IsInOrder result = elim (Bool-cases (result == 0)) [
  | inl ok ↦ rw ok (record {
    left = on true;
    calls = ground (arith, ok);
    leaves = going_on (record { active = true; collecting = true });
  })
  | inr failed ↦ rw failed (record {
    left = refused;
    calls = ground (arith, failed);
    leaves = not_started (start_error result);
  })
]

set_collecting-IsInOrder :
    (enabled : Bool) (result : ℕ)
    → IsInOrder
        (on (not enabled))
        (set_collecting enabled result (record { active = true; collecting = not enabled }))
unfolding set_collecting after_calls calling
set_collecting-IsInOrder true result = elim (Bool-cases (result == 0)) [
  | inl ok ↦ rw ok (record {
    left = on true;
    calls = ground (arith, ok);
    leaves = going_on (record { active = true; collecting = true });
  })
  | inr failed ↦ rw failed (record {
    left = stuck false;
    calls = ground (arith, failed);
    leaves = not_switched (switch_error result) false;
  })
]
set_collecting-IsInOrder false result = elim (Bool-cases (result == 0)) [
  | inl ok ↦ rw ok (record {
    left = on false;
    calls = ground (arith, ok);
    leaves = going_on (record { active = true; collecting = false });
  })
  | inr failed ↦ rw failed (record {
    left = stuck true;
    calls = ground (arith, failed);
    leaves = not_switched (switch_error result) true;
  })
]

act-IsInOrder :
    (enabled active collecting : Bool) (r : Round)
    → is_sound (record { active = active; collecting = collecting }) ≡ true
    → IsInOrder
        (native_of (record { active = active; collecting = collecting }))
        (act enabled r (record { active = active; collecting = collecting }))
unfolding act after_calls calling is_sound
act-IsInOrder true false false r s = activate-IsInOrder r.start_result
act-IsInOrder true true false r s = set_collecting-IsInOrder true r.set_result
act-IsInOrder false true true r s = set_collecting-IsInOrder false r.set_result
act-IsInOrder true true true r s = record { left = on true; calls = refl; leaves = going_on _ }
act-IsInOrder false true false r s = record { left = on false; calls = refl; leaves = going_on _ }
act-IsInOrder false false false r s = record { left = off; calls = refl; leaves = going_on _ }
act-IsInOrder true false true r s = cc s
act-IsInOrder false false true r s = cc s

pub worker_round-IsInOrder :
    (control_file : Option Text) (r : Round) (w : Worker)
    → is_sound w ≡ true
    → IsInOrder (native_of w) (worker_round control_file r w)
unfolding worker_round after_calls
worker_round-IsInOrder control_file r w s = go (enabled_now control_file r.control)
  where
    go :
        (a : Answer Bool)
        → IsInOrder
            (native_of w)
            (elim a [ raised m ↦ ([], died m) | returned enabled ↦ act enabled r w ])
    go (returned enabled) = act-IsInOrder enabled w.active w.collecting r s
    go (raised m) = record { left = native_of w; calls = refl; leaves = in_exception m w }

-- The outcome keeps that nothing is collected before the start.
unfoldable pub still_sound : Outcome → Bool
unfolding is_sound
still_sound (goes_on w) = is_sound w
still_sound (start_failed m) = true
still_sound (set_failed m) = true
still_sound (died m) = true

pub still_sound-worker_round :
    (control_file : Option Text) (r : Round) (w : Worker)
    → is_sound w ≡ true
    → still_sound (worker_round control_file r w).1 ≡ true
unfolding worker_round act activate set_collecting is_sound still_sound
still_sound-worker_round control_file r w s = ground (arith, s)

pub after_calls-append :
    (cs ds : List Call) (n m : Native)
    → after_calls cs n ≡ some m
    → after_calls (cs ++ ds) n ≡ after_calls ds m
unfolding after_calls
after_calls-append [] ds n m e = cc e
after_calls-append (c ∷ cs) ds n m e = elim (Option-cases (calling n c)) [
  | inl q ↦ cc (subst (λ o. after_option cs o ≡ some m) q e)
  | inr (n', q) ↦
      ap (after_option (cs ++ ds)) q
      ∙ after_calls-append cs ds n' m (sym (ap (after_option cs) q) ∙ e)
]
  where
    after_option : List Call → Option Native → Option Native
    after_option ds o = elim o [ none ↦ none | some n ↦ after_calls ds n ]
