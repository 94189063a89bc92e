-- ===== src/HangMspti/Rounds.antt =====
-- All rounds of `worker`, behind `start` and up to the stop.
use mathlib.Core.List.{append_assoc}
use hang_analyzer.Prelude.{
  ◌==◌, ◌≡◌, refl, sym, ap, subst, ◌∙◌, inl, inr, arith, Bool, true, false, Bool-cases, Option,
  none, some, List, [], ◌∷◌, ◌++◌, if◌then◌else◌, Text, codes,
}
use hang_analyzer.MsptiCapture.{Answer, returned, raised}
use hang_analyzer.HangMspti.{
  Call, Worker, Round, Outcome, goes_on, start_failed, set_failed, died, enabled_now, worker_round,
  worker_rounds, final_calls, worker, Bootstrap, Setup, launched, launch, launch_if,
  start_bootstrap,
}
use hang_analyzer.HangMspti.Protocol.{
  Native, off, stopped, refused, stuck, calling, after_calls, native_of, Leaves, going_on,
  not_started, not_switched, in_exception, IsInOrder, is_sound, still_sound, worker_round-IsInOrder,
  still_sound-worker_round, after_calls-append,
}

-- The rounds behind one with this outcome.
unfoldable pub rounds_after : Option Text → List Round → List Call × Outcome → List Call × Outcome
unfolding worker_rounds
rounds_after control_file rs (calls, goes_on w) =
    (calls ++ (worker_rounds control_file rs w).0, (worker_rounds control_file rs w).1)
rounds_after control_file rs (calls, start_failed m) = (calls, start_failed m)
rounds_after control_file rs (calls, set_failed m) = (calls, set_failed m)
rounds_after control_file rs (calls, died m) = (calls, died m)

pub worker_rounds-cons :
    (control_file : Option Text) (r : Round) (rs : List Round) (w : Worker)
    → worker_rounds control_file (r ∷ rs) w
      ≡ rounds_after control_file rs (worker_round control_file r w)
unfolding worker_rounds rounds_after
worker_rounds-cons control_file r rs w = go (worker_round control_file r w)
  where
    go :
        (p : List Call × Outcome)
        → (elim p.1 [
          | goes_on w' ↦ let rest = worker_rounds control_file rs w' in (p.0 ++ rest.0, rest.1)
          | start_failed m ↦ (p.0, start_failed m)
          | set_failed m ↦ (p.0, set_failed m)
          | died m ↦ (p.0, died m)
        ])
          ≡ rounds_after control_file rs p
    go (calls, goes_on w) = refl
    go (calls, start_failed m) = refl
    go (calls, set_failed m) = refl
    go (calls, died m) = refl

going_on-left :
    {o : Outcome} {n : Native} (w : Worker) → Leaves o n → o ≡ goes_on w → n ≡ native_of w
going_on-left w (going_on w') e = ap left_in e
  where
    left_in : Outcome → Native
    left_in (goes_on w) = native_of w
    left_in (start_failed m) = refused
    left_in (set_failed m) = refused
    left_in (died m) = refused
going_on-left w (not_started m) e = cc e
going_on-left w (not_switched m b) e = cc e
going_on-left w (in_exception m w') e = cc e

-- Calls in order, and more from where they lead to.
IsInOrder-append :
    {n : Native} (cs : List Call) {m : Native} {p : List Call × Outcome}
    → after_calls cs n ≡ some m
    → IsInOrder m p
    → IsInOrder n (cs ++ p.0, p.1)
IsInOrder-append {n} cs {m} {p} e i = record {
  left = i.left;
  calls = after_calls-append cs p.0 n m e ∙ i.calls;
  leaves = i.leaves;
}

worker_rounds-IsInOrder :
    (control_file : Option Text) (rs : List Round) (w : Worker)
    → is_sound w ≡ true
    → IsInOrder (native_of w) (worker_rounds control_file rs w)
unfolding worker_rounds after_calls is_sound still_sound rounds_after
worker_rounds-IsInOrder control_file [] w s = record {
  left = native_of w;
  calls = refl;
  leaves = going_on w;
}
worker_rounds-IsInOrder control_file (r ∷ rs) w s =
    subst (IsInOrder (native_of w)) (sym (worker_rounds-cons control_file r rs w)) (
      go (worker_round control_file r w) (worker_round-IsInOrder control_file r w s)
        (still_sound-worker_round control_file r w s) (worker_rounds-IsInOrder control_file rs))
  where
    go :
        (p : List Call × Outcome)
        → IsInOrder (native_of w) p
        → still_sound p.1 ≡ true
        → ((w' : Worker)
            → is_sound w' ≡ true
            → IsInOrder (native_of w') (worker_rounds control_file rs w'))
        → IsInOrder (native_of w) (rounds_after control_file rs p)
    go (calls, goes_on w') i s rest =
        IsInOrder-append calls (i.calls ∙ ap some (going_on-left w' i.leaves refl)) (rest w' s)
    go (calls, start_failed m) i s rest = i
    go (calls, set_failed m) i s rest = i
    go (calls, died m) i s rest = i

-- The library when `worker` has ended: stopped if it was started, unless the worker has given up.
pub data Ended : Outcome → Native → Type 0 where
  stopped_on : (w : Worker) → w.active ≡ true → Ended (goes_on w) stopped
  never_on : (w : Worker) → w.active ≡ false → Ended (goes_on w) off
  gave_up_start : (m : Text) → Ended (start_failed m) refused
  gave_up_switch : (m : Text) (collecting : Bool) → Ended (set_failed m) (stuck collecting)
  gave_up_reading : (m : Text) (w : Worker) → Ended (died m) (native_of w)

final_calls-Ended :
    (o : Outcome) (n : Native)
    → Leaves o n
    → (m : Native) × ((after_calls (final_calls o) n ≡ some m) × Ended o m)
unfolding after_calls calling
final_calls-Ended (goes_on _) n (going_on w) = elim (Bool-cases w.active) [
  | inl a ↦ (stopped, (rw a refl, stopped_on w a))
  | inr a ↦ (off, (rw a refl, never_on w a))
]
final_calls-Ended (start_failed _) n (not_started m) = (refused, (refl, gave_up_start m))
final_calls-Ended (set_failed _) n (not_switched m b) = (stuck b, (refl, gave_up_switch m b))
final_calls-Ended (died _) n (in_exception m w) = (native_of w, (refl, gave_up_reading m w))

-- What `start` does: it launches its thread with variables that agree with its calls, or raises.
data IsLaunch : (Answer Text × Bootstrap) × List Call → Type 0 where
  launching :
      (path : Text) (b : Bootstrap) (calls : List Call) (w : Worker)
      → b.thread ≡ some w
      → is_sound w ≡ true
      → after_calls calls off ≡ some (native_of w)
      → IsLaunch ((returned path, b), calls)
  raising : (m : Text) (b : Bootstrap) (calls : List Call) → IsLaunch ((raised m, b), calls)

launch-IsLaunch : (active : Bool) (s : Setup) (b : Bootstrap) → IsLaunch (launch active s b)
unfolding launch launched is_sound after_calls calling
launch-IsLaunch false s b = launching _ _ _ _ refl refl refl
launch-IsLaunch true s b = elim (Bool-cases (s.start_result == 0)) [
  | inl ok ↦ rw ok (launching _ _ _ _ refl refl (ground (arith, ok)))
  | inr failed ↦ rw failed (raising _ _ _)
]

launch_if-IsLaunch : (a : Answer Bool) (s : Setup) (b : Bootstrap) → IsLaunch (launch_if a s b)
launch_if-IsLaunch (returned active) s b = launch-IsLaunch active s b
launch_if-IsLaunch (raised m) s b = raising m b []

start_bootstrap-IsLaunch :
    (control_file : Option Text) (s : Setup) (b : Bootstrap)
    → IsLaunch (start_bootstrap control_file s b)
unfolding start_bootstrap
start_bootstrap-IsLaunch control_file s b = go b.loaded s.made s.opened
  where
    go :
        (loaded : Bool) (made opened : Answer Unit)
        → IsLaunch (
            if loaded
            then ((raised (codes "RuntimeError: already started"), b), [])
            else elim made [
              | raised m ↦ ((raised m, b), [])
              | returned _ ↦ (elim opened [
                | raised m ↦ ((raised m, b), [])
                | returned _ ↦
                    launch_if
                      (enabled_now control_file s.control)
                      s
                      (record b { loaded = true; owner_pid = some s.pid })
              ])
            ])
    go true made opened = raising _ b []
    go false (raised m) opened = raising m b []
    go false (returned _) (raised m) = raising m b []
    go false (returned _) (returned _) = launch_if-IsLaunch (enabled_now control_file s.control) s _

launched_with :
    {x : (Answer Text × Bootstrap) × List Call} {path : Text} {b : Bootstrap} {calls : List Call}
    {w : Worker}
    → IsLaunch x
    → x ≡ ((returned path, b), calls)
    → b.thread ≡ some w
    → (is_sound w ≡ true) × (after_calls calls off ≡ some (native_of w))
launched_with {w} (launching path b calls w' t s a) e q =
    let same : some w' ≡ some w = sym t ∙ ap (λ x. x.0.1.thread) e ∙ q in
    (ap sound_of (sym same) ∙ s, ap (λ x. after_calls x.1 off) (sym e) ∙ a ∙ ap state_of same)
  where
    sound_of : Option Worker → Bool
    sound_of o = elim o [ none ↦ true | some w ↦ is_sound w ]

    state_of : Option Worker → Option Native
    state_of o = elim o [ none ↦ none | some w ↦ some (native_of w) ]
launched_with (raising m b calls) e q = cc (ap (λ x. x.0.0) e)

-- `start` that returns, and then any number of rounds of its worker, make calls of the native library in
-- order: it is started at most once and before all else, switched only to the other state, flushed only
-- while it collects, and left alone after a failure; the variables of the worker agree with it. If then
-- a stop ends the worker, the library has been stopped exactly if it was started; a worker that has given
-- up, after a failed start or switch or an unreadable control file, makes no further call.
pub start_worker-IsInOrder :
    (control_file : Option Text) (s : Setup) (b : Bootstrap) {path : Text} {b' : Bootstrap}
    {calls : List Call} {w : Worker} (rs : List Round)
    → start_bootstrap control_file s b ≡ ((returned path, b'), calls)
    → b'.thread ≡ some w
    → IsInOrder off
        (calls ++ (worker_rounds control_file rs w).0, (worker_rounds control_file rs w).1)
      × ((n : Native) × ((after_calls (calls ++ (worker control_file rs w).0) off ≡ some n)
            × Ended (worker control_file rs w).1 n))
unfolding worker
start_worker-IsInOrder control_file s b {calls} {w} rs e q =
    let (sound, began) = launched_with (start_bootstrap-IsLaunch control_file s b) e q in
    let i = IsInOrder-append calls began (worker_rounds-IsInOrder control_file rs w sound) in
    let p = worker_rounds control_file rs w in
    let (n, (f, ended)) = final_calls-Ended p.1 i.left i.leaves in
    (
      i,
      (
        n,
        (
          ap (λ cs. after_calls cs off) (sym (append_assoc calls p.0 (final_calls p.1)))
              ∙ after_calls-append (calls ++ p.0) (final_calls p.1) off i.left i.calls
              ∙ f,
          ended,
        ),
      ),
    )
