-- ===== src/HangMspti/Once.antt =====
-- `start` and `stop` of the module in one process.
use hang_analyzer.Prelude.{
  ℕ, ◌==◌, ◌≡◌, ◌≢◌, refl, sym, ap, ◌∙◌, inl, inr, arith, Bool, true, false, Bool-cases, Option,
  some, List, [], if◌then◌else◌, Text, codes,
}
use hang_analyzer.MsptiCapture.{Answer, returned, raised}
use hang_analyzer.HangMspti.{
  Call, Bootstrap, Setup, enabled_now, launched, launch, launch_if, start_bootstrap, stop_bootstrap,
}

-- What a `start` leaves that returned: the library is loaded, its process owns it, and the thread runs.
data IsLoaded (pid : ℕ) : (Answer Text × Bootstrap) × List Call → Type 0 where
  loaded_in :
      (path : Text) (b : Bootstrap) (calls : List Call)
      → b.loaded ≡ true
      → b.owner_pid ≡ some pid
      → IsLoaded pid ((returned path, b), calls)
  raising : (m : Text) (b : Bootstrap) (calls : List Call) → IsLoaded pid ((raised m, b), calls)

launch-IsLoaded :
    (active : Bool) (s : Setup) (b : Bootstrap)
    → b.loaded ≡ true
    → b.owner_pid ≡ some s.pid
    → IsLoaded s.pid (launch active s b)
unfolding launch launched
launch-IsLoaded false s b l o = loaded_in _ _ _ l o
launch-IsLoaded true s b l o = elim (Bool-cases (s.start_result == 0)) [
  | inl ok ↦ rw ok (loaded_in _ _ _ l o)
  | inr failed ↦ rw failed (raising _ _ _)
]

start_bootstrap-IsLoaded :
    (control_file : Option Text) (s : Setup) (b : Bootstrap)
    → IsLoaded s.pid (start_bootstrap control_file s b)
unfolding start_bootstrap
start_bootstrap-IsLoaded control_file s b =
    go b.loaded s.made s.opened (enabled_now control_file s.control)
  where
    go :
        (loaded : Bool) (made opened : Answer Unit) (active : Answer Bool)
        → IsLoaded s.pid (
            if loaded
            then ((raised (codes "RuntimeError: already started"), b), [])
            else elim made [
              | raised m ↦ ((raised m, b), [])
              | returned _ ↦ (elim opened [
                | raised m ↦ ((raised m, b), [])
                | returned _ ↦
                    launch_if active s (record b { loaded = true; owner_pid = some s.pid })
              ])
            ])
    go true made opened active = raising _ b []
    go false (raised m) opened active = raising m b []
    go false (returned _) (raised m) active = raising m b []
    go false (returned _) (returned _) (returned a) = launch-IsLoaded a s _ refl refl
    go false (returned _) (returned _) (raised m) = raising m _ []

loaded_by :
    {pid : ℕ} {x : (Answer Text × Bootstrap) × List Call} {path : Text} {b : Bootstrap}
    {calls : List Call}
    → IsLoaded pid x
    → x ≡ ((returned path, b), calls)
    → (b.loaded ≡ true) × (b.owner_pid ≡ some pid)
loaded_by (loaded_in _ _ _ l o) e =
    (sym (ap (λ x. x.0.1.loaded) e) ∙ l, sym (ap (λ x. x.0.1.owner_pid) e) ∙ o)
loaded_by (raising m b calls) e = cc (ap (λ x. x.0.0) e)

-- After a `start` that returned, a second one raises, changes nothing and calls nothing, whatever it
-- finds; `stop` asks the worker to stop in the same process, and does nothing in another one.
pub start_bootstrap-once :
    (control_file control_file' : Option Text) (s s' : Setup) (b : Bootstrap) {path : Text}
    {b' : Bootstrap} {calls : List Call} (pid : ℕ)
    → start_bootstrap control_file s b ≡ ((returned path, b'), calls)
    → (start_bootstrap control_file' s' b'
        ≡ ((raised (codes "RuntimeError: already started"), b'), []))
      × (((stop_bootstrap s.pid b').stopping ≡ true) × (pid ≢ s.pid → stop_bootstrap pid b' ≡ b'))
unfolding stop_bootstrap start_bootstrap
start_bootstrap-once control_file control_file' s s' b pid e =
    let (l, o) = loaded_by (start_bootstrap-IsLoaded control_file s b) e in
    (rw l refl, (ground (arith, o), λ n. ground (arith, o, n)))
