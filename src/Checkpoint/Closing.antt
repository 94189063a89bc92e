-- ===== src/Checkpoint/Closing.antt =====
-- The life of the handle.
use hang_analyzer.Prelude.{
  ℕ, ◌==◌, ◌≡◌, ◌≢◌, refl, inl, inr, ◌↔◌, none, some, Bool-cases, Option-cases,
}
use hang_analyzer.Checkpoint.{
  Adapter, CallResult, returns, Manager, busy, stop_poller, closed_with, close_manager,
}

module _ {W : Type 0} (lib : Adapter W) where
  -- How a close has ended.
  pub record Closes (m : Manager) (r : CallResult Unit × Manager × W) : Type 0 where
    pub returned : (r.0 ≡ returns tt) ↔ (r.1.handle ≡ none)
    pub failed : r.0 ≢ returns tt → r.1 ≡ m
    pub again : r.0 ≡ returns tt → (w : W) → close_manager lib r.1 w ≡ (returns tt, r.1, w)

  closed_with-Closes :
      (m : Manager) (h rc : ℕ) (w : W) → m.handle ≡ some h → Closes m (closed_with lib m rc w)
  unfolding closed_with close_manager
  closed_with-Closes m h rc w e = elim (Bool-cases (rc == busy)) [
    | inl b ↦ rw b (record { returned = (λ q. cc, λ q. cc); failed = λ _. refl; again = λ q w. cc })
    | inr b ↦ rw b (elim (Bool-cases (rc == 0)) [
      | inl z ↦ rw z (record {
        returned = (λ _. refl, λ _. refl);
        failed = λ n. absurd (n refl);
        again = λ _ w. refl;
      })
      | inr z ↦
          rw z (record { returned = (λ q. cc, λ q. cc); failed = λ _. refl; again = λ q w. cc })
    ])
  ]

  -- `close` returns exactly if the manager then has no handle, and closing again then does not touch
  -- the library; if it raises, the manager is as before, so that it can be closed later.
  pub close_manager-Closes : (m : Manager) (w : W) → Closes m (close_manager lib m w)
  unfolding close_manager
  close_manager-Closes m w = elim (Option-cases m.handle) [
    | inl e ↦ rw e (record {
      returned = (λ _. refl, λ _. refl);
      failed = λ n. absurd (n refl);
      again = λ _ w. refl;
    })
    | inr (h, e) ↦
        let held : Manager = record { handle = some h } in
        let (rc, w') = lib.destroy (some h) (stop_poller lib held w) in
        rw e (closed_with-Closes held h rc w' refl)
  ]
