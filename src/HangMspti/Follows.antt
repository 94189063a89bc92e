-- ===== src/HangMspti/Follows.antt =====
-- The collection follows the control file.
use hang_analyzer.Prelude.{
  ℕ, suc, ◌+◌, ◌≡◌, refl, sym, subst, arith, Bool, true, false, ◌||◌, Option, List, [], ◌∷◌, ◌++◌,
  if◌then◌else◌, Text,
}
use hang_analyzer.MsptiCapture.{returned}
use hang_analyzer.HangMspti.{
  Call, start_call, set_enabled_call, flush_call, stop_call, Worker, Round, Outcome, goes_on,
  enabled_now, activate, set_collecting, act, worker_round, worker_rounds,
}
use hang_analyzer.HangMspti.Protocol.{is_sound}
use hang_analyzer.HangMspti.Rounds.{rounds_after, worker_rounds-cons}

-- The control file is read in each round, with these results, and the library's calls succeed.
pub data Reads (control_file : Option Text) : List Round → List Bool → Type 0 where
  no_round : Reads control_file [] []
  round_with :
      {rs : List Round} {es : List Bool} (r : Round) (enabled : Bool)
      → enabled_now control_file r.control ≡ returned enabled
      → r.start_result ≡ 0
      → r.set_result ≡ 0
      → Reads control_file rs es
      → Reads control_file (r ∷ rs) (enabled ∷ es)

abbrev pub is_flush : Call → Bool
is_flush flush_call = true
is_flush stop_call = false
is_flush (start_call r) = false
is_flush (set_enabled_call b r) = false

unfoldable pub flushes : List Call → ℕ
flushes [] = 0
flushes (c ∷ cs) = if is_flush c then suc (flushes cs) else flushes cs

-- How many rounds are enabled.
unfoldable pub enabled_count : List Bool → ℕ
enabled_count [] = 0
enabled_count (b ∷ bs) = if b then suc (enabled_count bs) else enabled_count bs

-- The last value, if there is one.
unfoldable pub last_or : Bool → List Bool → Bool
last_or b [] = b
last_or b (c ∷ bs) = last_or c bs

unfoldable pub any_or : Bool → List Bool → Bool
any_or b [] = b
any_or b (c ∷ bs) = any_or (b || c) bs

-- Whether the library flushes in each enabled round, and the worker ends as the file said last.
pub record HasFollowed (es : List Bool) (w : Worker) (p : List Call × Outcome) : Type 0 where
  pub flushed : flushes p.0 ≡ enabled_count es
  pub ends :
      p.1 ≡ goes_on (record { active = any_or w.active es; collecting = last_or w.collecting es })

flushes-append : (cs ds : List Call) → flushes (cs ++ ds) ≡ flushes cs + flushes ds
unfolding flushes
flushes-append [] ds = omega arith
flushes-append (c ∷ cs) ds = ground (arith, flushes-append cs ds)

worker_round-follows :
    (control_file : Option Text) (r : Round) (enabled : Bool) (w : Worker)
    → is_sound w ≡ true
    → enabled_now control_file r.control ≡ returned enabled
    → r.start_result ≡ 0
    → r.set_result ≡ 0
    → (flushes (worker_round control_file r w).0 ≡ (if enabled then 1 else 0))
      × ((worker_round control_file r w).1
          ≡ goes_on (record { active = w.active || enabled; collecting = enabled }))
unfolding worker_round act activate set_collecting is_sound flushes
worker_round-follows control_file r enabled w s q a b =
    rw (worker_round, q) (ground (arith, s, a, b), ground (arith, s, a, b))

still_sound_with :
    (e : Bool) (w : Worker) → is_sound (record { active = w.active || e; collecting = e }) ≡ true
unfolding is_sound
still_sound_with e w = ground arith

-- If the control file can be read in each round and the calls of the library succeed, then the worker
-- flushes in each round in which the file enables it and in no other, collects at the end exactly if the
-- last round is enabled, and has started the library exactly if it was started before or a round is
-- enabled.
pub worker_rounds-HasFollowed :
    (control_file : Option Text) (rs : List Round) (es : List Bool) (w : Worker)
    → is_sound w ≡ true
    → Reads control_file rs es
    → HasFollowed es w (worker_rounds control_file rs w)
unfolding worker_rounds flushes enabled_count last_or any_or rounds_after
worker_rounds-HasFollowed control_file [] [] w s no_round = record { flushed = refl; ends = refl }
worker_rounds-HasFollowed control_file (r ∷ rs) (e ∷ es) w s (round_with _ _ q a b reads) =
    let p = worker_round control_file r w in
    let w' : Worker = record { active = w.active || e; collecting = e } in
    let (n, o) = worker_round-follows control_file r e w s q a b in
    let rest = worker_rounds-HasFollowed control_file rs es w' (still_sound_with e w) reads in
    subst (HasFollowed (e ∷ es) w) (sym (worker_rounds-cons control_file r rs w)) (
      subst (λ out. HasFollowed (e ∷ es) w (rounds_after control_file rs (p.0, out))) (sym o)
        (record {
          flushed =
              ground
                (arith, flushes-append p.0 (worker_rounds control_file rs w').0, n, rest.flushed);
          ends = rest.ends;
        }))
worker_rounds-HasFollowed control_file [] (e ∷ es) w s x = elim x [ ]
worker_rounds-HasFollowed control_file (r ∷ rs) [] w s x = elim x [ ]
