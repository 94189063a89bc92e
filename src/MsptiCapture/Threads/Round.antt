-- ===== src/MsptiCapture/Threads/Round.antt =====
-- What one round of `_flush_loop` does, told from the control file and the replies of the library.
use hang_analyzer.Prelude.{
  ℕ, ◌+◌, ◌≤◌, ◌≡◌, Bool, true, false, not, ◌&&◌, Option, none, some, List, [], ◌∷◌, ◌++◌, length,
  if◌then◌else◌, Text, codes, text_eq, strip,
}
use hang_analyzer.MsptiCapture.{Answer, returned, Item, state_item, tick_item, MsptiCapture}
use hang_analyzer.MsptiCapture.Monitors.{
  FileRead, contents, not_found, os_failure, other_error, Replies, monitored, flush_round,
}
use hang_analyzer.MsptiCapture.Threads.InStep.{returns, succeeds}

-- What the control file asks for; `none` if reading it raises what is not caught.
unfoldable pub wanted : Option Text → FileRead → Option Bool
wanted none read = some true
wanted (some path) (contents text) = some (text_eq (strip text) (codes "1"))
wanted (some path) not_found = some false
wanted (some path) (os_failure m) = some false
wanted (some path) (other_error m) = none

-- Whether the library's monitors can be brought from one state to the other.
unfoldable pub switches : (active enabled : Bool) → Replies → Bool
switches false true r = succeeds r.kernel_start && succeeds r.comm_start
switches true false r = returns r.kernel_stop && returns r.comm_stop
switches true true r = true
switches false false r = true

-- The state behind a round.
abbrev pub active_after : (active enabled : Bool) → Replies → Bool
active_after active enabled r = if switches active enabled r then enabled else active

-- Whether the round counts an error: what it needs of the library fails.
abbrev pub has_error : (active enabled : Bool) → Replies → Bool
has_error active enabled r =
    not (switches active enabled r && (if enabled then succeeds r.flush_all else true))

-- The control items that the round offers to the queue: the new state if it has changed, and a tick unless
-- the library raised or could not be switched.
unfoldable pub state_offers : (active enabled : Bool) → Replies → ℕ → List Item
unfolding switches
state_offers false true r s = if switches false true r then state_item s true ∷ [] else []
state_offers true false r s = if switches true false r then state_item s false ∷ [] else []
state_offers true true r s = []
state_offers false false r s = []

unfoldable pub tick_offers : (active enabled : Bool) → Replies → (t dropped : ℕ) → List Item
unfolding switches
tick_offers active true r t dropped =
    if switches active true r && returns r.flush_all
    then tick_item t true (some (succeeds r.flush_all)) dropped ∷ []
    else []
tick_offers active false r t dropped =
    if switches active false r then tick_item t false none dropped ∷ [] else []

-- What a round offers, behind the control file, in each of the four cases.
module _ (r : Replies) (s t : ℕ) (c : MsptiCapture) where
  abbrev round : Bool → MsptiCapture
  round enabled = monitored r s t (returned enabled, c)

  Offers : (active enabled : Bool) → Type 0
  Offers active enabled =
      ((round enabled).items
        ≡ c.items ++ (state_offers active enabled r s ++ tick_offers active enabled r t c.dropped))
      × ((round enabled).dropped ≡ c.dropped)

  abbrev HasRoom : Type 0
  HasRoom = length c.items + 2 ≤ c.queue_size

  Counts : (active enabled : Bool) → Type 0
  Counts active enabled =
      ((round enabled).monitor_active ≡ active_after active enabled r)
      × ((round enabled).flush_errors
          ≡ (if has_error active enabled r then c.flush_errors + 1 else c.flush_errors))

-- Reading the control file changes the last error only.
record IsRead (c d : MsptiCapture) (p : Answer Bool × MsptiCapture) (enabled : Bool) : Type 0 where
  answers : p ≡ (returned enabled, d)
  items : d.items ≡ c.items
  room : d.queue_size ≡ c.queue_size
  dropped : d.dropped ≡ c.dropped
  errors : d.flush_errors ≡ c.flush_errors
  active : d.monitor_active ≡ c.monitor_active

module _ (enable_file : Option Text) (read : FileRead) (r : Replies) (s t : ℕ)
    (c : MsptiCapture) where
  abbrev after : MsptiCapture
  after = flush_round enable_file read r s t c

  -- What the round does for what the control file asks for.
  abbrev pub Does : Option Bool → Type 0
  Does none =
      (after.monitor_active ≡ c.monitor_active)
      × (after.flush_errors ≡ c.flush_errors + 1)
      × (after.items ≡ c.items)
      × (after.dropped ≡ c.dropped)
  Does (some enabled) =
      let active = c.monitor_active in
      (after.monitor_active ≡ active_after active enabled r)
      × (after.flush_errors
          ≡ (if has_error active enabled r then c.flush_errors + 1 else c.flush_errors))
      × (after.items
          ≡ c.items
            ++ (state_offers active enabled r s ++ tick_offers active enabled r t c.dropped))
      × (after.dropped ≡ c.dropped)
