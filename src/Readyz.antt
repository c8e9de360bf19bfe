-- ===== src/Readyz.antt =====
-- readyz.py: readiness over HTTP. A `Gate` is the object that the threads of the server share;
-- `System` adds what they are doing, and a `Step` is one thing that one thread does, so that a
-- sequence of steps is an interleaving. Times are readings of a monotonic clock, in any unit.
pub mod Exclusion
pub mod Rate
pub mod Configured
pub mod Tests
use unifi_containers.Prelude.{
  ℕ, zero, suc, ◌+◌, ◌-◌, ◌≤◌, ◌≡◌, Bool, true, false, Option, none, some, List, [], ◌∷◌, ltb, ◌==◌,
  if◌then◌else◌,
}
use unifi_containers.Text.{Text, codes, text_eq}

pub record Gate : Type 0 where
  pub locked : Bool
  pub verdict : Bool
  pub last : Option ℕ

-- `self._lock.acquire(blocking=False)`
unfoldable pub try_acquire : Gate → Bool × Gate
try_acquire g =
    if g.locked
    then (false, g)
    else (true, record { locked = true; verdict = g.verdict; last = g.last })

-- `self._last is not None and now - self._last < self._interval`
unfoldable pub is_fresh : ℕ → ℕ → Option ℕ → Bool
is_fresh interval now none = false
is_fresh interval now (some last) = ltb (now - last) interval

-- `self._last = now`
unfoldable pub begin_probe : ℕ → Gate → Gate
begin_probe now g = record { locked = g.locked; verdict = g.verdict; last = some now }

-- `self._lock.release()`
unfoldable pub release : Gate → Gate
release g = record { locked = false; verdict = g.verdict; last = g.last }

-- The end of a probe, with its verdict, or with `none` if it raised.
unfoldable pub end_probe : Option Bool → Gate → Gate
unfolding release
end_probe none g = release g
end_probe (some b) g = release (record { locked = g.locked; verdict = b; last = g.last })

-- The gate and its threads: how many hold the lock before the test of the clock, and how many run
-- the probe; the time of the latest reading of the clock; when probes have begun and what they
-- have found, the latest first.
pub record System : Type 0 where
  pub gate : Gate
  pub checking : ℕ
  pub probing : ℕ
  pub clock : ℕ
  pub starts : List ℕ
  pub verdicts : List Bool

-- A gate that is made, and no request.
abbrev pub made : System
made = record {
  gate = record { locked = false; verdict = false; last = none };
  checking = 0;
  probing = 0;
  clock = 0;
  starts = [];
  verdicts = [];
}

-- The verdicts with that of a probe, if it has one.
unfoldable pub found : Option Bool → List Bool → List Bool
found none bs = bs
found (some b) bs = b ∷ bs

module _ (interval : ℕ) where
  -- What a thread in `ready` does next, and the answer that it returns, if it returns.
  pub data Step : System → Option Bool → System → Type 0 where
    -- The lock is held: the verdict in hand is the answer.
    busy :
        {s : System} {g : Gate}
        → try_acquire s.gate ≡ (false, g)
        → Step s (some g.verdict) (record {
          gate = g;
          checking = s.checking;
          probing = s.probing;
          clock = s.clock;
          starts = s.starts;
          verdicts = s.verdicts;
        })
    acquired :
        {s : System} {g : Gate}
        → try_acquire s.gate ≡ (true, g)
        → Step s none (record {
          gate = g;
          checking = s.checking + 1;
          probing = s.probing;
          clock = s.clock;
          starts = s.starts;
          verdicts = s.verdicts;
        })
    -- Too soon after the last probe: the verdict in hand, and the lock is released.
    too_soon :
        {s : System} {n : ℕ} (now : ℕ)
        → s.checking ≡ suc n
        → s.clock ≤ now
        → is_fresh interval now s.gate.last ≡ true
        → Step s (some s.gate.verdict) (record {
          gate = release s.gate;
          checking = n;
          probing = s.probing;
          clock = now;
          starts = s.starts;
          verdicts = s.verdicts;
        })
    begun :
        {s : System} {n : ℕ} (now : ℕ)
        → s.checking ≡ suc n
        → s.clock ≤ now
        → is_fresh interval now s.gate.last ≡ false
        → Step s none (record {
          gate = begin_probe now s.gate;
          checking = n;
          probing = s.probing + 1;
          clock = now;
          starts = now ∷ s.starts;
          verdicts = s.verdicts;
        })
    -- The probe ends with a verdict, which is the answer, or with an exception.
    ended :
        {s : System} {n : ℕ} (answer : Option Bool)
        → s.probing ≡ suc n
        → Step s answer (record {
          gate = end_probe answer s.gate;
          checking = s.checking;
          probing = n;
          clock = s.clock;
          starts = s.starts;
          verdicts = found answer s.verdicts;
        })

  pub data Reach : System → Type 0 where
    start : Reach made
    step : {s t : System} {answer : Option Bool} → Reach s → Step s answer t → Reach t

-- `self.path.split("?", 1)[0]`
unfoldable pub before_query : Text → Text
before_query [] = []
before_query (c ∷ path) = let rest = before_query path in if c == b'?' then [] else c ∷ rest

abbrev pub readyz_path : Text
readyz_path = codes "/readyz"

-- The answer of `do_GET` for what `gate.ready()` returns, or `none` if it raises.
unfoldable pub status_of : Option Bool → ℕ
status_of none = 500
status_of (some true) = 200
status_of (some false) = 503

-- The status, for a gate that is asked only on the path of the endpoint.
unfoldable pub do_get : Text → Option Bool → ℕ
unfolding status_of before_query
do_get path ready = if text_eq (before_query path) readyz_path then status_of ready else 404
