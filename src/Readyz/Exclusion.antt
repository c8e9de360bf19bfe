-- ===== src/Readyz/Exclusion.antt =====
-- Whatever the threads do, one of them at most is behind the lock.
use unifi_containers.Prelude.{
  ℕ, ◌+◌, ◌≤◌, ◌≡◌, refl, sym, ap, Bool, true, false, Option, none, some, List, [], ◌∷◌, arith,
  if◌then◌else◌, ◌∙◌, Bool-cases, inl, inr,
}
use unifi_containers.Readyz.{
  Gate, try_acquire, release, begin_probe, end_probe, System, found, Step, busy, acquired, too_soon,
  begun, ended, Reach, start, step,
}

-- How many threads may be behind the lock.
abbrev pub holders : Bool → ℕ
holders true = 1
holders false = 0

-- The verdict that the last probe found, and False before the first.
abbrev pub latest : List Bool → Bool
latest [] = false
latest (b ∷ bs) = b

-- The lock is held exactly by the threads behind it, and the gate has the latest verdict.
pub record IsExclusive (s : System) : Type 0 where
  pub held : s.checking + s.probing ≡ holders s.gate.locked
  pub kept : s.gate.verdict ≡ latest s.verdicts

pub try_acquire_busy : (g h : Gate) → try_acquire g ≡ (false, h) → h ≡ g
unfolding try_acquire
try_acquire_busy g h e = elim (Bool-cases g.locked) [
  | inl l ↦ let e' = rw l at e in ground arith
  | inr l ↦ cc (rw l at e)
]

-- What taking the lock leaves.
pub record IsTaken (g h : Gate) : Type 0 where
  pub was_free : g.locked ≡ false
  pub is_locked : h.locked ≡ true
  pub same_verdict : h.verdict ≡ g.verdict
  pub same_last : h.last ≡ g.last

IsTaken-from :
    (b : Bool) (g h : Gate)
    → g.locked ≡ b
    → ◌≡◌ {A = Bool × Gate}
        (if b
          then (false, g)
          else (true, record { locked = true; verdict = g.verdict; last = g.last }))
        (true, h)
    → IsTaken g h
IsTaken-from true g h l e = cc
IsTaken-from false g h l e =
    let same : record { locked = true; verdict = g.verdict; last = g.last } ≡ h =
      ap (λ (p : Bool × Gate). p.1) e in
    record {
      was_free = l;
      is_locked = ap Gate.locked (sym same);
      same_verdict = ap Gate.verdict (sym same);
      same_last = ap Gate.last (sym same);
    }

pub try_acquire-IsTaken : (g h : Gate) → try_acquire g ≡ (true, h) → IsTaken g h
unfolding try_acquire
try_acquire-IsTaken g h e = IsTaken-from g.locked g h refl e

holders_le : (b : Bool) → holders b ≤ 1
holders_le true = omega arith
holders_le false = omega arith

-- With a thread behind the lock, the lock is held.
held_count : (b : Bool) (m n : ℕ) → m + n ≡ holders b → 1 ≤ m + n → (b ≡ true) × (m + n ≡ 1)
held_count true m n h k = (refl, h)
held_count false m n h k = absurd (omega arith)

module _ (interval : ℕ) where
  Step-IsExclusive :
      {s t : System} {answer : Option Bool}
      → Step interval s answer t
      → IsExclusive s
      → IsExclusive t
  unfolding release begin_probe end_probe found
  Step-IsExclusive (busy {s = s} {g = g} e) h =
      let same = try_acquire_busy s.gate g e in
      record { held = rw same h.held; kept = rw same h.kept }
  Step-IsExclusive (acquired {s = s} {g = g} e) h =
      let k = try_acquire-IsTaken s.gate g e in
      let idle : s.checking + s.probing ≡ 0 = rw k.was_free at h.held in
      record { held = rw k.is_locked (omega arith); kept = k.same_verdict ∙ h.kept }
  Step-IsExclusive (too_soon {s = s} now one later fresh) h =
      let (l, c) = held_count s.gate.locked s.checking s.probing h.held (omega arith) in
      record { held = omega arith; kept = h.kept }
  Step-IsExclusive (begun {s = s} now one later stale) h =
      let (l, c) = held_count s.gate.locked s.checking s.probing h.held (omega arith) in
      record { held = rw l (omega arith); kept = h.kept }
  Step-IsExclusive (ended {s = s} none one) h =
      let (l, c) = held_count s.gate.locked s.checking s.probing h.held (omega arith) in
      record { held = omega arith; kept = h.kept }
  Step-IsExclusive (ended {s = s} (some b) one) h =
      let (l, c) = held_count s.gate.locked s.checking s.probing h.held (omega arith) in
      record { held = omega arith; kept = refl }

  -- In every interleaving the threads behind the lock are as many as the lock says, so that probes
  -- never overlap, and the verdict in hand is that of the last probe that ended with one.
  pub Reach-IsExclusive : {s : System} → Reach interval s → IsExclusive s
  Reach-IsExclusive start = record { held = refl; kept = refl }
  Reach-IsExclusive (step r k) = Step-IsExclusive k (Reach-IsExclusive r)

  pub probing-le : {s : System} → Reach interval s → s.probing ≤ 1
  probing-le {s = s} r = omega (arith, (Reach-IsExclusive r).held, holders_le s.gate.locked)
