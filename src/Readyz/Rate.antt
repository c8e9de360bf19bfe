-- ===== src/Readyz/Rate.antt =====
-- However often it is asked, the gate begins few probes.
use unifi_containers.Prelude.{
  ℕ, ◌+◌, ◌*◌, ◌≤◌, ◌≡◌, refl, ap, Bool, false, Option, none, some, List, [], ◌∷◌, arith, length,
  ◌∙◌,
}
use unifi_containers.Readyz.{
  Gate, is_fresh, release, begin_probe, end_probe, System, found, Step, busy, acquired, too_soon,
  begun, ended, Reach, start, step,
}
use unifi_containers.Readyz.Exclusion.{try_acquire-IsTaken, try_acquire_busy}

-- Each start is at least `interval` after the one before.
abbrev pub Spaced : ℕ → List ℕ → Type 0
Spaced interval [] = Unit
Spaced interval (a ∷ []) = Unit
Spaced interval (a ∷ b ∷ starts) = (b + interval ≤ a) × Spaced interval (b ∷ starts)

abbrev pub newest : List ℕ → Option ℕ
newest [] = none
newest (a ∷ starts) = some a

-- What the gate remembers of the starts, and that they are spaced and not in the future.
pub record IsPaced (interval : ℕ) (s : System) : Type 0 where
  pub spaced : Spaced interval s.starts
  pub remembered : s.gate.last ≡ newest s.starts
  pub past : (a : ℕ) → newest s.starts ≡ some a → a ≤ s.clock

Spaced-cons :
    (interval now clock : ℕ) (starts : List ℕ)
    → Spaced interval starts
    → ((a : ℕ) → newest starts ≡ some a → a ≤ clock)
    → clock ≤ now
    → is_fresh interval now (newest starts) ≡ false
    → Spaced interval (now ∷ starts)
unfolding is_fresh
Spaced-cons interval now clock [] sp past later stale = tt
Spaced-cons interval now clock (a ∷ starts) sp past later stale =
    let before : a ≤ clock = past a refl in (ground arith, sp)

some-ℕ : (a b : ℕ) → ◌≡◌ {A = Option ℕ} (some a) (some b) → a ≡ b
some-ℕ a b e = ground arith

module _ (interval : ℕ) where
  Step-IsPaced :
      {s t : System} {answer : Option Bool}
      → Step interval s answer t
      → IsPaced interval s
      → IsPaced interval t
  unfolding release begin_probe end_probe found
  Step-IsPaced (busy {s = s} {g = g} e) h = record {
    spaced = h.spaced;
    remembered = ap Gate.last (try_acquire_busy s.gate g e) ∙ h.remembered;
    past = λ a n. h.past a n;
  }
  Step-IsPaced (acquired {s = s} {g = g} e) h = record {
    spaced = h.spaced;
    remembered = (try_acquire-IsTaken s.gate g e).same_last ∙ h.remembered;
    past = λ a n. h.past a n;
  }
  Step-IsPaced (too_soon {s = s} now one later fresh) h = record {
    spaced = h.spaced;
    remembered = h.remembered;
    past = λ a n. omega (arith, h.past a n);
  }
  Step-IsPaced (begun {s = s} now one later stale) h = record {
    spaced =
        Spaced-cons interval now s.clock s.starts h.spaced h.past later (rw h.remembered at stale);
    remembered = refl;
    past = λ a n. let same = some-ℕ now a n in omega arith;
  }
  Step-IsPaced (ended {s = s} none one) h = record {
    spaced = h.spaced;
    remembered = h.remembered;
    past = λ a n. h.past a n;
  }
  Step-IsPaced (ended {s = s} (some b) one) h = record {
    spaced = h.spaced;
    remembered = h.remembered;
    past = λ a n. h.past a n;
  }

  -- In every interleaving each probe begins at least `interval` after the one before.
  pub Reach-IsPaced : {s : System} → Reach interval s → IsPaced interval s
  Reach-IsPaced start = record { spaced = tt; remembered = refl; past = λ a n. cc }
  Reach-IsPaced (step r k) = Step-IsPaced k (Reach-IsPaced r)

  Spaced-bound :
      (a : ℕ) (starts : List ℕ) → Spaced interval (a ∷ starts) → length starts * interval ≤ a
  Spaced-bound a [] h = omega arith
  Spaced-bound a (b ∷ starts) (gap, h) = grind (arith, Spaced-bound b starts h)

  within :
      (clock : ℕ) (starts : List ℕ)
      → Spaced interval starts
      → ((a : ℕ) → newest starts ≡ some a → a ≤ clock)
      → length starts * interval ≤ clock + interval
  within clock [] sp past = omega arith
  within clock (a ∷ starts) sp past =
      let bound = Spaced-bound a starts sp in let before : a ≤ clock = past a refl in grind arith

  -- However many requests arrive, the probes begun by the time `clock` are at most one more than
  -- the intervals that have passed.
  pub probe_rate : {s : System} → Reach interval s → length s.starts * interval ≤ s.clock + interval
  probe_rate {s = s} r = let h = Reach-IsPaced r in within s.clock s.starts h.spaced h.past
