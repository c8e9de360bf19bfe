-- ===== src/Prelude/Loops.antt =====
-- `for a in items: step(a)` over a state, where a step may raise: the first exception ends the loop.
use mathlib.Core.Path.{◌≡◌, ap}
use mathlib.Core.Logic.{◌↔◌}
use mathlib.Core.List.{List, [], ◌∷◌}
use native.Mathlib.Omega.{arith}
use unifi_containers.Prelude.Results.{Result, ok, after, after-eq-ok}

module _ {E A S : Type 0} (step : A → S → Result E (Unit {0}) × S) where
  unfoldable pub for_each : List A → S → Result E (Unit {0}) × S
  for_each [] s = (ok tt, s)
  for_each (a ∷ items) s = after (step a s) (λ _ m. for_each items m)

  -- Every step of the loop ends well, from `s` to `t`.
  pub data Runs : List A → S → S → Type 0 where
    done : {s t : S} → s ≡ t → Runs [] s t
    next :
        {a : A} {items : List A} {s m t : S}
        → step a s ≡ (ok tt, m)
        → Runs items m t
        → Runs (a ∷ items) s t

  for_each_sound : (items : List A) (s t : S) → for_each items s ≡ (ok tt, t) → Runs items s t
  unfolding for_each
  for_each_sound [] s t h = done (ground arith)
  for_each_sound (a ∷ items) s t h =
      let (_, m, first, rest) = after-eq-ok (step a s) (λ _ m. for_each items m) h in
      next first (for_each_sound items m t rest)

  for_each_complete : (items : List A) (s t : S) → Runs items s t → for_each items s ≡ (ok tt, t)
  unfolding for_each
  for_each_complete _ s t (done e) = ap (λ x. (ok tt, x)) e
  for_each_complete _ s t (next {items = items} {m = m} first rest) =
      rw first (for_each_complete items m t rest)

  -- The loop ends well exactly if every step does.
  pub for_each_iff : (items : List A) (s t : S) → (for_each items s ≡ (ok tt, t)) ↔ Runs items s t
  for_each_iff items s t = (for_each_sound items s t, for_each_complete items s t)
