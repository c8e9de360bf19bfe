-- ===== src/Seed/Key.antt =====
-- When a key is minted, and what `ensure_api_key` and `run` have done when they report success.
use unifi_containers.Prelude.{
  ◌+◌, ◌≤◌, ◌≡◌, refl, sym, ap, subst, ◌⊎◌, inl, inr, ◌∙◌, Bool, true, false, Option, none, some,
  [], ◌∷◌, ◌++◌, Has, arith, Bool-cases,
}
use unifi_containers.Text.{Text}
use unifi_containers.Pins.{truthy}
use unifi_containers.Seed.{
  key_asked, key_minted, Verdict, key_ok, key_rejected, key_no_verdict, Console, State, noted,
  read_key, key_check_attempts, owner_wait_attempts, key_check, publish_key, publish_checked,
  prove_key, mint, after_existing, ensure_key_from, ensure_api_key, wait_for_owner_id,
}
use unifi_containers.Seed.Check.{mints, Checked, key_check-Checked, wait-Waited}

-- How a run of minting, from a file, ends: the file is touched only in success, and then the key
-- in it has authenticated.
pub record Ends (old : Option Text) (p : Bool × State) : Type 0 where
  pub kept : p.0 ≡ false → p.1.key_file ≡ old
  pub proven :
      p.0 ≡ true
      → (key : Text) × Has (key_asked key 200) p.1.calls
        × (p.1.key_file ≡ some (key ++ (b'\n' ∷ [])))

module _ (C : Console) where
  publish_key-Ends :
      (key : Text) (s : State)
      → Has (key_asked key 200) s.calls
      → Ends s.key_file (publish_key C key s)
  unfolding publish_key
  publish_key-Ends key s h = elim (Bool-cases (C.can_publish s.calls)) [
    | inl e ↦ rw e (record { kept = λ f. cc; proven = λ t. (key, h, refl) })
    | inr e ↦ rw e (record { kept = λ f. refl; proven = λ t. cc })
  ]

  publish_key-mints : (key : Text) (s : State) → mints (publish_key C key s).1.calls ≡ mints s.calls
  unfolding publish_key
  publish_key-mints key s = elim (Bool-cases (C.can_publish s.calls)) [
    | inl e ↦ rw e refl
    | inr e ↦ rw e refl
  ]

  Ends-file : {old new : Option Text} {p : Bool × State} → new ≡ old → Ends new p → Ends old p
  Ends-file e h = record { kept = λ f. h.kept f ∙ e; proven = λ t. h.proven t }

  publish_checked-Ends :
      (key : Text) (s : State) (p : Verdict × State)
      → Checked key s p
      → Ends s.key_file (publish_checked C key p)
  unfolding publish_checked
  publish_checked-Ends key s (key_ok, m) h = Ends-file h.same_file (publish_key-Ends key m h.rests)
  publish_checked-Ends key s (key_rejected, m) h = record {
    kept = λ f. h.same_file;
    proven = λ t. cc;
  }
  publish_checked-Ends key s (key_no_verdict, m) h = record {
    kept = λ f. h.same_file;
    proven = λ t. cc;
  }

  publish_checked-mints :
      (key : Text) (s : State) (p : Verdict × State)
      → Checked key s p
      → mints (publish_checked C key p).1.calls ≡ mints s.calls
  unfolding publish_checked
  publish_checked-mints key s (key_ok, m) h = publish_key-mints key m ∙ h.same_mints
  publish_checked-mints key s (key_rejected, m) h = h.same_mints
  publish_checked-mints key s (key_no_verdict, m) h = h.same_mints

  prove_key-Ends : (o : Option Text) (s : State) → Ends s.key_file (prove_key C o s)
  unfolding prove_key
  prove_key-Ends none s = record { kept = λ f. refl; proven = λ t. cc }
  prove_key-Ends (some key) s =
      publish_checked-Ends key s _ (key_check-Checked C key_check_attempts key s)

  prove_key-mints : (o : Option Text) (s : State) → mints (prove_key C o s).1.calls ≡ mints s.calls
  unfolding prove_key
  prove_key-mints none s = refl
  prove_key-mints (some key) s =
      publish_checked-mints key s _ (key_check-Checked C key_check_attempts key s)

  mint-Ends : (p : Option Text × State) → Ends p.1.key_file (mint C p)
  unfolding mint noted
  mint-Ends (none, s) = record { kept = λ f. refl; proven = λ t. cc }
  mint-Ends (some owner, s) =
      let key = truthy (C.mint_key owner s.calls) in prove_key-Ends key (noted (key_minted key) s)

  mint-mints : (p : Option Text × State) → mints (mint C p).1.calls ≤ mints p.1.calls + 1
  unfolding mint noted mints
  mint-mints (none, s) = omega arith
  mint-mints (some owner, s) =
      let key = truthy (C.mint_key owner s.calls) in
      omega (arith, prove_key-mints key (noted (key_minted key) s))

  -- The same for `ensure_api_key`, with the key that the file has.
  pub record Ensured (s : State) (p : Bool × State) : Type 0 where
    pub kept : p.0 ≡ false → p.1.key_file ≡ s.key_file
    pub proven :
        p.0 ≡ true
        → (key : Text) × Has (key_asked key 200) p.1.calls
          × (((p.1.key_file ≡ s.key_file) × (read_key s ≡ key))
              ⊎ (p.1.key_file ≡ some (key ++ (b'\n' ∷ []))))
    pub minted_once : mints p.1.calls ≤ mints s.calls + 1
    pub minted_why :
        (mints p.1.calls ≡ mints s.calls)
        ⊎ (read_key s ≡ [])
        ⊎ ((key_check C key_check_attempts (read_key s) s).0 ≡ key_rejected)

  fresh_mint :
      (s m : State)
      (why : (read_key s ≡ []) ⊎ ((key_check C key_check_attempts (read_key s) s).0 ≡ key_rejected))
      → m.key_file ≡ s.key_file
      → mints m.calls ≡ mints s.calls
      → Ensured s (mint C (wait_for_owner_id C owner_wait_attempts m))
  fresh_mint s m why ef em =
      let p = wait_for_owner_id C owner_wait_attempts m in
      let w = wait-Waited C owner_wait_attempts m in
      let ends = mint-Ends p in
      let count = mint-mints p in
      record {
        kept = λ f. ends.kept f ∙ w.file_kept ∙ ef;
        proven = λ t. let (key, h, e) = ends.proven t in (key, h, inr e);
        minted_once = omega (arith, w.mints_kept);
        minted_why = inr why;
      }

  after_existing-Ensured :
      (s : State) (p : Verdict × State)
      → key_check C key_check_attempts (read_key s) s ≡ p
      → Checked (read_key s) s p
      → Ensured s (after_existing C p)
  unfolding after_existing
  after_existing-Ensured s (key_ok, m) e h = record {
    kept = λ f. cc;
    proven = λ t. (read_key s, h.rests, inl (h.same_file, refl));
    minted_once = omega (arith, h.same_mints);
    minted_why = inl h.same_mints;
  }
  after_existing-Ensured s (key_no_verdict, m) e h = record {
    kept = λ f. h.same_file;
    proven = λ t. cc;
    minted_once = omega (arith, h.same_mints);
    minted_why = inl h.same_mints;
  }
  after_existing-Ensured s (key_rejected, m) e h =
      fresh_mint s m (inr (ap (λ (p : Verdict × State). p.0) e)) h.same_file h.same_mints

  ensure_key_from-Ensured :
      (key : Text) (s : State) → read_key s ≡ key → Ensured s (ensure_key_from C key s)
  unfolding ensure_key_from
  ensure_key_from-Ensured [] s e = fresh_mint s s (inl e) refl refl
  ensure_key_from-Ensured (c ∷ key) s e =
      after_existing-Ensured s _ (ap (λ k. key_check C key_check_attempts k s) e) (
        subst (λ k. Checked k s (key_check C key_check_attempts (c ∷ key) s)) (sym e)
          (key_check-Checked C key_check_attempts (c ∷ key) s))

  -- `ensure_api_key` mints a key once at most, and only if there is none or the console rejected
  -- the one there is. If it says no, the key file is as it was; if it says yes, the key that the
  -- file holds, the old or the new one, has authenticated with status 200.
  pub ensure_api_key-Ensured : (s : State) → Ensured s (ensure_api_key C s)
  unfolding ensure_api_key
  ensure_api_key-Ensured s = ensure_key_from-Ensured (read_key s) s refl
