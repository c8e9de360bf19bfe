-- ===== src/Seed/Check.antt =====
-- What the verdict of `key_check` rests on, and what the check leaves alone.
use unifi_containers.Prelude.{
  ℕ, zero, suc, ◌+◌, ◌≡◌, refl, sym, ap, inl, Bool, true, false, ◌==◌, ==_iff, Option, none, some,
  List, [], ◌∷◌, Has, if◌then◌else◌,
}
use unifi_containers.Text.{Text}
use unifi_containers.Seed.{
  Call, system_asked, login_asked, setup_asked, setup_posted, key_asked, owner_asked, key_minted,
  Verdict, key_ok, key_rejected, key_no_verdict, Console, State, noted, is_rejection, key_check,
  wait_for_owner_id,
}

-- The requests that ask for a new key.
unfoldable pub mints : List Call → ℕ
mints [] = 0
mints (system_asked b ∷ t) = mints t
mints (login_asked n ∷ t) = mints t
mints (setup_asked b ∷ t) = mints t
mints (setup_posted n x ∷ t) = mints t
mints (key_asked k n ∷ t) = mints t
mints (owner_asked o ∷ t) = mints t
mints (key_minted o ∷ t) = mints t + 1

-- The console rejected the key with 401 or 403.
pub record IsRejected (key : Text) (t : List Call) : Type 0 where
  pub code : ℕ
  pub rejects : is_rejection code ≡ true
  pub answered : Has (key_asked key code) t

-- What a verdict says of the answers; "no verdict" says nothing.
abbrev pub Rests : Text → Verdict → List Call → Type 0
Rests key key_ok t = Has (key_asked key 200) t
Rests key key_rejected t = IsRejected key t
Rests key key_no_verdict t = Unit

pub record Checked (key : Text) (s : State) (p : Verdict × State) : Type 0 where
  pub rests : Rests key p.0 p.1.calls
  pub same_file : p.1.key_file ≡ s.key_file
  pub same_mints : mints p.1.calls ≡ mints s.calls

module _ (C : Console) where
  check_round :
      (a b : Bool) (key : Text) (code : ℕ) (s : State) (rest : Verdict × State)
      → (code == 200) ≡ a
      → is_rejection code ≡ b
      → Checked key (noted (key_asked key code) s) rest
      → Checked key s (
          if a
          then (key_ok, noted (key_asked key code) s)
          else if b
          then (key_rejected, noted (key_asked key code) s)
          else rest)
  unfolding noted mints
  check_round true b key code s rest ea eb ih = record {
    rests = inl (ap (key_asked key) (sym ((==_iff code 200).0 ea)));
    same_file = refl;
    same_mints = refl;
  }
  check_round false true key code s rest ea eb ih = record {
    rests = record { code = code; rejects = eb; answered = inl refl };
    same_file = refl;
    same_mints = refl;
  }
  check_round false false key code s rest ea eb ih = record {
    rests = ih.rests;
    same_file = ih.same_file;
    same_mints = ih.same_mints;
  }

  -- A verdict "ok" rests on an answer 200 and a rejection on 401 or 403, and the check neither
  -- mints a key nor touches the key file.
  pub key_check-Checked : (n : ℕ) (key : Text) (s : State) → Checked key s (key_check C n key s)
  unfolding key_check noted
  key_check-Checked zero key s = record { rests = tt; same_file = refl; same_mints = refl }
  key_check-Checked (suc n) key s =
      let code = C.key_status key s.calls in
      check_round (code == 200) (is_rejection code) key code s _ refl refl
        (key_check-Checked n key (noted (key_asked key code) s))

  -- Waiting for the owner changes neither the key file nor the number of keys minted.
  pub record Waited (s t : State) : Type 0 where
    pub file_kept : t.key_file ≡ s.key_file
    pub mints_kept : mints t.calls ≡ mints s.calls

  wait_round :
      (o : Option Text) (s : State) (rest : Option Text × State) (c : Option Text)
      → Waited (noted (owner_asked c) s) rest.1
      → (let p : Option Text × State = elim o [
        | some a ↦ (some a, noted (owner_asked c) s)
        | none ↦ rest
      ] in
          Waited s p.1)
  unfolding noted mints
  wait_round none s rest c h = record { file_kept = h.file_kept; mints_kept = h.mints_kept }
  wait_round (some a) s rest c h = record { file_kept = refl; mints_kept = refl }

  pub wait-Waited : (n : ℕ) (s : State) → Waited s (wait_for_owner_id C n s).1
  unfolding wait_for_owner_id noted
  wait-Waited zero s = record { file_kept = refl; mints_kept = refl }
  wait-Waited (suc n) s = wait_round _ s _ _ (wait-Waited n _)
