-- ===== src/Plan/Emit.antt =====
-- What `emit` hands to the workflow, and what `slide-tags` then does with it.
use unifi_containers.Prelude.{
  ◌≡◌, refl, subst, Bool, true, false, some, List, [], ◌∷◌, Option-cases, inl, inr,
}
use unifi_containers.Prelude.Results.{ok, ok-injective}
use unifi_containers.Text.{Text}
use unifi_containers.Text.Words.{words, join, is_space}
use unifi_containers.Release.{image, global_tags, sliding_tags}
use unifi_containers.Slide
use unifi_containers.Slide.{
  Digests, digest_for, base, sim, seeded, variant_for, latest_name, sim_name, seeded_name,
}
use unifi_containers.Slide.Names.{variant_for_globals}
use unifi_containers.Slide.Moves.{move, done, slide_iff}
use unifi_containers.Plan.{Plan, Outputs, emit}

-- The names that the outputs make the workflow push to and slide.
pub targets : Outputs → List Text
targets out = out.push_base ∷ out.push_sim ∷ out.push_seeded ∷ words out.globals

words-global_tags : (top : Bool) → words (join (b' ' ∷ []) (global_tags top)) ≡ global_tags top
unfolding global_tags is_space words join
words-global_tags true = refl
words-global_tags false = refl

-- For the newest build the workflow's names are the sliding tags of the release.
emit_newest :
    (p : Plan) (out : Outputs)
    → p.newest_build ≡ true
    → emit p ≡ ok out
    → (out.publish ≡ true) × (targets out ≡ sliding_tags p.release p.newest_build p.top)
unfolding emit targets sliding_tags
emit_newest p out newest h = elim (Option-cases (image p.release)) [
  | inl missing ↦ cc (rw (missing, emit) at h)
  | inr (name, found) ↦
      let made = ok-injective (rw (found, emit) at h) in
      subst (λ o. (o.publish ≡ true) × (targets o ≡ sliding_tags p.release p.newest_build p.top))
        made (newest, rw (newest, words-global_tags))
]

-- For any other build nothing is published, and no name is pushed to or slid.
emit_superseded :
    (p : Plan) (out : Outputs)
    → p.newest_build ≡ false
    → emit p ≡ ok out
    → (out.publish ≡ false) × (targets out ≡ [] ∷ [] ∷ [] ∷ [])
unfolding emit targets words
emit_superseded p out older h = elim (Option-cases (image p.release)) [
  | inl missing ↦ cc (rw (missing, emit) at h)
  | inr (name, found) ↦
      let made = ok-injective (rw (found, emit) at h) in
      subst (λ o. (o.publish ≡ false) × (targets o ≡ [] ∷ [] ∷ [] ∷ [])) made (older, rw older)
]

emit_globals :
    (p : Plan) (out : Outputs)
    → p.newest_build ≡ true
    → p.top ≡ true
    → emit p ≡ ok out
    → words out.globals ≡ latest_name ∷ sim_name ∷ seeded_name ∷ []
unfolding emit global_tags
emit_globals p out newest top h = elim (Option-cases (image p.release)) [
  | inl missing ↦ cc (rw (missing, emit) at h)
  | inr (name, found) ↦
      let made = ok-injective (rw (found, emit) at h) in
      subst (λ o. words o.globals ≡ latest_name ∷ sim_name ∷ seeded_name ∷ []) made
        (rw (newest, top) (words-global_tags true))
]

module _ {R : Type 0} (create : Text → Text → Text → R → Bool × R) where
  -- If the commands succeed and every variant has a digest, sliding the globals that the newest
  -- build of the highest release hands over points the three global names at its digests, in turn.
  pub apply-emit :
      (p : Plan) (out : Outputs) (digests : Digests) (b m d : Text) (s s1 s2 s3 : R)
      → p.newest_build ≡ true
      → p.top ≡ true
      → emit p ≡ ok out
      → digest_for digests base ≡ some b
      → digest_for digests sim ≡ some m
      → digest_for digests seeded ≡ some d
      → create out.image_name latest_name b s ≡ (true, s1)
      → create out.image_name sim_name m s1 ≡ (true, s2)
      → create out.image_name seeded_name d s2 ≡ (true, s3)
      → Slide.apply create out.image_name out.globals digests s ≡ (0, s3)
  unfolding Slide.apply Slide.apply_names
  apply-emit p out digests b m d s s1 s2 s3 newest top h hb hm hd c1 c2 c3 =
      let names = latest_name ∷ sim_name ∷ seeded_name ∷ [] in
      let (vb, vm, vd) = variant_for_globals in
      let moves =
        (slide_iff create out.image_name digests names names s s3).1
          (refl, move vb hb c1 (move vm hm c2 (move vd hd c3 (done refl)))) in
      rw (emit_globals p out newest top h, Slide.apply_names, moves)
