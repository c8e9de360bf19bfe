-- ===== src/Simkeys/Order.antt =====
-- What is in a set of texts as a sorted list: the texts that were put in.
use unifi_containers.Prelude.{◌≡◌, refl, sym, subst, ◌⊎◌, inl, inr, Bool-cases, List, [], ◌∷◌, Has}
use unifi_containers.Text.{Text, text_eq, text_eq_sound}
use unifi_containers.NetworkBoot.{text_le}
use unifi_containers.Simkeys.{insert_key, sorted_set}

-- What the insertion of a key adds, and keeps.
insert_key_sound : (k t : Text) (us : List Text) → Has k (insert_key t us) → (k ≡ t) ⊎ Has k us
unfolding insert_key
insert_key_sound k t [] m = m
insert_key_sound k t (u ∷ us) m = elim (Bool-cases (text_eq t u)) [
  | inl e ↦ inr (rw (e, insert_key) at m)
  | inr e ↦ elim (Bool-cases (text_le t u)) [
    | inl l ↦ rw (e, l, insert_key) at m
    | inr l ↦ elim (rw (e, l, insert_key) at m) as (λ _. (k ≡ t) ⊎ Has k (u ∷ us)) [
      | inl here ↦ inr (inl here)
      | inr there ↦ elim (insert_key_sound k t us there) [
        | inl new ↦ inl new
        | inr old ↦ inr (inr old)
      ]
    ]
  ]
]

insert_key_new : (t : Text) (us : List Text) → Has t (insert_key t us)
unfolding insert_key
insert_key_new t [] = inl refl
insert_key_new t (u ∷ us) = elim (Bool-cases (text_eq t u)) [
  | inl e ↦ rw e (inl (text_eq_sound t u e))
  | inr e ↦ elim (Bool-cases (text_le t u)) [
    | inl l ↦ rw (e, l) (inl refl)
    | inr l ↦ rw (e, l) (inr (insert_key_new t us))
  ]
]

insert_key_old : (k t : Text) (us : List Text) → Has k us → Has k (insert_key t us)
unfolding insert_key
insert_key_old k t [] m = absurd m
insert_key_old k t (u ∷ us) m = elim (Bool-cases (text_eq t u)) [
  | inl e ↦ rw e m
  | inr e ↦ elim (Bool-cases (text_le t u)) [
    | inl l ↦ rw (e, l) (inr m)
    | inr l ↦
        rw (e, l) (elim m [ inl here ↦ inl here | inr there ↦ inr (insert_key_old k t us there) ])
  ]
]

pub sorted_set_sound : (k : Text) (ts : List Text) → Has k (sorted_set ts) → Has k ts
unfolding sorted_set
sorted_set_sound k [] m = m
sorted_set_sound k (t ∷ ts) m = elim (insert_key_sound k t (sorted_set ts) m) [
  | inl new ↦ inl new
  | inr old ↦ inr (sorted_set_sound k ts old)
]

pub sorted_set_complete : (k : Text) (ts : List Text) → Has k ts → Has k (sorted_set ts)
unfolding sorted_set
sorted_set_complete k [] m = m
sorted_set_complete k (t ∷ ts) (inl here) =
    subst (λ x. Has x (sorted_set (t ∷ ts))) (sym here) (insert_key_new t (sorted_set ts))
sorted_set_complete k (t ∷ ts) (inr there) =
    insert_key_old k t (sorted_set ts) (sorted_set_complete k ts there)
