-- ===== src/Clients/Ulp.antt =====
-- unifi/ulp.py: the identity service.
use unifi_containers.Prelude.{Bool, false, Option, none, some, [], ◌++◌}
use unifi_containers.Text.{Text, codes}
use unifi_containers.Json.{
  Json, Fields, null, boolean, number, string, array, object, end, field, get, truth, or_none,
}
use unifi_containers.Http.{Request, Response, Outcome, Cookies, Wire, json_request, json}
use unifi_containers.Clients.Network.{rstrip_slash}
use unifi_containers.Clients.Ucore.{plain_get, plain_post}

-- The fields of a dictionary; any other value has none.
unfoldable pub fields_of : Json → Option Fields
fields_of (object fs) = some fs
fields_of null = none
fields_of (boolean b) = none
fields_of (number n) = none
fields_of (string s) = none
fields_of (array xs) = none

-- `_data`
unfoldable pub data_of : Json → Json
unfolding fields_of
data_of body = elim (fields_of body) [ none ↦ null | some fs ↦ get (codes "data") fs ]

unfoldable pub owner_of : Json → Option Json
unfolding data_of
owner_of body = elim (fields_of (data_of body)) [
  | none ↦ none
  | some fs ↦ elim (fields_of (get (codes "owner") fs)) [
    | none ↦ none
    | some owner ↦ or_none (get (codes "unique_id") owner)
  ]
]

unfoldable pub setup_of : Json → Bool
unfolding data_of
setup_of body = elim (fields_of (data_of body)) [
  | none ↦ false
  | some fs ↦ truth (get (codes "is_setuped") fs)
]

unfoldable pub key_of_answer : Json → Option Json
unfolding data_of
key_of_answer body = elim (fields_of (data_of body)) [
  | none ↦ none
  | some fs ↦ or_none (get (codes "full_api_key") fs)
]

module _ {N : Type 0} (send : Request → Cookies → N → Outcome × Cookies × N) (url : Text) where
  -- `self.base_url`
  unfoldable pub ulp_url : Text
  ulp_url = rstrip_slash url

  unfoldable pub info : Wire N → Response × Wire N
  unfolding plain_get ulp_url
  info = json_request send false (plain_get ulp_url (codes "/api/v2/info") [])

  unfoldable pub owner_id : Wire N → Option Json × Wire N
  unfolding info
  owner_id w = let (r, w') = info w in (owner_of (json r), w')

  unfoldable pub is_setup : Wire N → Bool × Wire N
  unfolding info
  is_setup w = let (r, w') = info w in (setup_of (json r), w')

  -- The owner's id stands in the path.
  unfoldable pub mint_key : Text → Text → Wire N → Option Json × Wire N
  unfolding plain_post ulp_url
  mint_key owner name w =
      let (r, w') =
        json_request send false
          (plain_post ulp_url (codes "/api/v2/user/" ++ (owner ++ codes "/keys"))
            (object (field (codes "name") (string name) end)))
          w in
      (key_of_answer (json r), w')
