-- ===== src/Simkeys/Tests.antt =====
-- Two jars, and the theorem on the collected keys at them.
use unifi_containers.Prelude.{◌≡◌, refl, inl, true, some, List, [], ◌∷◌}
use unifi_containers.Prelude.Results.{ok}
use unifi_containers.Text.{Text, codes, strip, text_eq}
use unifi_containers.Text.Words.{ends_with}
use unifi_containers.NetworkBoot.{text_le}
use unifi_containers.Simkeys.{
  Member, directory, readable, is_jar, plain_name, is_in_lib, keys_in_members, keys_in_member,
  keys_in_jar, keys_in_entries, scan, scan_from, key_at, demo_key, key_chars, is_key_char,
  insert_key, sorted_set, keys_in_data_tar, keys_in_deb, listed_keys, collect,
}
use unifi_containers.Simkeys.Found.{Origin, collect-Origin}

abbrev ace : Member
ace = record {
  name = codes "./usr/lib/unifi/lib/ace.jar";
  is_file = true;
  jar = some (some (directory ∷ readable (codes "if is_simulation") ∷ []));
}

abbrev internal : Member
internal = record {
  name = codes "usr/lib/unifi/lib/internal.jar";
  is_file = true;
  jar = some (some (readable (codes "xdemo.num_uap=3") ∷ []));
}

abbrev keys : List Text
keys = codes "demo.num_uap" ∷ codes "is_simulation" ∷ []

ace_first : collect (some (ace ∷ internal ∷ [])) ≡ ok keys
unfolding collect keys_in_deb keys_in_data_tar listed_keys sorted_set insert_key text_le
    keys_in_members is_jar plain_name is_in_lib strip ends_with text_eq keys_in_member keys_in_jar
    keys_in_entries scan scan_from key_at demo_key key_chars is_key_char
ace_first = refl

collect-Origin_example : Origin (codes "demo.num_uap") (ace ∷ internal ∷ [])
collect-Origin_example =
    collect-Origin (ace ∷ internal ∷ []) keys (codes "demo.num_uap") ace_first (inl refl)
