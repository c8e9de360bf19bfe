-- ===== src/Simkeys/Found.antt =====
-- Where the collected keys come from.
use unifi_containers.Prelude.{
  ℕ, zero, suc, ◌-◌, ◌≡◌, refl, sym, subst, ◌∙◌, ap, ◌⊎◌, inl, inr, Bool-cases, true, length,
  Option, none, some, List, [], ◌∷◌, ◌++◌, Has, Has-append_cases, append_assoc, All,
}
use unifi_containers.Prelude.Results.{Result, ok, err}
use unifi_containers.Text.{Text, strip, strip_sound}
use unifi_containers.Simkeys.{
  ScanError, Entry, directory, unreadable, readable, Jar, Member, is_key_char, key_chars,
  is_simulation, demo, demo_key, key_at, scan_from, scan, keys_in_entries, keys_in_jar, is_jar,
  keys_in_member, keys_in_members, sorted_set, keys_in_data_tar, keys_in_deb, listed_keys, collect,
}
use unifi_containers.Simkeys.Order.{sorted_set_sound}

-- `is_simulation|demo\.[a-z0-9_]+`
abbrev pub IsKey : Text → Type 0
IsKey k =
    (k ≡ is_simulation)
    ⊎ ((c : ℕ) × (cs : Text) × (k ≡ demo ++ (c ∷ cs)) × All (λ d. is_key_char d ≡ true) (c ∷ cs))

-- The key stands in the bytes.
abbrev pub Within : Text → Text → Type 0
Within k blob = (before : Text) × (behind : Text) × (blob ≡ before ++ (k ++ behind))

key_chars_sound :
    (t : Text) → All (λ d. is_key_char d ≡ true) (key_chars t) × (r : Text) × (t ≡ key_chars t ++ r)
unfolding key_chars
key_chars_sound [] = (tt, [], refl)
key_chars_sound (c ∷ t) = elim (Bool-cases (is_key_char c)) [
  | inl e ↦ let (all, r, parts) = key_chars_sound t in rw e ((e, all), r, ap (λ x. c ∷ x) parts)
  | inr e ↦ rw e (tt, c ∷ t, refl)
]

IsPrefixKey : Text → Text → Type 0
IsPrefixKey k t = IsKey k × (r : Text) × (t ≡ k ++ r)

demo_chars :
    (t rest k w r : Text)
    → t ≡ demo ++ rest
    → rest ≡ w ++ r
    → All (λ d. is_key_char d ≡ true) w
    → elim w [ [] ↦ none | c ∷ cs ↦ some (demo ++ (c ∷ cs)) ] ≡ some k
    → IsPrefixKey k t
unfolding IsPrefixKey
demo_chars t rest k [] r whole parts all h = absurd (cc h)
demo_chars t rest k (c ∷ cs) r whole parts all h =
    let same : demo ++ (c ∷ cs) ≡ k = cc h in
    (
      inr (c, cs, sym same, all),
      r,
      whole
          ∙ ap (λ x. demo ++ x) parts
          ∙ sym (append_assoc demo (c ∷ cs) r)
          ∙ ap (λ x. x ++ r) same,
    )

demo_key_sound : (t k : Text) → demo_key t ≡ some k → IsPrefixKey k t
unfolding demo_key
demo_key_sound t k h = from (strip demo t) refl h
  where
    from :
        (o : Option Text)
        → strip demo t ≡ o
        → elim o [
          | none ↦ none
          | some rest ↦ elim (key_chars rest) [ [] ↦ none | c ∷ cs ↦ some (demo ++ (c ∷ cs)) ]
        ]
          ≡ some k
        → IsPrefixKey k t
    from none e x = absurd (cc x)
    from (some rest) e x =
        let (all, r, parts) = key_chars_sound rest in
        demo_chars t rest k (key_chars rest) r (strip_sound demo t e) parts all x

key_at_sound : (t k : Text) → key_at t ≡ some k → IsPrefixKey k t
unfolding key_at IsPrefixKey
key_at_sound t k h = from (strip is_simulation t) refl h
  where
    from :
        (o : Option Text)
        → strip is_simulation t ≡ o
        → elim o [ some rest ↦ some is_simulation | none ↦ demo_key t ] ≡ some k
        → IsPrefixKey k t
    from none e x = demo_key_sound t k x
    from (some rest) e x =
        let same : is_simulation ≡ k = cc x in
        (inl (sym same), rest, strip_sound is_simulation t e ∙ ap (λ y. y ++ rest) same)

scanned : Option Text → Text → List Text
scanned none t = scan_from 0 t
scanned (some key) t = key ∷ scan_from (length key - 1) t

scan_from_step :
    (c : ℕ) (t k : Text) (o : Option Text)
    → key_at (c ∷ t) ≡ o
    → Has k (scan_from 0 (c ∷ t))
    → Has k (scanned o t)
unfolding scan_from scanned
scan_from_step c t k none e m = rw (e, scan_from) at m
scan_from_step c t k (some key) e m = rw (e, scan_from) at m

later : (c : ℕ) (t k : Text) → IsKey k × Within k t → IsKey k × Within k (c ∷ t)
later c t k (key, (before, behind, parts)) = (key, (c ∷ before, behind, ap (λ x. c ∷ x) parts))

from_match :
    (c : ℕ) (t k : Text) (o : Option Text)
    → key_at (c ∷ t) ≡ o
    → Has k (scanned o t)
    → ((n : ℕ) → Has k (scan_from n t) → IsKey k × Within k t)
    → IsKey k × Within k (c ∷ t)
unfolding scanned IsPrefixKey
from_match c t k none e m rest = later c t k (rest 0 m)
from_match c t k (some key) e (inr m) rest = later c t k (rest (length key - 1) m)
from_match c t k (some key) e (inl here) rest =
    let (is_key, r, parts) = key_at_sound (c ∷ t) k (e ∙ ap some (sym here)) in
    (is_key, ([], r, parts))

-- A scanned key is one, and stands in the bytes.
scan_from_sound : (n : ℕ) (t k : Text) → Has k (scan_from n t) → IsKey k × Within k t
unfolding scan_from
scan_from_sound n [] k m = absurd m
scan_from_sound (suc n) (c ∷ t) k m = later c t k (scan_from_sound n t k m)
scan_from_sound zero (c ∷ t) k m =
    from_match c t k (key_at (c ∷ t)) refl (scan_from_step c t k _ refl m)
      (λ n. scan_from_sound n t k)

-- A readable entry of a jar in the library directory that the key stands in.
pub record Origin (k : Text) (members : List Member) : Type 0 where
  pub member : Member
  pub entries : List Entry
  pub blob : Text
  pub archived : Has member members
  pub a_jar : is_jar member ≡ true
  pub opened : member.jar ≡ some (some entries)
  pub entered : Has (readable blob) entries
  pub is_key : IsKey k
  pub within : Within k blob

entries_sound :
    (k : Text) (entries : List Entry)
    → Has k (keys_in_entries entries)
    → (blob : Text) × Has (readable blob) entries × (IsKey k × Within k blob)
unfolding keys_in_entries scan
entries_sound k [] m = absurd m
entries_sound k (directory ∷ entries) m =
    let (blob, there, found) = entries_sound k entries m in (blob, inr there, found)
entries_sound k (unreadable ∷ entries) m = absurd m
entries_sound k (readable blob ∷ entries) m =
    elim (Has-append_cases k (scan_from 0 blob) (keys_in_entries entries) m) [
      | inl here ↦ (blob, inl refl, scan_from_sound 0 blob k here)
      | inr rest ↦
          let (other, there, found) = entries_sound k entries rest in (other, inr there, found)
    ]

member_sound :
    (k : Text) (jar : Option Jar)
    → Has k (keys_in_member jar)
    → (entries : List Entry) × (jar ≡ some (some entries)) × Has k (keys_in_entries entries)
unfolding keys_in_member keys_in_jar
member_sound k none m = absurd m
member_sound k (some none) m = absurd m
member_sound k (some (some entries)) m = (entries, refl, m)

later_member :
    (k : Text) (m : Member) (members : List Member) → Origin k members → Origin k (m ∷ members)
later_member k m members o = record {
  member = o.member;
  entries = o.entries;
  blob = o.blob;
  archived = inr o.archived;
  a_jar = o.a_jar;
  opened = o.opened;
  entered = o.entered;
  is_key = o.is_key;
  within = o.within;
}

members_sound :
    (k : Text) (members : List Member) → Has k (keys_in_members members).1 → Origin k members
unfolding keys_in_members
members_sound k [] m = absurd m
members_sound k (x ∷ members) m = elim (Bool-cases (is_jar x)) [
  | inl e ↦
      elim (Has-append_cases k (keys_in_member x.jar) (keys_in_members members).1
        (rw (e, keys_in_members) at m)) [
          | inl here ↦
              let (entries, opened, found) = member_sound k x.jar here in
              let (blob, entered, (is_key, within)) = entries_sound k entries found in
              record {
                member = x;
                entries = entries;
                blob = blob;
                archived = inl refl;
                a_jar = e;
                opened = opened;
                entered = entered;
                is_key = is_key;
                within = within;
              }
          | inr there ↦ later_member k x members (members_sound k members there)
        ]
  | inr e ↦ later_member k x members (members_sound k members (rw (e, keys_in_members) at m))
]

tar_sound :
    (members : List Member) (keys : List Text)
    → keys_in_data_tar members ≡ ok keys
    → keys ≡ (keys_in_members members).1
unfolding keys_in_data_tar
tar_sound members keys h = elim (Bool-cases (keys_in_members members).0) [
  | inl e ↦ sym (cc (rw (e, keys_in_data_tar) at h))
  | inr e ↦ absurd (cc (rw (e, keys_in_data_tar) at h))
]

listed_keys_sound : (found keys : List Text) → listed_keys found ≡ ok keys → keys ≡ sorted_set found
unfolding listed_keys
listed_keys_sound [] keys h = absurd (cc h)
listed_keys_sound (k ∷ found) keys h = sym (cc h)

-- What a collection that ends well has listed.
collect_sound :
    (members : List Member) (keys : List Text) (r : Result ScanError (List Text))
    → keys_in_data_tar members ≡ r
    → collect (some members) ≡ ok keys
    → (keys ≡ sorted_set (keys_in_members members).1) × (r ≡ ok (keys_in_members members).1)
unfolding collect keys_in_deb
collect_sound members keys (err x) e h = absurd (cc (rw (e, collect, keys_in_deb) at h))
collect_sound members keys (ok found) e h =
    let same = tar_sound members found e in
    (
      listed_keys_sound found keys (rw (e, collect, keys_in_deb) at h) ∙ ap sorted_set same,
      ap ok same,
    )

-- Each key that is collected is a key of the simulation and stands in a readable entry of a jar in the
-- library directory of the release.
pub collect-Origin :
    (members : List Member) (keys : List Text) (k : Text)
    → collect (some members) ≡ ok keys
    → Has k keys
    → Origin k members
collect-Origin members keys k h m =
    let (listed, _) = collect_sound members keys _ refl h in
    members_sound k members
      (sorted_set_sound k (keys_in_members members).1 (subst (λ ks. Has k ks) listed m))
