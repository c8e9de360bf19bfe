-- ===== src/Json.antt =====
-- Decoded JSON, as `json.loads` returns it, and what the program asks of it. Numbers are natural: of a
-- number the program reads only whether it is zero. Of a repeated key `loads` keeps one.
use unifi_containers.Prelude.{
  ℕ, suc, Bool, true, false, not, ◌==◌, Option, none, some, [], ◌∷◌, if◌then◌else◌,
}
use unifi_containers.Text.{Text, text_eq}
use unifi_containers.Text.Find.{contains}

mutual
  pub data Json : Type 0 where
    null : Json
    boolean : Bool → Json
    number : ℕ → Json
    string : Text → Json
    array : Items → Json
    object : Fields → Json

  pub data Items : Type 0 where
    nil : Items
    cons : Json → Items → Items

  pub data Fields : Type 0 where
    end : Fields
    field : Text → Json → Fields → Fields

-- `fields.get(key)`; `none` where the key is absent, which is not the value None.
unfoldable pub lookup : Text → Fields → Option Json
lookup key end = none
lookup key (field k v fs) = let rest = lookup key fs in if text_eq k key then some v else rest

-- `body.get(key)`, where an absent key is None.
unfoldable pub get : Text → Fields → Json
unfolding lookup
get key fs = elim (lookup key fs) [ none ↦ null | some v ↦ v ]

-- `bool(value)`
unfoldable pub truth : Json → Bool
truth null = false
truth (boolean b) = b
truth (number n) = not (n == 0)
truth (string []) = false
truth (string (c ∷ s)) = true
truth (array nil) = false
truth (array (cons x xs)) = true
truth (object end) = false
truth (object (field k v fs)) = true

-- `value == text`
unfoldable pub is_text : Text → Json → Bool
is_text t null = false
is_text t (boolean b) = false
is_text t (number n) = false
is_text t (string s) = text_eq s t
is_text t (array xs) = false
is_text t (object fs) = false

unfoldable pub has_text : Text → Items → Bool
unfolding is_text
has_text t nil = false
has_text t (cons x xs) = let rest = has_text t xs in if is_text t x then true else rest

-- `text in value`; `none` is the exception TypeError.
unfoldable pub is_inside : Text → Json → Option Bool
unfolding lookup has_text
is_inside t null = none
is_inside t (boolean b) = none
is_inside t (number n) = none
is_inside t (string s) = some (contains t s)
is_inside t (array xs) = some (has_text t xs)
is_inside t (object fs) = some (elim (lookup t fs) [ none ↦ false | some v ↦ true ])

-- `value or None`
unfoldable pub or_none : Json → Option Json
or_none v = if truth v then some v else none

abbrev pub count : Items → ℕ
count nil = 0
count (cons x xs) = suc (count xs)
