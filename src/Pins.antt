-- ===== src/Pins.antt =====
-- pins.py: which version a product pins. Files are a function from a path to a text; `none` is the
-- exception FileNotFoundError. `dotenv` stands for `dotenv_values`: the value of a key in a text.
use unifi_containers.Prelude.{Option, none, some, [], ◌∷◌, if◌then◌else◌, ◌>>=◌}
use unifi_containers.Prelude.Results.{Result, ok, err}
use unifi_containers.Failure.{Failure, unknown_product, no_file}
use unifi_containers.Text.{Text, codes, text_eq, strip}
use unifi_containers.Text.Lines.{lines, first_setting}
use unifi_containers.Text.Scan.{char, dotted}
use unifi_containers.Release.{network, unifi_os}

abbrev pub network_dockerfile : Text
network_dockerfile = codes "network/Dockerfile"

abbrev pub uos_pins : Text
uos_pins = codes "unifi-os/pins.env"

abbrev pub uos_key : Text
uos_key = codes "UOS_VERSION"

-- The fixed part of `PKGURL_RE`.
abbrev pub pkgurl_prefix : Text
pkgurl_prefix = codes "ARG PKGURL="

-- `PKGURL_RE.search(text)`, its group.
unfoldable pub pkgurl : Text → Option Text
pkgurl text = first_setting pkgurl_prefix (lines text)

-- `VERSION_IN_URL_RE` at the start of a text.
unfoldable pub version_here : Text → Option Text
version_here t = do
  r ← strip (codes "/unifi/") t
  (version, r') ← dotted r
  _ ← char b'/' r'
  some version

-- `VERSION_IN_URL_RE.search(url)`: the leftmost match.
unfoldable pub version_in_url : Text → Option Text
version_in_url [] = none
version_in_url (c ∷ url) = elim (version_here (c ∷ url)) [
  | some v ↦ some v
  | none ↦ version_in_url url
]

unfoldable pub pkgurl_version : Text → Option Text
pkgurl_version text = do url ← pkgurl text; version_in_url url

-- `value or None`: an absent or empty value is None.
unfoldable pub truthy : Option Text → Option Text
truthy none = none
truthy (some []) = none
truthy (some (c ∷ s)) = some (c ∷ s)

unfoldable pub pin_file : Text → Result Failure (Option Text)
pin_file product =
    if text_eq product network
    then ok none
    else if text_eq product unifi_os
    then ok (some uos_pins)
    else err (unknown_product product)

unfoldable pub read_text : (Text → Option Text) → Text → Result Failure Text
read_text files path = elim (files path) [ none ↦ err (no_file path) | some t ↦ ok t ]

module _ (dotenv : Text → Text → Option Text) (files : Text → Option Text) where
  unfoldable pub pinned_version : Text → Result Failure (Option Text)
  unfolding read_text
  pinned_version product =
      if text_eq product network
      then (elim (read_text files network_dockerfile) [
        | err e ↦ err e
        | ok t ↦ ok (pkgurl_version t)
      ])
      else if text_eq product unifi_os
      then (elim (read_text files uos_pins) [
        | err e ↦ err e
        | ok t ↦ ok (truthy (dotenv t uos_key))
      ])
      else err (unknown_product product)
