-- ===== src/Release/Highest.antt =====
-- `highest` and `is_highest_stable`: the greatest release of a product by `Version`.
use unifi_containers.Prelude.{
  ◌≡◌, refl, subst, ◌↔◌, ◌⊎◌, inl, inr, Bool, true, false, some, List, [], ◌∷◌, ◌++◌, Has,
  Has-append_left, Has-append_right, Has-append_cases, Bool-cases, if◌then◌else◌,
}
use unifi_containers.Prelude.Results.{ok}
use unifi_containers.Packaging.{Versions, IsOrdered}
use unifi_containers.Text.{Text}
use unifi_containers.Text.Scan.{IsVersion}
use unifi_containers.Release.{
  Release, version, parse, git_tag, releases_for, read_version, max_from, max_release, highest,
  is_highest_stable,
}
use unifi_containers.Release.Builds.{Has-releases_for, releases_for_sound}
use unifi_containers.Release.RoundTrip.{IsProduct, parse-git_tag}

module _ (V : Versions) where
  -- `Version` accepts the version of each release.
  abbrev pub Readable : List Release → Type 0
  Readable rs = (s : Release) → Has s rs → (k : V.Key) × (V.read (version s) ≡ some k)

  -- No release of `rs` has a greater version than the key `k`.
  abbrev pub NoneAbove : V.Key → List Release → Type 0
  NoneAbove k rs =
      (s : Release) (j : V.Key) → Has s rs → V.read (version s) ≡ some j → V.lt k j ≡ false

  -- What `max` finds: an element, its key, and that no other is greater.
  pub record IsTop (rs : List Release) (top : Release) : Type 0 where
    pub key : V.Key
    pub key_of : V.read (version top) ≡ some key
    pub member : Has top rs
    pub none_above : NoneAbove key rs

  module _ (O : IsOrdered V) where
    not_lt_trans : (a b c : V.Key) → V.lt a b ≡ false → V.lt b c ≡ false → V.lt a c ≡ false
    not_lt_trans a b c p q = elim (Bool-cases (V.lt a c)) [
      | inr h ↦ h
      | inl h ↦ elim (O.lt_between a b c h) [ inl x ↦ cc | inr x ↦ cc ]
    ]

    not_lt_below : (a b c : V.Key) → V.lt b c ≡ true → V.lt a c ≡ false → V.lt a b ≡ false
    not_lt_below a b c p q = elim (Bool-cases (V.lt a b)) [
      | inr h ↦ h
      | inl h ↦ cc (O.lt_trans a b c h p)
    ]

    -- A release whose key is not exceeded by `key`, added to those of which this holds.
    NoneAbove-cons :
        (key k : V.Key) (best : Release) (rs : List Release)
        → V.read (version best) ≡ some k
        → V.lt key k ≡ false
        → NoneAbove key rs
        → NoneAbove key (best ∷ rs)
    NoneAbove-cons key k best rs e low above s j (inl same) ej =
        let ej' : V.read (version best) ≡ some j = rw same at ej in
        let kj : k ≡ j = cc in rw kj at low
    NoneAbove-cons key k best rs e low above s j (inr later) ej = above s j later ej

    IsTop-step :
        (best r top : Release) (k j : V.Key) (rs : List Release)
        → V.read (version r) ≡ some j
        → V.read (version best) ≡ some k
        → IsTop ((if V.lt k j then r else best) ∷ rs) top
        → IsTop (best ∷ r ∷ rs) top
    IsTop-step best r top k j rs er ek t = elim (Bool-cases (V.lt k j)) [
      | inl h ↦
          let t' : IsTop (r ∷ rs) top = rw h at t in
          let low = not_lt_below t'.key k j h (t'.none_above r j (inl refl) er) in
          record {
            key = t'.key;
            key_of = t'.key_of;
            member = inr t'.member;
            none_above = NoneAbove-cons t'.key k best (r ∷ rs) ek low t'.none_above;
          }
      | inr h ↦
          let t' : IsTop (best ∷ rs) top = rw h at t in
          let low = t'.none_above best k (inl refl) ek in
          let rest =
            NoneAbove-cons t'.key j r rs er (not_lt_trans t'.key k j low h)
              (λ s i m. t'.none_above s i (inr m)) in
          record {
            key = t'.key;
            key_of = t'.key_of;
            member = elim t'.member [ inl e ↦ inl e | inr m ↦ inr (inr m) ];
            none_above = NoneAbove-cons t'.key k best (r ∷ rs) ek low rest;
          }
    ]

    choice :
        (r : Release) (j : V.Key)
        → V.read (version r) ≡ some j
        → (best : Release) (k : V.Key) → V.read (version best) ≡ some k
        → V.read (version (if V.lt k j then r else best)) ≡ some (if V.lt k j then j else k)
    choice r j er best k e = elim (Bool-cases (V.lt k j)) [ inl h ↦ rw h er | inr h ↦ rw h e ]

    max_from-IsTop :
        (rs : List Release) (best : Release) (k : V.Key)
        → V.read (version best) ≡ some k
        → Readable rs
        → (top : Release) × (max_from V best k rs ≡ ok top) × IsTop (best ∷ rs) top
    unfolding max_from read_version
    max_from-IsTop [] best k e h = (
      best,
      refl,
      record {
        key = k;
        key_of = e;
        member = inl refl;
        none_above = NoneAbove-cons k k best [] e (O.lt_irrefl k) (λ s j m. absurd m);
      },
    )
    max_from-IsTop (r ∷ rs) best k e h =
        let (j, er) = h r (inl refl) in
        let (top, run, t) =
          max_from-IsTop rs (if V.lt k j then r else best) (if V.lt k j then j else k)
            (choice r j er best k e) (λ s m. h s (inr m)) in
        (top, rw (er, max_from) run, IsTop-step best r top k j rs er e t)

    -- `max` over releases that `Version` accepts finds one that no other exceeds.
    pub max_release-IsTop :
        (r : Release) (rs : List Release)
        → Readable (r ∷ rs)
        → (top : Release) × (max_release V (r ∷ rs) ≡ ok (some top)) × IsTop (r ∷ rs) top
    unfolding max_release read_version
    max_release-IsTop r rs h =
        let (k, e) = h r (inl refl) in
        let (top, run, t) = max_from-IsTop rs r k e (λ s m. h s (inr m)) in
        (top, rw (e, max_release, run), t)

  -- No tag names a release of the product of `r` with a version above `r`.
  abbrev pub NoTagAbove : List Text → Release → Type 0
  NoTagAbove tags r =
      (t : Text) (s : Release) (k j : V.Key)
      → Has t tags
      → parse t ≡ some s
      → s.product ≡ r.product
      → V.read (version r) ≡ some k
      → V.read (version s) ≡ some j
      → V.lt k j ≡ false

  module _ (O : IsOrdered V) (tags : List Text) (r : Release) where
    abbrev extended : List Text
    extended = tags ++ (git_tag r ∷ [])

    Has-extended :
        IsProduct r.product → IsVersion r.upstream → Has r (releases_for extended r.product)
    Has-extended hp hu =
        Has-releases_for extended (git_tag r) r
          (Has-append_right (git_tag r) tags (git_tag r ∷ []) (inl refl)) (parse-git_tag r hp hu)

    -- A release that tops the extended tags is equal to `r` exactly if no tag exceeds `r`.
    top_eq_iff :
        (top : Release) (k : V.Key)
        → IsProduct r.product
        → IsVersion r.upstream
        → V.read (version r) ≡ some k
        → (t : IsTop (releases_for extended r.product) top)
        → (V.eq t.key k ≡ true) ↔ NoTagAbove tags r
    top_eq_iff top k hp hu ek t = (there, back)
      where
        under : V.lt t.key k ≡ false
        under = t.none_above r k (Has-extended hp hu) ek

        there : V.eq t.key k ≡ true → NoTagAbove tags r
        there e tag s k' j listed named same ek' ej =
            let kk : k ≡ k' = cc in
            let member =
              Has-releases_for extended tag s (Has-append_left tag tags (git_tag r ∷ []) listed)
                named in
            let low =
              t.none_above s j (subst (λ p. Has s (releases_for extended p)) same member) ej in
            subst (λ x. V.lt x j ≡ false) kk
              (not_lt_trans O k t.key j ((O.eq_iff_neither t.key k).0 e).1 low)

        at_tag :
            NoTagAbove tags r
            → (tag : Text) → Has tag tags ⊎ Has tag (git_tag r ∷ [])
            → parse tag ≡ some top
            → top.product ≡ r.product
            → V.lt k t.key ≡ false
        at_tag clear tag (inl listed) named same =
            clear tag top k t.key listed named same ek t.key_of
        at_tag clear tag (inr (inl own)) named same =
            let parsed = parse-git_tag r hp hu in
            let named' : parse (git_tag r) ≡ some top = subst (λ x. parse x ≡ some top) own named in
            let tr : r ≡ top = cc in
            let ek' : V.read (version top) ≡ some k =
              subst (λ x. V.read (version x) ≡ some k) tr ek in
            let kk : k ≡ t.key = cc in subst (λ x. V.lt k x ≡ false) kk (O.lt_irrefl k)
        at_tag clear tag (inr (inr never)) named same = absurd never

        back : NoTagAbove tags r → V.eq t.key k ≡ true
        back above =
            let (tag, listed, named, same) = releases_for_sound extended r.product top t.member in
            (O.eq_iff_neither t.key k).1 (
              under,
              at_tag above tag (Has-append_cases tag tags (git_tag r ∷ []) listed) named same,
            )

    max_release_total :
        (rs : List Release)
        → Has r rs
        → Readable rs
        → (top : Release) × (max_release V rs ≡ ok (some top)) × IsTop rs top
    max_release_total [] m h = elim m [ ]
    max_release_total (s ∷ rs) m h = max_release-IsTop O s rs h

    is_highest_stable_step :
        (top : Release) (j k : V.Key)
        → highest V extended r.product ≡ ok (some top)
        → V.read (version top) ≡ some j
        → V.read (version r) ≡ some k
        → is_highest_stable V tags r ≡ ok (V.eq j k)
    unfolding is_highest_stable read_version
    is_highest_stable_step top j k run ej ek = rw (run, is_highest_stable, ej, ek)

    -- For a release of a known product and a dotted version: if `Version` reads every release of the
    -- product, its own included, the answer is given, and it is true exactly if no tag names a
    -- release of the product with a greater version.
    pub is_highest_stable_lem :
        IsProduct r.product
        → IsVersion r.upstream
        → Readable (releases_for (tags ++ (git_tag r ∷ [])) r.product)
        → (b : Bool) × (is_highest_stable V tags r ≡ ok b) × ((b ≡ true) ↔ NoTagAbove tags r)
    unfolding highest
    is_highest_stable_lem hp hu h =
        let (top, run, t) = max_release_total _ (Has-extended hp hu) h in
        let (k, ek) = h r (Has-extended hp hu) in
        (
          V.eq t.key k,
          is_highest_stable_step top t.key k run t.key_of ek,
          top_eq_iff top k hp hu ek t,
        )
