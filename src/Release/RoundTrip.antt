-- ===== src/Release/RoundTrip.antt =====
-- The tags that `parse` accepts, and the release that each names.
use unifi_containers.Prelude.{
  ◌≡◌, refl, ◌⊎◌, inl, inr, ◌↔◌, true, false, some, [], ◌∷◌, ◌++◌, arith, ==_iff, append-nil, ◌∙◌,
  ap, ap₂, sym, Option-cases, subst, Bool, >>=-eq-some,
}
use unifi_containers.Text.{Text, strip, strip_sound}
use unifi_containers.Text.Digits.{Stops, no_digits}
use unifi_containers.Text.Decimal.{decimal, int_value, decimal-IsNumber, int_value-decimal}
use unifi_containers.Text.Scan.{
  char, digits1, dotted, at_end, char_sound, IsNumber, IsVersion, digits1-append, digits1_sound,
  dotted-append, dotted_sound,
}
use unifi_containers.Release.{Release, network, unifi_os, product_of, parse, git_tag, finish}

-- The products that a tag can name.
abbrev pub IsProduct : Text → Type 0
IsProduct p = (p ≡ network) ⊎ (p ≡ unifi_os)

-- The end of a tag: nothing, or one newline.
abbrev pub IsEnd : Text → Type 0
IsEnd e = (e ≡ []) ⊎ (e ≡ b'\n' ∷ [])

-- `t` spells `r`: the product, the version and a number, however the number is written.
pub record Spells (t : Text) (r : Release) : Type 0 where
  pub product : IsProduct r.product
  pub upstream : IsVersion r.upstream
  pub number : Text
  pub number_IsNumber : IsNumber number
  pub revision : r.revision ≡ int_value number
  pub end : Text
  pub end_IsEnd : IsEnd end
  pub spelling : t ≡ r.product ++ (b'/' ∷ (r.upstream ++ (b'-' ∷ (number ++ end))))

product_of-append : (p s : Text) → IsProduct p → product_of (p ++ (b'/' ∷ s)) ≡ some (p, b'/' ∷ s)
unfolding product_of strip
product_of-append p s (inl e) = rw e
product_of-append p s (inr e) = rw e

IsEnd-Stops : (e : Text) → IsEnd e → Stops e × (at_end e ≡ true)
unfolding at_end
IsEnd-Stops e (inl h) = rw h (tt, refl)
IsEnd-Stops e (inr h) = rw h (no_digits.3, refl)

-- Every text that spells a release is parsed as it.
pub parse_complete : (t : Text) (r : Release) → Spells t r → parse t ≡ some r
unfolding parse
parse_complete t r h =
    let (st, fin) = IsEnd-Stops h.end h.end_IsEnd in
    rw (h.spelling, product_of-append r.product _ h.product)
      (rw (dotted-append r.upstream _ h.upstream no_digits.0)
        (rw (digits1-append h.number h.end h.number_IsNumber st, fin) (ground (arith, h.revision))))

product_of_sound : (t p s : Text) → product_of t ≡ some (p, s) → IsProduct p × (t ≡ p ++ s)
unfolding product_of
product_of_sound t p s h = elim (Option-cases (strip network t)) [
  | inl e ↦
      let h' = rw (e, product_of) at h in
      let (rest, e', k) = >>=-eq-some (strip unifi_os t) (λ rest. some (unifi_os, rest)) h' in
      let eqs : (unifi_os ≡ p) × (rest ≡ s) = ground arith in
      (inr (sym eqs.0), strip_sound unifi_os t e' ∙ ap₂ (λ x y. x ++ y) eqs.0 eqs.1)
  | inr (rest, e) ↦
      let h' = rw (e, product_of) at h in
      let eqs : (network ≡ p) × (rest ≡ s) = ground arith in
      (inl (sym eqs.0), strip_sound network t e ∙ ap₂ (λ x y. x ++ y) eqs.0 eqs.1)
]

at_end_sound : (e : Text) → at_end e ≡ true → IsEnd e
unfolding at_end
at_end_sound [] h = inl refl
at_end_sound (c ∷ []) h = inr (ap (λ x. x ∷ []) ((==_iff c b'\n').0 h))
at_end_sound (c ∷ d ∷ e) h = cc

finish_sound : (b : Bool) (r s : Release) → finish b r ≡ some s → (b ≡ true) × (r ≡ s)
unfolding finish
finish_sound true r s h = (refl, ground arith)
finish_sound false r s h = cc

Spells-join :
    (p u n e : Text) {t s s' s'' w : Text}
    → IsProduct p
    → IsVersion u
    → IsNumber n
    → IsEnd e
    → t ≡ p ++ s
    → s ≡ b'/' ∷ s'
    → s' ≡ u ++ s''
    → s'' ≡ b'-' ∷ w
    → w ≡ n ++ e
    → Spells t (record { product = p; upstream = u; revision = int_value n })
Spells-join p u n e hp hu hn he e1 e2 e3 e4 e5 = record {
  product = hp;
  upstream = hu;
  number = n;
  number_IsNumber = hn;
  revision = refl;
  end = e;
  end_IsEnd = he;
  spelling =
      e1
      ∙ ap (λ x. p ++ x)
          (e2 ∙ ap (λ x. b'/' ∷ x) (e3 ∙ ap (λ x. u ++ x) (e4 ∙ ap (λ x. b'-' ∷ x) e5)));
}

-- A text that is parsed spells the release.
pub parse_sound : (t : Text) (r : Release) → parse t ≡ some r → Spells t r
unfolding parse
parse_sound t r h =
    let (p, e1, h1) = >>=-eq-some (product_of t) _ h in
    let (s, e2, h2) = >>=-eq-some (char b'/' p.1) _ h1 in
    let (u, e3, h3) = >>=-eq-some (dotted s) _ h2 in
    let (s', e4, h4) = >>=-eq-some (char b'-' u.1) _ h3 in
    let (n, e5, h5) = >>=-eq-some (digits1 s') _ h4 in
    let (fin, e6) = finish_sound (at_end n.1) _ r h5 in
    let (hp, t1) = product_of_sound t p.0 p.1 e1 in
    let (hu, t3, _) = dotted_sound s u.0 u.1 e3 in
    let (hn, t5, _) = digits1_sound s' n.0 n.1 e5 in
    subst (Spells t) e6 (
      Spells-join p.0 u.0 n.0 n.1 hp hu hn (at_end_sound n.1 fin) t1 (char_sound b'/' p.1 s e2) t3
        (char_sound b'-' u.1 s' e4) t5)

-- A text is parsed as a release exactly if it spells it.
pub parse_iff : (t : Text) (r : Release) → (parse t ≡ some r) ↔ Spells t r
parse_iff t r = (parse_sound t r, parse_complete t r)

-- The tag of a release of a known product and a dotted version is parsed as that release.
pub parse-git_tag :
    (r : Release) → IsProduct r.product → IsVersion r.upstream → parse (git_tag r) ≡ some r
unfolding git_tag
parse-git_tag r hp hu = parse_complete _ r (record {
  product = hp;
  upstream = hu;
  number = decimal r.revision;
  number_IsNumber = decimal-IsNumber r.revision;
  revision = sym (int_value-decimal r.revision);
  end = [];
  end_IsEnd = inl refl;
  spelling = rw append-nil;
})
