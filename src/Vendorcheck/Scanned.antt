-- ===== src/Vendorcheck/Scanned.antt =====
-- `findall` over a script: every path that the script reads is found, and no other. A match that
-- begins inside another is left out, but has its path.
use unifi_containers.Prelude.{
  ℕ, zero, suc, ◌-◌, ◌≡◌, ◌≢◌, refl, sym, ◌∙◌, ap, subst, ◌⊎◌, inl, inr, Option-cases, [], ◌∷◌,
  ◌++◌, Has, ◌↔◌, append_assoc, arith, length, length-append,
}
use unifi_containers.Text.{Text}
use unifi_containers.Simkeys.Order.{sorted_set_sound, sorted_set_complete}
use unifi_containers.Vendorcheck.{read_at, reads_from, stamp_reads}
use unifi_containers.Vendorcheck.Reads.{opening, Inside, Arguments, Reads, read_at_sound}
use unifi_containers.Vendorcheck.LastWord.{first_parenthesis, parenthesis_cases}
use unifi_containers.Vendorcheck.Complete.{read_at_found, ahead, same_arguments, up_to, up_to_parts}

-- Behind the first `n` characters.
skipped : ℕ → Text → Text
skipped n [] = []
skipped zero (c ∷ t) = c ∷ t
skipped (suc n) (c ∷ t) = skipped n t

skipped-zero : (t : Text) → skipped 0 t ≡ t
unfolding skipped
skipped-zero [] = refl
skipped-zero (c ∷ t) = refl

skipped-length : (x r : Text) → skipped (length x) (x ++ r) ≡ r
unfolding skipped
skipped-length [] r = skipped-zero r
skipped-length (c ∷ x) r = skipped-length x r

skipped-behind : (x t r : Text) → t ≡ x ++ r → skipped (length t - length r) t ≡ r
skipped-behind x t r e =
    let count : length (x ++ r) - length r ≡ length x = omega (arith, length-append x r) in
    ap (λ y. skipped (length y - length r) y) e
    ∙ ap (λ n. skipped n (x ++ r)) count
    ∙ skipped-length x r

-- Behind the first character of a text that a parenthesis closes.
behind_close : (c : ℕ) (t m r : Text) → c ∷ t ≡ m ++ (b')' ∷ r) → (x : Text) × (t ≡ x ++ r)
behind_close c t [] r e = ([], cc e)
behind_close c t (d ∷ m) r e =
    let rest : t ≡ m ++ (b')' ∷ r) = cc e in
    (m ++ (b')' ∷ []), rest ∙ sym (append_assoc m (b')' ∷ []) r))

opening-Inside : Inside opening
opening-Inside = omega arith

later : (c : ℕ) (t path : Text) → Reads path t → Reads path (c ∷ t)
later c t path r = record {
  before = c ∷ r.before;
  rest = r.rest;
  behind = r.behind;
  parts = ap (λ x. c ∷ x) r.parts;
  arguments = r.arguments;
}

no_reads : (path before rest : Text) → [] ≢ before ++ (opening ++ rest)
no_reads path [] rest e = cc e
no_reads path (c ∷ before) rest e = cc e

-- A read that stands at the start, or later.
read_cases :
    (c : ℕ) (t path before rest behind : Text)
    → c ∷ t ≡ before ++ (opening ++ rest)
    → Arguments path rest behind
    → (c ∷ t ≡ opening ++ rest) ⊎ Reads path t
read_cases c t path [] rest behind parts a = inl parts
read_cases c t path (d ∷ before) rest behind parts a =
    inr (record { before = before; rest = rest; behind = behind; parts = cc parts; arguments = a })

-- A read ends where a match from the start does, and has its path, or it stands behind the match.
match_cases :
    (t path p rest : Text) → Reads path t → Arguments p t rest → (path ≡ p) ⊎ Reads path rest
match_cases t path p rest r a = elim (parenthesis_cases r.before) [
  | inl inside ↦
      let longer =
        subst (λ x. Arguments path x r.behind) (sym r.parts)
          (ahead path r.behind r.before (opening ++ r.rest) inside
            (ahead path r.behind opening r.rest opening-Inside r.arguments)) in
      inl ((same_arguments path p t r.behind rest longer a).0)
  | inr (m, u, parts, inside) ↦
      let (whole, inside') = up_to_parts a in
      let split : t ≡ m ++ (b')' ∷ (u ++ (opening ++ r.rest))) =
        r.parts
        ∙ ap (λ x. x ++ (opening ++ r.rest)) parts
        ∙ append_assoc m (b')' ∷ u) (opening ++ r.rest) in
      let (_, same) = first_parenthesis _ m rest _ inside' inside (sym whole ∙ split) in
      inr (record {
        before = u;
        rest = r.rest;
        behind = r.behind;
        parts = same;
        arguments = r.arguments;
      })
]

matched :
    (c : ℕ) (t p rest s : Text)
    → c ∷ t ≡ opening ++ s
    → Arguments p s rest
    → Arguments p (c ∷ t) rest
matched c t p rest s parts a =
    subst (λ x. Arguments p x rest) (sym parts) (ahead p rest opening s opening-Inside a)

reads_from_complete : (n : ℕ) (t path : Text) → Reads path (skipped n t) → Has path (reads_from n t)
unfolding reads_from skipped
reads_from_complete n [] path r = absurd (no_reads path r.before r.rest r.parts)
reads_from_complete (suc n) (c ∷ t) path r = reads_from_complete n t path r
reads_from_complete zero (c ∷ t) path r = elim (Option-cases (read_at (c ∷ t))) [
  | inl unread ↦ elim (read_cases c t path r.before r.rest r.behind r.parts r.arguments) [
    | inl here ↦
        let (x, found) = read_at_found path r.rest r.behind r.arguments in
        absurd (cc (sym unread ∙ ap read_at here ∙ found))
    | inr there ↦
        rw (unread, reads_from)
          (reads_from_complete 0 t path (subst (λ x. Reads path x) (sym (skipped-zero t)) there))
  ]
  | inr ((p, rest), e) ↦
      let (s, parts, a) = read_at_sound (c ∷ t) p rest e in
      let all = matched c t p rest s parts a in
      rw (e, reads_from)
        (elim (match_cases (c ∷ t) path p rest r all) [
          | inl same ↦ inl same
          | inr behind ↦
              let (x, back) = behind_close c t (up_to all) rest (up_to_parts all).0 in
              inr (
                reads_from_complete (length t - length rest) t path
                  (subst (λ y. Reads path y) (sym (skipped-behind x t rest back)) behind))
        ])
]

reads_from_sound : (n : ℕ) (t path : Text) → Has path (reads_from n t) → Reads path t
unfolding reads_from
reads_from_sound n [] path m = absurd m
reads_from_sound (suc n) (c ∷ t) path m = later c t path (reads_from_sound n t path m)
reads_from_sound zero (c ∷ t) path m = elim (Option-cases (read_at (c ∷ t))) [
  | inl unread ↦ later c t path (reads_from_sound 0 t path (rw (unread, reads_from) at m))
  | inr ((p, rest), e) ↦ elim (rw (e, reads_from) at m) [
    | inl here ↦
        let (s, parts, a) = read_at_sound (c ∷ t) p rest e in
        record {
          before = [];
          rest = s;
          behind = rest;
          parts = parts;
          arguments = subst (λ x. Arguments x s rest) (sym here) a;
        }
    | inr there ↦ later c t path (reads_from_sound (length t - length rest) t path there)
  ]
]

-- The matches of the pattern are the paths that the script reads.
reads_from_iff : (t path : Text) → Has path (reads_from 0 t) ↔ Reads path t
reads_from_iff t path = (
  reads_from_sound 0 t path,
  λ r. reads_from_complete 0 t path (subst (λ x. Reads path x) (sym (skipped-zero t)) r),
)

-- A path is listed exactly if it is the last word of a command substitution somewhere in the script:
-- behind `$(`, words without a closing parenthesis and a white space there is `/usr/lib/` with at least
-- one more ASCII letter, digit, `_`, `.`, `/` or `-`, and then nothing but white space up to a `)`.
pub stamp_reads_iff : (script path : Text) → Has path (stamp_reads script) ↔ Reads path script
unfolding stamp_reads
stamp_reads_iff script path = (
  λ m. (reads_from_iff script path).0 (sorted_set_sound path (reads_from 0 script) m),
  λ r. sorted_set_complete path (reads_from 0 script) ((reads_from_iff script path).1 r),
)
