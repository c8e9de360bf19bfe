-- ===== src/Cut/Tests.antt =====
-- A repository for the tests: the list of its references, with pushes that the remote accepts.
use unifi_containers.Prelude.{◌≡◌, refl, inl, true, false, Option, none, some, List, [], ◌∷◌, ◌++◌}
use unifi_containers.Prelude.Results.{ok}
use unifi_containers.Prelude.Loops.{for_each}
use unifi_containers.Packaging.Numbered.{numbered, numbered-IsOrdered, read_numbers, read_post}
use unifi_containers.Text.{Text, codes, text_eq, strip, is_in}
use unifi_containers.Text.Digits.{is_digit, digit_value, value_from, digit_or_zero}
use unifi_containers.Text.Decimal.{decimal, int_value}
use unifi_containers.Plan.{raised}
use unifi_containers.Pins.{truthy, pin_file, pinned_version, read_text}
use unifi_containers.Text.Scan.{IsVersion, dotted, digits1, span_digits, at_end}
use unifi_containers.Release.{
  Release, network, unifi_os, git_tag, next_release, builds_of, parse, max_revision, max_release,
  max_from, add_parsed, finish, version, read_version,
}
use unifi_containers.Release.Tests.{
  ten_four_fifty, ten_four_fifty-IsVersion, some_tags, builds_of-Readable,
}
use unifi_containers.Gitops
use unifi_containers.Gitops.{
  Git, Report, tags_prefix, tag_names, accepted, rejected, verdict, IsGit,
}
use unifi_containers.Cut
use unifi_containers.Cut.{
  Reason, already_released, pins_changed, rebuilding, decide, decide_rebuild, publish_one, publish,
  choose_all, cut, choose, after_top, decide_pinned,
}
use unifi_containers.Cut.Settled.{decide_settled}
use unifi_containers.Cut.Published.{Published, cut_pushed}

abbrev repository : Git
repository = record {
  W = List Text;
  references = λ w. w;
  create_ref = λ name w. name ∷ w;
  fetch = λ url w. (true, w);
  push_refspec = λ url refspec w. (some ((refspec, none) ∷ []), w);
  blob = λ w tag path. some (codes "pins");
}

repository-IsGit : IsGit repository
repository-IsGit = record { references-create_ref = λ name w. refl }

-- The pins of the product, whatever the file.
abbrev dotenv : Text → Text → Option Text
dotenv text key = some (codes "5.1.21")

abbrev files : Text → Option Text
files path = some (codes "pins")

abbrev due : Release
due = next_release some_tags network ten_four_fifty

fourth-tag : git_tag due ≡ codes "network/10.4.57-4"
unfolding git_tag next_release decimal int_value max_revision builds_of parse strip dotted digits1
    span_digits is_digit digit_value at_end text_eq value_from digit_or_zero
fourth-tag = refl

decide_settled_example :
    decide numbered network (some ten_four_fifty) (some_tags ++ (git_tag due ∷ [])) none
    ≡ ok (none, already_released (git_tag due))
decide_settled_example =
    decide_settled numbered numbered-IsOrdered some_tags network ten_four_fifty (inl refl)
      ten_four_fifty-IsVersion none (λ f e. cc)
      (builds_of-Readable (some_tags ++ (git_tag due ∷ [])) network ten_four_fifty)

pinned_IsVersion : (u : Text) → some ten_four_fifty ≡ some u → IsVersion u
pinned_IsVersion u e = let same : ten_four_fifty ≡ u = cc in rw (← same) ten_four_fifty-IsVersion

changed_run :
    decide numbered network (some ten_four_fifty) some_tags (some (λ tag. true))
    ≡ ok (some due, pins_changed (codes "network/10.4.57-3"))
unfolding decide decide_pinned truthy max_release max_from raised after_top add_parsed finish
    git_tag version read_version read_numbers read_post decimal int_value max_revision builds_of
    parse strip dotted digits1 span_digits is_digit digit_value at_end text_eq value_from
    digit_or_zero
changed_run = refl

rebuild_run : decide_rebuild network (some ten_four_fifty) some_tags ≡ (some due, rebuilding)
unfolding decide_rebuild truthy decimal int_value max_revision builds_of parse strip dotted digits1
    span_digits is_digit digit_value at_end text_eq value_from digit_or_zero
rebuild_run = refl

abbrev before : List Text
before = codes "refs/tags/unifi-os/5.1.20-1" ∷ []

abbrev first_build : Release
first_build = record { product = unifi_os; upstream = codes "5.1.21"; revision = 1 }

cut_run :
    cut numbered repository dotenv files (codes "url") (unifi_os ∷ []) true false before
    ≡ (ok (first_build ∷ []), codes "refs/tags/unifi-os/5.1.21-1" ∷ before)
unfolding cut choose_all pin_file pinned_version read_text truthy decide decide_pinned max_release
    raised finish git_tag version Gitops.fetch_tags Gitops.tags Gitops.create_tag Gitops.push
    tag_names is_in publish publish_one for_each verdict accepted rejected next_release Cut.finish
    choose add_parsed decimal int_value max_revision builds_of parse strip dotted digits1
    span_digits is_digit digit_value at_end text_eq value_from digit_or_zero
cut_run = refl

cut_pushed_example :
    (choose_all numbered repository dotenv files false
        (Gitops.tags repository before)
        before
        (unifi_os ∷ [])
      ≡ ok (first_build ∷ []))
    × Published repository
        (codes "url")
        (first_build ∷ [])
        before
        (codes "refs/tags/unifi-os/5.1.21-1" ∷ before)
unfolding Gitops.fetch_tags
cut_pushed_example =
    cut_pushed numbered repository dotenv files (codes "url") (unifi_os ∷ []) false before
      (codes "refs/tags/unifi-os/5.1.21-1" ∷ before) (first_build ∷ []) cut_run
