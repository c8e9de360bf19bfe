-- ===== src/Vendorcheck/Tests.antt =====
-- A script that reads two stamps, and the theorem on the check at it.
use unifi_containers.Prelude.{◌≡◌, refl, ◌↔◌, Has, some, [], ◌∷◌}
use unifi_containers.Text.{Text, codes, strip}
use unifi_containers.Vendorcheck.{
  Image, stamp_reads, reads_from, read_at, path_in, path_here, span_path, is_path_char, closed,
  check,
}
use unifi_containers.Vendorcheck.Reads.{Reads}
use unifi_containers.Vendorcheck.Scanned.{stamp_reads_iff}
use unifi_containers.Vendorcheck.Passed.{Passes, check_iff}
use unifi_containers.Text.Words.{is_space}

abbrev script : Text
script = codes "M=$(cat /usr/lib/app_model )\nV=$(cut -d. -f1 /usr/lib/version) $(id /etc)"

reads_run : reads_from 0 script ≡ codes "/usr/lib/app_model" ∷ codes "/usr/lib/version" ∷ []
unfolding reads_from read_at path_in path_here span_path is_path_char closed strip is_space
reads_run = refl

abbrev image : Image
image = record {
  app_model = some (codes "UOSSERVER");
  files = λ path. some (codes "1");
  script = some script;
  id_status = 0;
  id_output = codes "board.sysid=0x1\nboard.shortname=UOSSERVER\n";
}

check_iff_example : (check image ≡ 0) ↔ Passes image
check_iff_example = check_iff image

stamp_reads_iff_example :
    Has (codes "/usr/lib/version") (stamp_reads script) ↔ Reads (codes "/usr/lib/version") script
stamp_reads_iff_example = stamp_reads_iff script (codes "/usr/lib/version")
