-- ===== src/Lib.antt =====
-- A model of unifi-containers: the release lane that tags, publishes and slides container images, and
-- the runtime inside the images that seeds a console, tells its readiness and supervises it.
--
-- Parts and files of the release lane:
-- - Prelude, Text: lists, results, loops; Python texts as lists of code points, the decimal digits
--   of Unicode, `int` and `str` on them, and the regular expressions of the program as scanners.
-- - Packaging: `packaging.version.Version`, a parameter, with its documented order.
-- - Release: src/unifi_containers/release.py, a function for each function of the file.
-- - Slide: src/unifi_containers/slide_tags.py. `docker buildx` is a parameter over a registry state.
-- - Failure, Plan: src/unifi_containers/release_plan.py. The plan's outputs are the tags that Slide moves.
-- - Pins: src/unifi_containers/pins.py, over a function from paths to texts.
-- - Updater: src/unifi_containers/updaters/network.py: the pins in the Dockerfile and their check, and in
--   Bump the choice of the version and the bump. Its downloads are parameters, and replacement texts
--   are taken to have no backslash.
-- - UosUpdater: src/unifi_containers/updaters/uos.py: Bump has `bump`, Verify has `verify`.
-- - Gitops: src/unifi_containers/gitops.py: tags and pushes, and in Worktree branches, commits and the
--   reset to a remote's branch. libgit2 is a parameter, the records `Git` and `Work`.
-- - Forge: src/unifi_containers/forge.py. pyforgejo is a parameter, the record `Api`.
-- - Lanes: src/unifi_containers/update.py: a lane resets the worktree, runs an updater, a parameter here,
--   pushes a branch (Gitops) and lands a pull request (Forge).
-- - Cut: src/unifi_containers/cut_release.py: it fetches the tags (Gitops), asks the pins (Pins) and the
--   tags (Release) which releases are due, and tags and pushes them (Gitops).
-- - ExtractUos: src/unifi_containers/extract_uos.py, and verify_sha256 of src/unifi_containers/download.py.
-- - Simkeys: src/unifi_containers/simkeys.py, over what the readers of deb, tar and zip give.
-- - MakeSeed: src/unifi_containers/make_seed.py, over a function from the actions so far, which answers
--   for every call that may fail.
-- - Cli: src/unifi_containers/cli.py, the commands that decide something: cut-release (Cut), update (Lanes)
--   and verify-pins.
-- - Docker: src/unifi_containers/docker.py: State reads the daemon's answers; the wait runs on fuel of one
--   poll more than the timeout has seconds, which is enough if a second passes between two polls; the
--   program sleeps five.
--
-- Parts and files of the runtime. The world outside (controller, console, processes, disk) is in each
-- a function from what has been asked and done so far, so that every behaviour of it is covered:
-- - Health: src/unifi_runtime/healthcheck.py, the marker gate and the staged check.
-- - Readyz: src/unifi_runtime/readyz.py. The gate that the server's threads share is a step relation on
--   what one thread does at a time; its paths are the interleavings.
-- - Settings: src/unifi_runtime/env.py.
-- - Sysprops: src/unifi_runtime/sysprops.py, and in Demo src/unifi_runtime/entrypoint/demo.py. The copy of
--   javaproperties is a parameter, the record `Library`, with what it documents in `IsLibrary`.
-- - Seed: src/unifi_runtime/seed/uos_owner.py. Its loops run over their numbers of attempts, the
--   constants of the file.
-- - Supervisor: src/unifi_runtime/entrypoint/network.py: the shutdown ladder, and in Run the start of the
--   controller and the wait for it. Times are milliseconds, and only waits and pauses take time.
-- - NetworkBoot: src/unifi_runtime/entrypoint/network.py up to the supervisor: Java has the command line
--   of the controller, Hooks and Cleared are about what `main`, in Sequence, does before it.
-- - Boot: src/unifi_runtime/entrypoint/uos.py, in four parts. Settings has the files that it writes for
--   the units and what the seed (src/unifi_runtime/seed/uos_owner.py) reads out of them; systemd is a
--   parameter, a reader of such files that reads the lines KEY='value' whose value has no single quote;
--   it treats other quotes unlike the shell that `_quote` follows. Links moves the paths of the image to
--   the volume, over trees with owners. Stamps has the UUID and the version stamps. Sequence is `main`.
-- - Json, Http, Clients: src/unifi_runtime/http.py and the calls of src/unifi_runtime/unifi/, each as the
--   request that it sends and what it reads of the answer. `urllib` and `json` are parameters.
-- - Probes: the probes of src/unifi_runtime/healthcheck.py over Clients, in Main its `main`, and
--   `demo_settings` of src/unifi_runtime/entrypoint/demo.py. They share their settings with the seed through Boot.
-- - Vendorcheck: src/unifi_runtime/vendorcheck.py, on the files behind the stamps of Boot.
-- - Selfcheck: src/unifi_runtime/selfcheck.py.
-- - Wizard: src/unifi_runtime/seed/network_wizard.py, over Clients, on the 60 attempts of the file.
--
-- Exceptions are values of a result type. Texts for a reader are left out. Loops over lists and over
-- attempts are structural. Not modelled: CPython's limit of 4300 digits in `int` and `str`, the vendored
-- javaproperties library, the programs that the code starts, the drivers of docker and of archives in
-- testing.py of src/unifi_containers, and the commands that only hand their arguments on.
pub mod Prelude
pub mod Sysprops
pub mod Text
pub mod Packaging
pub mod Release
pub mod Slide
pub mod ExtractUos
pub mod Failure
pub mod Plan
pub mod Pins
pub mod Forge
pub mod Gitops
pub mod Cut
pub mod Json
pub mod Http
pub mod Clients
pub mod Wizard
pub mod Health
pub mod Readyz
pub mod Updater
pub mod UosUpdater
pub mod Lanes
pub mod Cli
pub mod Docker
pub mod Settings
pub mod Seed
pub mod MakeSeed
pub mod Simkeys
pub mod Vendorcheck
pub mod Selfcheck
pub mod Boot
pub mod Probes
pub mod NetworkBoot
pub mod Supervisor
