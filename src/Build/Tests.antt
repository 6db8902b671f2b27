-- ===== src/Build/Tests.antt =====
-- Tests of build.rs, and the instance of its theorem.
use liburing_rs.Base.{◌≡◌, refl, true, false, none, some, [], ◌∷◌}
use liburing_rs.Base.Outcome.{ok, err}
use liburing_rs.Build.Defs.{Host, generate_bindings, try_pkg_config, build_from_source, main}
use liburing_rs.Build.Links.{Linked, main-Linked}

-- A machine without liburing, on which everything can be run.
abbrev bare : Host
bare = record {
  probe = err "not found";
  probe_again = false;
  out_dir = "out";
  exists = λ p. false;
  status = λ c. some true;
  generates = λ h i. true;
  writes = λ p. true;
}

-- One with no git, and one with liburing.
abbrev no_git : Host
no_git = record bare { status = λ c. none }

abbrev installed : Host
installed = record bare { probe = ok ("/usr/include" ∷ []); probe_again = true }

bare_builds : (main bare []).0 ≡ ok tt
unfolding main try_pkg_config build_from_source generate_bindings
bare_builds = refl

no_git_panics : (main no_git []).0 ≡ err tt
unfolding main try_pkg_config build_from_source generate_bindings
no_git_panics = refl

installed_links : (main installed []).0 ≡ ok tt
unfolding main try_pkg_config build_from_source generate_bindings
installed_links = refl

main-Linked_example : Linked bare bare.probe (main bare []).1
main-Linked_example = main-Linked bare bare_builds
