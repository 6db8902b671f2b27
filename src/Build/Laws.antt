-- ===== src/Build/Laws.antt =====
-- build.rs: what a run that does not panic has done.
use Prim.Native.String.{String, ◌++◌ as ◌<>◌}
use liburing_rs.Base.{◌≡◌, Bool, true, false, List, [], ◌∷◌, ◌++◌, arith}
use liburing_rs.Base.Outcome.{StdResult, ok, err, ◌>>=◌, ◌>>◌}
use liburing_rs.Build.Defs.{
  git_clone, configure, make, Event, rerun_if_changed, link_lib, link_search, warning, probed, ran,
  generated, wrote, Host, join, Script, emit, min_version, run_command, generate_bindings, located,
  try_pkg_config, liburing_dir, clone_unless, build_from_source, link_or_build, main,
}

module _ (host : Host) where
  abbrev bound : String → String → List Event → List Event
  bound header include log =
      ((log ++ generated header include ∷ []) ++ wrote (join host.out_dir "bindings.rs") ∷ [])
      ++ rerun_if_changed header ∷ []

  bindings_lem :
      (header include : String) (log : List Event)
      → (generate_bindings host header include log).0 ≡ ok tt
      → (generate_bindings host header include log).1 ≡ bound header include log
  unfolding generate_bindings
  bindings_lem header include log h = ground arith

  abbrev pub fetched : Bool → List Event → List Event
  fetched true log = log
  fetched false log =
      (log ++ warning ("Cloning liburing " <> min_version <> " from GitHub...") ∷ [])
      ++ ran (git_clone ("liburing-" <> min_version) (liburing_dir host)) ∷ []

  abbrev pub built : List Event → List Event
  built log =
      bound (join (liburing_dir host) "src/include/liburing.h")
        (join (liburing_dir host) "src/include")
        ((((log ++ warning "Building liburing from source..." ∷ []) ++ ran configure ∷ [])
            ++ ran make ∷ [])
          ++ link_search (join (liburing_dir host) "src") ∷ [])
      ++ warning ("Successfully built liburing " <> min_version <> " from source") ∷ []

  abbrev pub probed_first : List Event
  probed_first = rerun_if_changed "build.rs" ∷ probed false ∷ []

  abbrev pub linked : StdResult (List String) String → List Event → List Event
  linked (err e) log = built (
      fetched (host.exists (liburing_dir host)) (
        (log ++ warning ("Couldn't find liburing from pkg-config (" <> e <> ")") ∷ [])
        ++ link_lib "static=uring-ffi" ∷ []))
  linked (ok []) log = (log ++ probed true ∷ []) ++ link_lib "uring" ∷ []
  linked (ok (include ∷ more)) log =
      bound (join include "liburing.h") include (log ++ probed true ∷ []) ++ link_lib "uring" ∷ []

  abbrev pub behind_clone : Script (Unit {0})
  behind_clone = do
    emit (warning "Building liburing from source...")
    run_command host configure
    run_command host make
    emit (link_search (join (liburing_dir host) "src"))
    generate_bindings host (join (liburing_dir host) "src/include/liburing.h")
        (join (liburing_dir host) "src/include")
    emit (warning ("Successfully built liburing " <> min_version <> " from source"))

  behind_lem : (log : List Event) → (behind_clone log).0 ≡ ok tt → (behind_clone log).1 ≡ built log
  behind_lem log h = ground (
    arith,
    bindings_lem (join (liburing_dir host) "src/include/liburing.h")
        (join (liburing_dir host) "src/include")
        ((((log ++ warning "Building liburing from source..." ∷ []) ++ ran configure ∷ [])
            ++ ran make ∷ [])
          ++ link_search (join (liburing_dir host) "src") ∷ []),
  )

  source_lem :
      (b : Bool) (log : List Event)
      → ((clone_unless host b >> behind_clone) log).0 ≡ ok tt
      → ((clone_unless host b >> behind_clone) log).1 ≡ built (fetched b log)
  source_lem true log h = behind_lem log h
  source_lem false log h = ground (arith, behind_lem (fetched false log))

  located_lem :
      (p : StdResult (List String) String) (log : List Event)
      → ((located host p >>= link_or_build host) log).0 ≡ ok tt
      → ((located host p >>= link_or_build host) log).1 ≡ linked p log
  unfolding build_from_source
  located_lem (err e) log h = source_lem (host.exists (liburing_dir host)) _ h
  located_lem (ok []) log h = ground arith
  located_lem (ok (include ∷ more)) log h =
      ground (arith, bindings_lem (join include "liburing.h") include (log ++ probed true ∷ []))

  pub main_log : (main host []).0 ≡ ok tt → (main host []).1 ≡ linked host.probe (probed_first)
  unfolding main try_pkg_config
  main_log h = located_lem host.probe probed_first h
