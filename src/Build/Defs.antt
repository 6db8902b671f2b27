-- ===== src/Build/Defs.antt =====
-- build.rs: what the script prints, runs and generates, in order. What pkg-config, git, the makefiles
-- and bindgen answer is a parameter; a path is a text, and a panic is the error of a step.
use Prim.Native.String.{String, ◌++◌ as ◌<>◌}
use liburing_rs.Base.{Bool, true, false, Option, none, some, List, [], ◌∷◌, ◌++◌}
use liburing_rs.Base.Outcome.{StdResult, ok, err, Step, ◌>>=◌, ◌>>◌, pure}

pub data Command : Type 0 where
  git_clone : String → String → Command
  configure : Command
  make : Command

pub data Event : Type 0 where
  -- the lines that cargo reads
  rerun_if_changed : String → Event
  link_lib : String → Event
  link_search : String → Event
  warning : String → Event
  -- pkg-config is asked, with or without printing its own lines
  probed : Bool → Event
  ran : Command → Event
  -- the bindings of a header are generated and written
  generated : String → String → Event
  wrote : String → Event

pub record Host : Type 0 where
  -- the include paths of the library, or the text of the error
  pub probe : StdResult (List String) String
  pub probe_again : Bool
  -- `OUT_DIR`, which cargo sets
  pub out_dir : String
  pub exists : String → Bool
  -- whether the command ended well; `none` if it was not found
  pub status : Command → Option Bool
  pub generates : String → String → Bool
  pub writes : String → Bool

abbrev pub join : String → String → String
join a b = a <> "/" <> b

abbrev pub Script : Type 0 → Type 0
Script A = Step (List Event) (Unit {0}) A

abbrev pub emit : Event → Script (Unit {0})
emit e log = (ok tt, log ++ e ∷ [])

-- `unwrap`, `expect` and the checks of a status
abbrev pub demand : Bool → Script (Unit {0})
demand true log = (ok tt, log)
demand false log = (err tt, log)

abbrev pub succeeded : Option Bool → Bool
succeeded none = false
succeeded (some b) = b

abbrev pub min_version : String
min_version = "2.12"

module _ (host : Host) where
  abbrev pub run_command : Command → Script (Unit {0})
  run_command c = do emit (ran c); demand (succeeded (host.status c))

  unfoldable pub generate_bindings : String → String → Script (Unit {0})
  generate_bindings header include = do
    emit (generated header include)
    demand (host.generates header include)
    emit (wrote (join host.out_dir "bindings.rs"))
    demand (host.writes (join host.out_dir "bindings.rs"))
    emit (rerun_if_changed header)

  abbrev pub bind_first : List String → Script (Unit {0})
  bind_first [] = pure tt
  bind_first (include ∷ more) = generate_bindings (join include "liburing.h") include

  abbrev pub located : StdResult (List String) String → Script Bool
  located (err e) = do
    emit (warning ("Couldn't find liburing from pkg-config (" <> e <> ")"))
    pure false
  located (ok include_paths) = do
    emit (probed true)
    demand host.probe_again
    bind_first include_paths
    pure true

  unfoldable pub try_pkg_config : Script Bool
  try_pkg_config = do emit (probed false); located host.probe

  abbrev pub liburing_dir : String
  liburing_dir = join host.out_dir "liburing-src"

  abbrev pub clone_unless : Bool → Script (Unit {0})
  clone_unless true = pure tt
  clone_unless false = do
    emit (warning ("Cloning liburing " <> min_version <> " from GitHub..."))
    run_command (git_clone ("liburing-" <> min_version) liburing_dir)

  unfoldable pub build_from_source : Script (Unit {0})
  build_from_source = do
    clone_unless (host.exists liburing_dir)
    emit (warning "Building liburing from source...")
    run_command configure
    run_command make
    emit (link_search (join liburing_dir "src"))
    generate_bindings (join liburing_dir "src/include/liburing.h") (join liburing_dir "src/include")
    emit (warning ("Successfully built liburing " <> min_version <> " from source"))

  abbrev pub link_or_build : Bool → Script (Unit {0})
  link_or_build true = emit (link_lib "uring")
  link_or_build false = do emit (link_lib "static=uring-ffi"); build_from_source

  unfoldable pub main : Script (Unit {0})
  main = do emit (rerun_if_changed "build.rs"); found ← try_pkg_config; link_or_build found
