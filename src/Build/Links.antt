-- ===== src/Build/Links.antt =====
-- build.rs: what is linked, run and bound by a run that does not panic.
use Prim.Native.String.{String, ◌++◌ as ◌<>◌}
use liburing_rs.Base.{◌≡◌, refl, sym, subst, Bool, true, false, List, [], ◌∷◌, ◌++◌}
use liburing_rs.Base.Outcome.{StdResult, ok, err}
use liburing_rs.Build.Defs.{
  Command, git_clone, configure, make, Event, link_lib, ran, generated, Host, join, min_version,
  liburing_dir, main,
}
use liburing_rs.Build.Laws.{linked, fetched, probed_first, main_log}

-- The libraries that cargo is told to link, the commands run, and the headers bound, in order.
abbrev pub libraries : List Event → List String
libraries [] = []
libraries (link_lib l ∷ es) = l ∷ libraries es
libraries (_ ∷ es) = libraries es

abbrev pub commands : List Event → List Command
commands [] = []
commands (ran c ∷ es) = c ∷ commands es
commands (_ ∷ es) = commands es

abbrev pub headers : List Event → List String
headers [] = []
headers (generated h i ∷ es) = h ∷ headers es
headers (_ ∷ es) = headers es

abbrev pub first_header : List String → List String
first_header [] = []
first_header (include ∷ more) = join include "liburing.h" ∷ []

module _ (host : Host) where
  abbrev pub clone_commands : Bool → List Command
  clone_commands true = []
  clone_commands false = git_clone ("liburing-" <> min_version) (liburing_dir host) ∷ []

  -- With the library found, and with it not found.
  abbrev pub Linked : StdResult (List String) String → List Event → Type 0
  Linked (ok include_paths) log =
      (libraries log ≡ "uring" ∷ [])
      × (commands log ≡ [])
      × (headers log ≡ first_header include_paths)
  Linked (err e) log =
      (libraries log ≡ "static=uring-ffi" ∷ [])
      × (commands log ≡ clone_commands (host.exists (liburing_dir host)) ++ configure ∷ make ∷ [])
      × (headers log ≡ join (liburing_dir host) "src/include/liburing.h" ∷ [])

  linked-Linked :
      (p : StdResult (List String) String) (b : Bool)
      → host.exists (liburing_dir host) ≡ b
      → Linked p (linked host p (probed_first host))
  linked-Linked (ok []) b e = (refl, refl, refl)
  linked-Linked (ok (include ∷ more)) b e = (refl, refl, refl)
  linked-Linked (err x) true e = rw (e, fetched) (refl, refl, refl)
  linked-Linked (err x) false e = rw (e, fetched) (refl, refl, refl)

  -- A run of the script that does not panic tells cargo to link one library. If pkg-config finds
  -- liburing, that is `uring`; no command is run, and the bindings are those of `liburing.h` in the
  -- first include path, or none at all if there is no include path. If not, it is the static
  -- `uring-ffi`; liburing is cloned unless its directory is there, configured and made, in this
  -- order, and the bindings are those of the header in it.
  pub main-Linked : (main host []).0 ≡ ok tt → Linked host.probe (main host []).1
  main-Linked h =
      subst (Linked host.probe) (sym (main_log host h))
        (linked-Linked host.probe (host.exists (liburing_dir host)) refl)
