-- ===== src/Host/Sandbox.antt =====
-- `bubblewrap_command` and its helpers in host.py. Paths are those that `resolve` returns;
-- `bwrap` is what `_command("bwrap")` finds, and `system` what `_system_mounts` and
-- `_python_mounts` find on the host.
use shuttle_gate.Base.{
  String, Bool, true, false, not, ◌&&◌, ◌||◌, Option, none, some, List, [], ◌∷◌, ◌++◌, map,
  concat_map, length, is_empty, ltb, ◌==◌, string_eq, nat_eq, if◌then◌else◌,
}
use shuttle_gate.Errors.{value_error, host_error, Result, ok, ◌>>◌, raise_if}
use shuttle_gate.FilePath.{FilePath, path, path_text, path_eq, ◌/◌}
use shuttle_gate.FilePath.Sorted.{before}

pub record RuntimePaths : Type 0 where
  pub instance_id : String
  pub unit_name : String
  pub root : FilePath
  pub inputs : FilePath
  pub output : FilePath
  pub launch : FilePath
  pub bundle : FilePath

abbrev system_path : String
system_path = "/usr/local/sbin:/usr/local/bin:/usr/sbin:/usr/bin:/sbin:/bin"

abbrev is_prefix : List String → List String → Bool
is_prefix [] names = true
is_prefix (n ∷ rest) [] = false
is_prefix (n ∷ rest) (m ∷ names) = (n == m) && is_prefix rest names

-- path.is_relative_to(base)
unfoldable pub is_relative_to : FilePath → FilePath → Bool
is_relative_to p base =
    (if p.absolute then base.absolute else not base.absolute) && is_prefix base.names p.names

unfoldable pub validate_root_separation : FilePath → FilePath → Result (Unit {0})
validate_root_separation application instance_root =
    raise_if
      (instance_root == application
        || is_relative_to instance_root application
        || is_relative_to application instance_root)
      (host_error "instance and application directories must be separate and non-overlapping")

-- The parents of a path, without "/", the shortest first.
abbrev pub ancestors : List String → List String → List FilePath
ancestors above [] = []
ancestors above (n ∷ []) = []
ancestors above (n ∷ m ∷ rest) =
    record { absolute = true; names = above ++ n ∷ [] } ∷ ancestors (above ++ n ∷ []) (m ∷ rest)

-- The sort key (len(item.parts), str(item)).
abbrev pub shallower : FilePath → FilePath → Bool
shallower p q =
    ltb (length p.names) (length q.names) || ((length p.names == length q.names) && before p q)

unfoldable pub insert_parent : FilePath → List FilePath → List FilePath
insert_parent p [] = p ∷ []
insert_parent p (q ∷ parents) =
    let later = insert_parent p parents in
    if p == q then q ∷ parents else if shallower p q then p ∷ q ∷ parents else q ∷ later

unfoldable pub sorted_parents : List FilePath → List FilePath
sorted_parents [] = []
sorted_parents (p ∷ parents) = insert_parent p (sorted_parents parents)

-- `_add_parent_directories`: the words it adds.
unfoldable pub parent_directories : List FilePath → List FilePath
parent_directories destinations =
    sorted_parents (concat_map (λ d. ancestors [] d.names) destinations)

unfoldable pub directory_words : List FilePath → List String
directory_words destinations =
    concat_map (λ p. "--dir" ∷ path_text p ∷ []) (parent_directories destinations)

abbrev pub Mounts : Type 0
Mounts = List (FilePath × FilePath)

unfoldable pub output_mount : FilePath
unfolding path
output_mount = path "/run/shuttle-gate/output"

module _ (instance_root application : FilePath) where
  -- The mounts of an operator command, or of the service.
  unfoldable pub own_mounts : Option RuntimePaths → Mounts
  own_mounts none = (application, application) ∷ (instance_root, instance_root) ∷ []
  own_mounts (some runtime) =
      (runtime.bundle, path "/opt/shuttle-gate/application.pyz")
      ∷ (runtime.launch, path "/run/shuttle-gate/launch.json")
      ∷ (instance_root / "config.yaml", path "/config/config.yaml")
      ∷ (instance_root / "secrets", path "/secrets")
      ∷ (instance_root / "state", path "/state")
      ∷ (runtime.output, output_mount)
      ∷ []

  unfoldable pub mount_mode : Option RuntimePaths → Bool → FilePath → FilePath → String
  mount_mode none read_only source destination =
      if source == instance_root && destination == instance_root
      then if read_only then "--ro-bind" else "--bind"
      else "--ro-bind"
  mount_mode (some runtime) read_only source destination =
      if destination == output_mount then "--bind" else "--ro-bind"

  abbrev mount_words : Option RuntimePaths → Bool → Mounts → List String
  mount_words runtime read_only =
      concat_map λ m. mount_mode runtime read_only m.0 m.1 ∷ path_text m.0 ∷ path_text m.1 ∷ []

  abbrev when : Bool → List String → List String
  when true words = words
  when false words = []

  abbrev is_operator : Option RuntimePaths → Bool
  is_operator none = true
  is_operator (some runtime) = false

  abbrev isolation_words : Bool → Bool → List String
  isolation_words operator network_namespace =
      when (operator && not network_namespace)
        ("--unshare-user" ∷ "--uid" ∷ "0" ∷ "--gid" ∷ "0" ∷ [])
      ++ ("--unshare-pid" ∷ "--unshare-ipc" ∷ "--unshare-uts" ∷ []
          ++ (when (not network_namespace) ("--unshare-net" ∷ [])
              ++ ("--hostname" ∷ "shuttle-gate" ∷ "--new-session" ∷ "--die-with-parent"
                    ∷ "--cap-drop" ∷ "ALL" ∷ []
                  ++ (when network_namespace ("--cap-add" ∷ "CAP_NET_ADMIN" ∷ [])
                      ++ ("--proc" ∷ "/proc" ∷ "--dev" ∷ "/dev" ∷ "--tmpfs" ∷ "/tmp" ∷ []
                          ++ when operator ("--tmpfs" ∷ "/run" ∷ []))))))

  abbrev setenv : String → String → List String
  setenv name value = "--setenv" ∷ name ∷ value ∷ []

  abbrev environment_words : Bool → List String
  environment_words operator =
      "--clearenv"
      ∷ (setenv "HOME" "/tmp/home"
          ++ (setenv "LANG" "C.UTF-8"
              ++ (setenv "LC_ALL" "C.UTF-8"
                  ++ (setenv "PATH" system_path
                      ++ (setenv "PYTHONDONTWRITEBYTECODE" "1"
                          ++ (setenv "PYTHONPATH" (
                                if operator
                                then path_text (application / "src")
                                else "/opt/shuttle-gate/application.pyz")
                              ++ (setenv "SHUTTLE_GATE_ROOT"
                                    (if operator then path_text instance_root else "/workspace")
                                  ++ (setenv "SHUTTLE_GATE_LAUNCHER"
                                        (path_text (application / "shuttle-gate"))
                                      ++ (setenv "SHUTTLE_GATE_INSTANCE" (path_text instance_root)
                                          ++ (if operator
                                              then setenv "SHUTTLE_GATE_APPLICATION_ROOT"
                                                  (path_text application)
                                              else setenv "SHUTTLE_GATE_CONFIG"
                                                  "/config/config.yaml"
                                                ++ (setenv "SHUTTLE_GATE_STATE" "/state"
                                                    ++ (setenv "SHUTTLE_GATE_RUNTIME"
                                                          "/run/shuttle-gate/output"
                                                        ++ (setenv "SHUTTLE_GATE_LAUNCH"
                                                            "/run/shuttle-gate/launch.json"
                                                            ++ setenv "SHUTTLE_GATE_BUNDLE"
                                                            "/opt/shuttle-gate/application.pyz")))))))))))))

  abbrev lock_words : Bool → List String
  lock_words operator =
      when (not operator)
        ("--bind" ∷ path_text (instance_root / "state" / ".state.lock") ∷ "/state/.state.lock" ∷ [])

  unfoldable pub bubblewrap_command :
      String → Mounts → List String → Bool → Bool → Option RuntimePaths → Result (List String)
  bubblewrap_command bwrap system command network_namespace read_only runtime = do
    raise_if (is_empty command) (value_error "sandbox command must not be empty")
    validate_root_separation application instance_root
    ok (
        bwrap
        ∷ (isolation_words operator network_namespace
            ++ (directory_words (path "/tmp/home" ∷ map (λ m. m.1) mounts)
                ++ ("--dir" ∷ "/tmp/home" ∷ []
                    ++ (mount_words runtime read_only mounts
                        ++ (lock_words operator
                            ++ (environment_words operator
                                ++ ("--chdir"
                                    ∷ (if operator then path_text instance_root else "/")
                                    ∷ "--"
                                    ∷ command))))))))
    where
      operator : Bool
      operator = is_operator runtime

      mounts : Mounts
      mounts = system ++ own_mounts runtime
