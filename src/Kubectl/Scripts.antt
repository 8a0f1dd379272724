-- ===== src/Kubectl/Scripts.antt =====
-- cmd/kubectl-leilfs/cmd/filegoal.go: the scripts that the plugin runs in a pod, and the image it
-- takes for it.
use leilfs_operator.Base.{Bool, [], ◌∷◌, ◌++◌, if◌then◌else◌}
use leilfs_operator.Text.{Text, codes, is_empty, join}
use leilfs_operator.Kubectl.{Fields, normalize_path, extract_string}

abbrev pub mount_point : Text
mount_point = codes "/mnt/saunafs"

-- Five lines with the command as the fourth.
unfoldable pub build_mount_script : Text → Text → Text
build_mount_script master command = join (10 ∷ []) (
    codes "set -e"
    ∷ (codes "mkdir -p " ++ mount_point)
    ∷ (codes "sfsmount " ++ (mount_point ++ (codes " -H " ++ master)))
    ∷ command
    ∷ (codes "sfsmount -u " ++ (mount_point ++ codes " || true"))
    ∷ [])

abbrev with_path : Bool → Text → Text
with_path recursive path =
    (if recursive then codes " -r" else []) ++ (32 ∷ (mount_point ++ normalize_path path))

-- The path is not quoted.
unfoldable pub get_goal_command : Text → Bool → Text
unfolding normalize_path
get_goal_command path recursive = codes "saunafs getgoal" ++ with_path recursive path

-- Neither are the goal and the path.
unfoldable pub set_goal_command : Text → Text → Bool → Text
unfolding normalize_path
set_goal_command goal path recursive =
    codes "saunafs setgoal " ++ (goal ++ with_path recursive path)

-- The image given, the one of the CSI section, or the default.
unfoldable pub client_image : Text → Fields → Text
unfolding extract_string
client_image override obj =
    let csi = extract_string obj (codes "spec" ∷ codes "csi" ∷ codes "image" ∷ []) in
    if is_empty override
    then (if is_empty csi then codes "leilfs-client:latest" else csi)
    else override
