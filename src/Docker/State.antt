-- ===== src/Docker/State.antt =====
-- `inspect_state`, `logs_tail` and `load_image` of docker.py. What the daemon answers is an argument,
-- `none` where docker-py raises a DockerException.
use unifi_containers.Prelude.{Bool, false, Option, none, some, List, [], ◌∷◌, ◌++◌}
use unifi_containers.Text.{Text, codes}
use unifi_containers.Pins.{truthy}

-- What `inspect_state` reads of a container's attributes; there may be no health check.
pub record State : Type 0 where
  pub health_status : Option Text
  pub is_running : Bool

unfoldable pub inspect_state : Option State → Text × Bool
inspect_state none = (codes "missing", false)
inspect_state (some state) = (
  elim (truthy state.health_status) [ none ↦ codes "none" | some health ↦ health ],
  state.is_running,
)

-- The logs that `decode` gives, or a line with the reason why there are none.
unfoldable pub logs_tail : Text → Text → Option Text → Text
logs_tail name reason none = codes "no logs for " ++ (name ++ (codes ": " ++ reason))
logs_tail name reason (some logs) = logs

-- The image, if the archive holds exactly one; `none` is a DockerError.
unfoldable pub load_image : Option (List Text) → Option Text
load_image none = none
load_image (some []) = none
load_image (some (image ∷ [])) = some image
load_image (some (image ∷ other ∷ images)) = none
