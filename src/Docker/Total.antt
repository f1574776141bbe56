-- ===== src/Docker/Total.antt =====
-- No method of the class Docker throws.
use habs.Base.{String, List, NeverThrows, try_catch-NeverThrows}
use habs.Env.{ContainerData, Dockerode}
use habs.Docker.{
  get_image, pull_image, remove_image, get_volume, create_volume, remove_volume, get_container,
  start_container, stop_container, remove_container, is_container_running, get_mount,
  docker_execute,
}

module _ {W : Type 0} (docker : Dockerode W) where
  -- Whatever the daemon does, errors included, the thirteen methods do not throw.
  pub docker-NeverThrows :
      (name other : String) (data_ : ContainerData) (command : List String)
      → NeverThrows (get_image docker name)
        × NeverThrows (pull_image docker name)
        × NeverThrows (remove_image docker name)
        × NeverThrows (get_volume docker name)
        × NeverThrows (create_volume docker name)
        × NeverThrows (remove_volume docker name)
        × NeverThrows (get_container docker name)
        × NeverThrows (start_container docker data_)
        × NeverThrows (stop_container docker name)
        × NeverThrows (remove_container docker name)
        × NeverThrows (is_container_running docker name)
        × NeverThrows (get_mount docker name other)
        × NeverThrows (docker_execute docker name command)
  unfolding get_image pull_image remove_image get_volume create_volume remove_volume get_container
      start_container stop_container remove_container is_container_running get_mount docker_execute
  docker-NeverThrows name other data_ command = (
    try_catch-NeverThrows _ _,
    try_catch-NeverThrows _ _,
    try_catch-NeverThrows _ _,
    try_catch-NeverThrows _ _,
    try_catch-NeverThrows _ _,
    try_catch-NeverThrows _ _,
    try_catch-NeverThrows _ _,
    try_catch-NeverThrows _ _,
    try_catch-NeverThrows _ _,
    try_catch-NeverThrows _ _,
    try_catch-NeverThrows _ _,
    try_catch-NeverThrows _ _,
    try_catch-NeverThrows _ _,
  )
