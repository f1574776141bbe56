-- ===== src/Docker.antt =====
-- orchestrator/src/docker.js
pub mod Total
pub mod Daemon
pub mod Starting
use habs.Base.{
  String, Bool, true, false, not, ◌&&◌, ◌||◌, Option, none, some, List, [], ◌∷◌, if◌then◌else◌,
  ◌==◌, ◌<>◌, find?, is_empty, ends_with, Result, Exec, pure, try_catch, ◌>>=◌, ◌>>◌,
}
use habs.Env.{ContainerInfo, Mount, Description, ContainerData, Dockerode}
use habs.Utils.{stream_to_string}

-- A container instance with its description.
pub record Container : Type 0 where
  pub id : String
  pub description : Description

abbrev pub first_is : List String → String → Bool
first_is [] name = false
first_is (n ∷ ns) name = n == name

-- The test of `containers.find` in `getContainer`.
unfoldable pub is_called : String → ContainerInfo → Bool
is_called name_or_id c = c.id == name_or_id || first_is c.names ("/" <> name_or_id)

abbrev pub is_running : Option Container → Bool
is_running none = false
is_running (some c) = c.description.running

abbrev pub has_name : String → Mount → Bool
has_name suffix m = elim m.name [ none ↦ false | some name ↦ ends_with name suffix ]

module _ {W : Type 0} (docker : Dockerode W) where
  -- Get docker image instance: whether there is one
  unfoldable pub get_image : String → Exec W Bool
  get_image image = try_catch (do docker.inspect_image image; pure true) (pure false)

  -- Pull docker image
  unfoldable pub pull_image : String → Exec W Bool
  pull_image image = try_catch (do docker.pull image; pure true) (pure false)

  -- Remove image
  unfoldable pub remove_image : String → Exec W Bool
  remove_image image =
      try_catch
        (do
          found ← get_image image
          if found then (do docker.remove_image image; pure true) else pure false)
        (pure false)

  -- Get volume instance by name: whether there is one
  unfoldable pub get_volume : String → Exec W Bool
  get_volume name = try_catch (do docker.inspect_volume name; pure true) (pure false)

  -- Creating a volume
  unfoldable pub create_volume : String → Exec W Bool
  create_volume name =
      try_catch
        (do
          found ← get_volume name
          if found then pure false else (do docker.create_volume name; pure true))
        (pure false)

  -- Remove volume
  unfoldable pub remove_volume : String → Exec W Bool
  remove_volume name =
      try_catch
        (do
          found ← get_volume name
          if found then (do docker.remove_volume name; pure true) else pure false)
        (pure false)

  describe : Option ContainerInfo → Exec W (Option Container)
  describe none = pure none
  describe (some c) = if is_empty c.id then pure none else do
    description ← docker.inspect c.id
    pure (some (record { id = c.id; description = description }))

  -- Get container instance by id or name
  unfoldable pub get_container : String → Exec W (Option Container)
  unfolding describe
  get_container name_or_id =
      try_catch
        (do containers ← docker.list_containers; describe (find? (is_called name_or_id) containers))
        (pure none)

  -- The image is pulled if the host does not have it.
  unfoldable pub have_image : String → Exec W Bool
  have_image image = do found ← get_image image; if found then pure true else pull_image image

  unfoldable pub start_found : ContainerData → Option Container → Exec W Bool
  start_found containerData none = do
    pulled ← have_image containerData.image
    if not pulled
        then pure false
        else do id ← docker.create_container containerData; docker.start id; pure true
  start_found containerData (some container) =
      if not container.description.running
      then (do docker.start container.id; pure true)
      else pure false

  -- Pulling image, creating and starting a container
  unfoldable pub start_container : ContainerData → Exec W Bool
  unfolding start_found
  start_container container_data =
      try_catch
        (do container ← get_container container_data.name; start_found container_data container)
        (pure false)

  stop_found : Option Container → Exec W Bool
  stop_found none = pure false
  stop_found (some container) = do docker.stop container.id; pure true

  -- Stop a container
  unfoldable pub stop_container : String → Exec W Bool
  unfolding stop_found
  stop_container name_or_id =
      try_catch (do container ← get_container name_or_id; stop_found container) (pure false)

  remove_found : Option Container → Exec W Bool
  remove_found none = pure false
  remove_found (some container) = do docker.remove container.id; pure true

  -- Remove a container, also a running one
  unfoldable pub remove_container : String → Exec W Bool
  unfolding remove_found
  remove_container name_or_id =
      try_catch (do container ← get_container name_or_id; remove_found container) (pure false)

  -- return true if container is running
  unfoldable pub is_container_running : String → Exec W Bool
  is_container_running name_or_id =
      try_catch (do container ← get_container name_or_id; pure (is_running container)) (pure false)

  abbrev mount_of : String → Option Container → Option Mount
  mount_of volume_name none = none
  mount_of volume_name (some container) = find? (has_name volume_name) container.description.mounts

  -- Get mount from a container
  unfoldable pub get_mount : String → String → Exec W (Option Mount)
  get_mount container_name_or_id volume_name =
      try_catch
        (do container ← get_container container_name_or_id; pure (mount_of volume_name container))
        (pure none)

  run_in : List String → Option Container → Exec W (Option String)
  run_in command none = pure none
  run_in command (some container) = do
    stream ← docker.exec container.id command
    pure (some (stream_to_string stream))

  -- Execute a command in a docker container
  unfoldable pub docker_execute : String → List String → Exec W (Option String)
  unfolding run_in
  docker_execute name_or_id command =
      try_catch (do container ← get_container name_or_id; run_in command container) (pure none)
