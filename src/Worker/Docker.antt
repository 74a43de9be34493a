-- ===== src/Worker/Docker.antt =====
-- buildDockerRunCommand and buildDockerBuildCommand of internal/worker/runner.go.
use xrunner.Base.{
  Bool, List, Option, Text, [], codes, if◌then◌else◌, is_empty, none, not, some, trim_space, ◌++◌,
  ◌∷◌,
}
use xrunner.Base.Dict.{Dict}
use xrunner.Control.Types.{DockerBuildWorkload, DockerRunWorkload}
use xrunner.Grpc.{Result, err, invalid_argument, ok}

abbrev pub flag : Bool → Text → List Text
flag b name = if b then name ∷ [] else []

-- if value != "" { args = append(args, name, value) }
abbrev pub option : Text → Text → List Text
option name value = if is_empty value then [] else name ∷ value ∷ []

-- for _, v := range values { args = append(args, name, v) }
unfoldable pub repeated : Text → List Text → List Text
repeated name [] = []
repeated name (v ∷ vs) = name ∷ v ∷ repeated name vs

unfoldable pub env_options : Dict Text Text → List Text
env_options [] = []
env_options ((key, value) ∷ m) = codes "-e" ∷ (key ++ (codes "=" ++ value)) ∷ env_options m

-- The arguments between `docker run` and the image.
unfoldable pub run_options : DockerRunWorkload → List Text
unfolding repeated env_options
run_options cfg =
    flag (not cfg.keep_container) (codes "--rm")
    ++ flag cfg.interactive (codes "-i")
    ++ flag cfg.tty (codes "-t")
    ++ flag cfg.detach (codes "-d")
    ++ option (codes "--workdir") cfg.workdir
    ++ option (codes "--network") cfg.network
    ++ repeated (codes "-v") cfg.mounts
    ++ env_options cfg.container_env
    ++ option (codes "--entrypoint") (trim_space cfg.entrypoint)
    ++ cfg.extra_args

unfoldable pub build_docker_run_command : Option DockerRunWorkload → Result (List Text)
build_docker_run_command none = err invalid_argument (codes "docker_run requires configuration")
build_docker_run_command (some cfg) =
    if is_empty (trim_space cfg.image)
    then err invalid_argument (codes "docker_run.image is required")
    else ok (codes "docker" ∷ codes "run" ∷ (run_options cfg ++ cfg.image ∷ cfg.command))

-- The arguments between `docker buildx build` and the context directory.
unfoldable pub build_options : DockerBuildWorkload → List Text
unfolding repeated
build_options cfg =
    option (codes "-f") cfg.dockerfile
    ++ repeated (codes "-t") cfg.tags
    ++ repeated (codes "--platform") cfg.platforms
    ++ repeated (codes "--build-arg") cfg.build_args
    ++ repeated (codes "--secret") cfg.secrets
    ++ repeated (codes "--cache-from") cfg.cache_from
    ++ repeated (codes "--cache-to") cfg.cache_to
    ++ flag cfg.push (codes "--push")
    ++ flag cfg.load (codes "--load")
    ++ flag cfg.no_cache (codes "--no-cache")
    ++ flag cfg.quiet (codes "--quiet")
    ++ option (codes "--builder") cfg.builder
    ++ repeated (codes "--compose-file") cfg.compose_files
    ++ cfg.extra_args

-- The command, and what is added to the environment.
unfoldable pub build_docker_build_command :
    Option DockerBuildWorkload → Result (List Text × List Text)
build_docker_build_command none = err invalid_argument (codes "docker_build requires configuration")
build_docker_build_command (some cfg) =
    if is_empty (trim_space cfg.context_dir)
    then err invalid_argument (codes "docker_build.context_dir is required")
    else ok (
      codes "docker" ∷ codes "buildx" ∷ codes "build" ∷ (build_options cfg ++ cfg.context_dir ∷ []),
      flag cfg.use_buildkit (codes "DOCKER_BUILDKIT=1"),
    )
