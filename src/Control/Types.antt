-- ===== src/Control/Types.antt =====
-- The messages of proto/xrunner/v1/{common,jobs,policies,workers}.proto, as the generated Go code
-- holds them: a message field is a pointer, so an `Option`. A timestamp is a count of nanoseconds,
-- and the one `double` is carried as the number of its bit pattern.
use xrunner.Base.{Bool, List, Option, Text, codes, if◌then◌else◌, ltb, none, some, ℕ, ◌%◌, ◌-◌, ◌^◌}
use xrunner.Base.Dict.{Dict}

pub record JobRef : Type 0 where
  pub tenant_id : Text
  pub job_id : Text

-- The enum is open: a message can carry any number.
pub data JobState : Type 0 where
  unspecified accepted running succeeded failed : JobState
  unrecognized : ℕ → JobState

-- `int32`, with its sign
pub data ℤ : Type 0 where
  pos negsuc : ℕ → ℤ

-- The conversion to int32, from the lowest 32 bits.
abbrev pub int32 : ℤ → ℤ
int32 (pos n) =
    let low = n % 2 ^ 32 in if ltb low (2 ^ 31) then pos low else negsuc (2 ^ 32 - 1 - low)
int32 (negsuc n) =
    let low = n % 2 ^ 32 in if ltb low (2 ^ 31) then negsuc low else pos (2 ^ 32 - 1 - low)

pub record ResourceHints : Type 0 where
  pub cpu_cores : ℕ
  pub memory_bytes : ℤ
  pub needs_gpu : Bool

pub record PolicyOverrides : Type 0 where
  pub allow_network : Bool
  pub network_profile : Text
  pub max_execution_seconds : ℤ

pub data SandboxType : Type 0 where
  unspecified nsjail nsjail_docker docker : SandboxType
  unknown : ℕ → SandboxType  -- an enum of proto3 is open

pub record SandboxSpec : Type 0 where
  pub type : SandboxType
  pub nsjail_config : Text
  pub sandbox_bin : Text
  pub binds : List Text
  pub workdir : Text
  pub log_path : Text
  pub extra_args : List Text

pub record InlineWorkload : Type 0 where
  pub executable : Text
  pub args : List Text
  pub stdin : List ℕ

pub record ArtifactWorkload : Type 0 where
  pub artifact : Option (Text × Text × Text)
  pub entrypoint : Text
  pub args : List Text

pub record DockerRunWorkload : Type 0 where
  pub image : Text
  pub command : List Text
  pub container_env : Dict Text Text
  pub mounts : List Text
  pub workdir : Text
  pub network : Text
  pub keep_container : Bool
  pub interactive : Bool
  pub tty : Bool
  pub detach : Bool
  pub entrypoint : Text
  pub extra_args : List Text

pub record DockerBuildWorkload : Type 0 where
  pub context_dir : Text
  pub dockerfile : Text
  pub tags : List Text
  pub platforms : List Text
  pub build_args : List Text
  pub secrets : List Text
  pub cache_from : List Text
  pub cache_to : List Text
  pub push : Bool
  pub load : Bool
  pub no_cache : Bool
  pub quiet : Bool
  pub builder : Text
  pub use_buildkit : Bool
  pub compose_files : List Text
  pub extra_args : List Text

-- The oneof `Workload.kind`; `unset` is a message whose oneof is not set.
pub data Workload : Type 0 where
  unset : Workload
  inline : InlineWorkload → Workload
  artifact_based : ArtifactWorkload → Workload
  docker_run : Option DockerRunWorkload → Workload
  docker_build : Option DockerBuildWorkload → Workload

pub record LogChunk : Type 0 where
  pub timestamp : Option ℕ
  pub stream : Text
  pub bytes : List ℕ
  pub offset : ℕ  -- uint64

pub record Job : Type 0 where
  pub ref : Option JobRef
  pub display_name : Text
  pub workload : Option Workload
  pub env : Dict Text Text
  pub state : JobState
  pub create_time : Option ℕ
  pub update_time : Option ℕ
  pub resource : Option ResourceHints
  pub policy : Option PolicyOverrides
  pub exit_code : ℤ
  pub status_message : Text
  pub sandbox : Option SandboxSpec

pub record JobAssignment : Type 0 where
  pub ref : Option JobRef
  pub workload : Option Workload
  pub env : Dict Text Text
  pub policy : Option PolicyOverrides
  pub resource : Option ResourceHints
  pub sandbox : Option SandboxSpec

pub record RunJobResponse : Type 0 where
  pub ref : Option JobRef
  pub final_state : JobState
  pub exit_code : ℤ
  pub status_message : Text
  pub started_at : Option ℕ
  pub completed_at : Option ℕ
  pub logs : List LogChunk
  pub terminal : Bool

-- The getters of a nil reference give the empty text.
abbrev pub tenant_of : Option JobRef → Text
tenant_of none = codes ""
tenant_of (some r) = r.tenant_id

abbrev pub job_id_of : Option JobRef → Text
job_id_of none = codes ""
job_id_of (some r) = r.job_id
