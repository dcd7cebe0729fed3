-- ===== src/Spec.antt =====
-- The fields of the shared data types (baetyl-go, spec/v1) that the modelled code reads or writes.
use baetyl.Base.{ℕ, String, Bool, Option, List}
use baetyl.Base.Dict.{Dict}

pub record AppInfo : Type 0 where
  pub name : String
  pub version : String

-- The two states that the code tests for, and any other text.
pub data Status : Type 0 where
  unknown succeeded : Status
  other : String → Status

pub record InstanceStats : Type 0 where
  pub service_name : String
  pub app_name : String
  pub status : Status
  pub cause : String

pub record AppStats : Type 0 where
  pub name : String
  pub version : String
  pub status : Status
  pub cause : String
  pub instance_stats : Dict String InstanceStats

pub record ObjectReference : Type 0 where
  pub name : String
  pub version : String

-- The source of a volume. At most one of the three is set.
pub record Volume : Type 0 where
  pub name : String
  pub host_path : Option String
  pub config : Option ObjectReference
  pub secret : Option ObjectReference

pub record VolumeMount : Type 0 where
  pub name : String
  pub mount_path : String
  pub read_only : Bool
  pub auto_clean : Bool

pub record Environment : Type 0 where
  pub name : String
  pub value : String

-- `int32` and `int` fields of a deployment description are not negative.
pub record ContainerPort : Type 0 where
  pub host_port : ℕ

pub record Service : Type 0 where
  pub name : String
  pub replica : ℕ
  pub ports : List ContainerPort
  pub volume_mounts : List VolumeMount
  pub env : List Environment

pub data Workload : Type 0 where
  job : Workload
  other_workload : String → Workload

pub record Application : Type 0 where
  pub name : String
  pub version : String
  pub namespace : String
  pub labels : Dict String String
  pub app_type : String
  pub system : Bool
  pub workload : Workload
  pub replica : ℕ
  pub update_time : ℕ
  pub services : List Service
  pub volumes : List Volume

pub record Configuration : Type 0 where
  pub name : String
  pub version : String
  pub labels : Dict String String
  pub contents : Dict String String

pub record Secret : Type 0 where
  pub name : String
  pub version : String
  pub namespace : String
  pub labels : Dict String String
  pub system : Bool
  pub contents : Dict String String
