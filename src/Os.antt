-- ===== src/Os.antt =====
-- The machine that the driver runs on, and the libraries that it calls: the calls are parameters,
-- the state that they read and change is unknown. Code in package os, syscall, golang.org/x/sys/unix,
-- os/exec, net, encoding/json and k8s.io/utils/mount stands behind this interface.
pub mod Laws
pub mod Memory
pub mod Frame
use hostpath_provisioner.Base.{ℕ, ℤ, Text, Bool, List, Option, Error, Result}

-- os.FileInfo: IsDir(), Mode() as it is printed, and the change time of Sys().
pub record FileInfo : Type 0 where
  pub is_dir : Bool
  pub mode : Text
  pub ctim_sec : ℤ
  pub ctim_nsec : ℤ

-- os.DirEntry
pub record DirEntry : Type 0 where
  pub name : Text
  pub is_dir : Bool

-- unix.Statfs_t: five unsigned numbers of 64 bits, and the signed block size.
pub record StatFs : Type 0 where
  pub bavail : ℕ
  pub blocks : ℕ
  pub bfree : ℕ
  pub files : ℕ
  pub ffree : ℕ
  pub bsize : ℤ

-- pkg/hostpath/healthcheck.go: MountPointInfo
pub record MountPointInfo : Type 0 where
  pub target : Text
  pub source : Text
  pub fs_type : Text
  pub options : Text

-- pkg/hostpath/utils.go: StoragePoolInfo
pub record StoragePoolInfo : Type 0 where
  pub name : Text
  pub path : Text
  pub snapshot_path : Option Text
  pub snapshot_provider : Option Text
  pub shared : Bool

-- What f.Readdirnames(1) returns: a name, io.EOF, or another error.
pub data FirstName : Type 0 where
  a_name : Text → FirstName
  eof : FirstName
  name_error : Error → FirstName

pub record Os : Type 1 where
  pub State : Type 0
  -- package os and syscall
  pub stat : Text → State → Result FileInfo
  pub read_dir : Text → State → Result (List DirEntry)
  pub open_file : Text → State → Result (Unit {0})
  pub first_name : Text → State → FirstName
  pub stat_ctim : Text → State → Result ℤ
  pub statfs : Text → State → Result StatFs
  pub mkdir : Text → ℕ → State → Result (Unit {0}) × State
  pub mkdir_all : Text → ℕ → State → Result (Unit {0}) × State
  pub remove : Text → State → Result (Unit {0}) × State
  pub remove_all : Text → State → Result (Unit {0}) × State
  -- package os/exec: the path of a program, the output of a run, and a run for its effect
  pub look_path : Text → State → Result Text
  pub combined_output : Text → List Text → State → Result Text
  pub run_command : Text → List Text → State → Result (Unit {0}) × State
  -- k8s.io/utils/mount
  pub is_not_mount_point : Text → State → Result Bool
  pub mount : Text → Text → Text → List Text → State → Result (Unit {0}) × State
  pub unmount : Text → State → Result (Unit {0}) × State
  -- encoding/json
  pub unmarshal_mounts : Text → Result (List MountPointInfo)
  pub unmarshal_pools : Text → Result (List StoragePoolInfo)
  -- k8s.io/apimachinery/pkg/api/resource: NewQuantity(v, BinarySI).AsInt64()
  pub quantity_int64 : ℤ → ℤ
  -- package net
  pub listen : Text → Text → State → Result (Unit {0}) × State
