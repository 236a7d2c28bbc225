-- ===== src/Types.antt =====
-- The data that the components exchange (internal/types/types.go).
use file_storage.Base.{ℕ, ℤ, String, Bool, List}

-- One copy of a file on a data node.
pub record Replica : Type 0 where
  pub addr : String
  pub remote_path : String

pub data CreateMode : Type 0 where
  create_if_not_exist overwrite_if_exists : CreateMode

pub record FileInfo : Type 0 where
  pub name : String
  pub path : String
  pub is_dir : Bool
  pub size : ℤ
  pub mode : ℕ
  pub created_at : ℕ
  pub mod_time : ℕ
  pub file_id : String

pub record FileLocation : Type 0 where
  pub file_id : String
  pub replicas : List Replica
  pub status : String

-- A file as a data node reports it to the garbage collector.
pub record NodeFile : Type 0 where
  pub path : String
  pub mod_time : ℕ

pub record CreateFileArgs : Type 0 where
  pub path : String
  pub size : ℤ
  pub create_mode : CreateMode

pub record HeartbeatReply : Type 0 where
  pub is_leader : Bool
  pub leader : String

pub record CreateFileReply : Type 0 where
  pub replicas : List Replica

pub record DeleteReply : Type 0 where
  pub replicas : List Replica
  pub is_dir : Bool

pub record RenameArgs : Type 0 where
  pub src_path : String
  pub dst_path : String

pub record UpdateSizeArgs : Type 0 where
  pub path : String
  pub size : ℤ

-- The arguments and replies of the data service. A byte is a number, and is passed on as it is.
pub record StoreArgs : Type 0 where
  pub path : String
  pub content : List ℕ

pub record RangeReadArgs : Type 0 where
  pub path : String
  pub offset : ℤ
  pub length : ℤ

pub record RangeReadReply : Type 0 where
  pub content : List ℕ
  pub eof : Bool

pub record PartialWriteArgs : Type 0 where
  pub path : String
  pub offset : ℤ
  pub content : List ℕ

pub record TruncateArgs : Type 0 where
  pub path : String
  pub size : ℤ

pub record SyncArgs : Type 0 where
  pub path : String
