-- ===== src/Kv/Types.antt =====
-- kvraft/common.go and the types of kvraft/server.go. Client and request numbers are naturals.
use distribution_system.Prelude.{ℕ, Bool, Option, List}
use Prim.Native.String.{String}
use distribution_system.Prelude.Dict.{Dict}

pub data Err : Type 0 where
  no_error ok err_no_key : Err

pub record PutAppendArgs : Type 0 where
  pub key : String
  pub value : String
  pub op : String
  pub client_id : ℕ
  pub request_id : ℕ

pub record PutAppendReply : Type 0 where
  pub wrong_leader : Bool
  pub err : Err

pub record GetArgs : Type 0 where
  pub key : String
  pub client_id : ℕ
  pub request_id : ℕ

pub record GetReply : Type 0 where
  pub wrong_leader : Bool
  pub err : Err
  pub value : String

-- `name` is "Put", "Append" or "Get".
pub record Op : Type 0 where
  pub key : String
  pub value : String
  pub name : String
  pub client_id : ℕ
  pub request_id : ℕ

pub record Notification : Type 0 where
  pub client_id : ℕ
  pub request_id : ℕ

-- `dispatcher` maps a log index to a channel, the position of a buffer for one notification in
-- `channels`. `maxraftstate` is `none` for -1.
pub record KvServer : Type 0 where
  pub maxraftstate : Option ℕ
  pub db : Dict String String
  pub dispatcher : Dict ℕ ℕ
  pub last_applied_request_id : Dict ℕ ℕ
  pub applied_raft_log_index : ℕ
  pub channels : List (Option Notification)
