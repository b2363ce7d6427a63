-- ===== src/Fsx/Protocol/Types.antt =====
-- internal/fsx/mutation_protocol.go: the vocabulary of the protocol. Each string type has a constructor
-- for each constant, `unset` for the empty string and `other` for every other string.
use personal_mcp_gateway.Base.{ℕ, Bytes, ℤ, pos}

pub data Operation : Type 0 where
  create replace unset : Operation
  other : Bytes → Operation

pub data Phase : Type 0 where
  request stage_created stage_ack stage_announced payload_complete commit terminal unset : Phase
  other : Bytes → Phase

pub data Terminal : Type 0 where
  committed refused error uncertain unset : Terminal
  other : Bytes → Terminal

pub data TerminalCode : Type 0 where
  committed source_changed destination_exists unsupported canceled io uncertain unset : TerminalCode
  other : Bytes → TerminalCode

pub record RawStamp : Type 0 where
  pub device : ℕ
  pub inode : ℕ
  pub mode : ℕ
  pub uid : ℕ
  pub nlink : ℕ
  pub size : ℤ
  pub mtime_sec : ℤ
  pub mtime_nsec : ℤ
  pub ctime_sec : ℤ
  pub ctime_nsec : ℤ

abbrev pub zero_stamp : RawStamp
zero_stamp = record {
  device = 0;
  inode = 0;
  mode = 0;
  uid = 0;
  nlink = 0;
  size = pos 0;
  mtime_sec = pos 0;
  mtime_nsec = pos 0;
  ctime_sec = pos 0;
  ctime_nsec = pos 0;
}

pub record Control : Type 0 where
  pub version : ℤ
  pub operation : Operation
  pub phase : Phase
  pub fd_roles : ℕ
  pub payload_bytes : ℕ
  pub target_leaf : Bytes
  pub stage_leaf : Bytes
  pub expected_source : RawStamp
  pub executable_identity : RawStamp
  pub stage_identity : RawStamp
  pub commit_token : Bytes
  pub terminal : Terminal
  pub terminal_code : TerminalCode

pub data Side : Type 0 where
  parent helper : Side

-- The state of one side; its streams are passed to each operation.
pub record Protocol : Type 0 where
  pub side : Side
  pub operation : Operation
  pub roles : ℕ
  pub phase : Phase
  pub payload : ℕ
