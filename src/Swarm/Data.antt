-- ===== src/Swarm/Data.antt =====
-- src/subnet/data_structures.py: server states, server records, module records and spans.
-- Peer ids and adapters are only compared, so they are numbers; a module's uid is taken as parsed
-- into its prefix and block index. Throughputs and request rates are numbers
-- of a unit that is left open and may be as small as one likes: what the code compares with a constant
-- is given in that unit too.
use subnet_llm_template.Prelude.{ℕ, Option, List}
use subnet_llm_template.Prelude.Int.{ℤ, pos, ◌-ℤ◌}
use subnet_llm_template.Prelude.Dict.{Dict}

pub data ServerState : Type 0 where
  offline joining online : ServerState

abbrev pub value : ServerState → ℕ
value offline = 0
value joining = 1
value online = 2

pub record ServerInfo : Type 0 where
  pub state : ServerState
  pub throughput : ℕ
  pub start_block : Option ℕ
  pub end_block : Option ℕ
  pub inference_rps : Option ℕ
  pub adapters : List ℕ
  pub cache_tokens_left : Option ℕ
  pub next_pings : Option (Dict ℕ)

pub record ModuleUid : Type 0 where
  pub dht_prefix : ℕ
  pub index : ℕ

pub record RemoteModuleInfo : Type 0 where
  pub uid : ModuleUid
  pub servers : Dict ServerInfo

-- The end of a span may lie before the first block of a sub-sequence: it is an integer.
pub record RemoteSpanInfo : Type 0 where
  pub peer_id : ℕ
  pub start : ℕ
  pub end : ℤ
  pub server_info : ServerInfo

unfoldable pub length : RemoteSpanInfo → ℤ
length span = span.end -ℤ pos span.start

abbrev pub state : RemoteSpanInfo → ServerState
state span = span.server_info.state

abbrev pub throughput : RemoteSpanInfo → ℕ
throughput span = span.server_info.throughput
