-- ===== src/Swarm/Modules.antt =====
-- `_get_remote_module_infos` of src/subnet/utils/dht.py: what is read of the DHT's records. The DHT
-- itself is a parameter: what it has found for each module.
use subnet_llm_template.Prelude.{
  ℕ, ◌≡◌, refl, ◌∙◌, Bool, true, false, ◌||◌, Option, none, some, List, [], ◌∷◌, ◌==◌,
  if◌then◌else◌, Bool-cases, inl, inr,
}
use subnet_llm_template.Prelude.Dict.{Dict, lookup, insert, lookup-insert}
use subnet_llm_template.Swarm.Data.{ServerInfo, ModuleUid, RemoteModuleInfo}

-- An entry of a record: `none` where reading its key or its value raises TypeError or ValueError.
pub record Entry : Type 0 where
  pub peer_id : Option ℕ
  pub server_info : Option ServerInfo

-- A record that is absent, or is no dict, has no entries.
pub record Found : Type 0 where
  pub uid : ModuleUid
  pub entries : Option (List Entry)

abbrev pub has_adapter : ℕ → List ℕ → Bool
has_adapter adapter [] = false
has_adapter adapter (a ∷ adapters) = adapter == a || has_adapter adapter adapters

abbrev pub is_usable : Option ℕ → ServerInfo → Bool
is_usable none info = true
is_usable (some adapter) info = has_adapter adapter info.adapters

-- The body of the loop over the entries, with its `except`.
abbrev pub add_server : Option ℕ → Option ℕ → Option ServerInfo → Dict ServerInfo → Dict ServerInfo
add_server active_adapter none info servers = servers
add_server active_adapter (some p) none servers = servers
add_server active_adapter (some p) (some info) servers =
    if is_usable active_adapter info then insert p info servers else servers

unfoldable pub read_entries : Option ℕ → List Entry → Dict ServerInfo → Dict ServerInfo
read_entries active_adapter [] servers = servers
read_entries active_adapter (e ∷ entries) servers =
    read_entries active_adapter entries (add_server active_adapter e.peer_id e.server_info servers)

abbrev pub read_found : Option ℕ → Option (List Entry) → Dict ServerInfo
read_found active_adapter none = []
read_found active_adapter (some entries) = read_entries active_adapter entries []

unfoldable pub get_remote_module_infos : Option ℕ → List Found → List RemoteModuleInfo
unfolding read_entries
get_remote_module_infos active_adapter [] = []
get_remote_module_infos active_adapter (f ∷ found) =
    record { uid = f.uid; servers = read_found active_adapter f.entries }
    ∷ get_remote_module_infos active_adapter found

-- What an entry says of one peer, beside what was known of it.
abbrev pub about_peer :
    Option ℕ → ℕ → Option ℕ → Option ServerInfo → Option ServerInfo → Option ServerInfo
about_peer active_adapter q none info known = known
about_peer active_adapter q (some p) none known = known
about_peer active_adapter q (some p) (some info) known =
    if q == p then (if is_usable active_adapter info then some info else known) else known

-- The last entry of a peer that can be read and has the adapter.
unfoldable pub last_entry : Option ℕ → ℕ → List Entry → Option ServerInfo → Option ServerInfo
last_entry active_adapter q [] known = known
last_entry active_adapter q (e ∷ entries) known =
    last_entry active_adapter q entries (about_peer active_adapter q e.peer_id e.server_info known)

lookup-add_server :
    (a : Option ℕ) (q : ℕ) (p : Option ℕ) (info : Option ServerInfo) (servers : Dict ServerInfo)
    → lookup q (add_server a p info servers) ≡ about_peer a q p info (lookup q servers)
lookup-add_server a q none info servers = refl
lookup-add_server a q (some p) none servers = refl
lookup-add_server a q (some p) (some info) servers = elim (Bool-cases (is_usable a info)) [
  | inl fits ↦ rw fits (lookup-insert q p info servers)
  | inr other ↦ rw other (elim (Bool-cases (q == p)) [ inl e ↦ rw e refl | inr e ↦ rw e refl ])
]

-- A module lists for each peer the last of its entries that can be read and has the adapter asked
-- for, and no other: entries that cannot be read change nothing.
pub lookup-read_entries :
    (active_adapter : Option ℕ) (q : ℕ) (entries : List Entry) (servers : Dict ServerInfo)
    → lookup q (read_entries active_adapter entries servers)
      ≡ last_entry active_adapter q entries (lookup q servers)
unfolding read_entries last_entry
lookup-read_entries a q [] servers = refl
lookup-read_entries a q (e ∷ entries) servers =
    lookup-read_entries a q entries (add_server a e.peer_id e.server_info servers)
    ∙ rw (lookup-add_server a q e.peer_id e.server_info servers) refl
