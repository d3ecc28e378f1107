-- ===== src/Labrpc/Network.antt =====
-- labrpc/labrpc.go: the state of the network and the operations on it. A server is known by its address.
use distribution_system.Prelude.{
  ℕ, ◌+◌, ◌%◌, ◌^◌, ◌==◌, Bool, true, false, ◌||◌, not, Option, none, some, List, [], get_elem?,
  Outcome, done, panic, ◌>>=◌, or_panic,
}
use distribution_system.Prelude.Dict.{Eq, Dict, lookup, insert}
use distribution_system.Labrpc.Server.{Server}

-- An end point, without the channels of the network that it copies.
pub record ClientEnd (N : Type 0) : Type 0 where
  pub endname : N

-- `count` wraps around as an int32 does, written as its residue.
pub record Network (N : Type 0) : Type 0 where
  pub reliable : Bool
  pub long_delays : Bool
  pub long_reordering : Bool
  pub ends : Dict N (ClientEnd N)
  pub enabled : Dict N Bool
  pub servers : Dict N (Option ℕ)
  pub connections : Dict N (Option N)
  pub count : ℕ
  pub cleaned_up : Bool

-- What ReadEndnameInfo returns.
pub record EndnameInfo (N : Type 0) : Type 0 where
  pub enabled : Bool
  pub servername : Option N
  pub server : Option ℕ
  pub reliable : Bool
  pub longreordering : Bool

module _ {N : Type 0} where
  abbrev pub make_network : Network N
  make_network = record {
    reliable = true;
    long_delays = false;
    long_reordering = false;
    ends = [];
    enabled = [];
    servers = [];
    connections = [];
    count = 0;
    cleaned_up = false;
  }

  abbrev pub cleanup : Network N → Network N
  cleanup rn = record rn { cleaned_up = true }

  abbrev pub set_reliable : Bool → Network N → Network N
  set_reliable on rn = record rn { reliable = on }

  abbrev pub set_long_reordering : Bool → Network N → Network N
  set_long_reordering on rn = record rn { long_reordering = on }

  abbrev pub set_long_delays : Bool → Network N → Network N
  set_long_delays on rn = record rn { long_delays = on }

  -- atomic.AddInt32(&rn.count, 1)
  abbrev pub count_request : Network N → Network N
  count_request rn = record rn { count = (rn.count + 1) % 2 ^ 32 }

-- Whether a pointer to a server is `server`.
abbrev pub same_server : Option ℕ → ℕ → Bool
same_server none server = false
same_server (some p) server = p == server

module _ {N : Type 0} ⦃e : Eq N⦄ where
  -- rn.enabled[endname], false where there is none
  abbrev pub enabled_at : N → Network N → Bool
  enabled_at endname rn = elim (lookup endname rn.enabled) [ none ↦ false | some on ↦ on ]

  -- rn.connections[endname], nil where there is none
  abbrev pub connection_at : N → Network N → Option N
  connection_at endname rn = elim (lookup endname rn.connections) [ none ↦ none | some c ↦ c ]

  -- rn.servers[servername], nil where there is none
  abbrev pub server_at : N → Network N → Option ℕ
  server_at servername rn = elim (lookup servername rn.servers) [ none ↦ none | some s ↦ s ]

  unfoldable pub read_endname_info : N → Network N → EndnameInfo N
  read_endname_info endname rn =
      let servername = connection_at endname rn in
      record {
        enabled = enabled_at endname rn;
        servername = servername;
        server = elim servername [ none ↦ none | some name ↦ server_at name rn ];
        reliable = rn.reliable;
        longreordering = rn.long_reordering;
      }

  unfoldable pub is_server_dead : N → N → ℕ → Network N → Bool
  is_server_dead endname servername server rn =
      not (enabled_at endname rn) || not (same_server (server_at servername rn) server)

  -- A second end point of the same name ends the process.
  unfoldable pub make_end : N → Network N → Outcome (ClientEnd N × Network N)
  make_end endname rn = elim (lookup endname rn.ends) [
    | some _ ↦ panic
    | none ↦
        let end_point : ClientEnd N = record { endname = endname } in
        done (
          end_point,
          record rn {
            ends = insert endname end_point rn.ends;
            enabled = insert endname false rn.enabled;
            connections = insert endname none rn.connections;
          },
        )
  ]

  unfoldable pub add_server : N → ℕ → Network N → Network N
  add_server servername rs rn = record rn { servers = insert servername (some rs) rn.servers }

  unfoldable pub delete_server : N → Network N → Network N
  delete_server servername rn = record rn { servers = insert servername none rn.servers }

  unfoldable pub connect : N → N → Network N → Network N
  connect endname servername rn = record rn {
    connections = insert endname (some servername) rn.connections;
  }

  unfoldable pub enable : N → Bool → Network N → Network N
  enable endname on rn = record rn { enabled = insert endname on rn.enabled }

  -- Network.GetCount, on the servers at their addresses: it reads a field of nil for a deleted one.
  unfoldable pub get_count : {W T V : Type 0} → N → List (Server W T V) → Network N → Outcome ℕ
  get_count servername heap rn = do
    p ← or_panic (server_at servername rn)
    svr ← or_panic (get_elem? heap p)
    done svr.count
