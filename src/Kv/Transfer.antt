-- ===== src/Kv/Transfer.antt =====
-- kvraft/server.go: a snapshot taken by one server and installed by another.
use Prim.Native.String.{String}
use distribution_system.Prelude.{ℕ, ◌≡◌, refl, Option, none, some, List, [], ◌∙◌}
use distribution_system.Prelude.Dict.{Dict, lookup, nat_eq, string_eq}
use distribution_system.Kv.Types.{KvServer}
use distribution_system.Kv.Server.{KvGob, is_duplicate_request, install_snapshot, start_kv_server}

-- The entry of the first map, else that of the second.
abbrev pub first_of {ℓ} : {A : Type ℓ} → Option A → Option A → Option A
first_of none o = o
first_of (some a) o = some a

-- Decoding what these maps were encoded to puts their entries over those of the map it decodes into.
pub record IsKvGob (gob : KvGob) (db : Dict String String) (ids : Dict ℕ ℕ) : Type 0 where
  pub rest : List ℕ
  pub decode_db-encode :
      (into : Dict String String)
      → (db' : Dict String String) × (gob.decode_db (gob.encode db ids) into ≡ some (db', rest))
        × ((key : String) → lookup key db' ≡ first_of (lookup key db) (lookup key into))
  pub decode_ids-rest :
      (into : Dict ℕ ℕ)
      → (ids' : Dict ℕ ℕ) × (gob.decode_ids rest into ≡ some ids')
        × ((client_id : ℕ)
            → lookup client_id ids' ≡ first_of (lookup client_id ids) (lookup client_id into))

module _ (gob : KvGob) (other : KvServer)
    (laws : IsKvGob gob other.db other.last_applied_request_id) where
  install_snapshot-encode :
      (kv : KvServer)
      → (kv' : KvServer) × (install_snapshot gob
            (some (gob.encode other.db other.last_applied_request_id))
            kv
          ≡ kv')
        × ((key : String) → lookup key kv'.db ≡ first_of (lookup key other.db) (lookup key kv.db))
        × ((client_id : ℕ)
            → lookup client_id kv'.last_applied_request_id
              ≡ first_of
                  (lookup client_id other.last_applied_request_id)
                  (lookup client_id kv.last_applied_request_id))
  unfolding install_snapshot
  install_snapshot-encode kv =
      let (db, e, l) = laws.decode_db-encode kv.db in
      let (ids, e', l') = laws.decode_ids-rest kv.last_applied_request_id in
      (
        record kv { db = db; last_applied_request_id = ids },
        rw (install_snapshot, e, e') refl,
        l,
        l',
      )

first_of-none {ℓ} : {A : Type ℓ} (o : Option A) → first_of o none ≡ o
first_of-none none = refl
first_of-none (some a) = refl

module _ (gob : KvGob) (other : KvServer)
    (laws : IsKvGob gob other.db other.last_applied_request_id) where
  -- A server that starts from the snapshot of another one, in a format that decodes the other's maps,
  -- has the value the other has under every key, and takes the same requests for duplicates.
  pub start_kv_server_recovers :
      (maxraftstate : Option ℕ)
      → ((key : String)
          → lookup key
              (start_kv_server gob maxraftstate
                (some (gob.encode other.db other.last_applied_request_id))).db
            ≡ lookup key other.db)
        × ((client_id request_id : ℕ)
            → is_duplicate_request client_id request_id (
                start_kv_server gob maxraftstate
                  (some (gob.encode other.db other.last_applied_request_id)))
              ≡ is_duplicate_request client_id request_id other)
  unfolding start_kv_server is_duplicate_request lookup
  start_kv_server_recovers maxraftstate =
      let (kv, e, l, l') = install_snapshot-encode gob other laws (record {
        maxraftstate = maxraftstate;
        db = [];
        dispatcher = [];
        last_applied_request_id = [];
        applied_raft_log_index = 0;
        channels = [];
      }) in
      (
        λ key. rw e (l key ∙ first_of-none (lookup key other.db)),
        λ c r.
            rw
              (
                is_duplicate_request,
                e,
                l' c,
                first_of-none (lookup c other.last_applied_request_id),
              )
              refl,
      )
