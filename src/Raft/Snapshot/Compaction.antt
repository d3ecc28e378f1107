-- ===== src/Raft/Snapshot/Compaction.antt =====
-- Log compaction: what a peer knows at an absolute index is what it knew before.
use distribution_system.Prelude.{
  ℕ, ◌+◌, ◌-◌, ◌≤◌, ◌<◌, ◌≡◌, refl, ap, ◌∙◌, Option, some, List, done, arith, length, drop,
  get_elem?, get_elem?-drop, lt→leb, le→leb,
}
use distribution_system.Raft.Types.{Raft, LogEntry}
use distribution_system.Raft.Storage.{Gob, saved}
use distribution_system.Raft.Frame.{sync_loop-tasks}
use distribution_system.Raft.Snapshot.{sync_loop, replace_log_with_snapshot, save_with_snapshot}

module _ {C : Type 0} where
  abbrev pub entry_at : Raft C → ℕ → Option (LogEntry C)
  entry_at rf i = get_elem? rf.logs (i - rf.snapshotted_index)

  -- The log behind a cut at `from`, read at absolute indexes.
  pub cut_at :
      (rf : Raft C) (from i : ℕ)
      → rf.snapshotted_index ≤ from
      → from ≤ i
      → get_elem? (drop (from - rf.snapshotted_index) rf.logs) (i - from) ≡ entry_at rf i
  cut_at rf from i low high =
      let k : from - rf.snapshotted_index + (i - from) ≡ i - rf.snapshotted_index = omega arith in
      get_elem?-drop (from - rf.snapshotted_index) (i - from) rf.logs ∙ ap (get_elem? rf.logs) k

module _ {C : Type 0} (gob : Gob C) where
  -- The log is compacted up to `index`, and stored with the service's snapshot.
  pub record Compacted (index : ℕ) (snapshot : Option (List ℕ)) (rf rf' : Raft C) : Type 0 where
    pub snapshotted_index : rf'.snapshotted_index ≡ index
    pub entries : (i : ℕ) → index ≤ i → entry_at rf' i ≡ entry_at rf i
    pub raftstate : rf'.persister.raftstate ≡ some (gob.encode (saved rf'))
    pub snapshot_stored : rf'.persister.snapshot ≡ snapshot
    pub commit_index : rf'.commit_index ≡ rf.commit_index

  -- Compacting up to an index of the log behind the snapshot succeeds. From that index on every entry
  -- stays at its absolute index, and the peer's state is stored together with the snapshot.
  pub replace_log_with_snapshot-Compacted :
      (index : ℕ) (snapshot : Option (List ℕ)) (rf : Raft C)
      → rf.snapshotted_index < index
      → index < length rf.logs + rf.snapshotted_index
      → (rf' : Raft C) × (replace_log_with_snapshot gob index snapshot rf ≡ done rf')
        × Compacted index snapshot rf rf'
  unfolding replace_log_with_snapshot
  replace_log_with_snapshot-Compacted index snapshot rf low high =
      let cut : Raft C = save_with_snapshot gob snapshot (record rf {
        logs = drop (index - rf.snapshotted_index) rf.logs;
        snapshotted_index = index;
      }) in
      (
        sync_loop rf.peers 0 cut,
        rw
            (
              lt→leb index rf.snapshotted_index low,
              le→leb rf.snapshotted_index index (omega arith),
              le→leb (index - rf.snapshotted_index) (length rf.logs) (omega arith),
            )
            refl,
        rw (sync_loop-tasks rf.peers 0 cut) (record {
          snapshotted_index = refl;
          entries = λ i above. cut_at rf index i (omega arith) above;
          raftstate = refl;
          snapshot_stored = refl;
          commit_index = refl;
        }),
      )
