-- ===== src/Raft/Ballot.antt =====
-- What one step of a peer does to its term and its vote, and that a crash loses neither.
pub mod Handlers
pub mod Votes
use distribution_system.Prelude.{
  ℕ, ◌<◌, ◌≤◌, ◌≡◌, refl, ◌⊎◌, inl, inr, none, some, List, [], ◌∷◌, arith, length,
}
use distribution_system.Raft.Types.{Raft}
use distribution_system.Raft.Storage.{Gob, IsGob, saved, persist}
use distribution_system.Raft.Lifecycle.{make}
use distribution_system.Raft.Frame.{Same}

-- A restart restores what the peer has persisted: term, vote, snapshot index and log.
abbrev pub IsDurable : {C : Type 0} → Gob C → Raft C → Type 0
IsDurable gob rf = saved (make gob rf.peers rf.me rf.persister) ≡ saved rf

-- The term does not fall, and within a term a vote stays.
pub record KeepsVote {C : Type 0} (rf rf' : Raft C) : Type 0 where
  pub term_le : rf.current_term ≤ rf'.current_term
  pub vote_kept :
      rf.current_term ≡ rf'.current_term → (rf.voted_for ≡ none) ⊎ (rf'.voted_for ≡ rf.voted_for)

module _ {C : Type 0} where
  pub KeepsVote-trans :
      {rf rf' rf'' : Raft C} → KeepsVote rf rf' → KeepsVote rf' rf'' → KeepsVote rf rf''
  KeepsVote-trans h k = ground (arith, h.vote_kept, k.vote_kept)

  pub Same-KeepsVote : {rf rf' : Raft C} → Same rf rf' → KeepsVote rf rf'
  Same-KeepsVote s = ground arith

module _ {C : Type 0} (gob : Gob C) (law : IsGob gob) where
  -- What `persist` writes is what a restart reads.
  pub stored-IsDurable :
      (rf : Raft C) → rf.persister.raftstate ≡ some (gob.encode (saved rf)) → IsDurable gob rf
  unfolding make
  stored-IsDurable rf h =
      go (gob.encode (saved rf)) h (law.encode_nonempty (saved rf)) (law.decode-encode (saved rf))
    where
      go :
          (bytes : List ℕ)
          → rf.persister.raftstate ≡ some bytes
          → 0 < length bytes
          → gob.decode bytes ≡ some (saved rf)
          → saved (make gob rf.peers rf.me rf.persister) ≡ saved rf
      go [] e n d = absurd (omega arith)
      go (b ∷ bytes) e n d = ground arith

  pub persist-IsDurable : (rf : Raft C) → IsDurable gob (persist gob rf)
  unfolding persist
  persist-IsDurable rf = stored-IsDurable (persist gob rf) refl

-- The peer has just persisted itself, or has changed nothing that it persists.
abbrev pub Stores : {C : Type 0} → Gob C → Raft C → Raft C → Type 0
Stores gob rf rf' = Same rf rf' ⊎ (rf'.persister.raftstate ≡ some (gob.encode (saved rf')))

-- One step keeps term and vote, and what it changes is stored.
pub record Follows {C : Type 0} (gob : Gob C) (rf rf' : Raft C) : Type 0 where
  pub keeps : KeepsVote rf rf'
  pub stores : Stores gob rf rf'

module _ {C : Type 0} {gob : Gob C} where
  pub Same-Follows : {rf rf' : Raft C} → Same rf rf' → Follows gob rf rf'
  Same-Follows s = record { keeps = Same-KeepsVote s; stores = inl s }

  pub Stores-IsDurable :
      (law : IsGob gob) {rf rf' : Raft C} → Stores gob rf rf' → IsDurable gob rf → IsDurable gob rf'
  unfolding make
  Stores-IsDurable law (inl s) d =
      rw (s.peers, s.me, s.persister, s.current_term, s.voted_for, s.snapshotted_index, s.logs) d
  Stores-IsDurable law {rf' = rf'} (inr e) d = stored-IsDurable gob law rf' e
