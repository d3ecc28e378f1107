-- ===== src/Raft/Vote/Grants.antt =====
-- When a peer grants its vote, and the vote of an earlier term that it fails to forget.
use distribution_system.Prelude.{
  ℕ, ◌-◌, ◌≤◌, ◌<◌, ◌≡◌, ◌≢◌, ◌⊎◌, ◌↔◌, none, some, done, panic, arith, length, get_elem?, true,
  false, max, result_of, refl, sym, ◌∙◌, List, [], ◌∷◌,
}
use distribution_system.Raft.Types.{follower, Raft, LogEntry, RequestVoteArgs, RequestVoteReply}
use distribution_system.Raft.Log.{get_absolute_log_index}
use distribution_system.Raft.Storage.{Gob, persist}
use distribution_system.Raft.Vote.{request_vote, consider_vote, refuse_vote, vote_reply}

-- Requests in the term from candidates that the peer has not voted for.
abbrev pub AreFromOthers : ℕ → ℕ → List RequestVoteArgs → Type 0
AreFromOthers voted term [] = Unit
AreFromOthers voted term (args ∷ rest) =
    (args.term ≡ term) × (args.candidate_id ≢ voted) × AreFromOthers voted term rest

module _ {C : Type 0} where
  -- The peer has not voted for another candidate in the request's term.
  abbrev pub IsFree : RequestVoteArgs → Raft C → Type 0
  IsFree args rf =
      (rf.current_term < args.term)
      ⊎ ((rf.current_term ≡ args.term)
          × ((rf.voted_for ≡ none) ⊎ (rf.voted_for ≡ some args.candidate_id)))

  -- The candidate's log is at least as up-to-date as one that ends in `last` at `index`.
  abbrev pub IsUpToDate : RequestVoteArgs → LogEntry C → ℕ → Type 0
  IsUpToDate args last index =
      (last.term < args.last_log_term)
      ⊎ ((last.term ≡ args.last_log_term) × (index ≤ args.last_log_index))

module _ {C : Type 0} (gob : Gob C) where
  request_vote-ne-panic :
      (args : RequestVoteArgs) (rf : Raft C) (last : LogEntry C)
      → get_elem? rf.logs (length rf.logs - 1) ≡ some last
      → request_vote gob args rf ≢ panic
  unfolding request_vote consider_vote
  request_vote-ne-panic args rf last read = ground arith

  granted_iff :
      (args : RequestVoteArgs) (reply : RequestVoteReply) (rf rf' : Raft C) (last : LogEntry C)
      → get_elem? rf.logs (length rf.logs - 1) ≡ some last
      → request_vote gob args rf ≡ done (rf', reply)
      → (reply.vote_granted ≡ true)
        ↔ (IsFree args rf × IsUpToDate args last (get_absolute_log_index rf (length rf.logs - 1)))
  unfolding request_vote consider_vote refuse_vote get_absolute_log_index
  granted_iff args reply rf rf' last read h = (λ g. ground arith, λ g. ground arith)

  replied_term :
      (args : RequestVoteArgs) (reply : RequestVoteReply) (rf rf' : Raft C)
      → request_vote gob args rf ≡ done (rf', reply)
      → reply.term ≡ max rf.current_term args.term
  unfolding request_vote consider_vote refuse_vote
  replied_term args reply rf rf' h = ground arith

  -- A peer whose log is not empty answers every vote request, with the larger of the two terms. It grants
  -- the vote exactly if it has not voted for another candidate in the request's term and the
  -- candidate's log is at least as up-to-date as its own.
  pub request_vote_decides :
      (args : RequestVoteArgs) (rf : Raft C) (last : LogEntry C)
      → get_elem? rf.logs (length rf.logs - 1) ≡ some last
      → (rf' : Raft C) × (reply : RequestVoteReply) × (request_vote gob args rf ≡ done (rf', reply))
        × (reply.term ≡ max rf.current_term args.term)
        × ((reply.vote_granted ≡ true) ↔ (
            IsFree args rf × IsUpToDate args last (get_absolute_log_index rf (length rf.logs - 1))))
  request_vote_decides args rf last read =
      let ((rf', reply), e) = result_of _ (request_vote-ne-panic args rf last read) in
      (rf', reply, e, replied_term args reply rf rf' e, granted_iff args reply rf rf' last read e)

  -- Requests that come one after the other are all refused, and the peer keeps its vote and its term.
  abbrev pub AreRefused : ℕ → ℕ → List RequestVoteArgs → Raft C → Type 0
  AreRefused voted term [] rf = Unit
  AreRefused voted term (args ∷ rest) rf =
      (rf' : Raft C) × (request_vote gob args rf ≡ done (rf', vote_reply rf' false))
      × (rf'.voted_for ≡ some voted)
      × (rf'.current_term ≡ term)
      × AreRefused voted term rest rf'

  same_term_refused :
      (args : RequestVoteArgs) (rf : Raft C) (voted : ℕ)
      → rf.voted_for ≡ some voted
      → args.term ≡ rf.current_term
      → args.candidate_id ≢ voted
      → request_vote gob args rf ≡ done (persist gob rf, vote_reply (persist gob rf) false)
  unfolding request_vote consider_vote refuse_vote
  same_term_refused args rf voted vote same other = ground arith

  others-AreRefused :
      (voted term : ℕ) (requests : List RequestVoteArgs) (rf : Raft C)
      → rf.voted_for ≡ some voted
      → rf.current_term ≡ term
      → AreFromOthers voted term requests
      → AreRefused voted term requests rf
  unfolding persist
  others-AreRefused voted term [] rf vote now all = tt
  others-AreRefused voted term (args ∷ rest) rf vote now (same, other, all) = (
    persist gob rf,
    same_term_refused args rf voted vote (same ∙ sym now) other,
    vote,
    now,
    others-AreRefused voted term rest (persist gob rf) vote now all,
  )

  outdated_refused :
      (args : RequestVoteArgs) (rf : Raft C) (last : LogEntry C) (voted : ℕ)
      → get_elem? rf.logs (length rf.logs - 1) ≡ some last
      → rf.state ≡ follower
      → rf.voted_for ≡ some voted
      → rf.current_term < args.term
      → ¬ IsUpToDate args last (get_absolute_log_index rf (length rf.logs - 1))
      → (rf' : Raft C) × (request_vote gob args rf ≡ done (rf', vote_reply rf' false))
        × (rf'.voted_for ≡ some voted)
        × (rf'.current_term ≡ args.term)
  unfolding request_vote consider_vote refuse_vote get_absolute_log_index
  outdated_refused args rf last voted read role vote later stale =
      (persist gob (record rf { current_term = args.term }), ground arith, vote, refl)

  -- A follower with a vote and a non-empty log, asked by a candidate of a later term whose log is not up to
  -- date with its own, refuses and takes the later term, but its vote of the earlier term stays.
  -- Then it refuses all requests of that term from candidates other than the one it voted for,
  -- however many come one after the other, although it has not voted in that term.
  pub request_vote-keeps_old_vote :
      (old : RequestVoteArgs) (requests : List RequestVoteArgs) (rf : Raft C) (last : LogEntry C)
      (voted : ℕ)
      → get_elem? rf.logs (length rf.logs - 1) ≡ some last
      → rf.state ≡ follower
      → rf.voted_for ≡ some voted
      → rf.current_term < old.term
      → ¬ IsUpToDate old last (get_absolute_log_index rf (length rf.logs - 1))
      → AreFromOthers voted old.term requests
      → (rf' : Raft C) × (request_vote gob old rf ≡ done (rf', vote_reply rf' false))
        × (rf'.voted_for ≡ some voted)
        × (rf'.current_term ≡ old.term)
        × AreRefused voted old.term requests rf'
  request_vote-keeps_old_vote old requests rf last voted read role vote later stale others =
      let (rf', e, v, t) = outdated_refused old rf last voted read role vote later stale in
      (rf', e, v, t, others-AreRefused voted old.term requests rf' v t others)
