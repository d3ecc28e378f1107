-- ===== src/Labrpc/Changes.antt =====
-- labrpc/labrpc.go: no answer comes from a server that was deleted.
use distribution_system.Prelude.{
  some_injective, ℕ, Bool, false, Bool-cases, ◌≡◌, ◌≢◌, refl, sym, ◌∙◌, ap, subst, inl, inr, Option,
  none, some, Option-cases, List, Outcome, done, panic,
}
use distribution_system.Prelude.Dict.{Eq, lookup, insert, lookup-insert, eq_refl}
use distribution_system.Labrpc.Network.{
  Network, ClientEnd, connection_at, server_at, cleanup, set_reliable, set_long_reordering,
  set_long_delays, count_request, make_end, add_server, delete_server, connect, enable,
}
use distribution_system.Labrpc.Delivery.{Wake, Delivered, reply_of, process_req}
use distribution_system.Labrpc.Replies.{process_req-Reaches}

abbrev pointer : Option (Option ℕ) → Option ℕ
pointer none = none
pointer (some s) = s

module _ {N : Type 0} ⦃e : Eq N⦄ where
  -- An operation on the network that does not add the server at the address.
  pub data Change (server : ℕ) : Network N → Network N → Type 0 where
    cleans : (rn : Network N) → Change server rn (cleanup rn)
    sets_reliable : (on : Bool) (rn : Network N) → Change server rn (set_reliable on rn)
    sets_reordering : (on : Bool) (rn : Network N) → Change server rn (set_long_reordering on rn)
    sets_delays : (on : Bool) (rn : Network N) → Change server rn (set_long_delays on rn)
    counts : (rn : Network N) → Change server rn (count_request rn)
    makes :
        (endname : N) (end_point : ClientEnd N) (rn rn' : Network N)
        → make_end endname rn ≡ done (end_point, rn')
        → Change server rn rn'
    adds :
        (servername : N) (p : ℕ) (rn : Network N)
        → p ≢ server
        → Change server rn (add_server servername p rn)
    deletes : (servername : N) (rn : Network N) → Change server rn (delete_server servername rn)
    connects :
        (endname servername : N) (rn : Network N) → Change server rn (connect endname servername rn)
    enables : (endname : N) (on : Bool) (rn : Network N) → Change server rn (enable endname on rn)

  pub data Changes (server : ℕ) : Network N → Network N → Type 0 where
    unchanged : (rn : Network N) → Changes server rn rn
    changed :
        (rn1 rn2 rn3 : Network N)
        → Changes server rn1 rn2
        → Change server rn2 rn3
        → Changes server rn1 rn3

  -- An insertion of another pointer leaves the server away.
  inserted_away :
      (servername name : N) (v : Option ℕ) (server : ℕ) (rn : Network N)
      → v ≢ some server
      → server_at servername rn ≢ some server
      → server_at servername (record rn { servers = insert name v rn.servers }) ≢ some server
  inserted_away servername name v server rn away h q =
      let l = lookup-insert name servername v rn.servers in
      elim (Bool-cases (e.eq name servername)) [
        | inl b ↦
            let u : lookup servername (insert name v rn.servers) ≡ some v = l ∙ rw b refl in
            away (sym (ap pointer u) ∙ q)
        | inr b ↦
            let u : lookup servername (insert name v rn.servers) ≡ lookup servername rn.servers =
              l ∙ rw b refl in
            h (sym (ap pointer u) ∙ q)
      ]

  made_servers :
      (endname : N) (end_point : ClientEnd N) (rn rn' : Network N)
      → make_end endname rn ≡ done (end_point, rn')
      → rn'.servers ≡ rn.servers
  unfolding make_end
  made_servers endname end_point rn rn' h = elim (Option-cases (lookup endname rn.ends)) [
    | inr (x, q) ↦ let now : make_end endname rn ≡ panic = rw (make_end, q) refl in absurd (cc)
    | inl q ↦
        let new : ClientEnd N = record { endname = endname } in
        let rn2 : Network N = record rn {
          ends = insert endname new rn.ends;
          enabled = insert endname false rn.enabled;
          connections = insert endname none rn.connections;
        } in
        let now : make_end endname rn ≡ done (new, rn2) = rw (make_end, q) refl in
        ap (λ x. x.servers) (sym (done_injective new end_point rn2 rn' (sym now ∙ h)))
  ]
    where
      made : ClientEnd N → Network N → Outcome (ClientEnd N × Network N)
      made a x = done (a, x)

      done_injective : (a b : ClientEnd N) (x y : Network N) → made a x ≡ made b y → x ≡ y
      done_injective a b x y h = cc

  Change-away :
      (servername : N) (server : ℕ) (rn rn' : Network N)
      → Change server rn rn'
      → server_at servername rn ≢ some server
      → server_at servername rn' ≢ some server
  unfolding add_server delete_server connect enable
  Change-away servername server _ _ (cleans rn) h = h
  Change-away servername server _ _ (sets_reliable on rn) h = h
  Change-away servername server _ _ (sets_reordering on rn) h = h
  Change-away servername server _ _ (sets_delays on rn) h = h
  Change-away servername server _ _ (counts rn) h = h
  Change-away servername server _ _ (makes endname end_point rn rn' made) h =
      let s = made_servers endname end_point rn rn' made in
      λ q. h (ap (λ m. pointer (lookup servername m)) (sym s) ∙ q)
  Change-away servername server _ _ (adds name p rn other) h =
      inserted_away servername name (some p) server rn (λ q. other (cc)) h
  Change-away servername server _ _ (deletes name rn) h =
      inserted_away servername name none server rn (λ q. absurd (cc)) h
  Change-away servername server _ _ (connects endname name rn) h = h
  Change-away servername server _ _ (enables endname on rn) h = h

  Changes-away :
      (servername : N) (server : ℕ) (rn rn' : Network N)
      → Changes server rn rn'
      → server_at servername rn ≢ some server
      → server_at servername rn' ≢ some server
  Changes-away servername server _ _ (unchanged rn) h = h
  Changes-away servername server _ _ (changed rn rn2 rn' before last) h =
      Change-away servername server rn2 rn' last (Changes-away servername server rn rn2 before h)

  deleted :
      (servername : N) (server : ℕ) (rn : Network N)
      → server_at servername (delete_server servername rn) ≢ some server
  unfolding delete_server
  deleted servername server rn q =
      let b = eq_refl servername in
      let l = lookup-insert servername servername none rn.servers in
      let u : lookup servername (insert servername none rn.servers) ≡ some none = l ∙ rw b refl in
      let z : none ≡ some server = sym (ap pointer u) ∙ q in absurd (cc)

  -- A request that came to an end point while it was connected to a name gets no reply that is ok, once
  -- the server that had the name was deleted: whatever else happens on the network, as long as
  -- that very server is not added again before the wait is over.
  pub deleted_server_never_replies :
      (draws : ℕ → ℕ) (endname servername : N) (server : ℕ) (rn rn1 rn' : Network N)
      (events : List (Wake N)) (ms : ℕ) (d : Delivered)
      → connection_at endname rn ≡ some servername
      → server_at servername rn ≡ some server
      → Changes server (delete_server servername rn1) rn'
      → process_req draws endname rn events rn' ≡ some (ms, d)
      → (reply_of d).ok ≡ false
  deleted_server_never_replies draws endname servername server rn rn1 rn' events ms d c s changes
        h =
      elim (Bool-cases (reply_of d).ok) [
        | inr no_reply ↦ no_reply
        | inl ok ↦
            let (n, p, (c', (_, s')), _, (_, t)) =
              process_req-Reaches draws endname rn events rn' ms d h ok in
            let same_name : n ≡ servername = cc in
            let same : server_at servername rn ≡ some p =
              subst (λ x. server_at x rn ≡ some p) same_name s' in
            let same_address : p ≡ server = some_injective p server (sym same ∙ s) in
            let back : server_at servername rn' ≡ some p =
              subst (λ x. server_at x rn' ≡ some p) same_name t in
            absurd (
              Changes-away servername server (delete_server servername rn1) rn' changes
                (deleted servername server rn1) (back ∙ ap some same_address))
      ]
