-- ===== src/Labrpc/Paths.antt =====
-- labrpc/labrpc.go: when a request runs on a server, and when the server is dead for it.
use distribution_system.Prelude.{
  ℕ, ◌%◌, ltb, ◌==◌, ==_iff, Bool, true, false, ◌&&◌, not, Bool-cases, ◌≡◌, refl, sym, ◌∙◌, ap, inl,
  inr, Option, none, some, arith,
}
use distribution_system.Prelude.Dict.{Eq}
use distribution_system.Labrpc.Network.{
  Network, enabled_at, connection_at, server_at, same_server, read_endname_info, is_server_dead,
}
use distribution_system.Labrpc.Delivery.{dropped, running, start_with, start_req}

module _ {N : Type 0} ⦃e : Eq N⦄ where
  -- The end point is enabled and `server` is the one of that name.
  abbrev pub Alive : N → N → ℕ → Network N → Type 0
  Alive endname servername server rn =
      (enabled_at endname rn ≡ true) × (server_at servername rn ≡ some server)

  -- And it is connected to that name.
  abbrev pub Reaches : N → N → ℕ → Network N → Type 0
  Reaches endname servername server rn =
      (connection_at endname rn ≡ some servername) × Alive endname servername server rn

running_injective :
    {N : Type 0} (n n' : N) (p p' : ℕ) (r r' l l' : Bool)
    → running n p r l ≡ running n' p' r' l'
    → (n ≡ n') × (p ≡ p')
running_injective n n' p p' r r' l l' h = (cc, cc)

start_with_runs :
    {N : Type 0} (draw : ℕ) (a : Bool) (c : Option N) (s : Option ℕ) (r l : Bool) (n : N) (p : ℕ)
    → a ≡ true
    → c ≡ some n
    → s ≡ some p
    → r ≡ true
    → start_with draw a c s r l ≡ running n p true l
unfolding start_with
start_with_runs draw a c s r l n p ha hc hs hr = rw (ha, hc, hs, hr) refl

start_with_ran :
    {N : Type 0} (draw : ℕ) (a : Bool) (c : Option N) (s : Option ℕ) (r l : Bool) (n : N) (p : ℕ)
    (r' l' : Bool)
    → start_with draw a c s r l ≡ running n p r' l'
    → (a ≡ true) × (c ≡ some n) × (s ≡ some p)
unfolding start_with
start_with_ran draw a none s r l n p r' l' h = absurd (cc)
start_with_ran draw a (some m) none r l n p r' l' h = absurd (cc)
start_with_ran draw false (some m) (some q) r l n p r' l' h = absurd (cc)
start_with_ran draw true (some m) (some q) r l n p r' l' h =
    elim (Bool-cases (not r && ltb (draw % 1000) 100)) [
      | inl d ↦
          let now : start_with draw true (some m) (some q) r l ≡ dropped =
            rw (start_with, d) refl in
          absurd (cc)
      | inr d ↦
          let now : start_with draw true (some m) (some q) r l ≡ running m q r l =
            rw (start_with, d) refl in
          let (e, f) = running_injective m n q p r r' l l' (sym now ∙ h) in
          (refl, ap some e, ap some f)
    ]

-- The server that ReadEndnameInfo finds.
abbrev server_of : {N : Type 0} → ⦃e : Eq N⦄ → N → Network N → Option ℕ
server_of endname rn = elim (connection_at endname rn) [
  | none ↦ none
  | some name ↦ server_at name rn
]

server_of-some :
    {N : Type 0} ⦃e : Eq N⦄ (endname servername : N) (rn : Network N)
    → connection_at endname rn ≡ some servername
    → server_of endname rn ≡ server_at servername rn
server_of-some endname servername rn c = rw (server_of, c) refl

same_server-some : (o : Option ℕ) (p : ℕ) → same_server o p ≡ true → o ≡ some p
same_server-some none p h = absurd (cc)
same_server-some (some q) p h = ap some ((==_iff q p).0 h)

module _ {N : Type 0} ⦃e : Eq N⦄ where
  pub is_server_dead-Alive :
      (endname servername : N) (server : ℕ) (rn : Network N)
      → is_server_dead endname servername server rn ≡ false
      → Alive endname servername server rn
  unfolding is_server_dead
  is_server_dead-Alive endname servername server rn h =
      let a : enabled_at endname rn ≡ true = ground arith in
      let b : same_server (server_at servername rn) server ≡ true = ground arith in
      (a, same_server-some (server_at servername rn) server b)

  pub Alive-is_server_dead :
      (endname servername : N) (server : ℕ) (rn : Network N)
      → Alive endname servername server rn
      → is_server_dead endname servername server rn ≡ false
  unfolding is_server_dead
  Alive-is_server_dead endname servername server rn (a, b) =
      let s : (server == server) ≡ true = ground arith in rw (is_server_dead, a, b, s) refl

  pub start_req_runs :
      (draw : ℕ) (endname servername : N) (server : ℕ) (rn : Network N)
      → Reaches endname servername server rn
      → rn.reliable ≡ true
      → start_req draw endname rn ≡ running servername server true rn.long_reordering
  unfolding start_req read_endname_info
  start_req_runs draw endname servername server rn (c, (a, s)) r =
      start_with_runs draw (enabled_at endname rn) (connection_at endname rn) (server_of endname rn)
        rn.reliable rn.long_reordering servername server a c
        (server_of-some endname servername rn c ∙ s) r

  pub start_req-Reaches :
      (draw : ℕ) (endname servername : N) (server : ℕ) (reliable longreordering : Bool)
      (rn : Network N)
      → start_req draw endname rn ≡ running servername server reliable longreordering
      → Reaches endname servername server rn
  unfolding start_req read_endname_info
  start_req-Reaches draw endname servername server reliable longreordering rn h =
      let (a, c, s) =
        start_with_ran draw (enabled_at endname rn) (connection_at endname rn)
          (server_of endname rn) rn.reliable rn.long_reordering servername server reliable
          longreordering h in
      (c, (a, sym (server_of-some endname servername rn c) ∙ s))
