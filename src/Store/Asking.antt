-- ===== src/Store/Asking.antt =====
-- About `send_sync_requests` of ossa-core/src/store/mod.rs: whom a store asks.
pub mod Chunks
pub mod Whole
use mathlib.Core.List.{append_assoc, append-nil}
use ossa.Prelude.{
  ℕ, zero, suc, ◌+◌, ◌≤◌, ◌<◌, ◌≡◌, ◌≢◌, refl, sym, ◌∙◌, ap, inl, inr, Bool, true, false,
  Bool-cases, Option, none, some, Option-cases, List, [], ◌∷◌, ◌++◌, map, length, take, chunks, All,
  Run, done, panic, ◌>>=◌, Ord, beq, beq_iff, contains, count, count-contains, get, insert,
  get-insert, compare_refl, IsAscending, Above, get-Above, if◌then◌else◌, nat_ord, arith,
}
use ossa.Store.Peers.{
  PeerInfo, PeerStatus, OutgoingPeerStatus, is_idle, is_ready_for_sync, ready_peers,
  mark_outstanding,
}
use ossa.Store.{OssaType, StateMachine, StoreSyncCommand, Event, command, World}
use ossa.Store.Requests.{Rng, send, set_peers, send_command, send_zip}

-- the peer takes requests, on that channel
abbrev pub IsReady : List (ℕ × PeerInfo) → ℕ → OutgoingPeerStatus → Type 0
IsReady peers p s =
    (info : PeerInfo) × (get p peers ≡ some info)
    × (info.outgoing_status ≡ PeerStatus.syncing s)
    × (s.is_outstanding ≡ false)

ready_status :
    (st : PeerStatus OutgoingPeerStatus)
    → is_idle st ≡ true
    → (s : OutgoingPeerStatus) × (st ≡ PeerStatus.syncing s) × (s.is_outstanding ≡ false)
unfolding is_idle
ready_status PeerStatus.known e = absurd (cc)
ready_status PeerStatus.initializing e = absurd (cc)
ready_status (PeerStatus.syncing s) e = (s, refl, ground arith)

-- a peer that is listed is ready, and listed once
pub ready_peers-IsReady :
    (peers : List (ℕ × PeerInfo)) (p : ℕ)
    → IsAscending peers
    → contains p (ready_peers peers) ≡ true
    → (s : OutgoingPeerStatus) × IsReady peers p s
unfolding ready_peers is_ready_for_sync contains get
ready_peers-IsReady [] p a e = absurd (cc)
ready_peers-IsReady ((q, info) ∷ peers) p (above, a) e =
    elim (Bool-cases (contains p (ready_peers peers))) [
      | inl listed ↦
          let (s, (i, g, f, out)) = ready_peers-IsReady peers p a listed in
          let below = get-Above q p i peers above g in (s, (i, ground arith, f, out))
      | inr fresh ↦ elim (Bool-cases (is_idle info.outgoing_status)) [
        | inl idle ↦
            let (s, f, out) = ready_status info.outgoing_status idle in
            (s, (info, ground arith, f, out))
        | inr busy ↦ absurd (ground arith)
      ]
    ]

pub count_ready-le :
    (peers : List (ℕ × PeerInfo)) (p : ℕ) → IsAscending peers → count p (ready_peers peers) ≤ 1
unfolding ready_peers is_ready_for_sync
count_ready-le [] p a = omega arith
count_ready-le ((q, info) ∷ peers) p (above, a) =
    elim (Bool-cases (contains p (ready_peers peers))) [
      | inl listed ↦
          let (s, (i, g, f, out)) = ready_peers-IsReady peers p a listed in
          let below = get-Above q p i peers above g in
          let rest = count_ready-le peers p a in ground arith
      | inr fresh ↦ ground (arith, count-contains p (ready_peers peers))
    ]

-- the status of a peer after a request
unfoldable pub busy_status : PeerStatus OutgoingPeerStatus → PeerStatus OutgoingPeerStatus
busy_status PeerStatus.known = PeerStatus.known
busy_status PeerStatus.initializing = PeerStatus.initializing
busy_status (PeerStatus.syncing s) = PeerStatus.syncing (record s { is_outstanding = true })

unfoldable pub busy : Option PeerInfo → Option PeerInfo
busy none = none
busy (some info) = some (record info { outgoing_status = busy_status info.outgoing_status })

-- what is sent to some ready peers
unfoldable pub commands :
    {ot : OssaType} → List (ℕ × OutgoingPeerStatus) → List (StoreSyncCommand ot) → List (Event ot)
commands [] messages = []
commands ((p, s) ∷ asked) [] = []
commands ((p, s) ∷ asked) (m ∷ messages) = command s.sender_peer m ∷ commands asked messages

abbrev pub ids : List (ℕ × OutgoingPeerStatus) → List ℕ
ids [] = []
ids ((p, s) ∷ asked) = p ∷ ids asked

-- the peers asked, each on the channel of its status
abbrev pub AreReady : List (ℕ × PeerInfo) → List (ℕ × OutgoingPeerStatus) → Type 0
AreReady peers [] = Unit
AreReady peers ((p, s) ∷ asked) = IsReady peers p s × AreReady peers asked

-- What changes by requests: those asked were ready and are busy now, all others are as before, and each
-- of those asked is sent one message.
pub record Asked {ot : OssaType} (w w' : World ot) (asked : List (ℕ × OutgoingPeerStatus))
    (messages : List (StoreSyncCommand ot)) : Type 0 where
  pub state_machine : w'.store.state_machine ≡ w.store.state_machine
  pub ready : AreReady w.store.peers asked
  pub once : (p : ℕ) → count p (ids asked) ≤ 1
  pub peers :
      (p : ℕ)
      → get p w'.store.peers
        ≡ (if contains p (ids asked) then busy (get p w.store.peers) else get p w.store.peers)
  pub sent : w'.sent ≡ w.sent ++ commands asked messages

still_ready :
    (peers : List (ℕ × PeerInfo)) (p : ℕ) (info : PeerInfo) (asked : List (ℕ × OutgoingPeerStatus))
    → contains p (ids asked) ≡ false
    → AreReady peers asked
    → AreReady (insert p info peers) asked
unfolding contains
still_ready peers p info [] e r = tt
still_ready peers p info ((q, s) ∷ asked) e ((i, g, f, out), rs) = (
  (i, ground (arith, get-insert p q info peers), f, out),
  still_ready peers p info asked (ground arith) rs,
)

count-take :
    (n p : ℕ) (asked : List (ℕ × OutgoingPeerStatus))
    → count p (ids (take n asked)) ≤ count p (ids asked)
count-take zero p asked = omega arith
count-take (suc n) p [] = omega arith
count-take (suc n) p ((q, s) ∷ asked) = let ih = count-take n p asked in ground arith

take-AreReady :
    (n : ℕ) (peers : List (ℕ × PeerInfo)) (asked : List (ℕ × OutgoingPeerStatus))
    → AreReady peers asked
    → AreReady peers (take n asked)
take-AreReady zero peers asked r = tt
take-AreReady (suc n) peers [] r = tt
take-AreReady (suc n) peers ((q, s) ∷ asked) (i, r) = (i, take-AreReady n peers asked r)

module _ {ot : OssaType} where
  sent_to : World ot → ℕ → PeerInfo → OutgoingPeerStatus → StoreSyncCommand ot → World ot
  unfolding send set_peers
  sent_to w p info s m =
      send
        (set_peers w (
          insert p
            (record info {
              outgoing_status = PeerStatus.syncing (record s { is_outstanding = true });
            })
            w.store.peers))
        (command s.sender_peer m)

  send_command_ready :
      (w : World ot) (p : ℕ) (info : PeerInfo) (s : OutgoingPeerStatus) (m : StoreSyncCommand ot)
      → get p w.store.peers ≡ some info
      → info.outgoing_status ≡ PeerStatus.syncing s
      → send_command w p m ≡ done (sent_to w p info s m)
  unfolding send_command mark_outstanding sent_to
  send_command_ready w p info s m g f = rw (g, send_command) (rw (f, mark_outstanding) refl)

  -- the first message, and then the others
  Asked-first :
      (w w' : World ot) (p : ℕ) (info : PeerInfo) (s : OutgoingPeerStatus) (m : StoreSyncCommand ot)
      (asked : List (ℕ × OutgoingPeerStatus)) (messages : List (StoreSyncCommand ot))
      → get p w.store.peers ≡ some info
      → info.outgoing_status ≡ PeerStatus.syncing s
      → s.is_outstanding ≡ false
      → AreReady w.store.peers asked
      → count p (ids asked) ≡ 0
      → Asked (sent_to w p info s m) w' asked messages
      → Asked w w' ((p, s) ∷ asked) (m ∷ messages)
  unfolding sent_to send set_peers commands busy busy_status contains
  Asked-first w w' p info s m asked messages g f out r c k = record {
    state_machine = k.state_machine;
    ready = ((info, g, f, out), r);
    once = λ q. elim (Bool-cases (beq q p)) [
      | inl e ↦ let u = ap (λ x. count x (ids asked)) ((beq_iff q p).0 e) in ground arith
      | inr e ↦ let k1 = k.once q in ground arith
    ];
    peers = λ q. elim (Bool-cases (beq q p)) [
      | inl e ↦ first_peer q e
      | inr e ↦
          let k1 = k.peers q in
          ground (
            arith,
            get-insert p q
                (record info {
                  outgoing_status = PeerStatus.syncing (record s { is_outstanding = true });
                })
                w.store.peers,
          )
    ];
    sent = k.sent ∙ append_assoc w.sent (command s.sender_peer m ∷ []) (commands asked messages);
  }
    where
      first_peer :
          (q : ℕ)
          → beq q p ≡ true
          → get q w'.store.peers ≡ (
              if contains q (p ∷ ids asked)
              then busy (get q w.store.peers)
              else get q w.store.peers)
      first_peer q e =
          let after : PeerInfo = record info {
            outgoing_status = PeerStatus.syncing (record s { is_outstanding = true });
          } in
          let t : q ≡ p = (beq_iff q p).0 e in
          let others = ap (λ x. count x (ids asked)) t in
          let k1 = k.peers q in
          let now : get q w'.store.peers ≡ some after =
            ground (arith, get-insert p q after w.store.peers, count-contains q (ids asked)) in
          let was : busy (get q w.store.peers) ≡ some after =
            ap (λ x. busy (get x w.store.peers)) t
            ∙ ap busy g
            ∙ ap (λ st. some (record info { outgoing_status = busy_status st })) f in
          rw e (now ∙ sym was)

  none-Asked : (w : World ot) (messages : List (StoreSyncCommand ot)) → Asked w w [] messages
  unfolding commands contains
  none-Asked w messages = record {
    state_machine = refl;
    ready = tt;
    once = λ p. omega arith;
    peers = λ p. refl;
    sent = sym (append-nil w.sent);
  }

  pub send_zip-Asked :
      (all : List (ℕ × OutgoingPeerStatus)) (messages : List (StoreSyncCommand ot)) (w : World ot)
      → AreReady w.store.peers all
      → ((p : ℕ) → count p (ids all) ≤ 1)
      → (w' : World ot) × (send_zip w (ids all) messages ≡ done w')
        × Asked w w' (take (length messages) all) messages
  unfolding send_zip sent_to send set_peers commands contains
  send_zip-Asked [] [] w r c = (w, refl, none-Asked w [])
  send_zip-Asked [] (m ∷ messages) w r c = (w, refl, none-Asked w (m ∷ messages))
  send_zip-Asked ((p, s) ∷ all) [] w r c = (w, refl, none-Asked w [])
  send_zip-Asked ((p, s) ∷ all) (m ∷ messages) w ((info, g, f, out), r) c =
      let none_left : count p (ids all) ≡ 0 = let one = c p in ground (arith, compare_refl p) in
      let absent : contains p (ids all) ≡ false = ground (arith, count-contains p (ids all)) in
      let (w', e, k) =
        send_zip-Asked all messages (sent_to w p info s m)
          (still_ready w.store.peers p _ all absent r) (λ q. let one = c q in ground arith) in
      (
        w',
        rw (send_command_ready w p info s m g f) e,
        Asked-first w w' p info s m (take (length messages) all) messages g f out
            (take-AreReady (length messages) w.store.peers all r)
            (omega (arith, count-take (length messages) p all)) k,
      )
