-- ===== src/Store/Listeners.antt =====
-- About `update_listeners` of ossa-core/src/store/mod.rs.
use mathlib.Core.Path.{subst}
use mathlib.Core.List.{append_assoc, append-nil}
use ossa.Prelude.{
  ℕ, ◌≡◌, refl, sym, ◌∙◌, ap, inl, inr, Bool, true, false, Option, none, some, Option-cases, List,
  [], ◌∷◌, ◌++◌, map, ◌==◌, if◌then◌else◌, get, get-nil, get-insert, beq, IsAscending, get-Above,
  nat_ord, arith,
}
use ossa.Ecg as Ecg
use ossa.Store.{OssaType, World, update, snapshot, notify_ecg}
use ossa.Store.Requests.{send}
use ossa.Store.Download.{
  is_from, add_back, notify_subscriber, send_snapshots, notify_subscribers, update_listeners,
}

unfoldable pub with_other : ℕ → Bool → List ℕ → List ℕ
with_other chan true chans = chans
with_other chan false chans = chan ∷ chans

-- the channels of the subscribers that did not send the change
unfoldable pub others : Option ℕ → List (ℕ × ℕ) → List ℕ
unfolding with_other
others from_peer [] = []
others from_peer ((peer, chan) ∷ subs) =
    with_other chan (is_from peer from_peer) (others from_peer subs)

abbrev or_else : Option ℕ → Option ℕ → Option ℕ
or_else none b = b
or_else (some a) b = some a

module _ {ot : OssaType} where
  send_snapshots-sent :
      (w : World ot) (ls : List ℕ) (t : ot.T) (e : Ecg.State ot.Header ot.dag)
      → (send_snapshots w ls t e).sent ≡ w.sent ++ map (λ l. update l (snapshot t e)) ls
  unfolding send_snapshots send
  send_snapshots-sent w [] t e = sym (append-nil w.sent)
  send_snapshots-sent w (l ∷ ls) t e =
      send_snapshots-sent (send w (update l (snapshot t e))) ls t e
      ∙ append_assoc w.sent (update l (snapshot t e) ∷ []) (map (λ l. update l (snapshot t e)) ls)

  send_snapshots-store :
      (w : World ot) (ls : List ℕ) (t : ot.T) (e : Ecg.State ot.Header ot.dag)
      → (send_snapshots w ls t e).store ≡ w.store
  unfolding send_snapshots send
  send_snapshots-store w [] t e = refl
  send_snapshots-store w (l ∷ ls) t e =
      send_snapshots-store (send w (update l (snapshot t e))) ls t e

  notify_subscriber-sent :
      (w : World ot) (peer chan : ℕ) (e : Ecg.State ot.Header ot.dag) (from : Bool) (chans : List ℕ)
      → (notify_subscriber w peer chan e from).sent ++ map (λ c. notify_ecg c e) chans
        ≡ w.sent ++ map (λ c. notify_ecg c e) (with_other chan from chans)
  unfolding notify_subscriber send add_back with_other
  notify_subscriber-sent w peer chan e true chans = refl
  notify_subscriber-sent w peer chan e false chans =
      append_assoc w.sent (notify_ecg chan e ∷ []) (map (λ c. notify_ecg c e) chans)

  notify_subscribers-sent :
      (subs : List (ℕ × ℕ)) (w : World ot) (e : Ecg.State ot.Header ot.dag) (from_peer : Option ℕ)
      → (notify_subscribers w subs e from_peer).sent
        ≡ w.sent ++ map (λ chan. notify_ecg chan e) (others from_peer subs)
  unfolding notify_subscribers others
  notify_subscribers-sent [] w e from_peer = sym (append-nil w.sent)
  notify_subscribers-sent ((peer, chan) ∷ subs) w e from_peer =
      notify_subscribers-sent subs (notify_subscriber w peer chan e (is_from peer from_peer)) e
        from_peer
      ∙ notify_subscriber-sent w peer chan e (is_from peer from_peer) (others from_peer subs)

  notify_subscriber-get :
      (w : World ot) (peer chan : ℕ) (e : Ecg.State ot.Header ot.dag) (from : Bool) (p : ℕ)
      → get p (notify_subscriber w peer chan e from).store.ecg_subscribers ≡ (
          if from
          then (if beq p peer then some chan else get p w.store.ecg_subscribers)
          else get p w.store.ecg_subscribers)
  unfolding notify_subscriber send add_back
  notify_subscriber-get w peer chan e true p = get-insert peer p chan w.store.ecg_subscribers
  notify_subscriber-get w peer chan e false p = refl

  notify_subscribers-get :
      (subs : List (ℕ × ℕ)) (w : World ot) (e : Ecg.State ot.Header ot.dag) (from_peer : Option ℕ)
      (p : ℕ)
      → IsAscending subs
      → get p (notify_subscribers w subs e from_peer).store.ecg_subscribers ≡ (
          if is_from p from_peer
          then or_else (get p subs) (get p w.store.ecg_subscribers)
          else get p w.store.ecg_subscribers)
  unfolding notify_subscribers is_from get
  notify_subscribers-get [] w e from_peer p a = ground arith
  notify_subscribers-get ((peer, chan) ∷ subs) w e none p (above, a) =
      notify_subscribers-get subs (notify_subscriber w peer chan e false) e none p a
      ∙ notify_subscriber-get w peer chan e false p
  notify_subscribers-get ((peer, chan) ∷ subs) w e (some from) p (above, a) =
      let ih =
        notify_subscribers-get subs (notify_subscriber w peer chan e (peer == from)) e (some from) p
          a in
      let one = notify_subscriber-get w peer chan e (peer == from) p in
      elim (Option-cases (get p subs)) [
        | inl none_there ↦ ground arith
        | inr (c, there) ↦ let l = get-Above peer p c subs above there in ground arith
      ]

  -- Every listener is sent the new state, in order, and then every subscriber is sent the graph, save the
  -- peer that the change is from; that peer stays subscribed, and nobody else does.
  pub update_listeners_lem :
      (w : World ot) (t : ot.T) (e : Ecg.State ot.Header ot.dag) (from_peer : Option ℕ)
      → IsAscending w.store.ecg_subscribers
      → ((update_listeners w t e from_peer).sent
          ≡ w.sent
            ++ map (λ l. update l (snapshot t e)) w.listeners
            ++ map (λ chan. notify_ecg chan e) (others from_peer w.store.ecg_subscribers))
        × ((p : ℕ)
            → get p (update_listeners w t e from_peer).store.ecg_subscribers
              ≡ (if is_from p from_peer then get p w.store.ecg_subscribers else none))
  unfolding update_listeners
  update_listeners_lem w t e from_peer a =
      let w1 = send_snapshots w w.listeners t e in
      let w2 = record w1 { store = record w1.store { ecg_subscribers = [] } } in
      let same : w1.store.ecg_subscribers ≡ w.store.ecg_subscribers =
        ap (λ s. s.ecg_subscribers) (send_snapshots-store w w.listeners t e) in
      (
        notify_subscribers-sent w1.store.ecg_subscribers w2 e from_peer
            ∙ ap
                (λ s.
                  s ++ map (λ chan. notify_ecg chan e) (others from_peer w1.store.ecg_subscribers))
                (send_snapshots-sent w w.listeners t e)
            ∙ ap
                (λ subs.
                  w.sent
                  ++ map (λ l. update l (snapshot t e)) w.listeners
                  ++ map (λ chan. notify_ecg chan e) (others from_peer subs))
                same,
        λ p.
            let g =
              notify_subscribers-get w1.store.ecg_subscribers w2 e from_peer p
                (subst IsAscending (sym same) a) in
            g
            ∙ alone (is_from p from_peer) (get p w1.store.ecg_subscribers) (get-nil p)
            ∙ ap (λ subs. if is_from p from_peer then get p subs else none) same,
      )
    where
      alone :
          (b : Bool) (o : Option ℕ) {rest : Option ℕ}
          → rest ≡ none
          → (if b then or_else o rest else rest) ≡ (if b then o else none)
      alone true none h = h
      alone true (some a) h = refl
      alone false o h = h
