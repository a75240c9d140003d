-- ===== src/PortManager/Disconnecting/Once.antt =====
-- calvin/runtime/north/portmanager.py: however the peers of a port answer, the caller is told once.
use exjobb_calvin.Prelude.{
  String, Bool, true, false, ◌&&◌, none, some, List, [], ◌∷◌, ◌++◌, ◌≡◌, refl, arith, ap, ◌∙◌, sym,
  Result, ok, err, Bool-cases, inl, inr,
}
use exjobb_calvin.Prelude.Dict.{
  lookup, insert, remove, del, lookup-remove, str_eq_refl, lookup-insert_self, del-lookup,
}
use exjobb_calvin.Port.{Peer}
use exjobb_calvin.PortManager.{
  Status, succeeded, internal_error, is_ok, disconnect_answered, Manager, emit,
}
use exjobb_calvin.PortManager.Disconnecting.{
  remove_peer, tell, peer_answered, peer_failed, peers_done, disconnected_port, is_empty_peers,
  status_of,
}

-- The answers: of which peer, and how.
abbrev pub Answers : Type 0
Answers = List (Status × Peer)

-- Before each answer some peers have not answered, and after the last all have.
abbrev pub Answering : List Peer → Answers → Type 0
Answering peers [] = peers ≡ []
Answering peers ((status, peer) ∷ answers) =
    (is_empty_peers peers ≡ false) × Answering (remove_peer peer peers) answers

unfoldable pub all_ok : Answers → Bool
all_ok [] = true
all_ok ((status, peer) ∷ answers) = is_ok status && all_ok answers

no_more :
    (answers : Answers) (peers : List Peer)
    → is_empty_peers peers ≡ true
    → Answering peers answers
    → all_ok answers ≡ true
unfolding all_ok
no_more [] peers e a = refl
no_more ((status, peer) ∷ answers) peers e a = absurd (let f : true ≡ false = sym e ∙ a.0 in cc)

abbrev pub kept_or : {S : Type 0} → S → Result S → S
kept_or s (ok s') = s'
kept_or s (err _) = s

module _ {C : Type 0} (c : C) (port_id : String) where
  -- The answers one after the other; an exception ends the handling of its own answer only.
  unfoldable pub answer_all : Answers → Manager C → Manager C
  answer_all [] m = m
  answer_all ((status, peer) ∷ answers) m =
      answer_all answers
        (elim (disconnected_port status peer (some c) port_id m) [ ok m' ↦ m' | err _ ↦ m ])

  -- The manager after an answer of one peer: without the port, or with the others.
  abbrev without_port : Peer → List Peer → Manager C → Manager C
  without_port peer peers m = record m {
    disconnecting_ports =
        remove port_id (insert port_id (remove_peer peer peers) m.disconnecting_ports);
  }

  abbrev with_peers : Peer → List Peer → Manager C → Manager C
  with_peers peer peers m = record m {
    disconnecting_ports = insert port_id (remove_peer peer peers) m.disconnecting_ports;
  }

  answered_with :
      (peer : Peer) (peers : List Peer) (m : Manager C)
      → lookup port_id m.disconnecting_ports ≡ some peers
      → peer_answered peer port_id m ≡ with_peers peer peers m
  unfolding peer_answered
  answered_with peer peers m h = rw (h, peer_answered) refl

  last_done :
      (status : Status) (peer : Peer) (peers : List Peer) (m : Manager C)
      → is_ok status ≡ true
      → lookup port_id m.disconnecting_ports ≡ some peers
      → is_empty_peers (remove_peer peer peers) ≡ true
      → disconnected_port status peer (some c) port_id m
        ≡ ok (tell (some c) succeeded port_id (without_port peer peers m))
  unfolding disconnected_port peers_done
  last_done status peer peers m s h e =
      rw (s, answered_with peer peers m h)
        (rw (lookup-insert_self port_id (remove_peer peer peers) m.disconnecting_ports, peers_done)
          (rw e refl))

  one_done :
      (status : Status) (peer : Peer) (peers : List Peer) (m : Manager C)
      → is_ok status ≡ true
      → lookup port_id m.disconnecting_ports ≡ some peers
      → is_empty_peers (remove_peer peer peers) ≡ false
      → disconnected_port status peer (some c) port_id m ≡ ok (with_peers peer peers m)
  unfolding disconnected_port peers_done
  one_done status peer peers m s h e =
      rw (s, answered_with peer peers m h)
        (rw (lookup-insert_self port_id (remove_peer peer peers) m.disconnecting_ports, peers_done)
          (rw e refl))

  lookup-removed :
      (peer : Peer) (peers : List Peer) (m : Manager C)
      → lookup port_id (without_port peer peers m).disconnecting_ports ≡ none
  lookup-removed peer peers m =
      rw
        (lookup-remove port_id port_id
          (insert port_id (remove_peer peer peers) m.disconnecting_ports))
        (rw (str_eq_refl port_id) refl)

  one_failed :
      (status : Status) (peer : Peer) (peers : List Peer) (m : Manager C)
      → is_ok status ≡ false
      → lookup port_id m.disconnecting_ports ≡ some peers
      → disconnected_port status peer (some c) port_id m
        ≡ ok (tell (some c) internal_error port_id (without_port peer peers m))
  unfolding disconnected_port peers_done peer_failed tell emit
  one_failed status peer peers m s h =
      let d = insert port_id (remove_peer peer peers) m.disconnecting_ports in
      rw (s, answered_with peer peers m h)
        (rw
          (del-lookup port_id d (remove_peer peer peers)
            (lookup-insert_self port_id (remove_peer peer peers) m.disconnecting_ports))
          (rw (lookup-removed peer peers m, peers_done) refl))

  after_answer :
      (status : Status) (peer : Peer) (m : Manager C)
      → lookup port_id m.disconnecting_ports ≡ none
      → kept_or m (disconnected_port status peer (some c) port_id m) ≡ m
  unfolding disconnected_port peer_answered peers_done peer_failed del
  after_answer status peer m h = ground arith

  -- A port that was answered for is not answered for again.
  after_done :
      (answers : Answers) (m : Manager C)
      → lookup port_id m.disconnecting_ports ≡ none
      → answer_all answers m ≡ m
  unfolding answer_all
  after_done [] m h = refl
  after_done ((status, peer) ∷ answers) m h =
      ap (answer_all answers) (after_answer status peer m h) ∙ after_done answers m h

  tell-done :
      (status : Status) (peer : Peer) (peers : List Peer) (answers : Answers) (m : Manager C)
      → (answer_all answers (tell (some c) status port_id (without_port peer peers m))).events
        ≡ m.events ++ disconnect_answered c status port_id ∷ []
  unfolding tell emit
  tell-done status peer peers answers m =
      ap (λ n. n.events)
        (after_done answers (tell (some c) status port_id (without_port peer peers m))
          (lookup-removed peer peers m))

  answer_all-step :
      (status : Status) (peer : Peer) (answers : Answers) (m m' : Manager C)
      → disconnected_port status peer (some c) port_id m ≡ ok m'
      → (answer_all ((status, peer) ∷ answers) m).events ≡ (answer_all answers m').events
  unfolding answer_all
  answer_all-step status peer answers m m' e = ap (λ r. (answer_all answers (kept_or m r)).events) e

  -- A port that waits for the answers of some peers, which come in any order, each a success or a
  -- failure, until all peers are off the list: the caller's callback is called exactly once, with
  -- True if all answers are successes and with False otherwise.
  pub answer_all-once :
      (answers : Answers) (peers : List Peer) (m : Manager C)
      → lookup port_id m.disconnecting_ports ≡ some peers
      → is_empty_peers peers ≡ false
      → Answering peers answers
      → (answer_all answers m).events
        ≡ m.events ++ disconnect_answered c (status_of (all_ok answers)) port_id ∷ []
  unfolding all_ok
  answer_all-once [] peers m h some_left a =
      absurd (let e : false ≡ true = sym some_left ∙ ap is_empty_peers a in cc)
  answer_all-once ((status, peer) ∷ answers) peers m h some_left a =
      elim (Bool-cases (is_ok status)) [
        | inr f ↦
            answer_all-step status peer answers m _ (one_failed status peer peers m f h)
            ∙ tell-done internal_error peer peers answers m
            ∙ rw f refl
        | inl s ↦ elim (Bool-cases (is_empty_peers (remove_peer peer peers))) [
          | inl e ↦
              answer_all-step status peer answers m _ (last_done status peer peers m s h e)
              ∙ tell-done succeeded peer peers answers m
              ∙ rw (s, no_more answers (remove_peer peer peers) e a.1) refl
          | inr e ↦
              answer_all-step status peer answers m _ (one_done status peer peers m s h e)
              ∙ answer_all-once answers (remove_peer peer peers) (with_peers peer peers m)
                  (lookup-insert_self port_id (remove_peer peer peers) m.disconnecting_ports) e a.1
              ∙ rw s refl
        ]
      ]
