-- ===== src/Tunnels/Waiting.antt =====
-- calvin/runtime/north/calvin_proto.py: a tunnel object that is entered under its id, and a reply that
-- makes it working.
use exjobb_calvin.Prelude.{
  ℕ, String, Bool, true, false, Option, none, some, List, [], ◌∷◌, ◌++◌, ◌≡◌, refl, sym, ap, subst,
  ◌∙◌, arith, str_eq, eq_iff, Result, ok, err, ◌>>=◌, Bool-cases, inl, inr,
}
use exjobb_calvin.Prelude.Dict.{
  Dict, lookup, insert, remove, lookup-insert, lookup-remove, lookup-insert_self, get-lookup,
  del-lookup,
}
use exjobb_calvin.Prelude.Dict.Names.{contains}
use exjobb_calvin.Tunnels.{
  Status, working_tunnel, Event, reply_sent, up_called, Proto, emit, set_object, pop_id, update_id,
  call, set_status, take_id, setup_ack,
}

-- A callback that is not there or does not raise.
unfoldable pub returns : Option (Result Bool) → Bool
returns (some (err _)) = false
returns _ = true

-- The tunnel object r has this id, peer and status, and is in the dictionary under its id only.
pub record At {V : Type 0} (peer : String) (r : ℕ) (id : String) (status : Status) (s : Proto V)
    : Type 0 where
  pub has_id : (s.objects r).id ≡ id
  pub has_peer : (s.objects r).peer_node_id ≡ some peer
  pub has_status : (s.objects r).status ≡ status
  pub names : Dict ℕ
  pub of_peer : lookup peer s.tunnels ≡ some names
  pub named : lookup id names ≡ some r
  pub alone : (j : String) → lookup j names ≡ some r → j ≡ id
  pub has_link : contains peer s.links ≡ true
  pub up_returns : returns ((s.objects r).handlers.up) ≡ true

-- The last reply that left: its status and id.
unfoldable pub last_reply : {V : Type 0} → List (Event V) → Option (Bool × Option String)
last_reply [] = none
last_reply (e ∷ es) = elim (last_reply es) [
  | some answer ↦ some answer
  | none ↦ elim e [ reply_sent to msg_uuid status id ↦ some (status, id) | _ ↦ none ]
]

last_reply-up :
    {V : Type 0}
    → (r : ℕ) (es : List (Event V)) → last_reply (es ++ up_called r ∷ []) ≡ last_reply es
unfolding last_reply
last_reply-up r [] = refl
last_reply-up r (e ∷ es) = rw (last_reply-up r es) refl

module _ {V : Type 0} (peer : String) (r : ℕ) where
  -- A new id for the tunnel: the old one is dropped.
  unfoldable renamed :
      (new id : String) (status : Status) (s : Proto V) → At peer r id status s → Proto V
  renamed new id status s h = record (set_object r (record (s.objects r) { id = new }) s) {
    tunnels =
        insert peer (insert new r (remove id (h.names)))
          (insert peer (remove id (h.names)) s.tunnels);
  }

  update_id-eq :
      (new id : String) (status : Status) (s : Proto V) (h : At peer r id status s)
      → update_id new r s ≡ ok (renamed new id status s h)
  unfolding update_id pop_id set_object renamed
  update_id-eq new id status s h =
      rw
        (
          h.has_peer,
          h.has_id,
          get-lookup peer s.tunnels (h.names) (h.of_peer),
          del-lookup id (h.names) r (h.named),
          get-lookup peer (insert peer (remove id (h.names)) s.tunnels) (remove id (h.names))
              (lookup-insert_self peer (remove id (h.names)) s.tunnels),
        )
        refl

  renamed-At :
      (new id : String) (status : Status) (s : Proto V) (h : At peer r id status s)
      → At peer r new status (renamed new id status s h)
  unfolding set_object renamed
  renamed-At new id status s h = record {
    has_id = ground arith;
    has_peer = ground (arith, h.has_peer);
    has_status = ground (arith, h.has_status);
    names = insert new r (remove id (h.names));
    of_peer =
        lookup-insert_self peer (insert new r (remove id (h.names)))
          (insert peer (remove id (h.names)) s.tunnels);
    named = lookup-insert_self new r (remove id (h.names));
    alone = λ j e. ground (
      arith,
      h.alone j,
      eq_iff new j,
      eq_iff id j,
      lookup-insert new j r (remove id (h.names)),
      lookup-remove id j (h.names),
    );
    has_link = h.has_link;
    up_returns = ground (arith, h.up_returns);
  }

  take_id-At :
      (new id : String) (status : Status) (s : Proto V)
      → At peer r id status s
      → (s' : Proto V) × (take_id (some new) r s ≡ ok s')
        × At peer r new status s'
        × (s'.events ≡ s.events)
  unfolding take_id set_object renamed
  take_id-At new id status s h = elim (Bool-cases (str_eq new id)) [
    | inl same ↦
        let e = (eq_iff new id).0 same in
        (
          s,
          rw (ap (str_eq new) h.has_id ∙ same) refl,
          subst (λ i. At peer r i status s) (sym e) h,
          refl,
        )
    | inr other ↦ (
      renamed new id status s h,
      rw (ap (str_eq new) h.has_id ∙ other) (update_id-eq new id status s h),
      renamed-At new id status s h,
      refl,
    )
  ]

  status-At :
      (id : String) (status new : Status) (s : Proto V)
      → At peer r id status s
      → At peer r id new (set_status new r s)
  unfolding set_status set_object
  status-At id status new s h = record {
    has_id = ground (arith, h.has_id);
    has_peer = ground (arith, h.has_peer);
    has_status = ground arith;
    names = h.names;
    of_peer = h.of_peer;
    named = h.named;
    alone = h.alone;
    has_link = h.has_link;
    up_returns = ground (arith, h.up_returns);
  }

  pub emit-At :
      (id : String) (status : Status) (e : Event V) (s : Proto V)
      → At peer r id status s
      → At peer r id status (emit e s)
  unfolding emit
  emit-At id status e s h = record {
    has_id = h.has_id;
    has_peer = h.has_peer;
    has_status = h.has_status;
    names = h.names;
    of_peer = h.of_peer;
    named = h.named;
    alone = h.alone;
    has_link = h.has_link;
    up_returns = h.up_returns;
  }

  call-At :
      (id : String) (status : Status) (up : Option (Result Bool)) (s : Proto V)
      → returns up ≡ true
      → At peer r id status s
      → (s' : Proto V) × (call up (up_called r) s ≡ ok s')
        × At peer r id status s'
        × (last_reply s'.events ≡ last_reply s.events)
  unfolding call returns emit
  call-At id status none s u h = (s, refl, h, refl)
  call-At id status (some (ok b)) s u h =
      (emit (up_called r) s, refl, emit-At id status (up_called r) s h, last_reply-up r (s.events))
  call-At id status (some (err problem)) s u h = absurd (let f : false ≡ true = u in cc)

  -- A positive reply makes the tunnel working under the id of the reply.
  pub setup_ack-At :
      (new id : String) (status : Status) (s : Proto V)
      → At peer r id status s
      → (s' : Proto V) × (setup_ack true (some new) r s ≡ ok s')
        × At peer r new working_tunnel s'
        × (last_reply s'.events ≡ last_reply s.events)
  unfolding setup_ack set_status set_object
  setup_ack-At new id status s h =
      let (named, e, at, same) = take_id-At new id status s h in
      let working = status-At new status working_tunnel named at in
      let (s', f, at', kept) =
        call-At new working_tunnel ((named.objects r).handlers.up)
          (set_status working_tunnel r named) (at.up_returns) working in
      (
        s',
        ap
              (λ m. m >>= λ named.
                call ((named.objects r).handlers.up) (up_called r)
                  (set_status working_tunnel r named))
              e
            ∙ f,
        at',
        kept ∙ ap last_reply same,
      )
