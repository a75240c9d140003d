-- ===== src/Tunnels/Asking.antt =====
-- calvin/runtime/north/calvin_proto.py: a request for a tunnel, and the same request again.
use exjobb_calvin.Prelude.{
  ℕ, ◌+◌, ◌<◌, ◌==◌, String, true, false, none, some, [], ◌∷◌, ◌++◌, ◌≡◌, refl, ap, ◌∙◌, arith,
  if◌then◌else◌, str_eq, eq_iff, ok, ◌>>=◌,
}
use exjobb_calvin.Prelude.Dict.{
  Dict, lookup, insert, lookup-insert, str_eq_refl, lookup-insert_self,
}
use exjobb_calvin.Prelude.Dict.Names.{contains}
use exjobb_calvin.Tunnels.{
  pending_tunnel, Tunnel, tunnel_new_sent, Proto, emit, send_to, set_object, enter, init,
  tunnels_of,
}
use exjobb_calvin.Tunnels.Requests.{first_of_type, get_tunnel, tunnel_new_msg, tunnel_new}
use exjobb_calvin.Tunnels.Waiting.{At, returns}

-- Every name of the dictionary is that of an object that was made.
abbrev pub AllMade : ℕ → Dict ℕ → Type 0
AllMade made [] = true ≡ true
AllMade made ((_, r) ∷ d) = (r < made) × AllMade made d

lookup-AllMade :
    (made : ℕ) (d : Dict ℕ) (j : String) (r : ℕ) → AllMade made d → lookup j d ≡ some r → r < made
unfolding lookup
lookup-AllMade made [] j r h e = ground arith
lookup-AllMade made ((k, q) ∷ d) j r h e =
    let rest = lookup-AllMade made d j r (h.1) in ground (arith, h.0)

-- The new object is found under its type where none was before.
first_of_type-insert :
    (ty id : String) (made : ℕ) (objects : ℕ → Tunnel) (t : Tunnel) (d : Dict ℕ)
    → AllMade made d
    → first_of_type ty objects d ≡ none
    → str_eq t.tunnel_type ty ≡ true
    → first_of_type ty (λ q. if q == made then t else objects q) (insert id made d) ≡ some made
unfolding first_of_type insert
first_of_type-insert ty id made objects t [] h none_yet same = ground arith
first_of_type-insert ty id made objects t ((k, q) ∷ d) h none_yet same =
    let rest = first_of_type-insert ty id made objects t d (h.1) in ground (arith, h.0)

same_number : (n : ℕ) → (n == n) ≡ true
same_number n = ground arith

module _ {V : Type 0} (to ty policy id : String) (s : Proto V) where
  -- The state with the new tunnel and its request sent.
  abbrev new_tunnel : Tunnel
  new_tunnel = record {
    id = id;
    peer_node_id = some to;
    tunnel_type = ty;
    policy = policy;
    status = pending_tunnel;
    handlers = record { recv = false; down = none; up = none };
  }

  abbrev entered : Proto V
  entered = record s {
    tunnels = insert to (insert id s.made (tunnels_of to s.tunnels)) s.tunnels;
    objects = λ q. if q == s.made then new_tunnel else s.objects q;
    made = s.made + 1;
  }

  unfoldable asked : Proto V
  asked = record entered { events = s.events ++ tunnel_new_sent to ty id policy s.made ∷ [] }

  enter-eq :
      (r : ℕ) (st : Proto V)
      → str_eq to "" ≡ false
      → (st.objects r).peer_node_id ≡ some to
      → (st.objects r).id ≡ id
      → enter r st
        ≡ record st { tunnels = insert to (insert id r (tunnels_of to st.tunnels)) st.tunnels }
  unfolding enter
  enter-eq r st named peer same = rw (peer, enter) (rw (same, named) refl)

  abbrev created : Proto V
  created = record s {
    objects = λ q. if q == s.made then new_tunnel else s.objects q;
    made = s.made + 1;
  }

  init-entered :
      str_eq to "" ≡ false → init (some to) ty policy id pending_tunnel s ≡ (s.made, entered)
  unfolding init set_object
  init-entered named =
      ap (λ st. (s.made, st))
        (enter-eq s.made created named (rw (same_number s.made) refl)
          (rw (same_number s.made) refl))

  tunnel_new_msg-entered :
      contains to s.links ≡ true → tunnel_new_msg s.made to ty policy entered ≡ ok asked
  unfolding tunnel_new_msg send_to emit asked
  tunnel_new_msg-entered linked = rw (linked, same_number s.made) refl

  tunnel_new-asked :
      contains to s.links ≡ true
      → str_eq to "" ≡ false
      → get_tunnel to ty s ≡ none
      → tunnel_new to ty policy id s ≡ ok (s.made, asked)
  unfolding tunnel_new
  tunnel_new-asked linked named none_yet =
      rw (linked, none_yet)
        (ap (λ made. tunnel_new_msg made.0 to ty policy made.1 >>= λ asked. ok (made.0, asked))
            (init-entered named)
          ∙ ap (λ m. m >>= λ asked. ok (s.made, asked)) (tunnel_new_msg-entered linked))

  asked-At :
      contains to s.links ≡ true
      → str_eq to "" ≡ false
      → AllMade s.made (tunnels_of to s.tunnels)
      → At to s.made id pending_tunnel asked
  unfolding asked returns
  asked-At linked named made = record {
    has_id = rw (same_number s.made) refl;
    has_peer = rw (same_number s.made) refl;
    has_status = rw (same_number s.made) refl;
    names = insert id s.made (tunnels_of to s.tunnels);
    of_peer = lookup-insert_self to (insert id s.made (tunnels_of to s.tunnels)) s.tunnels;
    named = lookup-insert_self id s.made (tunnels_of to s.tunnels);
    alone = λ j e.
        let old = lookup-AllMade s.made (tunnels_of to s.tunnels) j s.made made in
        ground (arith, eq_iff id j, lookup-insert id j s.made (tunnels_of to s.tunnels), old);
    has_link = linked;
    up_returns = rw (same_number s.made) refl;
  }

  get_tunnel-asked :
      str_eq to "" ≡ false
      → AllMade s.made (tunnels_of to s.tunnels)
      → get_tunnel to ty s ≡ none
      → get_tunnel to ty asked ≡ some s.made
  unfolding asked get_tunnel tunnels_of
  get_tunnel-asked named made none_yet =
      ap
        (λ o.
          first_of_type ty (λ q. if q == s.made then new_tunnel else s.objects q)
            (elim o [ none ↦ [] | some d ↦ d ]))
        (lookup-insert_self to (insert id s.made (tunnels_of to s.tunnels)) s.tunnels)
      ∙ first_of_type-insert ty id s.made s.objects new_tunnel (tunnels_of to s.tunnels) made
          none_yet (str_eq_refl ty)

  again :
      contains to s.links ≡ true
      → get_tunnel to ty asked ≡ some s.made
      → (policy' id' : String) → tunnel_new to ty policy' id' asked ≡ ok (s.made, asked)
  unfolding tunnel_new asked
  again linked found policy' id' = rw (linked, found) refl

  -- With a link and no tunnel of the type to that peer, tunnel_new makes one that waits, sends
  -- one request for it, and any further tunnel_new of the type gives that tunnel and changes
  -- nothing.
  pub tunnel_new-once :
      contains to s.links ≡ true
      → str_eq to "" ≡ false
      → AllMade s.made (tunnels_of to s.tunnels)
      → get_tunnel to ty s ≡ none
      → (s' : Proto V) × (tunnel_new to ty policy id s ≡ ok (s.made, s'))
        × At to s.made id pending_tunnel s'
        × (s'.events ≡ s.events ++ tunnel_new_sent to ty id policy s.made ∷ [])
        × ((policy' id' : String) → tunnel_new to ty policy' id' s' ≡ ok (s.made, s'))
  unfolding asked
  tunnel_new-once linked named made none_yet = (
    asked,
    tunnel_new-asked linked named none_yet,
    asked-At linked named made,
    refl,
    again linked (get_tunnel-asked named made none_yet),
  )
