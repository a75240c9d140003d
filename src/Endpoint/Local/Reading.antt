-- ===== src/Endpoint/Local/Reading.antt =====
-- A local inport gets the tokens of the outport in order, also those that came before it moved.
use exjobb_calvin.Prelude.{
  ℕ, ◌+◌, ◌<◌, ◌≤◌, String, ◌≡◌, refl, ◌∙◌, sym, subst, List, [], ◌∷◌, length, take, length-take_le,
  get_elem?-take, Option, none, some, get_elem?, get_elem?-some, get_elem?-none, ltb, ltb→lt,
  ltb→le, lt→ltb, true, false, Bool-cases, if◌then◌else◌, Result, ok, ◌>>=◌, arith, inl, inr,
  eq_iff,
}
use exjobb_calvin.Prelude.Dict.{
  lookup, insert, get-lookup, lookup-insert, has-insert, lookup-insert_self, lookup-has,
  insert-sole, lookup-sole, lookup-sole_self,
}
use exjobb_calvin.Prelude.Dict.Least.{least}
use exjobb_calvin.Token.{Token}
use exjobb_calvin.Fifo.{Fifo, read}
use exjobb_calvin.Fifo.WellFormed.{IsWellFormed, HasReader}
use exjobb_calvin.Fifo.History.{Holds, read-eq-history}
use exjobb_calvin.Fifo.Consume.{Moved, consume, next_pos, next_pos-le}
use exjobb_calvin.Endpoint.Local.{
  LocalIn, fix_once, sync_local_fifos, read_peer, read_own_or_peer, read_token,
}
use exjobb_calvin.Endpoint.Local.Fixing.{fifo_mismatch_fix-Fixed, skip_to}

-- The port's own ring has one reader, the port itself, with nothing tentative.
pub record IsOwn (f : Fifo) (r : String) (t : ℕ) : Type 0 where
  pub well : IsWellFormed f
  pub sole : f.read_pos ≡ (r, t) ∷ []
  pub tentative : lookup r f.tentative_read_pos ≡ some t

abbrev pub synced : String → ℕ → Fifo → Fifo
synced r p f = record f {
  write_pos = p;
  read_pos = insert r p f.read_pos;
  tentative_read_pos = insert r p f.tentative_read_pos;
}

module _ (f : Fifo) (r : String) (t : ℕ) (own : IsOwn f r t) where
  pub own_reader : HasReader f r t t
  own_reader = record {
    committed = rw (own.sole) (lookup-sole_self r t);
    tentative = own.tentative;
  }

  synced_least : (p : ℕ) → least (insert r p f.read_pos) ≡ p
  unfolding least
  synced_least p = rw own.sole (rw insert-sole)

  pub synced-IsOwn : (p : ℕ) → IsOwn (synced r p f) r p
  synced-IsOwn p = record {
    well = record {
      positive = own.well.positive;
      slots = own.well.slots;
      window = rw (synced_least p) (omega (arith, own.well.positive));
      ordered = λ s q u hq hu. ground (
        arith,
        lookup-insert r s p f.read_pos,
        lookup-insert r s p f.tentative_read_pos,
        own.sole,
        lookup-sole r s t,
      );
      same_keys = λ s. ground (
        arith,
        has-insert r s p f.read_pos,
        has-insert r s p f.tentative_read_pos,
        own.well.same_keys s,
      );
      known = λ s. ground (
        arith,
        has-insert r s p f.read_pos,
        own.well.known s,
        eq_iff r s,
        lookup-has r f.read_pos t own_reader.committed,
      );
    };
    sole = rw own.sole (insert-sole r t p);
    tentative = lookup-insert_self r p f.tentative_read_pos;
  }

-- `next` is the number of tokens that the owner has read. What the own ring still has are tokens
-- of the outport's history, and the outport's ring has all that follow.
pub record IsReading (e : LocalIn) (h : List Token) (next : ℕ) : Type 0 where
  pub own : IsOwn e.fifo e.port_id next
  pub own_history : List Token
  pub own_holds : Holds e.fifo own_history
  pub agrees : (i : ℕ) → i < e.fifo.write_pos → get_elem? own_history i ≡ get_elem? h i
  pub peer_well : IsWellFormed e.peer_fifo
  pub peer_holds : Holds e.peer_fifo h
  pub peer_pos : ℕ
  pub peer_reader : HasReader e.peer_fifo e.port_id peer_pos peer_pos
  -- The own ring has every token that was acknowledged, and none that was not sent.
  pub acked : peer_pos ≤ e.fifo.write_pos
  pub sent : e.fifo.write_pos ≤ e.peer_fifo.write_pos
  pub fixed : e.fifo_mismatch ≡ false → peer_pos ≡ e.fifo.write_pos
  pub drained : e.data_in_local_fifo ≡ false → (next ≡ e.fifo.write_pos) × (e.fifo_mismatch ≡ false)

-- One token further, unless the history ends.
abbrev pub after_read : ℕ → List Token → ℕ
after_read next h = if ltb next (length h) then next + 1 else next

-- A read returned what the history has next, and moved on if there was something.
pub record Reads (e : LocalIn) (h : List Token) (next : ℕ)
    (result : Result (Option Token × LocalIn)) : Type 0 where
  pub after : LocalIn
  pub returned : result ≡ ok (get_elem? h next, after)
  pub reading : IsReading after h (after_read next h)

module _ (e : LocalIn) (h : List Token) (next : ℕ) (s : IsReading e h next) where
  -- Reading the peer's ring, once the own ring is drained and the positions agree.
  read_peer-Reads : next ≡ e.fifo.write_pos → e.fifo_mismatch ≡ false → Reads e h next (read_peer e)
  unfolding read_peer sync_local_fifos
  read_peer-Reads drained fixed =
      let at_next : s.peer_pos ≡ next = s.fixed fixed ∙ sym drained in
      let reader : HasReader e.peer_fifo e.port_id next next =
        subst (λ q. HasReader e.peer_fifo e.port_id q q) at_next s.peer_reader in
      let c = consume e.peer_fifo s.peer_well h s.peer_holds e.port_id next reader in
      let q = next_pos next e.peer_fifo in
      let below : q ≤ e.peer_fifo.write_pos =
        next_pos-le next e.peer_fifo (omega (arith, s.sent)) in
      record {
        after = record e { fifo = synced e.port_id q e.fifo; peer_fifo = c.after };
        returned =
            rw (c.read_ok, c.commit_ok)
              (rw (get-lookup e.port_id c.after.read_pos q c.moved.at.committed));
        reading = rw s.peer_holds.written_count (record {
          own = synced-IsOwn e.fifo e.port_id next s.own q;
          own_history = take q h;
          own_holds = record {
            written_count = length-take_le q h (omega (arith, s.peer_holds.written_count));
            kept = λ i low high. absurd (omega (arith, synced_least e.fifo e.port_id next s.own q));
          };
          agrees = λ i lt. get_elem?-take q h i lt;
          peer_well = c.moved.well;
          peer_holds = c.moved.holds h s.peer_holds;
          peer_pos = q;
          peer_reader = c.moved.at;
          acked = omega arith;
          sent = omega (arith, c.moved.write_pos);
          fixed = λ _. refl;
          drained = λ _. (refl, fixed);
        });
      }

  -- A read that finds a token in the own ring.
  own_token-Reads :
      ltb next e.fifo.write_pos ≡ true
      → e.data_in_local_fifo ≡ true
      → Reads e h next (read e.port_id e.fifo >>= read_own_or_peer e)
  unfolding read_own_or_peer
  own_token-Reads more local =
      let lt = ltb→lt _ _ more in
      let c =
        consume e.fifo s.own.well s.own_history s.own_holds e.port_id next
          (own_reader e.fifo e.port_id next s.own) in
      let (x, there) =
        get_elem?-some s.own_history next (omega (arith, s.own_holds.written_count)) in
      let one : Moved e.fifo e.port_id (next + 1) c.after = rw more at c.moved in
      let not_last : ltb next (length h) ≡ true =
        lt→ltb _ _ (omega (arith, s.sent, s.peer_holds.written_count)) in
      record {
        after = record e { fifo = c.after };
        returned = rw (← s.agrees next lt) (rw (c.read_ok, there) (rw (rw there at c.commit_ok)));
        reading = rw not_last (record {
          own = record {
            well = one.well;
            sole = one.sole next s.own.sole;
            tentative = one.at.tentative;
          };
          own_history = s.own_history;
          own_holds = one.holds s.own_history s.own_holds;
          agrees = λ i below. s.agrees i (omega (arith, one.write_pos));
          peer_well = s.peer_well;
          peer_holds = s.peer_holds;
          peer_pos = s.peer_pos;
          peer_reader = s.peer_reader;
          acked = omega (arith, one.write_pos, s.acked);
          sent = omega (arith, one.write_pos, s.sent);
          fixed = λ f. s.fixed f ∙ sym one.write_pos;
          drained = λ f. cc;
        });
      }

module _ (e : LocalIn) (h : List Token) (next : ℕ) (s : IsReading e h next) where
  -- A read that finds the own ring empty goes on with the peer's.
  own_empty-Reads :
      ltb next e.fifo.write_pos ≡ false
      → e.fifo_mismatch ≡ false
      → Reads e h next (read e.port_id e.fifo >>= read_own_or_peer e)
  unfolding read_own_or_peer
  own_empty-Reads end fixed =
      let at = own_reader e.fifo e.port_id next s.own in
      let le = (s.own.well.ordered e.port_id next next at.committed at.tentative).1 in
      let ge = ltb→le _ _ end in
      let past : get_elem? s.own_history next ≡ none =
        get_elem?-none s.own_history next (omega (arith, s.own_holds.written_count)) in
      let r =
        read_peer-Reads (record e { data_in_local_fifo = false }) h next
          (record {
            own = s.own;
            own_history = s.own_history;
            own_holds = s.own_holds;
            agrees = s.agrees;
            peer_well = s.peer_well;
            peer_holds = s.peer_holds;
            peer_pos = s.peer_pos;
            peer_reader = s.peer_reader;
            acked = s.acked;
            sent = s.sent;
            fixed = s.fixed;
            drained = λ _. (omega arith, fixed);
          })
          (omega arith) fixed in
      record {
        after = r.after;
        returned =
            rw
              (
                read-eq-history e.fifo s.own.well s.own_history s.own_holds e.port_id next next at,
                end,
                past,
              )
              r.returned;
        reading = r.reading;
      }

-- The repair of the positions leaves what is to be read.
record Fixes (e : LocalIn) (h : List Token) (next : ℕ) : Type 0 where
  after : LocalIn
  returned : fix_once e ≡ ok after
  reading : IsReading after h next
  fixed : after.fifo_mismatch ≡ false
  sent : after.peer_fifo.write_pos ≡ e.peer_fifo.write_pos

fix_once-Fixes : (e : LocalIn) (h : List Token) (next : ℕ) → IsReading e h next → Fixes e h next
unfolding fix_once
fix_once-Fixes e h next s = elim (Bool-cases e.fifo_mismatch) [
  | inr fixed ↦ record { after = e; returned = rw fixed; reading = s; fixed = fixed; sent = refl }
  | inl broken ↦
      let f = fifo_mismatch_fix-Fixed e h s.peer_pos s.peer_well s.peer_holds s.peer_reader in
      let w = e.fifo.write_pos in
      let to : skip_to s.peer_pos w e.peer_fifo.write_pos ≡ w = ground (arith, s.acked, s.sent) in
      let moved = subst (λ q. Moved e.peer_fifo e.port_id q f.peer) to f.moved in
      record {
        after = record e { peer_fifo = f.peer; fifo_mismatch = false };
        returned = simp broken f.returned;
        reading = record {
          own = s.own;
          own_history = s.own_history;
          own_holds = s.own_holds;
          agrees = s.agrees;
          peer_well = moved.well;
          peer_holds = moved.holds h s.peer_holds;
          peer_pos = w;
          peer_reader = moved.at;
          acked = omega arith;
          sent = omega (arith, moved.write_pos, s.sent);
          fixed = λ _. refl;
          drained = λ d. ((s.drained d).0, refl);
        };
        fixed = refl;
        sent = moved.write_pos;
      }
]

-- From any state of a local connection in which the own ring holds a stretch of the outport's
-- history, and the peer's ring all that is not acknowledged, also with duplicates left in the
-- peer's ring after a move, `read_token` returns the next token of that history, or None at its
-- end; it never raises, and afterwards the connection is in such a state one token further.
pub read_token-Reads :
    (e : LocalIn) (h : List Token) (next : ℕ) → IsReading e h next → Reads e h next (read_token e)
unfolding read_token
read_token-Reads e h next s =
    let f = fix_once-Fixes e h next s in
    let s' = f.reading in
    elim (Bool-cases f.after.data_in_local_fifo) [
      | inr drained ↦
          let r = read_peer-Reads f.after h next s' (s'.drained drained).0 f.fixed in
          record {
            after = r.after;
            returned = rw f.returned (simp drained r.returned);
            reading = r.reading;
          }
      | inl local ↦
          let r : Reads f.after h next
              (read f.after.port_id f.after.fifo >>= read_own_or_peer f.after) =
            elim (Bool-cases (ltb next f.after.fifo.write_pos)) [
              | inl more ↦ own_token-Reads f.after h next s' more local
              | inr end ↦ own_empty-Reads f.after h next s' end f.fixed
            ] in
          record {
            after = r.after;
            returned = rw f.returned (simp local r.returned);
            reading = r.reading;
          }
    ]
