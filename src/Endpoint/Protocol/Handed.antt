-- ===== src/Endpoint/Protocol/Handed.antt =====
-- The receiving end of a tunnel (calvin/runtime/south/endpoint.py) and the tokens that it handed to
-- the owner of its port: those that were read for good, and those that were only peeked at.
use exjobb_calvin.Prelude.{
  ℕ, ◌+◌, ◌<◌, ◌≤◌, ◌≡◌, refl, sym, ◌∙◌, ap, subst, List, [], ◌∷◌, ◌++◌, length, length-append,
  get_elem?, get_elem?-append_left, get_elem?-append_last, Option, none, some, Bool-cases, ltb,
  ltb→lt, ltb→le, ==_iff, ◌==◌, if◌then◌else◌, ok, ok_unique, arith, inl, inr,
}
use mathlib.Core.List.{append-nil, append_assoc}
use exjobb_calvin.Token.{Token, decode}
use exjobb_calvin.Fifo.{rollback_reads}
use exjobb_calvin.Fifo.Cursor.{
  Cursor, cursor_bounds, Cursor-read, cursor_read_end, Cursor-commit, Cursor-rollback,
  rename-Cursor,
}
use exjobb_calvin.Endpoint.Messages.{TokenMsg, Reply}
use exjobb_calvin.Endpoint.TunnelIn.{
  TunnelIn, recv_token, read_token, peek_token, peek_rewind, commit_peek_as_read,
}
use exjobb_calvin.Endpoint.TunnelIn.Receiving.{takes, recv_token-Receives}

-- The first tokens of the history.
abbrev pub Agrees : List Token → List Token → Type 0
Agrees xs h = (i : ℕ) → i < length xs → get_elem? xs i ≡ get_elem? h i

pub Agrees-last :
    (xs h : List Token) (x : Token)
    → Agrees xs h
    → get_elem? h (length xs) ≡ some x
    → Agrees (xs ++ x ∷ []) h
Agrees-last xs h x a e i lt = elim (Bool-cases (i == length xs)) [
  | inl last ↦
      let at_end : i ≡ length xs = (==_iff _ _).0 last in
      rw at_end (get_elem?-append_last xs x ∙ sym e)
  | inr earlier ↦
      let before : i < length xs = ground (arith, earlier, length-append xs (x ∷ [])) in
      get_elem?-append_left xs (x ∷ []) i before ∙ a i before
]

Agrees-left : (xs ys h : List Token) → Agrees (xs ++ ys) h → Agrees xs h
Agrees-left xs ys h a i lt =
    sym (get_elem?-append_left xs ys i lt) ∙ a i (omega (arith, length-append xs ys))

Agrees-longer :
    (xs h : List Token) (x : Token) → length xs ≤ length h → Agrees xs h → Agrees xs (h ++ x ∷ [])
Agrees-longer xs h x le a i lt = a i lt ∙ sym (get_elem?-append_left h (x ∷ []) i (omega arith))

-- The ring holds the history of what was received, and its reader stands behind the tokens that
-- were handed out: committed those that were read, tentative those that were peeked at.
pub record Handed (e : TunnelIn) (h consumed peeked : List Token) : Type 0 where
  pub cursor : Cursor e.fifo e.port_id h (length consumed) (length (consumed ++ peeked))
  pub agrees : Agrees (consumed ++ peeked) h

settled :
    (e : TunnelIn) (h consumed : List Token)
    → Cursor e.fifo e.port_id h (length consumed) (length consumed)
    → Agrees consumed h
    → Handed e h consumed []
settled e h consumed c a = record {
  cursor = rw (append-nil consumed) c;
  agrees = rw (append-nil consumed) a;
}

-- What was read when a read gave this token.
abbrev pub read_out : (consumed peeked : List Token) → Option Token → List Token
read_out consumed peeked none = consumed
read_out consumed peeked (some x) = consumed ++ peeked ++ x ∷ []

-- What a peek appends.
abbrev pub taken : Option Token → List Token
taken none = []
taken (some x) = x ∷ []

module _ (e : TunnelIn) (h consumed peeked : List Token) (d : Handed e h consumed peeked) where
  pub Handed-commit :
      (after : TunnelIn) → commit_peek_as_read e ≡ ok after → Handed after h (consumed ++ peeked) []
  unfolding commit_peek_as_read
  Handed-commit after r =
      let (g, g_eq, c) = Cursor-commit e.fifo e.port_id h _ _ d.cursor in
      subst (λ k. Handed k h (consumed ++ peeked) [])
        (ok_unique (record e { fifo = g }) after (rw g_eq refl) r)
        (settled (record e { fifo = g }) h (consumed ++ peeked) c d.agrees)

  pub Handed-rewind : (after : TunnelIn) → peek_rewind e ≡ ok after → Handed after h consumed []
  unfolding peek_rewind rollback_reads
  Handed-rewind after r =
      let (g, g_eq, c) = Cursor-rollback e.fifo e.port_id h _ _ d.cursor in
      subst (λ k. Handed k h consumed []) (ok_unique (record e { fifo = g }) after (rw g_eq refl) r)
        (settled (record e { fifo = g }) h consumed c (Agrees-left consumed peeked h d.agrees))

  peeked_one :
      (after : TunnelIn) (x : Token)
      → Cursor after.fifo after.port_id h (length consumed) (length (consumed ++ peeked) + 1)
      → get_elem? h (length (consumed ++ peeked)) ≡ some x
      → Handed after h consumed (peeked ++ x ∷ [])
  peeked_one after x c there =
      let tail = append_assoc consumed peeked (x ∷ []) in
      let count = length-append (consumed ++ peeked) (x ∷ []) in
      record {
        cursor =
            subst (λ xs. Cursor after.fifo after.port_id h (length consumed) (length xs)) tail
              (subst (λ n. Cursor after.fifo after.port_id h (length consumed) n) (sym count) c);
        agrees =
            subst (λ xs. Agrees xs h) tail (Agrees-last (consumed ++ peeked) h x d.agrees there);
      }

  -- A peek hands out the next token, if there is one.
  pub Handed-peek :
      (token : Option Token) (after : TunnelIn)
      → peek_token e ≡ ok (token, after)
      → Handed after h consumed (peeked ++ taken token)
  unfolding peek_token
  Handed-peek token after r = elim (Bool-cases (ltb (length (consumed ++ peeked)) (length h))) [
    | inl more ↦
        let (x, g, g_eq, there, c) =
          Cursor-read e.fifo e.port_id h _ _ d.cursor (ltb→lt _ _ more) in
        let same : (some x, record e { fifo = g }) ≡ (token, after) =
          ok_unique (some x, record e { fifo = g }) (token, after) (rw g_eq refl) r in
        subst (λ (k : Option Token × TunnelIn). Handed k.1 h consumed (peeked ++ taken k.0)) same
          (peeked_one (record e { fifo = g }) x c there)
    | inr end ↦
        let (g_eq, past) = cursor_read_end e.fifo e.port_id h _ _ d.cursor (ltb→le _ _ end) in
        let same : (none, e) ≡ (token, after) =
          ok_unique (none, e) (token, after) (rw g_eq refl) r in
        subst (λ (k : Option Token × TunnelIn). Handed k.1 h consumed (peeked ++ taken k.0)) same
          (rw (append-nil peeked) d)
  ]

  -- A read hands out the next token for good, with all that was peeked at; at the end it takes back
  -- what was peeked at.
  pub Handed-read :
      (token : Option Token) (after : TunnelIn)
      → read_token e ≡ ok (token, after)
      → Handed after h (read_out consumed peeked token) []
  unfolding read_token
  Handed-read token after r = elim (Bool-cases (ltb (length (consumed ++ peeked)) (length h))) [
    | inl more ↦
        let (x, g, g_eq, there, c) =
          Cursor-read e.fifo e.port_id h _ _ d.cursor (ltb→lt _ _ more) in
        let (k, k_eq, c') = Cursor-commit g e.port_id h _ _ c in
        let same : (some x, record e { fifo = k }) ≡ (token, after) =
          ok_unique (some x, record e { fifo = k }) (token, after) (rw g_eq (rw k_eq refl)) r in
        let count = length-append (consumed ++ peeked) (x ∷ []) in
        subst (λ (k : Option Token × TunnelIn). Handed k.1 h (read_out consumed peeked k.0) []) same
          (settled (record e { fifo = k }) h (consumed ++ peeked ++ x ∷ [])
            (subst (λ n. Cursor k e.port_id h n n) (sym count) c')
            (Agrees-last (consumed ++ peeked) h x d.agrees there))
    | inr end ↦
        let (g_eq, past) = cursor_read_end e.fifo e.port_id h _ _ d.cursor (ltb→le _ _ end) in
        let (k, k_eq, c') = Cursor-rollback e.fifo e.port_id h _ _ d.cursor in
        let same : (none, record e { fifo = k }) ≡ (token, after) =
          ok_unique (none, record e { fifo = k }) (token, after) (rw g_eq (rw k_eq refl)) r in
        subst (λ (k : Option Token × TunnelIn). Handed k.1 h (read_out consumed peeked k.0) []) same
          (settled (record e { fifo = k }) h consumed c' (Agrees-left consumed peeked h d.agrees))
  ]

  -- A message appends its token to the history, or leaves that.
  pub Handed-deliver :
      (m : TokenMsg) (x : Token) (r : Reply) (after : TunnelIn)
      → decode none m.token ≡ ok x
      → recv_token m e ≡ ok (r, after)
      → Handed after (if takes e m h then h ++ x ∷ [] else h) consumed peeked
  Handed-deliver m x r after decoded e_eq =
      let c = recv_token-Receives m x e h _ _ d.cursor decoded in
      let same : c.after ≡ after =
        ap (λ (k : Reply × TunnelIn). k.1) (ok_unique _ _ c.returned e_eq) in
      let h' = if takes e m h then h ++ x ∷ [] else h in
      record {
        cursor =
            subst (λ k. Cursor k.fifo k.port_id h' (length consumed) (length (consumed ++ peeked)))
              same (rename-Cursor c.same c.cursor);
        agrees = elim (Bool-cases (takes e m h)) [
          | inl take ↦ rw take (
              Agrees-longer (consumed ++ peeked) h x
                (cursor_bounds e.fifo e.port_id h _ _ d.cursor).1 d.agrees)
          | inr skip ↦ rw skip d.agrees
        ];
      }
