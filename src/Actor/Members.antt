-- ===== src/Actor/Members.antt =====
-- calvin/actor/actor.py: the component an actor is part of, its requirements and its connections.
use exjobb_calvin.Prelude.{
  String, Bool, false, not, ◌&&◌, ◌||◌, Option, none, some, List, [], ◌∷◌, ◌++◌, map, ◌≡◌, refl,
  ◌∙◌, sym, str_eq, eq_iff, ◌↔◌, true, if◌then◌else◌, arith,
}
use exjobb_calvin.Prelude.Dict.{Dict, insert}
use exjobb_calvin.Prelude.Dict.Names.{
  contains, add_all, discard_all, discard, contains-add_all, contains-discard_all, contains-discard,
}
use exjobb_calvin.Port.{Peer, InPort, OutPort, in_peer, get_peers}

-- What component_add and component_remove are given: a set, list or tuple of ids, or one id.
pub data ActorIds : Type 0 where
  id_list : List String → ActorIds
  one_id : String → ActorIds

-- if not isinstance(actor_ids, (set, list, tuple)): actor_ids = [actor_ids]
unfoldable pub as_list : ActorIds → List String
as_list (id_list xs) = xs
as_list (one_id x) = x ∷ []

-- self._component_members.update(actor_ids)
unfoldable pub component_add : ActorIds → List String → List String
unfolding as_list
component_add ids members = add_all (as_list ids) members

-- self._component_members -= set(actor_ids)
unfoldable pub component_remove : ActorIds → List String → List String
unfolding as_list
component_remove ids members = discard_all (as_list ids) members

-- len(self._component_members - set([self.id])) > 0
unfoldable pub part_of_component : String → List String → Bool
part_of_component id members = elim (discard id members) [ [] ↦ false | _ ∷ _ ↦ true ]

module _ {R : Type 0} where
  unfoldable pub requirements_add : List R → Bool → List R → List R
  requirements_add reqs extend old = if extend then old ++ reqs else reqs

  -- The rule is made of `self.requires`, if the class has it.
  unfoldable pub requirements_get : {Q : Type 0} → (Q → R) → Option Q → List R → List R
  requirements_get rule requires reqs = reqs ++ elim requires [ none ↦ [] | some q ↦ rule q ∷ [] ]

  -- The first signature stays.
  unfoldable pub signature_set : R → Option R → Option R
  signature_set signature none = some signature
  signature_set signature (some old) = some old

-- A peer on this node is named by the node's id.
unfoldable pub named : String → Peer → Peer
named node_id peer = elim peer.node [
  | none ↦ peer
  | some n ↦ if str_eq n "local" then record peer { node = some node_id } else peer
]

unfoldable pub in_connections : String → Dict InPort → Dict Peer → Dict Peer
in_connections node_id [] c = c
in_connections node_id ((_, p) ∷ ports) c =
    in_connections node_id ports (insert p.id (named node_id (in_peer p.endpoint)) c)

unfoldable pub out_connections : String → Dict OutPort → Dict (List Peer) → Dict (List Peer)
out_connections node_id [] c = c
out_connections node_id ((_, p) ∷ ports) c =
    out_connections node_id ports (insert p.id (map (named node_id) (get_peers p)) c)

-- `connections`: the peers of each inport and each outport, by the port's id.
unfoldable pub connections : String → Dict InPort → Dict OutPort → Dict Peer × Dict (List Peer)
connections node_id inports outports =
    (in_connections node_id inports [], out_connections node_id outports [])

-- An id is among those given.
abbrev pub is_named : String → ActorIds → Bool
is_named y (id_list xs) = contains y xs
is_named y (one_id x) = str_eq x y

contains-as_list : (y : String) (ids : ActorIds) → contains y (as_list ids) ≡ is_named y ids
unfolding as_list contains
contains-as_list y (id_list xs) = refl
contains-as_list y (one_id x) = ground arith

-- Whether the actor y is a member after the ids xs were added and the ids ys removed.
abbrev pub stays : (y : String) (xs ys : ActorIds) → List String → Bool
stays y xs ys members = (is_named y xs || contains y members) && not (is_named y ys)

contains-component :
    (y : String) (xs ys : ActorIds) (members : List String)
    → contains y (component_remove ys (component_add xs members)) ≡ stays y xs ys members
unfolding component_add component_remove
contains-component y xs ys members = ground (
  arith,
  contains-discard_all y (as_list ys) (add_all (as_list xs) members),
  contains-add_all y (as_list xs) members,
  contains-as_list y xs,
  contains-as_list y ys,
)

-- An actor is part of a component when that has a member other than the actor.
part_of_component-other :
    (id : String) (members : List String)
    → (part_of_component id members ≡ true)
      ↔ ((y : String) × (contains y members ≡ true) × (str_eq id y ≡ false))
unfolding part_of_component contains
part_of_component-other id members = go (discard id members) (λ y. contains-discard id y members)
  where
    go :
        (rest : List String)
        → ((y : String) → contains y rest ≡ (not (str_eq id y) && contains y members))
        → ((elim rest [ [] ↦ false | _ ∷ _ ↦ true ]) ≡ true)
          ↔ ((y : String) × (contains y members ≡ true) × (str_eq id y ≡ false))
    go [] h = ((λ e. cc), (λ o. ground (arith, h o.0, o.1, o.2)))
    go (y ∷ ys) h =
        let here : contains y (y ∷ ys) ≡ true = ground (arith, eq_iff y y) in
        ((λ e. (y, ground (arith, h y, here), ground (arith, h y, here))), (λ o. refl))

-- After the ids xs were added and then the ids ys removed, each a collection or one id, exactly
-- those are members that were added or were members before and are not among the removed; and the
-- actor is part of the component exactly if one of these is not the actor itself.
pub component_remove-component_add :
    (id : String) (xs ys : ActorIds) (members : List String)
    → ((y : String)
        → contains y (component_remove ys (component_add xs members)) ≡ stays y xs ys members)
      × ((part_of_component id (component_remove ys (component_add xs members)) ≡ true)
          ↔ ((y : String) × (stays y xs ys members ≡ true) × (str_eq id y ≡ false)))
component_remove-component_add id xs ys members =
    let is_member = λ (y : String). contains-component y xs ys members in
    let other = part_of_component-other id (component_remove ys (component_add xs members)) in
    (
      is_member,
      (
        (λ e. let (y, m, o) = other.0 e in (y, sym (is_member y) ∙ m, o)),
        (λ (y, m, o). other.1 (y, is_member y ∙ m, o)),
      ),
    )
