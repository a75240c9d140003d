-- ===== src/Storage/Objects.antt =====
-- calvin/runtime/north/storage.py: nodes, applications, actors and ports in the storage.
use exjobb_calvin.Prelude.{
  String, Bool, Option, none, some, List, [], ◌∷◌, map, if◌then◌else◌, ◌≡◌, Result, ok,
}
use exjobb_calvin.Token.{Coder}
use exjobb_calvin.Token.Values.{
  Value, null, bool, str, list, dict, nil, cons, Values, Fields, end, field,
}
use exjobb_calvin.Port.{
  Peer, InPort, OutPort, in_is_connected, in_peer, out_is_connected, get_peers,
}
use exjobb_calvin.Storage.{Storage, emit, delayed, delayed_timeout, set, get, delete, is_empty}
use exjobb_calvin.Storage.Reading.{IsLossless, get-set}
use exjobb_calvin.Storage.Index.{
  IndexPath, levels, path_text, add_index, remove_index, remove_indexes,
}

-- What the storage reads of a node, with its capabilities.
pub record NodeInfo : Type 0 where
  pub id : String
  pub external_uri : Value
  pub external_control_uri : Value
  pub public : Value
  -- get_indexed_public(as_list=False), and the indexes as texts
  pub indexed_public : Value
  pub indexes : List IndexPath
  pub capabilities : List String

pub record ApplicationInfo : Type 0 where
  pub id : String
  pub name : Value
  pub ns : Value
  pub actors : List (String × String)
  pub origin_node_id : Value

pub record ActorInfo : Type 0 where
  pub id : String
  pub name : String
  pub type : String
  pub inports : List InPort
  pub outports : List OutPort
  pub is_shadow : Bool

unfoldable pub node_data : NodeInfo → Value
node_data n = dict (
    field "uri" n.external_uri (
      field "control_uri" n.external_control_uri (
        field "attributes"
          (dict (field "public" n.public (field "indexed_public" n.indexed_public end))) end)))

unfoldable pub actor_keys : List (String × String) → Values
actor_keys [] = nil
actor_keys ((k, v) ∷ d) = cons (str k) (actor_keys d)

unfoldable pub actor_fields : List (String × String) → Fields
actor_fields [] = end
actor_fields ((k, v) ∷ d) = field k (str v) (actor_fields d)

unfoldable pub application_data : ApplicationInfo → Value
unfolding actor_keys actor_fields
application_data a = dict (
    field "name" a.name (
      field "ns" a.ns (
        field "actors" (list (actor_keys a.actors)) (
          field "actors_name_map" (dict (actor_fields a.actors))
            (field "origin_node_id" a.origin_node_id end)))))

-- {"id": p.id, "name": p.name} for each port
unfoldable pub in_refs : List InPort → Values
in_refs [] = nil
in_refs (p ∷ ps) = cons (dict (field "id" (str p.id) (field "name" (str p.name) end))) (in_refs ps)

unfoldable pub out_refs : List OutPort → Values
out_refs [] = nil
out_refs (p ∷ ps) =
    cons (dict (field "id" (str p.id) (field "name" (str p.name) end))) (out_refs ps)

unfoldable pub actor_data : ActorInfo → (node_id : String) → Value
unfolding in_refs out_refs
actor_data a node_id = dict (
    field "name" (str a.name) (
      field "type" (str a.type) (
        field "node_id" (str node_id) (
          field "inports" (list (in_refs a.inports)) (
            field "outports" (list (out_refs a.outports))
              (field "is_shadow" (bool a.is_shadow) end))))))

abbrev pub text_or_null : Option String → Value
text_or_null none = null
text_or_null (some s) = str s

-- The pair of a peer's node and port.
unfoldable pub peer_value : Peer → Value
peer_value p = list (cons (text_or_null p.node) (cons (text_or_null p.port) nil))

unfoldable pub peer_values : List Peer → Values
unfolding peer_value
peer_values [] = nil
peer_values (p ∷ ps) = cons (peer_value p) (peer_values ps)

-- `rest` is the field about the peers.
unfoldable pub port_fields :
    (name : String) (connected : Bool) (node_id actor_id direction : String) → Fields → Value
port_fields name connected node_id actor_id direction rest = dict (
    field "name" (str name) (
      field "connected" (bool connected) (
        field "node_id" (str node_id)
          (field "actor_id" (str actor_id) (field "direction" (str direction) rest)))))

unfoldable pub in_port_data : InPort → (node_id actor_id : String) → Value
unfolding port_fields peer_value
in_port_data p node_id actor_id =
    port_fields p.name (in_is_connected p) node_id actor_id "in"
      (field "peer" (if in_is_connected p then peer_value (in_peer p.endpoint) else null) end)

unfoldable pub out_port_data : OutPort → (node_id actor_id : String) → Value
unfolding port_fields peer_values
out_port_data p node_id actor_id =
    port_fields p.name (out_is_connected p) node_id actor_id "out"
      (field "peers" (list (if out_is_connected p then peer_values (get_peers p) else nil)) end)

module _ {C : Type 0} (c : Coder) where
  unfoldable pub add_in_port :
      InPort → (node_id actor_id : String) → Option C → Storage C → Storage C
  unfolding in_port_data set
  add_in_port p node_id actor_id cb s = set c "port-" p.id (in_port_data p node_id actor_id) cb s

  unfoldable pub add_out_port :
      OutPort → (node_id actor_id : String) → Option C → Storage C → Storage C
  unfolding out_port_data set
  add_out_port p node_id actor_id cb s = set c "port-" p.id (out_port_data p node_id actor_id) cb s

  unfoldable pub add_in_ports : List InPort → (node_id actor_id : String) → Storage C → Storage C
  unfolding add_in_port
  add_in_ports [] node_id actor_id s = s
  add_in_ports (p ∷ ps) node_id actor_id s =
      add_in_ports ps node_id actor_id (add_in_port p node_id actor_id none s)

  unfoldable pub add_out_ports : List OutPort → (node_id actor_id : String) → Storage C → Storage C
  unfolding add_out_port
  add_out_ports [] node_id actor_id s = s
  add_out_ports (p ∷ ps) node_id actor_id s =
      add_out_ports ps node_id actor_id (add_out_port p node_id actor_id none s)

  unfoldable pub add_actor : ActorInfo → (node_id : String) → Option C → Storage C → Storage C
  unfolding add_in_ports add_out_ports actor_data set
  add_actor a node_id cb s =
      set c "actor-" a.id (actor_data a node_id) cb
        (add_out_ports a.outports node_id a.id (add_in_ports a.inports node_id a.id s))

  unfoldable pub add_application : ApplicationInfo → Option C → Storage C → Storage C
  unfolding application_data set
  add_application a cb s = set c "application-" a.id (application_data a) cb s

  unfoldable pub get_node :
      (raises : Bool) (id : String) → Option C → Storage C → Result (Storage C)
  get_node raises id cb s = get c raises "node-" id cb s

  unfoldable pub get_application :
      (raises : Bool) (id : String) → Option C → Storage C → Result (Storage C)
  get_application raises id cb s = get c raises "application-" id cb s

  unfoldable pub get_actor :
      (raises : Bool) (id : String) → Option C → Storage C → Result (Storage C)
  get_actor raises id cb s = get c raises "actor-" id cb s

  unfoldable pub get_port :
      (raises : Bool) (id : String) → Option C → Storage C → Result (Storage C)
  get_port raises id cb s = get c raises "port-" id cb s

  unfoldable pub delete_application : (id : String) → Option C → Storage C → Storage C
  delete_application id cb s = delete c "application-" id cb s

  unfoldable pub delete_actor : (id : String) → Option C → Storage C → Storage C
  delete_actor id cb s = delete c "actor-" id cb s

  unfoldable pub delete_port : (id : String) → Option C → Storage C → Storage C
  delete_port id cb s = delete c "port-" id cb s

  module _ (split : String → List String) where
    unfoldable pub add_indexes : List IndexPath → (node_id : String) → Storage C → Storage C
    unfolding add_index
    add_indexes [] node_id s = s
    add_indexes (i ∷ is) node_id s = add_indexes is node_id (add_index c split i node_id 3 none s)

    -- _add_node_index: its callback is not used.
    unfoldable pub add_node_index : NodeInfo → Storage C → Storage C
    unfolding add_indexes
    add_node_index n s =
        add_indexes (map (λ x. levels ("node" ∷ "capabilities" ∷ x ∷ [])) n.capabilities) n.id
          (add_indexes n.indexes n.id s)

    unfoldable pub add_node : NodeInfo → Option C → Storage C → Storage C
    unfolding node_data set add_node_index
    add_node n cb s = add_node_index n (set c "node-" n.id (node_data n) cb s)

    -- `index_cb`: the callback of the indexes, which counts down to the caller's callback.
    unfoldable pub delete_node : NodeInfo → (cb index_cb : Option C) → Storage C → Storage C
    unfolding delete remove_indexes emit
    delete_node n cb index_cb s =
        if is_empty n.indexes
        then delete c "node-" n.id cb s
        else emit (delayed_timeout cb)
            (remove_indexes c split n.indexes n.id index_cb (delete c "node-" n.id none s))

    unfoldable pub add_authz_server : (node_id : String) → Storage C → Storage C
    unfolding add_index
    add_authz_server node_id s =
        add_index c split (levels ("node" ∷ "authz_server" ∷ [])) node_id 1 none s

    unfoldable pub delete_authz_server : (node_id : String) → Storage C → Storage C
    unfolding remove_index
    delete_authz_server node_id s =
        remove_index c split (path_text "node/authz_server") node_id 1 none s

  -- With a lossless coder, get_actor right after add_actor answers with the actor's name, type and
  -- node, its ports, and whether it is a shadow, and does not ask the plugin.
  pub get_actor-add_actor :
      IsLossless c
      → (raises : Bool) (a : ActorInfo) (node_id : String) (cb : Option C) (d : C) (s : Storage C)
      → get_actor raises a.id (some d) (add_actor a node_id cb s)
        ≡ ok (emit (delayed d a.id (actor_data a node_id)) (add_actor a node_id cb s))
  unfolding get_actor get add_actor set
  get_actor-add_actor l raises a node_id cb d s =
      (get-set c l raises "actor-" a.id (actor_data a node_id) cb d _).0
