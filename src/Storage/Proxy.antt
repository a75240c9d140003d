-- ===== src/Storage/Proxy.antt =====
-- calvin/runtime/north/storage.py: the proxy server, which does the storage operations of runtimes
-- that have no storage of their own.
use exjobb_calvin.Prelude.{
  String, Bool, true, false, Option, none, some, ◌≡◌, refl, Result, ok, err, ◌>>=◌, type_error,
  if◌then◌else◌,
}
use exjobb_calvin.Token.{Coder}
use exjobb_calvin.Token.Values.{Value, null, truthy, bool, int, str, list, dict}
use exjobb_calvin.Storage.{Storage, emit, delayed, set, get, delete}
use exjobb_calvin.Storage.Sets.{append, remove_items, get_concat, names_of}
use exjobb_calvin.Storage.Reading.{IsLossless, get-set}

-- The commands of the table; any other command is none of them.
pub data Command : Type 0 where
  get_command set_command get_concat_command append_command : Command
  remove_command delete_command reply_command unknown_command : Command

pub record Payload : Type 0 where
  pub cmd : Command
  pub key : String
  -- none: the payload has no value
  pub value : Option Value
  pub msg_uuid : String

-- CalvinCB(_proxy_send_reply, tunnel=…, encode=…, msgid=…)
pub record ReplyTo : Type 0 where
  pub tunnel : String
  pub encode : Bool
  pub msgid : String

-- `payload['value']` after the test for a delete: decoded, or gone; and the command.
unfoldable pub prepared : Coder → Command → Option Value → Result (Command × Option Value)
prepared c cmd none = ok (cmd, none)
prepared c set_command (some null) = ok (delete_command, none)
prepared c cmd (some v) = c.decode v >>= λ w. ok (cmd, some w)

unfoldable pub is_get : Command → Bool
is_get get_command = true
is_get get_concat_command = true
is_get _ = false

module _ {C : Type 0} (c : Coder) where
  -- The method of the table. A value that it does not take, or that is missing, raises.
  unfoldable pub dispatch :
      (raises : Bool) → Command → (key : String) → Option Value → C → Storage C → Result (Storage C)
  dispatch raises get_command key none cb s = get c raises "" key (some cb) s
  dispatch raises set_command key (some v) cb s = ok (set c "" key v (some cb) s)
  dispatch raises get_concat_command key none cb s = ok (get_concat raises "" key (some cb) s)
  dispatch raises append_command key (some v) cb s =
      names_of v >>= λ names. ok (append c "" key names (some cb) s)
  dispatch raises remove_command key (some v) cb s =
      names_of v >>= λ names. ok (remove_items c "" key names (some cb) s)
  dispatch raises delete_command key none cb s = ok (delete c "" key (some cb) s)
  dispatch raises reply_command key v cb s = ok s
  dispatch raises unknown_command key v cb s = ok s
  dispatch raises _ key v cb s = err type_error

  -- `reply`: the callback that sends the answer.
  unfoldable pub tunnel_recv_handler :
      (raises : Bool) (tunnel : String)
      → Payload
      → (reply : ReplyTo → C) → Storage C
      → Result (Storage C)
  unfolding prepared is_get dispatch
  tunnel_recv_handler raises tunnel payload reply s = elim payload.cmd [
    | unknown_command ↦ ok s
    | _ ↦ prepared c payload.cmd payload.value >>= λ p.
        dispatch raises p.0 payload.key p.1
          (reply (record { tunnel = tunnel; encode = is_get p.0; msgid = payload.msg_uuid })) s
  ]

-- {'cmd': 'REPLY', 'msg_uuid': …, 'key': …, 'value': …}
pub record ReplyMessage : Type 0 where
  pub msg_uuid : String
  pub key : String
  pub value : Value

unfoldable pub proxy_send_reply : Coder → (key : String) (value : Value) → ReplyTo → ReplyMessage
proxy_send_reply c key value r = record {
  msg_uuid = r.msgid;
  key = key;
  value = if r.encode then c.encode value else value;
}

abbrev pub set_payload : (key : String) (value : Value) (msg : String) → Payload
set_payload key value msg = record {
  cmd = set_command;
  key = key;
  value = some value;
  msg_uuid = msg;
}

abbrev pub get_payload : (key msg : String) → Payload
get_payload key msg = record { cmd = get_command; key = key; value = none; msg_uuid = msg }

prepared-set :
    (c : Coder) (w v : Value)
    → truthy w ≡ true
    → c.decode w ≡ ok v
    → prepared c set_command (some w) ≡ ok (set_command, some v)
unfolding prepared truthy
prepared-set c null v t e = cc
prepared-set c (bool b) v t e = rw e refl
prepared-set c (int n) v t e = rw e refl
prepared-set c (str s) v t e = rw e refl
prepared-set c (list vs) v t e = rw e refl
prepared-set c (dict fs) v t e = rw e refl

module _ {C : Type 0} (c : Coder) where
  -- With a lossless coder: a client that sets a key to an encoded value and then gets the key has
  -- both requests served without an exception, and the answer to the second, which does not wait for
  -- the plugin, carries the key, the number of that request and the encoded value.
  pub recv-get-set :
      IsLossless c
      → (raises raises' : Bool) (tunnel key msg msg' : String) (v : Value) (reply : ReplyTo → C)
        (s : Storage C)
      → (s' : Storage C) × (r : ReplyTo) × (tunnel_recv_handler c raises tunnel
            (set_payload key (c.encode v) msg)
            reply
            s
          ≡ ok s')
        × (tunnel_recv_handler c raises' tunnel (get_payload key msg') reply s'
            ≡ ok (emit (delayed (reply r) key v) s'))
        × (proxy_send_reply c key v r ≡ record { msg_uuid = msg'; key = key; value = c.encode v })
  unfolding tunnel_recv_handler proxy_send_reply dispatch is_get
  recv-get-set l raises raises' tunnel key msg msg' v reply s =
      let answer : ReplyTo = record { tunnel = tunnel; encode = false; msgid = msg } in
      let answer' : ReplyTo = record { tunnel = tunnel; encode = true; msgid = msg' } in
      (
        set c "" key v (some (reply answer)) s,
        answer',
        rw (prepared-set c (c.encode v) v (l.encode-truthy v) (l.decode-encode v)) refl,
        (get-set c l raises' "" key v (some (reply answer)) (reply answer') s).0,
        refl,
      )
