-- ===== src/Examples/Endpoints.antt =====
-- Endpoints of calvin/runtime/south/endpoint.py on the rings of Rings.antt.
use exjobb_calvin.Prelude.{true, ◌≡◌, refl, none, some, [], ◌∷◌, ◌++◌, get_elem?, arith, ltb, ◌||◌}
use exjobb_calvin.Prelude.Dict.{lookup}
use exjobb_calvin.Prelude.Dict.Least.{least}
use exjobb_calvin.Token.{encode}
use exjobb_calvin.Token.Coding.{decode-encode}
use exjobb_calvin.Fifo.Operations.{written}
use exjobb_calvin.Fifo.Cursor.{rename-Cursor}
use exjobb_calvin.Endpoint.Messages.{TokenMsg}
use exjobb_calvin.Endpoint.Local.{LocalIn, init, read_token}
use exjobb_calvin.Endpoint.Local.Fixing.{Fixed, skip_to, fifo_mismatch_fix-Fixed}
use exjobb_calvin.Endpoint.Local.Reading.{IsReading, Reads, read_token-Reads}
use exjobb_calvin.Endpoint.TunnelIn.{TunnelIn, reply_to}
use exjobb_calvin.Endpoint.TunnelIn.Receiving.{
  takes, Receives, recv_token-Receives, ReadsTunnel, read_token-ReadsTunnel,
}
use exjobb_calvin.Endpoint.TunnelOut.{TunnelOut}
use exjobb_calvin.Endpoint.TunnelOut.Acks.{AckReply, reply_ack-AckReply}
use exjobb_calvin.Endpoint.TunnelOut.Nacks.{NackReply, reply_nack-NackReply}
use exjobb_calvin.Endpoint.TunnelOut.Sending.{Communicates, communicate-Communicates}
use exjobb_calvin.Endpoint.Protocol.{Net, deliver, consume, Reach, here, next}
use exjobb_calvin.Endpoint.Protocol.Delivery.{IsFaithful, Reach-prefix}
use exjobb_calvin.Examples.Rings.{
  ring, ring-IsWellFormed, ring-Holds, ring-Cursor, full-Cursor, seven_token,
}

-- An inport with an empty ring, beside an outport with one token.
abbrev local : LocalIn
local = init "in" ring (written seven_token ring)

local-IsReading : IsReading local (seven_token ∷ []) 0
unfolding init lookup
local-IsReading = record {
  own = record { well = ring-IsWellFormed; sole = refl; tentative = refl };
  own_history = [];
  own_holds = ring-Holds;
  agrees = λ i h. absurd (omega arith);
  peer_well = full-Cursor.well;
  peer_holds = full-Cursor.holds;
  peer_pos = 0;
  peer_reader = full-Cursor.at;
  acked = omega arith;
  sent = omega arith;
  fixed = λ h. cc;
  drained = λ h. cc;
}

read_token-Reads_example : Reads local (seven_token ∷ []) 0 (read_token local)
read_token-Reads_example = read_token-Reads local (seven_token ∷ []) 0 local-IsReading

fifo_mismatch_fix-Fixed_example : Fixed (init "in" ring (written seven_token ring)) (skip_to 0 0 1)
unfolding init
fifo_mismatch_fix-Fixed_example =
    fifo_mismatch_fix-Fixed local (seven_token ∷ []) 0 full-Cursor.well full-Cursor.holds
      full-Cursor.at

abbrev receiver : TunnelIn
receiver = record {
  port_id = "in";
  fifo = ring;
  peer_node_id = "node";
  peer_port_id = "out";
  triggers = 0;
}

abbrev message : TokenMsg
message = record {
  token = encode none seven_token;
  peer_port_id = "in";
  sequencenbr = 0;
  port_id = "out";
}

recv_token-Receives_example : Receives message seven_token receiver [] 0 0
recv_token-Receives_example =
    recv_token-Receives message seven_token receiver [] 0 0 ring-Cursor
      (decode-encode none seven_token tt)

read_token-ReadsTunnel_example :
    ReadsTunnel (record receiver { fifo = written seven_token ring }) (seven_token ∷ []) 0 0
read_token-ReadsTunnel_example =
    read_token-ReadsTunnel (record receiver { fifo = written seven_token ring }) (seven_token ∷ [])
      0 0 full-Cursor

-- The outport's ring has one token that was not sent.
abbrev sender : TunnelOut
sender = record {
  port_id = "out";
  fifo = written seven_token ring;
  peer_id = "in";
  peer_node_id = "node";
  sequencenbrs_acked = [];
  backoff = 0;
  time_cont = 0;
  bulk = true;
  sent = [];
  triggers = [];
}

communicate-Communicates_example : Communicates 5 6 sender (seven_token ∷ []) 0 0
communicate-Communicates_example =
    communicate-Communicates 5 6 sender (seven_token ∷ []) 0 0 full-Cursor

reply_nack-NackReply_example : NackReply 5 0 sender (seven_token ∷ []) 0 0
reply_nack-NackReply_example = reply_nack-NackReply 5 0 sender (seven_token ∷ []) 0 0 full-Cursor

reply_ack-AckReply_example : AckReply 0 sender (seven_token ∷ []) 0 0
reply_ack-AckReply_example = reply_ack-AckReply 0 sender (seven_token ∷ []) 0 0 full-Cursor

-- The token was sent, and did not arrive yet.
abbrev net : Net
net = record {
  out = record sender { sent = message ∷ [] };
  inn = receiver;
  written = seven_token ∷ [];
  consumed = [];
  peeked = [];
}

net-IsFaithful : IsFaithful net
net-IsFaithful = record {
  committed = 0;
  tentative = 0;
  out_cursor = full-Cursor;
  messages = ((seven_token, decode-encode none seven_token tt, refl), tt);
  received = [];
  handed = record { cursor = ring-Cursor; agrees = λ i h. absurd (omega arith) };
  prefix = λ i h. absurd (omega arith);
}

arrival : Receives message seven_token receiver [] 0 0
arrival =
    recv_token-Receives message seven_token receiver [] 0 0 ring-Cursor
      (decode-encode none seven_token tt)

reading : ReadsTunnel arrival.after (seven_token ∷ []) 0 0
unfolding least
reading =
    read_token-ReadsTunnel arrival.after (seven_token ∷ []) 0 0
      (rename-Cursor arrival.same arrival.cursor)

-- The message arrived, and its token was read.
abbrev delivered : Net
delivered = record net { inn = arrival.after }

abbrev consumed_net : Net
consumed_net = record net { inn = reading.after; consumed = seven_token ∷ [] }

net-Reach : Reach net consumed_net
net-Reach =
    next
      (next here (
        deliver net 0 message
          (reply_to message (takes receiver message [] || ltb message.sequencenbr 0)) arrival.after
          refl arrival.returned))
      (consume delivered (some seven_token) reading.after reading.returned)

Reach-prefix_example :
    get_elem? (consumed_net.consumed ++ consumed_net.peeked) 0 ≡ get_elem? consumed_net.written 0
Reach-prefix_example = Reach-prefix net-IsFaithful net-Reach 0 (omega arith)
