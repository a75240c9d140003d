-- ===== src/Endpoint/Messages.antt =====
-- The TOKEN and TOKEN_REPLY messages of the two tunnel endpoints.
use exjobb_calvin.Prelude.{ℕ, String}
use exjobb_calvin.Token.Values.{Value}

-- {'cmd': 'TOKEN', …}
pub record TokenMsg : Type 0 where
  pub token : Value
  pub peer_port_id : String
  pub sequencenbr : ℕ
  pub port_id : String

pub data Status : Type 0 where
  ack nack : Status

-- {'cmd': 'TOKEN_REPLY', …}
pub record Reply : Type 0 where
  pub port_id : String
  pub peer_port_id : String
  pub sequencenbr : ℕ
  pub value : Status
