-- ===== src/Transport/Handshake.antt =====
-- transport.rs: the messages of the handshake and `HandshakeFsm`, which admits them in order. A JSON
-- value is a parameter; texts are bytes.
pub mod Order
use post_urbit.Prelude.{ℕ, Bytes, Bool, Option, none, some, Result, ok, err, invalid_input}

pub record ClientHello : Type 0 where
  pub version : ℕ
  pub client_iid : Bytes
  pub client_did : Option Bytes
  pub expected_server_iid : Option Bytes
  pub client_nonce : Bytes
  pub timestamp : Bytes
  pub tls_binding : Bytes

pub record ServerHello (Json : Type 0) : Type 0 where
  pub version : ℕ
  pub server_iid : Bytes
  pub server_did : Option Bytes
  pub server_nonce : Bytes
  pub timestamp : Bytes
  pub tls_binding : Bytes
  pub identity_document : Json
  pub device_document : Option Json
  pub challenge_signature : Bytes
  pub device_signature : Option Bytes

pub record ClientAuth (Json : Type 0) : Type 0 where
  pub version : ℕ
  pub identity_document : Json
  pub device_document : Option Json
  pub challenge_signature : Bytes
  pub device_signature : Option Bytes
  pub tls_binding : Bytes

pub record HandshakeError : Type 0 where
  pub code : Bytes
  pub message : Bytes

pub record HandshakeComplete : Type 0 where
  pub version : ℕ
  pub success : Bool
  pub error : Option HandshakeError

pub data HandshakeMessage (Json : Type 0) : Type 0 where
  client_hello : ClientHello → HandshakeMessage Json
  server_hello : ServerHello Json → HandshakeMessage Json
  client_auth : ClientAuth Json → HandshakeMessage Json
  handshake_complete : HandshakeComplete → HandshakeMessage Json

pub data HandshakeRole : Type 0 where
  client server : HandshakeRole

pub data HandshakeState : Type 0 where
  start client_hello_sent client_hello_received server_hello_sent : HandshakeState
  server_hello_received client_auth_sent client_auth_received complete : HandshakeState

pub record HandshakeFsm : Type 0 where
  pub role : HandshakeRole
  pub state : HandshakeState

unfoldable pub new : HandshakeRole → HandshakeFsm
new role = record { role = role; state = start }

module _ {Json : Type 0} where
  -- the arms of the two matches
  unfoldable pub sent_state :
      HandshakeRole → HandshakeState → HandshakeMessage Json → Option HandshakeState
  sent_state client start (client_hello m) = some client_hello_sent
  sent_state client server_hello_received (client_auth m) = some client_auth_sent
  sent_state server client_hello_received (server_hello m) = some server_hello_sent
  sent_state server client_auth_received (handshake_complete m) = some complete
  sent_state role state msg = none

  unfoldable pub received_state :
      HandshakeRole → HandshakeState → HandshakeMessage Json → Option HandshakeState
  received_state client client_hello_sent (server_hello m) = some server_hello_received
  received_state client client_auth_sent (handshake_complete m) = some complete
  received_state server start (client_hello m) = some client_hello_received
  received_state server server_hello_sent (client_auth m) = some client_auth_received
  received_state role state msg = none

  unfoldable pub on_send : HandshakeMessage Json → HandshakeFsm → Result (Unit {0}) × HandshakeFsm
  unfolding sent_state
  on_send msg fsm = elim (sent_state fsm.role fsm.state msg) [
    | none ↦ (err (invalid_input "handshake send order"), fsm)
    | some state ↦ (ok tt, record fsm { state = state })
  ]

  unfoldable pub on_receive :
      HandshakeMessage Json → HandshakeFsm → Result (Unit {0}) × HandshakeFsm
  unfolding received_state
  on_receive msg fsm = elim (received_state fsm.role fsm.state msg) [
    | none ↦ (err (invalid_input "handshake receive order"), fsm)
    | some state ↦ (ok tt, record fsm { state = state })
  ]
