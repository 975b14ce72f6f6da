-- ===== src/Transport/Session.antt =====
-- transport.rs: the handshake of a client and a server, message by message. A function takes the
-- message that was received and the list of messages that its side has sent, which it adds to. The
-- nonces, the times and the binding to the TLS session are arguments; timeouts, streams and the JSON
-- text of a message are left out.
pub mod Agreement
use post_urbit.Prelude.{
  ℕ, Bytes, Bool, true, false, not, ◌&&◌, Option, none, some, List, [], ◌∷◌, ◌++◌, ◌==◌, nat_eq,
  list_eq, if◌then◌else◌, length, ascii, Result, ok, err, io, ◌>>=◌, ◌>>◌, guard, ok_or,
  invalid_input, crypto, and_then,
}
use post_urbit.Encoding.{base64_encode, base64_decode, validate_crockford_base32_lower}
use post_urbit.CanonicalJson.{Json}
use post_urbit.Identity.Documents.{Outside, IdentityDocument, derive_iid, verify_document}
use post_urbit.Identity.Manager.{IdentityState}
use post_urbit.Transport.Handshake.{
  HandshakeMessage, client_hello, server_hello, client_auth, handshake_complete, ClientHello,
  ServerHello, ClientAuth, HandshakeComplete, HandshakeError,
}
use post_urbit.Transport.Challenge.{
  create_challenge_signature, verify_challenge_signature, validate_client_hello,
  validate_server_hello,
}

pub record HandshakeResult : Type 0 where
  pub peer_iid : Bytes
  pub peer_did : Option Bytes
  pub peer_identity_document : IdentityDocument

abbrev pub Sent : Type 0
Sent = List (HandshakeMessage Json)

-- `HandshakeComplete` with an error
abbrev failure : Bytes → Bytes → HandshakeMessage Json
failure code message = handshake_complete (record {
  version = 1;
  success = false;
  error = some (record { code = code; message = message });
})

-- `create_challenge_signature_with_manager`
abbrev sign_challenge :
    Outside → IdentityState → Bytes → Bytes → Bytes → Bytes → Bytes → Bool → Result Bytes
sign_challenge o state = create_challenge_signature o state.signing_key

-- the map of an error
abbrev pub refuse_with : Result (Unit {0}) → Result (Unit {0}) → Result (Unit {0})
refuse_with (ok t) other = ok t
refuse_with (err e) other = other

-- what a side keeps of the first exchange
pub record Exchange : Type 0 where
  pub client_iid : Bytes
  pub client_did : Option Bytes
  pub client_nonce : Bytes

module _ (o : Outside) where
  unfoldable pub verify_and_extract_iid : Json → Result (Bytes × IdentityDocument)
  verify_and_extract_iid identity_document = do
    doc_str ← ok_or (o.to_string identity_document) (invalid_input "identity document json")
    doc ← ok_or (o.from_slice doc_str) (invalid_input "identity document parse")
    verify_document o doc
    validate_crockford_base32_lower doc.iid
    genesis_key ← base64_decode o.base64 doc.keys.signing.genesis
    guard (length genesis_key == 32) (invalid_input "genesis key length")
    guard (o.ed25519.is_key genesis_key) (invalid_input "genesis key invalid")
    guard (derive_iid o genesis_key == doc.iid) (invalid_input "iid mismatch with genesis key")
    ok (doc.iid, doc)

  module _ (parse_time : Bytes → Option ℕ) (tls_binding : Bytes) where
    abbrev tls_binding_b64 : Bytes
    tls_binding_b64 = base64_encode o.base64 tls_binding

    -- the start of `execute_client_handshake`
    unfoldable pub client_start : IdentityState → Bytes → Bytes → Option Bytes → ClientHello
    client_start state client_nonce timestamp expected_server_iid = record {
      version = 1;
      client_iid = state.document.iid;
      client_did = none;
      expected_server_iid = expected_server_iid;
      client_nonce = base64_encode o.base64 client_nonce;
      timestamp = timestamp;
      tls_binding = tls_binding_b64;
    }

    abbrev expects_other : Option Bytes → Bytes → Bool
    expects_other none server_iid = false
    expects_other (some expected) server_iid = not (expected == server_iid)

    -- the checks of a `ClientHello` before anything is sent
    unfoldable pub check_client_hello : ClientHello → ℕ → Result (Unit {0})
    check_client_hello hello now = do
      validate_client_hello o parse_time hello now
      guard (hello.tls_binding == tls_binding_b64) (invalid_input "TLS binding mismatch")

    unfoldable pub make_server_hello :
        IdentityState → Bytes → Bytes → ClientHello → Result (ServerHello Json × Exchange)
    make_server_hello state server_nonce timestamp hello = do
      client_nonce ← base64_decode o.base64 hello.client_nonce
      challenge_sig ←
          sign_challenge o state client_nonce server_nonce tls_binding hello.client_iid
            state.document.iid true
      identity_doc_value ←
          ok_or (o.to_value state.document) (invalid_input "identity document serialize")
      ok (
        record {
          version = 1;
          server_iid = state.document.iid;
          server_did = none;
          server_nonce = base64_encode o.base64 server_nonce;
          timestamp = timestamp;
          tls_binding = tls_binding_b64;
          identity_document = identity_doc_value;
          device_document = none;
          challenge_signature = challenge_sig;
          device_signature = none;
        },
        record {
          client_iid = hello.client_iid;
          client_did = hello.client_did;
          client_nonce = hello.client_nonce;
        },
      )

    -- `execute_server_handshake` up to the `ServerHello`
    unfoldable pub server_answer :
        IdentityState → Bytes → Bytes → ℕ → HandshakeMessage Json → Sent → Result Exchange × Sent
    unfolding ascii
    server_answer state server_nonce timestamp now (client_hello hello) sent =
        and_then (check_client_hello hello now, sent)
          (λ t sent.
            if expects_other hello.expected_server_iid state.document.iid
            then (
              err (invalid_input "server IID mismatch"),
              sent
                  ++ failure (ascii "IDENTITY_MISMATCH")
                      (ascii "Server IID does not match expected")
                    ∷ [],
            )
            else and_then (make_server_hello state server_nonce timestamp hello, sent)
                (λ made sent. (ok made.1, sent ++ server_hello made.0 ∷ [])))
    server_answer state server_nonce timestamp now msg sent =
        (err (invalid_input "expected ClientHello"), sent)

    -- the checks of a `ServerHello`, and who the server is
    unfoldable pub check_server_hello :
        IdentityState
        → Bytes
        → Option Bytes
        → ℕ
        → ServerHello Json
        → Result (Bytes × IdentityDocument)
    check_server_hello state client_nonce expected_server_iid now hello = do
      validate_server_hello o parse_time hello now
      guard (hello.tls_binding == tls_binding_b64) (invalid_input "TLS binding mismatch")
      guard (not (expects_other expected_server_iid hello.server_iid))
          (invalid_input "server IID mismatch")
      extracted ← verify_and_extract_iid hello.identity_document
      guard (extracted.0 == hello.server_iid) (invalid_input "server IID mismatch with document")
      server_nonce ← base64_decode o.base64 hello.server_nonce
      verify_challenge_signature o hello.challenge_signature extracted.1.keys.signing.current
          (base64_encode o.base64 client_nonce) hello.server_nonce tls_binding_b64
          state.document.iid extracted.0 true
      ok extracted

    unfoldable pub make_client_auth :
        IdentityState → Bytes → Bytes → Bytes → Result (ClientAuth Json)
    make_client_auth state client_nonce server_nonce_b64 server_iid = do
      server_nonce ← base64_decode o.base64 server_nonce_b64
      challenge_sig ←
          sign_challenge o state client_nonce server_nonce tls_binding state.document.iid server_iid
            false
      identity_doc_value ←
          ok_or (o.to_value state.document) (invalid_input "identity document serialize")
      ok (record {
        version = 1;
        identity_document = identity_doc_value;
        device_document = none;
        challenge_signature = challenge_sig;
        device_signature = none;
        tls_binding = tls_binding_b64;
      })

    -- `execute_client_handshake` from the `ServerHello` to the `ClientAuth`
    unfoldable pub client_answer :
        IdentityState
        → Bytes
        → Option Bytes
        → ℕ
        → HandshakeMessage Json
        → Sent
        → Result HandshakeResult × Sent
    client_answer state client_nonce expected_server_iid now (server_hello hello) sent =
        and_then (check_server_hello state client_nonce expected_server_iid now hello, sent)
          (λ extracted sent.
            and_then (make_client_auth state client_nonce hello.server_nonce extracted.0, sent)
              (λ auth sent. (
                ok (record {
                  peer_iid = extracted.0;
                  peer_did = hello.server_did;
                  peer_identity_document = extracted.1;
                }),
                sent ++ client_auth auth ∷ [],
              )))
    client_answer state client_nonce expected_server_iid now msg sent =
        (err (invalid_input "expected ServerHello"), sent)

    -- the server's check of the signature, and its last message
    unfoldable pub accept_client :
        IdentityState
        → Bytes
        → Exchange
        → Bytes
        → IdentityDocument
        → Sent
        → Result HandshakeResult × Sent
    accept_client state server_nonce exchange signature doc sent =
        and_then
          (
            refuse_with
                (verify_challenge_signature o signature doc.keys.signing.current
                  exchange.client_nonce (base64_encode o.base64 server_nonce) tls_binding_b64
                  exchange.client_iid state.document.iid false)
                (err (crypto "client challenge signature invalid")),
            sent,
          )
          (λ t sent. (
            ok (record {
              peer_iid = exchange.client_iid;
              peer_did = exchange.client_did;
              peer_identity_document = doc;
            }),
            sent ++ handshake_complete (record { version = 1; success = true; error = none }) ∷ [],
          ))

    -- `execute_server_handshake` from the `ClientAuth` on
    unfoldable pub server_finish :
        IdentityState
        → Bytes
        → Exchange
        → HandshakeMessage Json
        → Sent
        → Result HandshakeResult × Sent
    unfolding ascii
    server_finish state server_nonce exchange (client_auth auth) sent =
        if auth.tls_binding == tls_binding_b64
        then and_then (verify_and_extract_iid auth.identity_document, sent)
            (λ extracted sent.
              if extracted.0 == exchange.client_iid
              then accept_client state server_nonce exchange auth.challenge_signature extracted.1
                  sent
              else (
                err (invalid_input "client IID mismatch with document"),
                sent
                    ++ failure (ascii "IDENTITY_MISMATCH")
                        (ascii "Client IID mismatch with document")
                      ∷ [],
              ))
        else (
          err (invalid_input "TLS binding mismatch in ClientAuth"),
          sent
              ++ failure (ascii "TLS_BINDING_MISMATCH") (ascii "TLS binding mismatch in ClientAuth")
                ∷ [],
        )
    server_finish state server_nonce exchange msg sent =
        (err (invalid_input "expected ClientAuth"), sent)

-- the end of `execute_client_handshake`
unfoldable pub client_finish : HandshakeResult → HandshakeMessage Json → Result HandshakeResult
client_finish result (handshake_complete complete) = if complete.success then ok result else err io
client_finish result msg = err (invalid_input "expected HandshakeComplete")
