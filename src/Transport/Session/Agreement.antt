-- ===== src/Transport/Session/Agreement.antt =====
-- transport.rs: a handshake between two identities ends with each of them known to the other.
use post_urbit.Prelude.{
  ℕ, Bytes, Bool, true, false, ◌≡◌, refl, sym, subst, Option, none, some, [], ◌∷◌, ◌==◌, nat_eq,
  list_eq, length, ok, IsKeyPair, >>=-eq-ok, ==_refl, passed, nat_beq_iff, guard-eq-ok,
}
use post_urbit.Encoding.{IsBase64, base64_encode, base64_decode, base64_decode-encode}
use post_urbit.CanonicalJson.{Json}
use post_urbit.Identity.Documents.{
  Outside, IdentityDocument, derive_iid, verify_document, verify_genesis_key,
}
use post_urbit.Identity.Checks.{Passes-verify_document}
use post_urbit.Identity.Manager.{IdentityState}
use post_urbit.Transport.Handshake.{
  HandshakeMessage, client_hello, server_hello, client_auth, handshake_complete, ClientHello,
  ServerHello, ClientAuth,
}
use post_urbit.Transport.Challenge.{
  challenge, validate_client_hello, validate_server_hello, validate_handshake_timestamp_with_now,
  verify_challenge_signature,
}
use post_urbit.Transport.Challenge.Binding.{IsIid, created, verify-create_challenge_signature}
use post_urbit.Transport.Session.{
  HandshakeResult, Exchange, client_start, check_client_hello, make_server_hello, server_answer,
  check_server_hello, make_client_auth, client_answer, accept_client, server_finish, client_finish,
  verify_and_extract_iid,
}

-- an identity whose document is verified, can be sent, and names the key that it signs with
pub record IsParty (o : Outside) (s : IdentityState) (raw : Bytes) (value : Json) (text : Bytes)
    : Type 0 where
  pub pair : IsKeyPair o.ed25519 s.signing_key (o.verifying_key s.signing_key)
  pub current_own :
      s.document.keys.signing.current ≡ base64_encode o.base64 (o.verifying_key s.signing_key)
  pub verified : verify_document o s.document ≡ ok tt
  pub iid : IsIid s.document.iid raw
  pub written : o.to_value s.document ≡ some value
  pub printed : o.to_string value ≡ some text
  pub read : o.from_slice text ≡ some s.document

module _ (o : Outside) (engine : IsBase64 o.base64) where
  genesis-parts :
      (d : IdentityDocument)
      → verify_genesis_key o d ≡ ok tt
      → (key : Bytes) × (base64_decode o.base64 d.keys.signing.genesis ≡ ok key)
        × (length key ≡ 32)
        × (o.ed25519.is_key key ≡ true)
        × ((derive_iid o key == d.iid) ≡ true)
  unfolding verify_genesis_key
  genesis-parts d h =
      let (key, a, h1) = >>=-eq-ok (base64_decode o.base64 d.keys.signing.genesis) _ h in
      let (b, h2) = passed (length key == 32) "genesis signing key length" _ h1 in
      let (c, h3) = passed (o.ed25519.is_key key) "invalid genesis signing key" _ h2 in
      (key, a, (nat_beq_iff (length key) 32).0 b, c, guard-eq-ok (derive_iid o key == d.iid) _ h3)

  extract-own :
      (s : IdentityState) (raw : Bytes) (value : Json) (text : Bytes)
      → IsParty o s raw value text
      → verify_and_extract_iid o value ≡ ok (s.document.iid, s.document)
  unfolding verify_and_extract_iid
  extract-own s raw value text p =
      let (key, payload, sequence, passes, rest) = Passes-verify_document o s.document p.verified in
      let (genesis, a, b, c, d) = genesis-parts s.document passes.genesis in
      rw (p.printed, p.read, p.verified, p.iid.valid, a, b, c, d) refl

  module _ (parse_time : Bytes → Option ℕ) (tls : Bytes) (tls_long : length tls ≡ 32)
      (client server : IdentityState) (c_raw s_raw : Bytes) (c_value s_value : Json)
      (c_text s_text : Bytes) (c : IsParty o client c_raw c_value c_text)
      (s : IsParty o server s_raw s_value s_text) (c_nonce s_nonce : Bytes)
      (c_long : length c_nonce ≡ 32) (s_long : length s_nonce ≡ 32) where
    abbrev pub c_iid : Bytes
    c_iid = client.document.iid

    abbrev pub s_iid : Bytes
    s_iid = server.document.iid

    -- what a party of these signs
    abbrev pub signature_of : IdentityState → Bool → Bytes
    signature_of state is_server = base64_encode o.base64 (
        o.ed25519.sign state.signing_key
          (o.sha256 (challenge is_server c_nonce s_nonce tls c_raw s_raw)))

    abbrev pub start : Bytes → ClientHello
    start timestamp = client_start o parse_time tls client c_nonce timestamp (some s_iid)

    abbrev pub hello : Bytes → ServerHello Json
    hello timestamp = record {
      version = 1;
      server_iid = s_iid;
      server_did = none;
      server_nonce = base64_encode o.base64 s_nonce;
      timestamp = timestamp;
      tls_binding = base64_encode o.base64 tls;
      identity_document = s_value;
      device_document = none;
      challenge_signature = signature_of server true;
      device_signature = none;
    }

    abbrev pub auth : ClientAuth Json
    auth = record {
      version = 1;
      identity_document = c_value;
      device_document = none;
      challenge_signature = signature_of client false;
      device_signature = none;
      tls_binding = base64_encode o.base64 tls;
    }

    abbrev pub exchange : Exchange
    exchange = record {
      client_iid = c_iid;
      client_did = none;
      client_nonce = base64_encode o.base64 c_nonce;
    }

    signed :
        (state : IdentityState) (raw : Bytes) (value : Json) (text : Bytes)
        → IsParty o state raw value text
        → (is_server : Bool)
        → verify_challenge_signature o
            (signature_of state is_server)
            state.document.keys.signing.current
            (base64_encode o.base64 c_nonce)
            (base64_encode o.base64 s_nonce)
            (base64_encode o.base64 tls)
            c_iid
            s_iid
            is_server
          ≡ ok tt
    signed state raw value text p is_server =
        let key = o.verifying_key state.signing_key in
        subst
          (λ k.
            verify_challenge_signature o (signature_of state is_server) k
              (base64_encode o.base64 c_nonce) (base64_encode o.base64 s_nonce)
              (base64_encode o.base64 tls) c_iid s_iid is_server
            ≡ ok tt)
          (sym p.current_own)
          (verify-create_challenge_signature o engine state.signing_key key p.pair is_server c_nonce
            s_nonce tls c_iid s_iid c_raw s_raw (signature_of state is_server)
            (c_long, s_long, tls_long) c.iid s.iid
            (created o engine state.signing_key key p.pair is_server c_nonce s_nonce tls c_iid s_iid
              c_raw s_raw c.iid s.iid))

    checks_start :
        (timestamp : Bytes) (now : ℕ)
        → validate_handshake_timestamp_with_now parse_time timestamp now ≡ ok tt
        → check_client_hello o parse_time tls (start timestamp) now ≡ ok tt
    unfolding check_client_hello validate_client_hello client_start
    checks_start timestamp now t =
        rw
          (
            c.iid.valid,
            s.iid.valid,
            t,
            base64_decode-encode o.base64 engine c_nonce,
            base64_decode-encode o.base64 engine tls,
            c_long,
            tls_long,
            ==_refl (base64_encode o.base64 tls),
          )
          refl

    makes_hello :
        (timestamp timestamp' : Bytes)
        → make_server_hello o parse_time tls server s_nonce timestamp' (start timestamp)
          ≡ ok (hello timestamp', exchange)
    unfolding make_server_hello client_start
    makes_hello timestamp timestamp' =
        rw
          (
            base64_decode-encode o.base64 engine c_nonce,
            created o engine server.signing_key (o.verifying_key server.signing_key) s.pair true
                c_nonce s_nonce tls c_iid s_iid c_raw s_raw c.iid s.iid,
            s.written,
          )
          refl

    checks_hello :
        (timestamp : Bytes) (now : ℕ)
        → validate_handshake_timestamp_with_now parse_time timestamp now ≡ ok tt
        → check_server_hello o parse_time tls client c_nonce (some s_iid) now (hello timestamp)
          ≡ ok (s_iid, server.document)
    unfolding check_server_hello validate_server_hello
    checks_hello timestamp now t =
        rw
          (
            s.iid.valid,
            t,
            base64_decode-encode o.base64 engine s_nonce,
            base64_decode-encode o.base64 engine tls,
            s_long,
            tls_long,
            ==_refl (base64_encode o.base64 tls),
            ==_refl s_iid,
            extract-own server s_raw s_value s_text s,
          )
          (rw (==_refl s_iid, signed server s_raw s_value s_text s true) refl)

    makes_auth :
        make_client_auth o parse_time tls client c_nonce (base64_encode o.base64 s_nonce) s_iid
        ≡ ok auth
    unfolding make_client_auth
    makes_auth =
        rw
          (
            base64_decode-encode o.base64 engine s_nonce,
            created o engine client.signing_key (o.verifying_key client.signing_key) c.pair false
                c_nonce s_nonce tls c_iid s_iid c_raw s_raw c.iid s.iid,
            c.written,
          )
          refl

    answers :
        (timestamp timestamp' : Bytes) (now : ℕ)
        → validate_handshake_timestamp_with_now parse_time timestamp now ≡ ok tt
        → server_answer o parse_time tls server s_nonce timestamp' now
            (client_hello (start timestamp))
            []
          ≡ (ok exchange, server_hello (hello timestamp') ∷ [])
    unfolding server_answer
    answers timestamp timestamp' now t =
        rw (checks_start timestamp now t)
          (unfold client_start in rw (==_refl s_iid, makes_hello timestamp timestamp') refl)

    abbrev pub client_knows : HandshakeResult
    client_knows = record {
      peer_iid = s_iid;
      peer_did = none;
      peer_identity_document = server.document;
    }

    abbrev pub server_knows : HandshakeResult
    server_knows = record {
      peer_iid = c_iid;
      peer_did = none;
      peer_identity_document = client.document;
    }

    authenticates :
        (timestamp : Bytes) (now : ℕ)
        → validate_handshake_timestamp_with_now parse_time timestamp now ≡ ok tt
        → client_answer o parse_time tls client c_nonce
            (some s_iid)
            now
            (server_hello (hello timestamp))
            []
          ≡ (ok client_knows, client_auth auth ∷ [])
    unfolding client_answer
    authenticates timestamp now t = rw (checks_hello timestamp now t, makes_auth) refl

    finishes : server_finish o parse_time tls server s_nonce exchange (client_auth auth) [] ≡ (
      ok server_knows,
      handshake_complete (record { version = 1; success = true; error = none }) ∷ [],
    )
    unfolding server_finish accept_client
    finishes =
        rw
          (
            ==_refl (base64_encode o.base64 tls),
            extract-own client c_raw c_value c_text c,
            ==_refl c_iid,
            signed client c_raw c_value c_text c false,
          )
          refl

    -- Two identities whose documents are verified, on connections with one binding, whose clocks
    -- accept each other's times, and of which the client expects the server, finish the handshake:
    -- each message is the answer to the one before, and either side then knows the identifier and
    -- the document of the other.
    pub handshake_agrees :
        (c_time s_time : Bytes) (now later : ℕ)
        → validate_handshake_timestamp_with_now parse_time c_time now ≡ ok tt
        → validate_handshake_timestamp_with_now parse_time s_time later ≡ ok tt
        → let first =
            client_hello (client_start o parse_time tls client c_nonce c_time (some s_iid)) in
          (x : Exchange) × (reply proof done : HandshakeMessage Json) × (server_answer o parse_time
              tls server s_nonce s_time now first []
            ≡ (ok x, reply ∷ []))
          × (client_answer o parse_time tls client c_nonce (some s_iid) later reply []
              ≡ (ok client_knows, proof ∷ []))
          × (server_finish o parse_time tls server s_nonce x proof []
              ≡ (ok server_knows, done ∷ []))
          × (client_finish client_knows done ≡ ok client_knows)
    unfolding client_finish
    handshake_agrees c_time s_time now later t u = (
      exchange,
      server_hello (hello s_time),
      client_auth auth,
      handshake_complete (record { version = 1; success = true; error = none }),
      answers c_time s_time now t,
      authenticates s_time later u,
      finishes,
      refl,
    )
