-- ===== src/Transport/Handshake/Order.antt =====
-- Which sequences of messages `HandshakeFsm` admits.
use post_urbit.Prelude.{
  ◌≡◌, ◌↔◌, refl, sym, ap, subst, Bool-cases, inl, inr, ◌∙◌, arith, List, [], ◌∷◌, ◌++◌, Result,
  is_ok, if◌then◌else◌, append-nil, length, length-append,
}
use post_urbit.Transport.Handshake.{
  HandshakeMessage, client_hello, server_hello, client_auth, handshake_complete, HandshakeRole,
  client, server, HandshakeState, start, client_hello_sent, client_hello_received,
  server_hello_sent, server_hello_received, client_auth_sent, client_auth_received, complete,
  HandshakeFsm, new, on_send, on_receive, sent_state, received_state,
}

pub data Kind : Type 0 where
  hello reply auth done : Kind

abbrev pub kind : {Json : Type 0} → HandshakeMessage Json → Kind
kind (client_hello m) = hello
kind (server_hello m) = reply
kind (client_auth m) = auth
kind (handshake_complete m) = done

-- a kind of message that is sent or received
pub data Act : Type 0 where
  out into : Kind → Act

-- the handshake as one side is meant to see it
abbrev pub script : HandshakeRole → List Act
script client = out hello ∷ into reply ∷ out auth ∷ into done ∷ []
script server = into hello ∷ out reply ∷ into auth ∷ out done ∷ []

pub data Event (Json : Type 0) : Type 0 where
  sends receives : HandshakeMessage Json → Event Json

-- what is left of the script; in a state of the other side, nothing that is ever admitted
abbrev remaining : HandshakeRole → HandshakeState → List Act
remaining role complete = []
remaining client start = script client
remaining client client_hello_sent = into reply ∷ out auth ∷ into done ∷ []
remaining client server_hello_received = out auth ∷ into done ∷ []
remaining client client_auth_sent = into done ∷ []
remaining client state = out done ∷ []
remaining server start = script server
remaining server client_hello_received = out reply ∷ into auth ∷ out done ∷ []
remaining server server_hello_sent = into auth ∷ out done ∷ []
remaining server client_auth_received = out done ∷ []
remaining server state = into done ∷ []

module _ {Json : Type 0} where
  abbrev pub act : Event Json → Act
  act (sends msg) = out (kind msg)
  act (receives msg) = into (kind msg)

  abbrev pub step : Event Json → HandshakeFsm → Result (Unit {0}) × HandshakeFsm
  step (sends msg) fsm = on_send msg fsm
  step (receives msg) fsm = on_receive msg fsm

  unfoldable pub run : List (Event Json) → HandshakeFsm → HandshakeFsm
  run [] fsm = fsm
  run (event ∷ events) fsm = run events (step event fsm).1

  -- what the machine admits of a sequence of events
  unfoldable pub admitted : List (Event Json) → HandshakeFsm → List Act
  admitted [] fsm = []
  admitted (event ∷ events) fsm =
      let rest = admitted events (step event fsm).1 in
      if is_ok (step event fsm).0 then act event ∷ rest else rest

  step-remaining :
      (event : Event Json) (fsm : HandshakeFsm)
      → (if is_ok (step event fsm).0 then act event ∷ [] else [])
          ++ remaining fsm.role (step event fsm).1.state
        ≡ remaining fsm.role fsm.state
  unfolding on_send on_receive sent_state received_state
  step-remaining (sends msg) fsm = ground arith
  step-remaining (receives msg) fsm = ground arith

  step-role : (event : Event Json) (fsm : HandshakeFsm) → (step event fsm).1.role ≡ fsm.role
  unfolding on_send on_receive
  step-role (sends msg) fsm = ground arith
  step-role (receives msg) fsm = ground arith

  admitted-remaining :
      (events : List (Event Json)) (fsm : HandshakeFsm)
      → admitted events fsm ++ remaining fsm.role (run events fsm).state
        ≡ remaining fsm.role fsm.state
  unfolding admitted run
  admitted-remaining [] fsm = refl
  admitted-remaining (event ∷ events) fsm =
      let after = (step event fsm).1 in
      let ih : admitted events after ++ remaining fsm.role (run events after).state
          ≡ remaining fsm.role after.state =
        subst
          (λ role.
            admitted events after ++ remaining role (run events after).state
            ≡ remaining role after.state)
          (step-role event fsm) (admitted-remaining events after) in
      elim (Bool-cases (is_ok (step event fsm).0)) [
        | inl e ↦ rw e (
            ap (λ l. act event ∷ l) ih
            ∙ subst
                (λ b.
                  (if b then act event ∷ [] else []) ++ remaining fsm.role after.state
                  ≡ remaining fsm.role fsm.state)
                e (step-remaining event fsm))
        | inr e ↦ rw e (
            ih
            ∙ subst
                (λ b.
                  (if b then act event ∷ [] else []) ++ remaining fsm.role after.state
                  ≡ remaining fsm.role fsm.state)
                e (step-remaining event fsm))
      ]

at_start : (role : HandshakeRole) → remaining role start ≡ script role
at_start client = refl
at_start server = refl

nothing_left :
    (role : HandshakeRole) (state : HandshakeState) → remaining role state ≡ [] → state ≡ complete
nothing_left role state h = ground (arith, h)

length_zero : (xs : List Act) → length xs ≡ 0 → xs ≡ []
length_zero [] h = refl
length_zero (x ∷ xs) h = absurd (omega arith)

all_taken : (xs ys : List Act) → xs ++ ys ≡ xs → ys ≡ []
all_taken xs ys h = length_zero ys (omega (arith, ap length h, length-append xs ys))

module _ {Json : Type 0} where
  -- Whatever is sent and received, what a machine admits from its start are the first messages of
  -- the script of its role, in order, and it stands at `complete` exactly if it has admitted all of
  -- the script.
  pub run-complete :
      (role : HandshakeRole) (events : List (Event Json))
      → ((rest : List Act) × (admitted events (new role) ++ rest ≡ script role))
        × (((run events (new role)).state ≡ complete) ↔ (admitted events (new role) ≡ script role))
  unfolding new
  run-complete role events =
      let fsm = new role in
      let whole : admitted events fsm ++ remaining role (run events fsm).state ≡ script role =
        admitted-remaining events fsm ∙ at_start role in
      (
        (remaining role (run events fsm).state, whole),
        (
          λ h.
              sym (append-nil (admitted events fsm))
              ∙ subst (λ state. admitted events fsm ++ remaining role state ≡ script role) h whole,
          λ h. nothing_left role (run events fsm).state (
              all_taken (script role) _
                (subst (λ l. l ++ remaining role (run events fsm).state ≡ script role) h whole)),
        ),
      )
