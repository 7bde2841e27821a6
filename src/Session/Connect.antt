-- ===== src/Session/Connect.antt =====
-- `Start` of session.go up to its first goroutine, with `openDataChannel`. The dialer, the socket's
-- `WriteMessage` and `Close`, the uuid package and encoding/json are parameters.
use ssmlib.Common.{
  ◌≡◌, refl, ◌↔◌, Bytes, codes, Bool, true, false, List, [], ◌∷◌, Option, none, some, Option-cases,
  inl, inr,
}
use mathlib.Core.Option
use ssmlib.Errors.{
  Error, websocket_dial_failed, open_data_channel_failed, marshal_handshake_failed,
  write_handshake_failed, close_failed,
}
use ssmlib.Messages.Create.{Result, ok, err, Result-cases}
use ssmlib.Handler.Handshake.{client_version}

-- The map that is marshalled.
pub record OpenDataChannel : Type 0 where
  pub message_schema_version : Bytes
  pub request_id : Bytes
  pub token_value : Bytes
  pub client_id : Bytes
  pub client_version : Bytes

-- Each call gives its error or none. The first new id is the request's, the second the client's.
pub record Dialer : Type 0 where
  pub dial : Bytes → Option Error
  pub marshal : OpenDataChannel → Result Bytes
  pub write_message : Bytes → Option Error
  pub close : Option Error
  pub request_uuid : Bytes
  pub client_uuid : Bytes

-- What came of it: the error that `Start` returns, what was written, and whether the socket was
-- dialled and was closed.
pub record Connection : Type 0 where
  pub failure : Option Error
  pub written : List Bytes
  pub dialled : Bool
  pub closed : Bool

module _ (d : Dialer) where
  abbrev pub open_message : Bytes → OpenDataChannel
  open_message token = record {
    message_schema_version = codes "1.0";
    request_id = d.request_uuid;
    token_value = token;
    client_id = d.client_uuid;
    client_version = client_version;
  }

  -- The error, and what was written.
  unfoldable pub open_data_channel : Bytes → Option Error × List Bytes
  open_data_channel token = elim (d.marshal (open_message token)) [
    | err e ↦ (some (marshal_handshake_failed e), [])
    | ok payload ↦ (Option.map write_handshake_failed (d.write_message payload), payload ∷ [])
  ]

  -- The error when the data channel was not opened, after `ws.Close`.
  abbrev pub open_failure : Error → Option Error → Error
  open_failure e none = open_data_channel_failed e
  open_failure e (some w) = close_failed w e

  abbrev pub after_open : Option Error × List Bytes → Connection
  after_open (some e, ws) = record {
    failure = some (open_failure e d.close);
    written = ws;
    dialled = true;
    closed = true;
  }
  after_open (none, ws) = record { failure = none; written = ws; dialled = true; closed = false }

  unfoldable pub connect : Bytes → Bytes → Connection
  connect url token = elim (d.dial url) [
    | some e ↦ record {
      failure = some (websocket_dial_failed e);
      written = [];
      dialled = false;
      closed = false;
    }
    | none ↦ after_open (open_data_channel token)
  ]

  -- When `Start` gets past the connection.
  abbrev pub Succeeds : Bytes → Bytes → Type 0
  Succeeds url token =
      (d.dial url ≡ none)
      × ((payload : Bytes) × (d.marshal (open_message token) ≡ ok payload)
          × (d.write_message payload ≡ none)
          × ((connect url token).written ≡ payload ∷ []))

  Succeeds-iff : (url token : Bytes) → ((connect url token).failure ≡ none) ↔ Succeeds url token
  unfolding connect open_data_channel
  Succeeds-iff url token = elim (Option-cases (d.dial url)) [
    | inr (e, p) ↦ rw (p, connect) (λ h. cc, λ h. cc)
    | inl p ↦ elim (Result-cases (d.marshal (open_message token))) [
      | inr (e, q) ↦ rw (p, connect) (rw (q, open_data_channel) (λ h. cc, λ h. cc))
      | inl (payload, q) ↦ elim (Option-cases (d.write_message payload)) [
        | inr (e, w) ↦
            rw (p, connect)
              (rw (q, open_data_channel)
                (rw w (λ h. cc, λ (_, (x, same, accepted, _)). cc (w, same, accepted))))
        | inl w ↦
            rw (p, connect)
              (rw (q, open_data_channel) (rw w (λ h. (refl, (payload, refl, w, refl)), λ h. refl)))
      ]
    ]
  ]

  dialled_closes_iff :
      (o : Option Error × List Bytes)
      → ((after_open o).closed ≡ true)
        ↔ (((after_open o).dialled ≡ true) × ((e : Error) × ((after_open o).failure ≡ some e)))
  dialled_closes_iff (some e, ws) = (λ h. (refl, (open_failure e d.close, refl)), λ h. refl)
  dialled_closes_iff (none, ws) = (λ h. cc, λ (_, (e, h)). cc)

  closes_iff :
      (url token : Bytes)
      → ((connect url token).closed ≡ true) ↔ (
          ((connect url token).dialled ≡ true)
          × ((e : Error) × ((connect url token).failure ≡ some e)))
  unfolding connect
  closes_iff url token = elim (Option-cases (d.dial url)) [
    | inr (e, p) ↦ rw (p, connect) (λ h. cc, λ (h, _). cc)
    | inl p ↦ rw (p, connect) (dialled_closes_iff (open_data_channel token))
  ]

  -- `Start` gets past the connection exactly when the dialling, the marshalling of the one message
  -- and its write succeed, and that message is then all that was written; the socket is closed
  -- exactly when it was dialled and `Start` returns an error of the connection.
  pub connect_iff :
      (url token : Bytes)
      → (((connect url token).failure ≡ none) ↔ Succeeds url token)
        × (((connect url token).closed ≡ true) ↔ (
            ((connect url token).dialled ≡ true)
            × ((e : Error) × ((connect url token).failure ≡ some e))))
  connect_iff url token = (Succeeds-iff url token, closes_iff url token)
