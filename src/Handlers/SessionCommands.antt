-- ===== src/Handlers/SessionCommands.antt =====
-- That the other commands keep all rooms sound: authentication, diagnostics, signals, the rebuilding
-- of a media session and the SFU.
use baker_self_hosted_voice.Common.{
  ℕ, String, Bool, true, false, Option, none, some, List, ◌≡◌, refl, arith, Bool-cases, inl, inr,
  Option-cases,
}
use baker_self_hosted_voice.Common.StringSet
use baker_self_hosted_voice.Connection.{GatewayConnection, ConnectionManager}
use baker_self_hosted_voice.Connection.Registry.{find_by_user_id}
use baker_self_hosted_voice.Connection.Delivery.{Sent, send_to}
use baker_self_hosted_voice.Stream.{StreamRoomManager, get_publication}
use baker_self_hosted_voice.Stream.Publish.{set_publisher_diagnostics}
use baker_self_hosted_voice.Stream.Invariant.{
  IsValid as StreamIsValid, set_publisher_diagnostics-IsValid,
}
use baker_self_hosted_voice.Router.{GatewayRuntime, MediaSessionDescriptor}
use baker_self_hosted_voice.Router.Access.{validate_media_session_access, validate_sfu_access}
use baker_self_hosted_voice.Router.Broadcasts.{RuntimeEvent, SfuProducer}
use baker_self_hosted_voice.Router.Signal.{MediaSignalCommandData, handle_media_signal_relay}
use baker_self_hosted_voice.Handlers.{
  Environment, SfuOperation, TokenResult, claims, expired, invalid, close_sfu_session, close_if_sfu,
  tell,
}
use baker_self_hosted_voice.Handlers.Sessions.{
  StreamDiagnosticsReportCommandData, StreamDiagnosticsGetCommandData, may_diagnose, answer_report,
  handle_stream_diagnostics_report, handle_stream_diagnostics_get, is_active, authenticate_with,
  handle_authenticate, answer_restart, restart_with, welcome, handle_media_session_reconnect,
  answer_operation, handle_sfu_operation, answer_produce, handle_sfu_produce, handle_sfu_close,
  session_of_descriptor,
}
use baker_self_hosted_voice.Handlers.Frames.{
  rooms_of, IsQuiet, then-IsQuiet, close_sfu_session-IsQuiet, close_if_sfu-IsQuiet,
  send_voice_roster_snapshot_to_connection-IsQuiet,
}
use baker_self_hosted_voice.Handlers.Soundness.{Sound, Keeps, quiet-Sound, with_streams}

module _ {D : Type 0} where
  -- A relayed signal changes the sequence number of its target, and no room.
  pub signal-rooms :
      {P : Type 0} (accepts : ℕ → Bool) (g : GatewayRuntime D) (u : String)
      (d : Option (MediaSignalCommandData P))
      → rooms_of (handle_media_signal_relay accepts g u d).0 ≡ rooms_of g
  unfolding handle_media_signal_relay send_to
  signal-rooms accepts g u none = refl
  signal-rooms accepts g u (some d) =
      elim (Option-cases (find_by_user_id g.connections d.target_user_id)) [
        | inl gone ↦ ground arith
        | inr (target, found) ↦ ground arith
      ]

  pub diagnostics_get-Keeps :
      (connection : GatewayConnection) (u : String) (d : Option StreamDiagnosticsGetCommandData)
      → Keeps (handle_stream_diagnostics_get {D = D} connection u d)
  unfolding handle_stream_diagnostics_get
  diagnostics_get-Keeps connection u none g v = v
  diagnostics_get-Keeps connection u (some d) g v =
      elim (Option-cases (get_publication g.stream_room d.channel_id d.stream_id)) [
        | inl missing ↦ rw (missing, handle_stream_diagnostics_get) v
        | inr (p, found) ↦ elim (Bool-cases (may_diagnose p connection u)) [
          | inl may ↦ rw (found, handle_stream_diagnostics_get, may) v
          | inr may_not ↦ rw (found, handle_stream_diagnostics_get, may_not) v
        ]
      ]

  answer_report-Keeps :
      (r : StreamRoomManager D × Bool) (g : GatewayRuntime D)
      → StreamIsValid r.0
      → Sound g
      → Sound (answer_report r g).0
  answer_report-Keeps (m, true) g n v = with_streams g m n v
  answer_report-Keeps (m, false) g n v = with_streams g m n v

module _ {D : Type 0} (env : Environment) where
  answer_operation-Keeps : (b : Bool) → Keeps (answer_operation {D = D} env b)
  answer_operation-Keeps true g v = v
  answer_operation-Keeps false g v = v

  answer_restart-Keeps :
      (d : MediaSessionDescriptor) (r : ConnectionManager × List (Sent RuntimeEvent) × Bool)
      → Keeps (answer_restart {D = D} env d r)
  answer_restart-Keeps d (conns, letters, true) g v = v
  answer_restart-Keeps d (conns, letters, false) g v = v

  pub diagnostics_report-Keeps :
      (connection : GatewayConnection) (d : Option (StreamDiagnosticsReportCommandData D))
      → Keeps (handle_stream_diagnostics_report env connection d)
  unfolding handle_stream_diagnostics_report
  diagnostics_report-Keeps connection none g v = v
  diagnostics_report-Keeps connection (some d) g v =
      answer_report-Keeps
        (set_publisher_diagnostics g.stream_room d.channel_id d.stream_id d.session_id connection.id
          d.publisher env.now_ms)
        g
        (set_publisher_diagnostics-IsValid g.stream_room d.channel_id d.stream_id d.session_id
          connection.id d.publisher env.now_ms v.streams)
        v

  welcome-IsQuiet : (k u n : String) → IsQuiet (welcome {D = D} env k u n)
  welcome-IsQuiet k u n =
      then-IsQuiet _ _ (λ g. refl)
        (then-IsQuiet _ _ (λ g. refl)
          (then-IsQuiet _ _
            (send_voice_roster_snapshot_to_connection-IsQuiet env k u
              (StringSet.from_list (env.accounts.guild_ids_of u)))
            (λ g. refl)))

  authenticate_with-Keeps :
      (connection : GatewayConnection) (r : TokenResult)
      → Keeps (authenticate_with {D = D} env connection r)
  authenticate_with-Keeps connection expired g v = v
  authenticate_with-Keeps connection invalid g v = v
  authenticate_with-Keeps connection (claims n u) g v =
      elim (Bool-cases (is_active (env.accounts.find_session n) u)) [
        | inl active ↦
            rw active
              (quiet-Sound (welcome env connection.id u n) (welcome-IsQuiet connection.id u n) g v)
        | inr inactive ↦ rw inactive v
      ]

  pub authenticate-Keeps :
      (connection : GatewayConnection) (d : Option String)
      → Keeps (handle_authenticate {D = D} env connection d)
  unfolding handle_authenticate
  authenticate-Keeps connection none g v = v
  authenticate-Keeps connection (some token) g v =
      authenticate_with-Keeps connection (env.accounts.token_verifier token) g v

  restart_with-Keeps :
      (connection : GatewayConnection) (d : MediaSessionDescriptor) (o : Option String)
      → Keeps (restart_with {D = D} env connection d o)
  restart_with-Keeps connection d none g v = v
  restart_with-Keeps connection d (some n) g v = answer_restart-Keeps d _ g v

  pub reconnect-Keeps :
      (connection : GatewayConnection) (u : String) (d : Option MediaSessionDescriptor)
      → Keeps (handle_media_session_reconnect {D = D} env connection u d)
  unfolding handle_media_session_reconnect
  reconnect-Keeps connection u none g v = v
  reconnect-Keeps connection u (some d) g v =
      elim (Bool-cases (validate_media_session_access g connection u d)) [
        | inr denied ↦ rw denied v
        | inl allowed ↦ rw allowed (
            restart_with-Keeps connection d _ (close_if_sfu env (session_of_descriptor d) g).0 (
              quiet-Sound (close_if_sfu env (session_of_descriptor d))
                (close_if_sfu-IsQuiet env (session_of_descriptor d)) g v))
      ]

  -- The commands of the SFU: a guard, and an answer that keeps the rooms.
  pub sfu_operation-Keeps :
      (op : SfuOperation) (connection : GatewayConnection) (u : String)
      (d : Option MediaSessionDescriptor)
      → Keeps (handle_sfu_operation {D = D} env op connection u d)
  unfolding handle_sfu_operation
  sfu_operation-Keeps op connection u none g v = v
  sfu_operation-Keeps op connection u (some d) g v =
      elim (Bool-cases (validate_sfu_access g connection u d)) [
        | inl allowed ↦ rw allowed (answer_operation-Keeps (env.media.operate op d) g v)
        | inr denied ↦ rw denied v
      ]

  answer_produce-Keeps : (o : Option SfuProducer) → Keeps (answer_produce {D = D} env o)
  unfolding tell
  answer_produce-Keeps none g v = v
  answer_produce-Keeps (some p) g v = v

  pub sfu_produce-Keeps :
      (connection : GatewayConnection) (u : String) (d : Option MediaSessionDescriptor)
      → Keeps (handle_sfu_produce {D = D} env connection u d)
  unfolding handle_sfu_produce
  sfu_produce-Keeps connection u none g v = v
  sfu_produce-Keeps connection u (some d) g v =
      elim (Bool-cases (validate_sfu_access g connection u d)) [
        | inl allowed ↦ rw allowed (answer_produce-Keeps (env.media.produce d) g v)
        | inr denied ↦ rw denied v
      ]

  pub sfu_close-Keeps :
      (connection : GatewayConnection) (u : String) (d : Option MediaSessionDescriptor)
      → Keeps (handle_sfu_close {D = D} env connection u d)
  unfolding handle_sfu_close
  sfu_close-Keeps connection u none g v = v
  sfu_close-Keeps connection u (some d) g v =
      elim (Bool-cases (validate_sfu_access g connection u d)) [
        | inl allowed ↦ rw allowed (
            quiet-Sound (close_sfu_session env (session_of_descriptor d))
              (close_sfu_session-IsQuiet env (session_of_descriptor d)) g v)
        | inr denied ↦ rw denied v
      ]
