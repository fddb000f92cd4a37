-- ===== src/Ws/System/Quiet.antt =====
-- The steps that leave the map of clients and the open channels alone.
use im_system.Common.{ℕ, Text, ◌≡◌, refl, arith, List, [], ◌∷◌, inl, inr}
use im_system.Common.{Option-cases, Result-cases, some}
use im_system.Common.Dict.{lookup, lookup-insert}
use im_system.Backend.{Backend}
use im_system.Router.{handler_forward_msg, count_received}
use im_system.Ws.State.{ClientRef, Channel, Server, Metrics, status, accounted}
use im_system.Ws.Manager.{close_all, deliver_total_msg, deliver_total_msg_by_user_id}
use im_system.Ws.Client.Frame.{Keeps, deliver_total_msg-Keeps}
use im_system.Ws.System.{write_out, rest_of}

abbrev pub Counts : Metrics → Type 0
Counts m = (accounted m ≡ m.persisted_success) × (m.delivered_cross_instance ≡ m.forward_published)

module _ {B : Backend} where
  rest_of-Keeps :
      (a : ℕ) (c : ClientRef) (ch : Channel) (buffer : List Text) (srv : Server B)
      → lookup c.address srv.channels ≡ some ch
      → Keeps a srv (rest_of c ch buffer srv)
  unfolding status
  rest_of-Keeps a c ch [] srv e = (refl, refl, refl, refl, refl)
  rest_of-Keeps a c ch (msg ∷ rest) srv e =
      ground (arith, e, lookup-insert c.address a (record ch { buffer = rest }) srv.channels)

  rest_of-metrics :
      (c : ClientRef) (ch : Channel) (buffer : List Text) (srv : Server B)
      → (rest_of c ch buffer srv).metrics ≡ srv.metrics
  rest_of-metrics c ch [] srv = refl
  rest_of-metrics c ch (msg ∷ rest) srv = refl

  pub write_out-Keeps : (a : ℕ) (c : ClientRef) (srv : Server B) → Keeps a srv (write_out c srv)
  unfolding write_out
  write_out-Keeps a c srv = elim (Option-cases (lookup c.address srv.channels)) [
    | inl gone ↦ rw (gone, write_out) (refl, refl, refl, refl, refl)
    | inr (ch, found) ↦ rw (found, write_out) (rest_of-Keeps a c ch ch.buffer srv found)
  ]

  pub write_out-Counts :
      (c : ClientRef) (srv : Server B) → Counts srv.metrics → Counts (write_out c srv).metrics
  unfolding write_out
  write_out-Counts c srv v = elim (Option-cases (lookup c.address srv.channels)) [
    | inl gone ↦ rw (gone, write_out) v
    | inr (ch, found) ↦ rw (found, write_out) (rw rest_of-metrics v)
  ]

  deliver_by_id-Keeps :
      (a user_id : ℕ) (msg : Text) (srv : Server B)
      → Keeps a srv (deliver_total_msg_by_user_id user_id msg srv).1
  unfolding deliver_total_msg_by_user_id
  deliver_by_id-Keeps a user_id msg srv = elim (Option-cases (lookup user_id srv.clients)) [
    | inl gone ↦ rw (gone, deliver_total_msg_by_user_id) (refl, refl, refl, refl, refl)
    | inr (c, found) ↦
        rw (found, deliver_total_msg_by_user_id) (deliver_total_msg-Keeps a c msg srv)
  ]

  deliver_by_id-metrics :
      (user_id : ℕ) (msg : Text) (srv : Server B)
      → (deliver_total_msg_by_user_id user_id msg srv).1.metrics ≡ srv.metrics
  unfolding deliver_total_msg_by_user_id deliver_total_msg
  deliver_by_id-metrics user_id msg srv = ground arith

  pub handler_forward_msg-Keeps :
      (a : ℕ) (raw : Text) (srv : Server B) → Keeps a srv (handler_forward_msg raw srv).1
  unfolding handler_forward_msg status
  handler_forward_msg-Keeps a raw srv = elim (Result-cases (B.forward_codec.unmarshal raw)) [
    | inl (msg, e) ↦ ground (
      arith,
      e,
      deliver_by_id-Keeps a msg.target_user_id msg.payload
          (record srv { metrics = count_received srv.metrics }),
    )
    | inr (x, e) ↦ ground (arith, e)
  ]

  pub handler_forward_msg-Counts :
      (raw : Text) (srv : Server B)
      → Counts srv.metrics
      → Counts (handler_forward_msg raw srv).1.metrics
  unfolding handler_forward_msg
  handler_forward_msg-Counts raw srv v = elim (Result-cases (B.forward_codec.unmarshal raw)) [
    | inl (msg, e) ↦ ground (
      arith,
      e,
      deliver_by_id-metrics msg.target_user_id msg.payload
          (record srv { metrics = count_received srv.metrics }),
    )
    | inr (x, e) ↦ ground (arith, e)
  ]

  pub close_all-Keeps : (a : ℕ) (srv : Server B) → Keeps a srv (close_all srv)
  unfolding close_all status
  close_all-Keeps a srv = ground arith

  pub close_all-Counts : (srv : Server B) → Counts srv.metrics → Counts (close_all srv).metrics
  unfolding close_all
  close_all-Counts srv v = ground arith
