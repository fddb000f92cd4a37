-- ===== src/Ws/Client/Pushed.antt =====
-- What a message that is routed puts into a send channel.
use im_system.Common.{ℕ, Text, ◌≡◌, refl, arith, some}
use im_system.Common.{length, ltb, Option-cases, Bool-cases, inl, inr, ◌⊎◌, ◌++◌, ◌∷◌, [], ◌∙◌}
use im_system.Common.Dict.{lookup, insert}
use im_system.Backend.{Backend}
use im_system.Ws.State.{send_buffer_size, ClientRef, Channel, Server}
use im_system.Ws.Manager.{get_client_by_user_id, deliver_total_msg, publish_forward_msg, push_to}
use im_system.Ws.Client.{deliver_elsewhere, deliver_here, route}

-- Between `srv` and `srv'` the channel of the client of user `to` got the text `body`.
pub record Pushed {B : Backend} (to : ℕ) (body : Text) (srv srv' : Server B) : Type 0 where
  pub target : ClientRef
  pub channel : Channel
  pub current : lookup to srv.clients ≡ some target
  pub found : lookup target.address srv.channels ≡ some channel
  pub pushed :
      srv'.channels
      ≡ insert target.address (record channel { buffer = channel.buffer ++ body ∷ [] }) srv.channels

abbrev pub PushedOnly : {B : Backend} → ℕ → Text → Server B → Server B → Type 0
PushedOnly to body srv srv' = Pushed to body srv srv' × (srv'.store ≡ srv.store)

module _ {B : Backend} where
  push_to-Pushed :
      (to : ℕ) (target : ClientRef) (ch : Channel) (body : Text) (srv : Server B)
      → lookup to srv.clients ≡ some target
      → lookup target.address srv.channels ≡ some ch
      → ((push_to target body ch srv).1.channels ≡ srv.channels)
        ⊎ PushedOnly to body srv (push_to target body ch srv).1
  push_to-Pushed to target ch body srv e f = elim (Bool-cases ch.closed) [
    | inl closed ↦ inl (rw closed refl)
    | inr live ↦ elim (Bool-cases (ltb (length ch.buffer) send_buffer_size)) [
      | inl room ↦ inr (
        record {
          target = target;
          channel = ch;
          current = e;
          found = f;
          pushed = ground (arith, live, room);
        },
        ground (arith, live, room),
      )
      | inr full ↦ inl (ground (arith, live, full))
    ]
  ]

  deliver_total_msg-Pushed :
      (to : ℕ) (target : ClientRef) (body : Text) (srv : Server B)
      → lookup to srv.clients ≡ some target
      → ((deliver_total_msg target body srv).1.channels ≡ srv.channels)
        ⊎ PushedOnly to body srv (deliver_total_msg target body srv).1
  unfolding deliver_total_msg
  deliver_total_msg-Pushed to target body srv e =
      elim (Option-cases (lookup target.address srv.channels)) [
        | inl gone ↦ inl (rw (gone, deliver_total_msg) refl)
        | inr (ch, found) ↦
            rw (found, deliver_total_msg) (push_to-Pushed to target ch body srv e found)
      ]

  deliver_here-same :
      (target : ClientRef) (body : Text) (srv : Server B)
      → ((deliver_here target body srv).1.channels ≡ (deliver_total_msg target body srv).1.channels)
        × ((deliver_here target body srv).1.store ≡ (deliver_total_msg target body srv).1.store)
  unfolding deliver_here
  deliver_here-same target body srv = ground arith

  deliver_here-Pushed :
      (to : ℕ) (target : ClientRef) (body : Text) (srv : Server B)
      → lookup to srv.clients ≡ some target
      → ((deliver_here target body srv).1.channels ≡ srv.channels)
        ⊎ PushedOnly to body srv (deliver_here target body srv).1
  deliver_here-Pushed to target body srv e =
      let (channels, store) = deliver_here-same target body srv in
      elim (deliver_total_msg-Pushed to target body srv e) [
        | inl same ↦ inl (channels ∙ same)
        | inr (p, kept) ↦ inr (
          record {
            target = p.target;
            channel = p.channel;
            current = p.current;
            found = p.found;
            pushed = channels ∙ p.pushed;
          },
          store ∙ kept,
        )
      ]

  deliver_elsewhere-channels :
      (to : ℕ) (body : Text) (srv : Server B)
      → (deliver_elsewhere to body srv).1.channels ≡ srv.channels
  unfolding deliver_elsewhere publish_forward_msg
  deliver_elsewhere-channels to body srv = ground arith

  pub route-Pushed :
      (to : ℕ) (body : Text) (srv : Server B)
      → ((route to body srv).1.channels ≡ srv.channels)
        ⊎ PushedOnly to body srv (route to body srv).1
  unfolding route get_client_by_user_id
  route-Pushed to body srv = elim (Option-cases (lookup to srv.clients)) [
    | inl gone ↦ inl (rw (gone, route) (deliver_elsewhere-channels to body srv))
    | inr (target, found) ↦ rw (found, route) (deliver_here-Pushed to target body srv found)
  ]
