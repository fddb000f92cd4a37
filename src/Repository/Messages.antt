-- ===== src/Repository/Messages.antt =====
-- internal/repository/message.go
use im_system.Common.{text_eq, Result, ok, err, is_duplicated_key, if◌then◌else◌}
use im_system.Model.{Message}
use im_system.Backend.{Backend, Store}

module _ (B : Backend) where
  -- A message with the same client id is read back in place of the new one.
  abbrev pub create_or_existing : Message → B.messages.State → Result Message → Result Message
  create_or_existing msg ms (ok stored) = ok stored
  create_or_existing msg ms (err e) =
      if is_duplicated_key e
      then B.messages.first (λ m. text_eq m.client_msg_id msg.client_msg_id) ms
      else err e

  unfoldable pub create_message : Message → Store B → Result Message × Store B
  create_message msg st =
      let (r, ms) = B.messages.create msg st.messages in
      (create_or_existing msg ms r, record st { messages = ms })
