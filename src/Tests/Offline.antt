-- ===== src/Tests/Offline.antt =====
-- User 1 connects while a message of user 2 waits.
use im_system.Common.{Text, ◌≡◌, refl, arith, ok, [], ◌∷◌, ◌++◌, inl, Among, List}
use im_system.Services.Packed.{packed, pack, collect_fields}
use im_system.Repository.Members.{get_unread_conversation_msg_by_user_id}
use im_system.Ws.Offline.{Conn, IsConn, deliver_unread_msg}
use im_system.Ws.Offline.Delivered.{
  notice_of, InOrder, bodies, deliver_unread_msg-InOrder, unread_arrives,
}
use im_system.Tests.Fixture.{demo, demo-IsLawful, store, member_row, conv_row, message_row}

abbrev pub socket : Conn
socket = record { State = List Text; written = λ w. w; write = λ body w. (ok tt, w ++ body ∷ []) }

pub socket-IsConn : IsConn socket
socket-IsConn = record {
  write_ok = λ body w w' e. ground (arith, e);
  write_err = λ body x w w' e. absurd (ground (arith, e));
}

abbrev waiting_text : Text
waiting_text = pack (collect_fields (notice_of (message_row 1 1 2)))

one_waiting : get_unread_conversation_msg_by_user_id demo 1 store ≡ ok (message_row 1 1 2 ∷ [])
unfolding get_unread_conversation_msg_by_user_id
one_waiting = refl

deliver_unread_msg-InOrder_example :
    InOrder demo socket
      (bodies demo socket (message_row 1 1 2 ∷ []))
      []
      (deliver_unread_msg demo socket 1 store [])
deliver_unread_msg-InOrder_example =
    deliver_unread_msg-InOrder demo socket socket-IsConn 1 store [] (message_row 1 1 2 ∷ [])
      one_waiting

unread_arrives_example : Among waiting_text (deliver_unread_msg demo socket 1 store [])
unfolding packed get_unread_conversation_msg_by_user_id
unread_arrives_example =
    unread_arrives demo socket socket-IsConn demo-IsLawful 1 (message_row 1 1 2) (conv_row 1)
      (member_row 1 1 1) waiting_text store [] refl (λ text v. refl) (inl refl) (inl refl)
      (inl refl) refl refl refl (omega arith) refl
