-- ===== src/Tests/Loops.antt =====
-- A client that sends a message and a pong and goes, and the preparation of two users.
use im_system.Common.{◌≡◌, refl, [], ◌∷◌, bytes}
use im_system.Common.Dict.{lookup, insert}
use im_system.Router.{publish_forward}
use im_system.Ws.State.{status}
use im_system.Ws.Manager.{register}
use im_system.Ws.System.{Reach, connect}
use im_system.Ws.System.Invariant.{Inv, Reach-Inv}
use im_system.Ws.System.Safety.{started-Inv}
use im_system.Ws.Loops.{message, pong, returned, listen_msg}
use im_system.Ws.Loops.Ended.{HasLeft, listen_msg_ends}
use im_system.Tests.Chat.{demo-Marshals, ann, both, frame, both-Reach}
use im_system.Tests.Fixture.{store}

both-Inv : Inv both
both-Inv = Reach-Inv demo-Marshals both-Reach (started-Inv store (bytes "a:1") publish_forward)

listen_msg_ends_example :
    ((listen_msg ann (message 7 frame ∷ pong ∷ []) both).0 ≡ returned)
    × Reach both (listen_msg ann (message 7 frame ∷ pong ∷ []) both).1
    × HasLeft ann (listen_msg ann (message 7 frame ∷ pong ∷ []) both).1
unfolding connect register status lookup insert
listen_msg_ends_example =
    listen_msg_ends demo-Marshals ann (message 7 frame ∷ pong ∷ []) both both-Inv refl refl
