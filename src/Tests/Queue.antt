-- ===== src/Tests/Queue.antt =====
-- Messages on their way to the conversation table.
use im_system.Common.{ℕ, Text}
use im_system.Model.{MqMessage}
use im_system.Services.Packed.{pack, mq_fields}
use im_system.Tests.Fixture.{message_row}

abbrev note : ℕ → MqMessage
note i = record { conv_id = 1; send_msg = message_row i 1 2 }

abbrev body : ℕ → Text
body i = pack (mq_fields (note i))
