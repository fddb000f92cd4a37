-- ===== src/Services/Packed.antt =====
-- A codec in memory: the fields of a record as texts, each ended by 0. It stands in for JSON in
-- concrete runs, and shows that a codec can round-trip.
use im_system.Common.{
  ℕ, zero, suc, ◌≡◌, refl, sym, ap, ◌∙◌, arith, Text, List, [], ◌∷◌, Result, ok, err, external,
}
use im_system.Model.{MqMessage}
use im_system.Wire.{ClientMessage, ChatMsgPayload, AckMsgPayload, CollectMessage, ForwardMessage}
use im_system.Services.{Codec}

pack_text : Text → Text → Text
pack_text [] rest = 0 ∷ rest
pack_text (b ∷ t) rest = suc b ∷ pack_text t rest

pub pack : List Text → Text
unfolding pack_text
pack [] = []
pack (t ∷ ts) = pack_text t (pack ts)

add_front : ℕ → List Text → List Text
add_front b [] = (b ∷ []) ∷ []
add_front b (t ∷ ts) = (b ∷ t) ∷ ts

pub unpack : Text → List Text
unfolding add_front
unpack [] = []
unpack (zero ∷ s) = [] ∷ unpack s
unpack (suc b ∷ s) = add_front b (unpack s)

unpack-pack_text : (t rest : Text) → unpack (pack_text t rest) ≡ t ∷ unpack rest
unfolding unpack pack_text
unpack-pack_text [] rest = refl
unpack-pack_text (b ∷ t) rest = ap (add_front b) (unpack-pack_text t rest)

pub unpack-pack : (ts : List Text) → unpack (pack ts) ≡ ts
unfolding pack
unpack-pack [] = unfold unpack in refl
unpack-pack (t ∷ ts) = unpack-pack_text t (pack ts) ∙ ap (◌∷◌ t) (unpack-pack ts)

-- A codec from the fields of a record.
unfoldable pub packed : {A : Type 0} → (A → List Text) → (List Text → Result A) → Codec A
unfolding pack unpack
packed to from = record { marshal = λ a. ok (pack (to a)); unmarshal = λ s. from (unpack s) }

codec_round_trip :
    {A : Type 0} (to : A → List Text) (from : List Text → Result A) (a : A) (s : Text)
    → from (to a) ≡ ok a
    → pack (to a) ≡ s
    → from (unpack s) ≡ ok a
codec_round_trip to from a s h e =
    ap (λ x. from (unpack x)) (sym e) ∙ ap from (unpack-pack (to a)) ∙ h

pub packed_round_trip :
    {A : Type 0} (to : A → List Text) (from : List Text → Result A) (a : A) (s : Text)
    → from (to a) ≡ ok a
    → (packed to from).marshal a ≡ ok s
    → (packed to from).unmarshal s ≡ ok a
unfolding packed
packed_round_trip to from a s h e = codec_round_trip to from a s h (ground (arith, e))

abbrev num : ℕ → Text
num n = n ∷ []

abbrev broken {ℓ} : {A : Type ℓ} → Result A
broken = err (external 1)

abbrev pub client_fields : ClientMessage → List Text
client_fields m = m.action ∷ m.payload ∷ []

abbrev pub client_of : List Text → Result ClientMessage
client_of (a ∷ p ∷ []) = ok (record { action = a; payload = p })
client_of _ = broken

abbrev pub chat_fields : ChatMsgPayload → List Text
chat_fields m = m.client_msg_id ∷ num m.to_user_id ∷ m.content ∷ []

abbrev pub chat_of : List Text → Result ChatMsgPayload
chat_of (i ∷ (n ∷ []) ∷ c ∷ []) = ok (record { client_msg_id = i; to_user_id = n; content = c })
chat_of _ = broken

abbrev pub ack_fields : AckMsgPayload → List Text
ack_fields m = num m.server_msg_id ∷ num m.conv_id ∷ []

abbrev pub ack_of : List Text → Result AckMsgPayload
ack_of ((i ∷ []) ∷ (c ∷ []) ∷ []) = ok (record { server_msg_id = i; conv_id = c })
ack_of _ = broken

abbrev pub collect_fields : CollectMessage → List Text
collect_fields m =
    num m.sender_id ∷ num m.conversation_id ∷ m.content ∷ num m.msg_id ∷ m.client_msg_id ∷ []

abbrev pub collect_of : List Text → Result CollectMessage
collect_of ((s ∷ []) ∷ (k ∷ []) ∷ c ∷ (i ∷ []) ∷ cid ∷ []) =
    ok (record { sender_id = s; conversation_id = k; content = c; msg_id = i; client_msg_id = cid })
collect_of _ = broken

abbrev pub forward_fields : ForwardMessage → List Text
forward_fields m = num m.target_user_id ∷ m.target_node_id ∷ m.payload ∷ []

abbrev pub forward_of : List Text → Result ForwardMessage
forward_of ((u ∷ []) ∷ n ∷ p ∷ []) =
    ok (record { target_user_id = u; target_node_id = n; payload = p })
forward_of _ = broken

abbrev pub mq_fields : MqMessage → List Text
mq_fields m =
    (m.conv_id ∷ s.id ∷ s.conversation_id ∷ s.sender_id ∷ s.msg_type ∷ s.status ∷ s.created_at ∷ [])
    ∷ s.content
    ∷ s.client_msg_id
    ∷ []
  where
    open m use {send_msg as s}

abbrev pub mq_of : List Text → Result MqMessage
mq_of ((k ∷ i ∷ c ∷ u ∷ t ∷ st ∷ at ∷ []) ∷ text ∷ cid ∷ []) = ok (record {
  conv_id = k;
  send_msg = record {
    id = i;
    conversation_id = c;
    sender_id = u;
    msg_type = t;
    content = text;
    client_msg_id = cid;
    status = st;
    created_at = at;
  };
})
mq_of _ = broken
